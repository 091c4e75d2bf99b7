-- ===== src/Segments/Evaluation/Outage.antt =====
-- apps/api/src/segments/segment-evaluation.service.ts where a query or a transaction fails. The edges
-- are written in a transaction of their own, which stays when a later call throws.
pub mod Cases
use optio_ai_assignment.Prelude.{
  String, Bool, Option, none, some, Option-cases, Bool-cases, false, ◌≡◌, refl, sym, ◌∙◌, ◌⊎◌, [],
  is_empty, inl, inr, if◌then◌else◌,
}
use optio_ai_assignment.Prelude.Int.{ℤ}
use optio_ai_assignment.Shared.Result.{
  Error, Result-cases, ok, err, Exec, lift, gets, pure, throw, ◌>>=◌, ◌>>◌, not_found,
  static_segment,
}
use optio_ai_assignment.Database.{Segment, Tables}
use optio_ai_assignment.Database.Views.{find_segment_row}
use optio_ai_assignment.Database.Prisma.{Prisma}
use optio_ai_assignment.Segments.Metrics.{DecimalText, compute_all}
use optio_ai_assignment.Segments.Dependency.{collect_parent_ids, replace_dependencies}
use optio_ai_assignment.Segments.Dependency.Edges.{
  ParentsExist, replaced, replace_dependencies-ok, replace_dependencies_idem,
  replace_dependencies_cases,
}
use optio_ai_assignment.Segments.Evaluation.{
  EvaluationResult, evaluate_each, load_parent_memberships, apply_diff, is_refused, evaluate_found,
  evaluate_segment,
}
use optio_ai_assignment.Segments.Evaluation.Contract.{Evaluated, evaluate_segment-Evaluated}
use optio_ai_assignment.Segments.Evaluator.Meaning.{refers}

-- What each call of the database throws, `none` if it answers: the lookup of the segment, the
-- transaction of the edges, the query for metrics, that for the members of the parents, that for the
-- members of the segment, and the transaction of the changes.
pub record Outages : Type 0 where
  pub find : Option Error
  pub edges : Option Error
  pub metrics : Option Error
  pub parents : Option Error
  pub current : Option Error
  pub changes : Option Error

abbrev pub all_answer : Outages
all_answer = record {
  find = none;
  edges = none;
  metrics = none;
  parents = none;
  current = none;
  changes = none;
}

abbrev call : Option Error → Exec Tables (Unit {0})
call none = pure tt
call (some e) = throw e

-- a rule without references sends no query for the members of parents
abbrev pub parents_outage : Outages → Segment → Option Error
parents_outage f segment = if is_empty (collect_parent_ids segment.rule []) then none else f.parents

module _ ⦃prisma : Prisma⦄ ⦃text : DecimalText⦄ where
  -- the pass behind the edges
  unfoldable pub compute_failing : Outages → ℤ → String → Segment → Exec Tables EvaluationResult
  compute_failing f now batch_id segment = do
    call f.metrics
    all_metrics ← gets (compute_all now)
    call (parents_outage f segment)
    memberships ← gets (load_parent_memberships (collect_parent_ids segment.rule []))
    new_members ← lift (evaluate_each segment.rule memberships [] all_metrics)
    call f.current
    call f.changes
    apply_diff segment batch_id new_members

  unfoldable pub evaluate_found_failing :
      Outages → ℤ → String → Segment → Exec Tables EvaluationResult
  evaluate_found_failing f now batch_id segment =
      call f.edges
      >> replace_dependencies segment.id segment.rule
      >> compute_failing f now batch_id segment

  abbrev evaluate_row_failing :
      Outages → ℤ → String → Bool → String → Option Segment → Exec Tables EvaluationResult
  evaluate_row_failing f now batch_id force id none = throw (not_found id)
  evaluate_row_failing f now batch_id force id (some segment) =
      if is_refused segment force
      then throw (static_segment segment.name)
      else evaluate_found_failing f now batch_id segment

  unfoldable pub evaluate_segment_failing :
      Outages → ℤ → String → String → Bool → Exec Tables EvaluationResult
  evaluate_segment_failing f now batch_id segment_id force t =
      (call f.find >> λ u.
      evaluate_row_failing f now batch_id force segment_id (prisma.find_segment u segment_id) u)
        t

  -- The tables with the edges of the segment's rule, and nothing else changed.
  abbrev pub rewired : Segment → Tables → Tables
  rewired s t = record t { dependencies = replaced s.id s.rule t.dependencies }
