-- ===== src/Segments/Evaluation/Pass.antt =====
-- A whole pass over one segment: `evaluateSegment`.
use optio_ai_assignment.Prelude.{
  String, Bool, true, false, not, ◌&&◌, ◌≡◌, refl, List, [], filter, length, has, arith,
  to_set_onto, has-to_set_onto, has-filter, distinct,
}
use optio_ai_assignment.Prelude.Int.{ℤ}
use optio_ai_assignment.Shared.Rule.{SegmentRule}
use optio_ai_assignment.Shared.Result.{ok}
use optio_ai_assignment.Database.{Segment, Tables}
use optio_ai_assignment.Database.Views.{members_of}
use optio_ai_assignment.Database.Prisma.{Prisma}
use optio_ai_assignment.Segments.Metrics.{DecimalText, compute_all}
use optio_ai_assignment.Segments.Evaluator.Meaning.{refers}
use optio_ai_assignment.Segments.Dependency.{collect_parent_ids}
use optio_ai_assignment.Segments.Dependency.Laws.{collect_parent_ids-refers}
use optio_ai_assignment.Segments.Dependency.Edges.{ParentsExist, replaced, replace_dependencies-ok}
use optio_ai_assignment.Segments.Evaluation.{
  EvaluationResult, load_parent_memberships, apply_diff, evaluate_found,
}
use optio_ai_assignment.Segments.Evaluation.Loading.{loaded-members}
use optio_ai_assignment.Segments.Evaluation.Members.{qualifies, evaluate_each-qualifies}
use optio_ai_assignment.Segments.Evaluation.Persist.{written, persist-writes}

-- Who is in which segment.
abbrev pub is_in : Tables → String → String → Bool
is_in t id c = has (members_of t.members id) c

abbrev pub added_of : List String → List String → List String
added_of current new = filter (λ id. not (has (to_set_onto [] current) id)) new

abbrev pub removed_of : List String → List String → List String
removed_of current new = filter (λ id. not (has new id)) (to_set_onto [] current)

pub has-added_of :
    (current new : List String) (c : String)
    → has (added_of current new) c ≡ (has new c && not (has current c))
unfolding has
has-added_of current new c = ground (
  arith,
  has-filter (λ id. not (has (to_set_onto [] current) id)) new c,
  has-to_set_onto [] current c,
)

pub has-removed_of :
    (current new : List String) (c : String)
    → has (removed_of current new) c ≡ (has current c && not (has new c))
unfolding has
has-removed_of current new c = ground (
  arith,
  has-filter (λ id. not (has new id)) (to_set_onto [] current) c,
  has-to_set_onto [] current c,
)

abbrev pub outcome : String → Segment → List String → Tables → EvaluationResult
outcome batch_id s new t = record {
  segment_id = s.id;
  segment_name = s.name;
  batch_id = batch_id;
  added = added_of (members_of t.members s.id) new;
  removed = removed_of (members_of t.members s.id) new;
  total_members = length new;
}

module _ ⦃text : DecimalText⦄ where
  -- The customers who satisfy the rule, by their metrics and memberships in these tables.
  abbrev pub satisfies : ℤ → Tables → SegmentRule → String → Bool
  satisfies now t rule c = qualifies rule (compute_all now t) (is_in t) c

module _ ⦃prisma : Prisma⦄ ⦃text : DecimalText⦄ where
  -- the tables after a pass that found the members `new`
  abbrev pub settled : String → Segment → List String → Tables → Tables
  settled batch_id s new t =
      written s.id s.name batch_id (added_of (members_of t.members s.id) new)
        (removed_of (members_of t.members s.id) new)
        (record t { dependencies = replaced s.id s.rule t.dependencies })

  pub evaluate_found-settled :
      (now : ℤ) (batch_id : String) (s : Segment) (t : Tables)
      → refers s.rule s.id ≡ false
      → ParentsExist s.rule t
      → (new : List String) × (evaluate_found now batch_id s t
          ≡ (ok (outcome batch_id s new t), settled batch_id s new t))
        × ((c : String) → has new c ≡ satisfies now t s.rule c)
        × (distinct new ≡ true)
  unfolding evaluate_found apply_diff compute_all has distinct
  evaluate_found-settled now batch_id s t no_self exist =
      let t' : Tables = record t { dependencies = replaced s.id s.rule t.dependencies } in
      let (new, done, same, d) =
        evaluate_each-qualifies s.rule (load_parent_memberships (collect_parent_ids s.rule []) t')
          (is_in t') [] (compute_all now t')
          (λ c p r.
            loaded-members (collect_parent_ids s.rule []) t' p c
              (ground (arith, (collect_parent_ids-refers s.rule).0 p)))
          refl in
      (
        new,
        rw (
          replace_dependencies-ok s.id s.rule t no_self exist,
          done,
          prisma.find_members_lem t' s.id,
          persist-writes,
        ),
        (λ c. same c),
        d,
      )
