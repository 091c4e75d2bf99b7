-- ===== src/Api/Segments/TwoCycle.antt =====
-- `update` checks that the references of a rule are there, and not where they lead.
use mathlib.Core.Option.{some-injective}
use optio_ai_assignment.Prelude.{
  String, Bool, true, false, ◌||◌, ◌≡◌, sym, subst, ◌∙◌, some, List, filter, has, distinct, ◌==◌,
  eq_iff, arith, Bool-cases, inl, inr,
}
use optio_ai_assignment.Shared.Rule.{SegmentRule}
use optio_ai_assignment.Shared.Result.{Error, ok, err}
use optio_ai_assignment.Database.{dynamic, Segment, Tables}
use optio_ai_assignment.Database.Views.{is_dynamic, segment_ids, find_segment_row, replace_row}
use optio_ai_assignment.Database.Prisma.{Prisma}
use optio_ai_assignment.Segments.Metrics.{DecimalText}
use optio_ai_assignment.Segments.Evaluator.Meaning.{refers}
use optio_ai_assignment.Segments.Dependency.Edges.{ParentsExist}
use optio_ai_assignment.Segments.Order.Finding.{
  has-find, find_segment_row-filter, find_segment_row-keep,
}
use optio_ai_assignment.Segments.Rebuild.{Surroundings, rebuild_all_dynamic}
use optio_ai_assignment.Segments.Rebuild.Cycles.{IsCycle, rebuild_all_dynamic_cycle}
use optio_ai_assignment.Shared.Json.{Json}
use optio_ai_assignment.Api.Rules.{validate_rule}
use optio_ai_assignment.Api.Segments.{SegmentDetail, update}
use optio_ai_assignment.Api.Segments.Updating.{
  rule_body, ids-replace_row, find-replace_row_same, find-replace_row_other, update-InSync,
}

abbrev is_either : Segment → Segment → String → Bool
is_either a b id = a.id == id || b.id == id

in_batch :
    (rows : List Segment) (a : Segment)
    → find_segment_row rows a.id ≡ some a
    → is_dynamic a ≡ true
    → has (segment_ids (filter is_dynamic rows)) a.id ≡ true
in_batch rows a found good =
    has-find (λ x. x.id == a.id) (filter is_dynamic rows) a
      (find_segment_row-keep is_dynamic rows a.id a found good)

two-IsCycle :
    (rows : List Segment) (a b : Segment)
    → distinct (segment_ids rows) ≡ true
    → find_segment_row rows a.id ≡ some a
    → find_segment_row rows b.id ≡ some b
    → is_dynamic a ≡ true
    → is_dynamic b ≡ true
    → refers a.rule b.id ≡ true
    → refers b.rule a.id ≡ true
    → IsCycle (is_either a b) (filter is_dynamic rows)
two-IsCycle rows a b d found_a found_b good_a good_b a_b b_a id s found inside =
    let (row, _) = find_segment_row-filter is_dynamic rows id s d found in
    elim (Bool-cases (a.id == id)) [
      | inl here ↦
          let e : a ≡ s = some-injective a s (sym found_a ∙ rw ((eq_iff a.id id).0 here) row) in
          (
            b.id,
            subst (λ x. refers x.rule b.id ≡ true) e a_b,
            in_batch rows b found_b good_b,
            ground (arith, eq_iff b.id b.id),
          )
      | inr other ↦
          let there : b.id ≡ id = ground (arith, eq_iff b.id id) in
          let e : b ≡ s = some-injective b s (sym found_b ∙ rw there row) in
          (
            a.id,
            subst (λ x. refers x.rule a.id ≡ true) e b_a,
            in_batch rows a found_a good_a,
            ground (arith, eq_iff a.id a.id),
          )
    ]

module _ ⦃prisma : Prisma⦄ ⦃text : DecimalText⦄ where
  -- If a dynamic segment refers to another dynamic one, a patch of the other's rule that refers back
  -- is accepted, and from then on the rebuild throws and evaluates no segment.
  pub update_accepts_cycle :
      (env env' : Surroundings) (input : Json) (rule : SegmentRule) (a b : Segment) (t : Tables)
      → distinct (segment_ids t.segments) ≡ true
      → find_segment_row t.segments a.id ≡ some a
      → find_segment_row t.segments b.id ≡ some b
      → (a.id == b.id) ≡ false
      → a.type ≡ dynamic
      → b.type ≡ dynamic
      → refers a.rule b.id ≡ true
      → validate_rule input ≡ ok rule
      → refers rule a.id ≡ true
      → refers rule b.id ≡ false
      → ParentsExist rule t
      → (d : SegmentDetail) × (t' : Tables) × (e : Error) × (update env b.id (rule_body input) t
          ≡ (ok d, t'))
        × (rebuild_all_dynamic env' t' ≡ (err e, t'))
  update_accepts_cycle env env' input rule a b t d found_a found_b apart type_a type_b a_b valid
        back other exist =
      let b' : Segment = record b { rule = rule } in
      let (shown, t', done, rows, _) =
        update-InSync env input rule b t found_b type_b valid other exist in
      let d' : distinct (segment_ids (replace_row b' t.segments)) ≡ true =
        rw (ids-replace_row b' t.segments) d in
      let found_b' : find_segment_row (replace_row b' t.segments) b'.id ≡ some b' =
        find-replace_row_same b' b t.segments found_b in
      let found_a' : find_segment_row (replace_row b' t.segments) a.id ≡ some a =
        find-replace_row_other b' t.segments a.id a apart found_a in
      let cyc : IsCycle (is_either a b') (filter is_dynamic t'.segments) = rw rows (
        two-IsCycle (replace_row b' t.segments) a b' d' found_a' found_b' (rw type_a) (rw type_b)
          a_b back) in
      let (e, failed) =
        rebuild_all_dynamic_cycle env' t' (is_either a b') a.id (rw rows d') cyc
          (rw rows (in_batch (replace_row b' t.segments) a found_a' (rw type_a)))
          (ground (arith, eq_iff a.id a.id)) in
      (shown, t', e, done, failed)
