-- ===== src/Api/Segments/Updating.antt =====
-- What `update` does with a new rule of a dynamic segment.
use optio_ai_assignment.Prelude.{
  String, true, false, ◌≡◌, refl, sym, subst, none, some, List, [], ◌∷◌, ◌==◌, eq_iff, arith,
}
use optio_ai_assignment.Shared.Rule.{SegmentRule}
use optio_ai_assignment.Shared.Result.{ok}
use optio_ai_assignment.Database.{dynamic, Segment, Tables}
use optio_ai_assignment.Database.Views.{segment_ids, find_segment_row, replace_row}
use optio_ai_assignment.Database.Prisma.{Prisma}
use optio_ai_assignment.Segments.Metrics.{DecimalText}
use optio_ai_assignment.Segments.Evaluator.Meaning.{refers}
use optio_ai_assignment.Segments.Dependency.Edges.{ParentsExist}
use optio_ai_assignment.Segments.Evaluation.Contract.{evaluate_segment-Evaluated}
use optio_ai_assignment.Segments.Evaluation.Sync.{InSync, Evaluated-InSync}
use optio_ai_assignment.Segments.Rebuild.{Surroundings}
use optio_ai_assignment.Shared.Json.{Json}
use optio_ai_assignment.Api.Rules.{validate_rule}
use optio_ai_assignment.Api.Segments.{
  UpdateSegmentBody, SegmentDetail, detail_of, update_row, update,
}
use optio_ai_assignment.Api.Segments.References.{assert_rule_references-ok}
use optio_ai_assignment.Api.Segments.Creating.{detail-found}

pub ids-replace_row :
    (s : Segment) (rows : List Segment) → segment_ids (replace_row s rows) ≡ segment_ids rows
unfolding replace_row
ids-replace_row s [] = refl
ids-replace_row s (u ∷ rows) = ground (arith, ids-replace_row s rows, eq_iff u.id s.id)

pub find-replace_row_same :
    (s u : Segment) (rows : List Segment)
    → find_segment_row rows s.id ≡ some u
    → find_segment_row (replace_row s rows) s.id ≡ some s
unfolding replace_row
find-replace_row_same s u [] h = absurd (ground arith)
find-replace_row_same s u (v ∷ rows) h =
    ground (arith, find-replace_row_same s u rows, eq_iff v.id s.id, eq_iff s.id s.id)

pub find-replace_row_other :
    (s : Segment) (rows : List Segment) (id : String) (u : Segment)
    → (id == s.id) ≡ false
    → find_segment_row rows id ≡ some u
    → find_segment_row (replace_row s rows) id ≡ some u
unfolding replace_row
find-replace_row_other s [] id u other h = absurd (ground arith)
find-replace_row_other s (v ∷ rows) id u other h = ground (
  arith,
  find-replace_row_other s rows id u,
  eq_iff v.id s.id,
  eq_iff v.id id,
  eq_iff s.id id,
  eq_iff id s.id,
)

-- The body that gives only a rule.
abbrev pub rule_body : Json → UpdateSegmentBody
rule_body input = record { name = none; description = none; rule = some input }

module _ ⦃prisma : Prisma⦄ ⦃text : DecimalText⦄ where
  -- A valid rule for a dynamic segment whose references are there, and which does not refer to the
  -- segment itself, is accepted: the segment's row gets the rule, the ids stay, and after the call
  -- the segment has exactly the members that satisfy the new rule.
  pub update-InSync :
      (env : Surroundings) (input : Json) (rule : SegmentRule) (existing : Segment) (t : Tables)
      → find_segment_row t.segments existing.id ≡ some existing
      → existing.type ≡ dynamic
      → validate_rule input ≡ ok rule
      → refers rule existing.id ≡ false
      → ParentsExist rule t
      → (d : SegmentDetail) × (t' : Tables) × (update env existing.id (rule_body input) t
          ≡ (ok d, t'))
        × (t'.segments ≡ replace_row (record existing { rule = rule }) t.segments)
        × InSync (env.now existing.id) t' (record existing { rule = rule })
  unfolding update
  update-InSync env input rule existing t found typed valid other exist =
      let s : Segment = record existing { type = dynamic; rule = rule } in
      let t1 : Tables = record t { segments = replace_row s t.segments } in
      let found1 = find-replace_row_same s existing t.segments found in
      let (r, t2, ran, meets, _) =
        evaluate_segment-Evaluated (env.now s.id) (env.batch_id s.id) s.id false s t1 found1 refl
          other (λ p q. rw (ids-replace_row s t.segments) (exist p q)) in
      (
        detail_of s t2,
        t2,
        rw
            (
              prisma.find_segment_lem t existing.id,
              found,
              valid,
              assert_rule_references-ok rule (some existing.id) t other exist,
            )
            (subst
              (λ k.
                update_row env true (record existing { type = k; rule = rule }) t
                ≡ (ok (detail_of s t2), t2))
              (sym typed)
              (unfold update_row in
                rw (prisma.update_segment_lem s t, ran)
                  (detail-found t2 s.id s (rw meets.segments found1)))),
        subst
            (λ k. t2.segments ≡ replace_row (record existing { type = k; rule = rule }) t.segments)
            (sym typed) meets.segments,
        Evaluated-InSync meets other,
      )
