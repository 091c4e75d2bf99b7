-- ===== src/Api/Segments/Creating.antt =====
-- What `create` does with a valid body of a dynamic segment.
use optio_ai_assignment.Prelude.{
  String, true, false, ◌≡◌, refl, none, some, List, [], ◌∷◌, ◌++◌, find, has, ◌==◌, eq_iff, arith,
  Bool-cases, inl, inr,
}
use optio_ai_assignment.Shared.Rule.{SegmentRule}
use optio_ai_assignment.Shared.Result.{ok}
use optio_ai_assignment.Database.{dynamic, Segment, Tables}
use optio_ai_assignment.Database.Views.{segment_ids, find_segment_row}
use optio_ai_assignment.Database.Prisma.{Prisma}
use optio_ai_assignment.Segments.Metrics.{DecimalText}
use optio_ai_assignment.Segments.Evaluator.Meaning.{refers}
use optio_ai_assignment.Segments.Dependency.Edges.{ParentsExist}
use optio_ai_assignment.Segments.Evaluation.Contract.{evaluate_segment-Evaluated}
use optio_ai_assignment.Segments.Evaluation.Sync.{InSync, Evaluated-InSync}
use optio_ai_assignment.Segments.Rebuild.{Surroundings}
use optio_ai_assignment.Api.Rules.{validate_rule}
use optio_ai_assignment.Api.Segments.{
  CreateSegmentBody, SegmentDetail, detail_of, detail, create_row, create,
}
use optio_ai_assignment.Api.Segments.References.{assert_rule_references-ok}

pub find-fresh :
    (rows : List Segment) (s : Segment)
    → has (segment_ids rows) s.id ≡ false
    → find_segment_row (rows ++ s ∷ []) s.id ≡ some s
unfolding has
find-fresh [] s fresh = rw ((eq_iff s.id s.id).1 refl)
find-fresh (u ∷ rows) s fresh = ground (arith, find-fresh rows s)

pub has-ids-append :
    (rows : List Segment) (s : Segment) (p : String)
    → has (segment_ids rows) p ≡ true
    → has (segment_ids (rows ++ s ∷ [])) p ≡ true
unfolding has
has-ids-append [] s p h = absurd (ground arith)
has-ids-append (u ∷ rows) s p h = ground (arith, has-ids-append rows s p)

module _ ⦃prisma : Prisma⦄ ⦃text : DecimalText⦄ where
  pub detail-found :
      (t : Tables) (id : String) (s : Segment)
      → find_segment_row t.segments id ≡ some s
      → detail id t ≡ (ok (detail_of s t), t)
  unfolding detail
  detail-found t id s found = rw (prisma.find_segment_lem t id, found)

  -- The row of a dynamic segment under a fresh id is created and evaluated.
  create_row-InSync :
      (env : Surroundings) (initial : List String) (row : Segment) (t : Tables)
      → has (segment_ids t.segments) row.id ≡ false
      → ParentsExist row.rule t
      → (d : SegmentDetail) × (t' : Tables) × (create_row env initial
            (record row { type = dynamic })
            t
          ≡ (ok d, t'))
        × (d.id ≡ row.id)
        × (t'.segments ≡ t.segments ++ record row { type = dynamic } ∷ [])
        × InSync (env.now row.id) t' (record row { type = dynamic })
  unfolding create_row
  create_row-InSync env initial row t fresh exist =
      let s : Segment = record row { type = dynamic } in
      let t1 : Tables = record t { segments = t.segments ++ s ∷ [] } in
      let found = find-fresh t.segments s fresh in
      let no_self : refers s.rule s.id ≡ false = elim (Bool-cases (refers s.rule s.id)) [
        | inr other ↦ other
        | inl self ↦ absurd (ground (arith, exist s.id self))
      ] in
      let (r, t2, ran, meets, _) =
        evaluate_segment-Evaluated (env.now s.id) (env.batch_id s.id) s.id false s t1 found refl
          no_self (λ p q. has-ids-append t.segments s p (exist p q)) in
      (
        detail_of s t2,
        t2,
        rw (prisma.create_segment_lem s t, ran) (detail-found t2 s.id s (rw meets.segments found)),
        refl,
        meets.segments,
        Evaluated-InSync meets no_self,
      )

  -- A body with a name that is not empty and not taken, the dynamic type, and a valid rule whose
  -- references are there, is accepted, if the database gives a fresh id: the one new row has it, and after the call
  -- the segment has exactly the members that satisfy its rule.
  pub create-InSync :
      (env : Surroundings) (body : CreateSegmentBody) (name : String) (rule : SegmentRule)
      (t : Tables)
      → body.name ≡ some name
      → (name == "") ≡ false
      → body.type ≡ some dynamic
      → validate_rule body.rule ≡ ok rule
      → ParentsExist rule t
      → find (λ s. s.name == name) t.segments ≡ none
      → has (segment_ids t.segments) (prisma.new_segment_id t) ≡ false
      → (s : Segment) × (d : SegmentDetail) × (t' : Tables) × (create env body t ≡ (ok d, t'))
        × (d.id ≡ s.id)
        × (has (segment_ids t.segments) s.id ≡ false)
        × (s.name ≡ name)
        × (s.rule ≡ rule)
        × (t'.segments ≡ t.segments ++ s ∷ [])
        × InSync (env.now s.id) t' s
  unfolding create
  create-InSync env body name rule t named nonempty typed valid exist free fresh =
      let s : Segment = record {
        id = prisma.new_segment_id t;
        name = name;
        description = body.description;
        type = dynamic;
        rule = rule;
      } in
      let (d, t', done, same, rows, sync) =
        create_row-InSync env body.initial_member_ids s t fresh exist in
      (
        s,
        d,
        t',
        rw
            (
              named,
              nonempty,
              typed,
              valid,
              assert_rule_references-ok rule none t refl exist,
              prisma.find_by_name_lem t name,
              free,
            )
            done,
        same,
        fresh,
        refl,
        refl,
        rows,
        sync,
      )
