-- ===== src/System/Endpoints.antt =====
-- The endpoints that change segments keep the tables sound.
use optio_ai_assignment.Prelude.{
  all, String, Bool, true, false, ◌≡◌, refl, sym, subst, some, List, [], ◌∷◌, ◌++◌, has, is_empty,
  arith, Bool-cases, inl, inr,
}
use optio_ai_assignment.Database.{Segment, Tables, SegmentType, dynamic, static}
use optio_ai_assignment.Database.Views.{
  customer_ids, is_dynamic, segment_ids, find_segment_row, replace_row,
}
use optio_ai_assignment.Database.Prisma.{Prisma}
use optio_ai_assignment.Segments.Metrics.{DecimalText}
use optio_ai_assignment.Segments.Evaluator.Meaning.{refers}
use optio_ai_assignment.Segments.Dependency.Edges.{ParentsExist}
use optio_ai_assignment.Segments.Evaluation.Contract.{evaluate_segment-Evaluated}
use optio_ai_assignment.Segments.Rebuild.{Surroundings}
use optio_ai_assignment.Api.Segments.{
  CreateSegmentBody, UpdateSegmentBody, is_some, create_row, create, update_row, update, remove,
}
use optio_ai_assignment.Api.Segments.Cases.{detail-tables, create-cases, update-cases, remove-cases}
use optio_ai_assignment.Api.Segments.Creating.{find-fresh, has-ids-append}
use optio_ai_assignment.Api.Segments.Updating.{ids-replace_row, find-replace_row_same}
use optio_ai_assignment.System.Soundness.{IsSound, IsSoundBut-congr, Evaluated-IsSound}
use optio_ai_assignment.System.Edits.{
  IsSound-appended, IsSound-replaced, IsSoundBut-static, IsSound-deleted, IsSound-renamed,
}

module _ ⦃prisma : Prisma⦄ ⦃text : DecimalText⦄ where
  -- A fresh id cannot be referred to by a rule whose references are there.
  fresh_no_self :
      (s : Segment) (t : Tables)
      → has (segment_ids t.segments) s.id ≡ false
      → ParentsExist s.rule t
      → refers s.rule s.id ≡ false
  fresh_no_self s t fresh exist = elim (Bool-cases (refers s.rule s.id)) [
    | inr other ↦ other
    | inl self ↦ absurd (ground (arith, exist s.id self))
  ]

  create_dynamic-IsSound :
      (env : Surroundings) (initial : List String) (row : Segment) (t : Tables)
      → has (segment_ids t.segments) row.id ≡ false
      → ParentsExist row.rule t
      → IsSound t
      → IsSound (create_row env initial (record row { type = dynamic }) t).1
  unfolding create_row
  create_dynamic-IsSound env initial row t fresh exist h =
      let s : Segment = record row { type = dynamic } in
      let t1 : Tables = record t { segments = t.segments ++ s ∷ [] } in
      let found = find-fresh t.segments s fresh in
      let no_self = fresh_no_self s t fresh exist in
      let exist1 : ParentsExist s.rule t1 = λ p q. has-ids-append t.segments s p (exist p q) in
      let (r, t2, ran, meets, _) =
        evaluate_segment-Evaluated (env.now s.id) (env.batch_id s.id) s.id false s t1 found refl
          no_self exist1 in
      rw (prisma.create_segment_lem s t, ran, detail-tables s.id t2)
        (Evaluated-IsSound meets found no_self exist1 (IsSound-appended s t fresh h))

  create_static-IsSound :
      (env : Surroundings) (initial : List String) (row : Segment) (t : Tables)
      → has (segment_ids t.segments) row.id ≡ false
      → IsSound t
      → IsSound (create_row env initial (record row { type = static }) t).1
  unfolding create_row
  create_static-IsSound env initial row t fresh h =
      let s : Segment = record row { type = static } in
      let t1 : Tables = record t { segments = t.segments ++ s ∷ [] } in
      let sound : IsSound t1 =
        IsSoundBut-static s t1 (find-fresh t.segments s fresh) refl
          (IsSound-appended s t fresh h) in
      elim (Bool-cases (is_empty initial)) [
        | inl nobody_joins ↦
            rw (prisma.create_segment_lem s t, nobody_joins, detail-tables s.id t1) sound
        | inr somebody ↦ elim (Bool-cases (all (has (customer_ids t.customers)) initial)) [
          | inr stranger ↦ rw (prisma.create_segment_lem s t, somebody, stranger) sound
          | inl known ↦
              rw
                (
                  prisma.create_segment_lem s t,
                  somebody,
                  known,
                  detail-tables s.id (prisma.create_members s.id initial t1),
                  prisma.create_members_lem s.id initial t1,
                )
                (IsSoundBut-congr refl refl sound)
        ]
      ]

  create_row-IsSound :
      (env : Surroundings) (initial : List String) (row : Segment) (t : Tables) (type : SegmentType)
      → has (segment_ids t.segments) row.id ≡ false
      → ParentsExist row.rule t
      → IsSound t
      → IsSound (create_row env initial (record row { type = type }) t).1
  create_row-IsSound env initial row t dynamic fresh exist =
      create_dynamic-IsSound env initial row t fresh exist
  create_row-IsSound env initial row t static fresh exist =
      create_static-IsSound env initial row t fresh

  -- Whatever the body, and whether the call returns or throws, `create` keeps the tables sound, if the
  -- database gives a fresh id.
  pub create-IsSound :
      (env : Surroundings) (body : CreateSegmentBody) (t : Tables)
      → has (segment_ids t.segments) (prisma.new_segment_id t) ≡ false
      → IsSound t
      → IsSound (create env body t).1
  create-IsSound env body t fresh h = elim (create-cases env body t) [
    | inl (e, failed) ↦ rw failed h
    | inr (row, type, done, same, exist) ↦ rw done (
        create_row-IsSound env body.initial_member_ids row t type
          (subst (λ x. has (segment_ids t.segments) x ≡ false) (sym same) fresh) exist h)
  ]

module _ ⦃prisma : Prisma⦄ ⦃text : DecimalText⦄ where
  -- The new row of an update, with the type that the old one had: `changed` says that the rule was
  -- given, and then it is fit; otherwise it is the old one.
  update_dynamic-IsSound :
      (env : Surroundings) (row existing : Segment) (changed : Bool) (t : Tables)
      → find_segment_row t.segments row.id ≡ some existing
      → is_dynamic existing ≡ true
      → (changed ≡ true → (refers row.rule row.id ≡ false) × ParentsExist row.rule t)
      → (changed ≡ false → row.rule ≡ existing.rule)
      → IsSound t
      → IsSound (update_row env changed (record row { type = dynamic }) t).1
  unfolding update_row
  update_dynamic-IsSound env row existing true t found typed fit same h =
      let s : Segment = record row { type = dynamic } in
      let t1 : Tables = record t { segments = replace_row s t.segments } in
      let (other, exist) = fit refl in
      let found1 = find-replace_row_same s existing t.segments found in
      let exist1 : ParentsExist s.rule t1 = λ p q. rw (ids-replace_row s t.segments) (exist p q) in
      let (r, t2, ran, meets, _) =
        evaluate_segment-Evaluated (env.now s.id) (env.batch_id s.id) s.id false s t1 found1 refl
          other exist1 in
      rw (prisma.update_segment_lem s t, ran, detail-tables s.id t2)
        (Evaluated-IsSound meets found1 other exist1 (IsSound-replaced s t h))
  update_dynamic-IsSound env row existing false t found typed fit same h =
      let s : Segment = record row { type = dynamic } in
      let t1 : Tables = record t { segments = replace_row s t.segments } in
      rw (prisma.update_segment_lem s t, detail-tables s.id t1)
        (IsSound-renamed s existing t found (find-replace_row_same s existing t.segments found)
          (sym typed) (same refl) h)

  update_static-IsSound :
      (env : Surroundings) (row existing : Segment) (changed : Bool) (t : Tables)
      → find_segment_row t.segments row.id ≡ some existing
      → IsSound t
      → IsSound (update_row env changed (record row { type = static }) t).1
  unfolding update_row
  update_static-IsSound env row existing changed t found h =
      let s : Segment = record row { type = static } in
      let t1 : Tables = record t { segments = replace_row s t.segments } in
      rw (prisma.update_segment_lem s t, detail-tables s.id t1)
        (IsSoundBut-static s t1 (find-replace_row_same s existing t.segments found) refl
          (IsSound-replaced s t h))

  update_row-IsSound :
      (env : Surroundings) (row existing : Segment) (changed : Bool) (t : Tables)
      (type : SegmentType)
      → find_segment_row t.segments row.id ≡ some existing
      → existing.type ≡ type
      → (changed ≡ true → (refers row.rule row.id ≡ false) × ParentsExist row.rule t)
      → (changed ≡ false → row.rule ≡ existing.rule)
      → IsSound t
      → IsSound (update_row env changed (record row { type = type }) t).1
  update_row-IsSound env row existing changed t dynamic found typed fit same h =
      update_dynamic-IsSound env row existing changed t found (rw typed) fit same h
  update_row-IsSound env row existing changed t static found typed fit same h =
      update_static-IsSound env row existing changed t found h

  -- Whatever the body, and whether the call returns or throws, `update` keeps the tables sound.
  pub update-IsSound :
      (env : Surroundings) (id : String) (body : UpdateSegmentBody) (t : Tables)
      → IsSound t
      → IsSound (update env id body t).1
  update-IsSound env id body t h = elim (update-cases env id body t) [
    | inl (e, failed) ↦ rw failed h
    | inr (row, existing, done, found, fit, same) ↦ rw done (
        update_row-IsSound env row existing (is_some body.rule) t existing.type found refl fit same
          h)
  ]

  -- Whether it removes the segment or refuses, `remove` keeps the tables sound.
  pub remove-IsSound : (id : String) (t : Tables) → IsSound t → IsSound (remove id t).1
  remove-IsSound id t h = elim (remove-cases id t) [
    | inl (e, failed) ↦ rw failed h
    | inr (done, free) ↦
        rw (done, prisma.delete_segment_lem id t)
          (IsSoundBut-congr refl refl (IsSound-deleted id t free h))
  ]
