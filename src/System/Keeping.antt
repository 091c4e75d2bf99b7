-- ===== src/System/Keeping.antt =====
-- A property of the tables that each single write keeps holds after every step of the service.
use optio_ai_assignment.Prelude.{
  all, ap, String, Bool, true, false, not, ◌||◌, ◌≡◌, refl, sym, subst, some, List, [], ◌∷◌, ◌++◌,
  filter, has, is_empty, ◌==◌, Bool-cases, inl, inr,
}
use optio_ai_assignment.Prelude.Int.{ℤ}
use optio_ai_assignment.Database.{Segment, Tables, SegmentType, dynamic, static}
use optio_ai_assignment.Database.Views.{
  customer_ids, segment_ids, find_segment_row, replace_row, insert_members,
}
use optio_ai_assignment.Database.Prisma.{Prisma}
use optio_ai_assignment.Segments.Metrics.{DecimalText}
use optio_ai_assignment.Segments.Evaluation.{evaluate_segment}
use optio_ai_assignment.Segments.Evaluation.Outage.{Outages, rewired, evaluate_segment_failing}
use optio_ai_assignment.Segments.Evaluation.Outage.Cases.{evaluate_segment-failing}
use optio_ai_assignment.Segments.Evaluation.Contract.{evaluate_segment_atomic}
use optio_ai_assignment.Segments.Rebuild.{Surroundings, on_application_bootstrap}
use optio_ai_assignment.Messaging.Buffer.{Redis, ChangeBuffer}
use optio_ai_assignment.Api.Segments
use optio_ai_assignment.Api.Segments.{
  CreateSegmentBody, UpdateSegmentBody, is_some, detail, create_row, create, update_row, update,
  remove, patched_description,
}
use optio_ai_assignment.Api.Segments.Cases.{detail-tables, create-cases, update-cases, remove-cases}
use optio_ai_assignment.Messaging.Campaign
use optio_ai_assignment.Messaging.Outbox.{drain_batch}
use optio_ai_assignment.Simulator.{
  simulate_transaction, simulate_bulk, simulate_profile, advance_time,
}
use optio_ai_assignment.Api.Segments.Creating.{find-fresh}
use optio_ai_assignment.System.Passes.{rebuild_all_dynamic-keeps, cascade-keeps}
use optio_ai_assignment.System.Invariant.{tick-keeps}
use optio_ai_assignment.System.Untouched.{
  SameSegments, drain_batch-SameSegments, campaign-SameSegments, simulate_transaction-SameSegments,
  simulate_bulk-SameSegments, advance_time-SameSegments, simulate_profile-SameSegments,
}
use optio_ai_assignment.System.Steps.{
  Step, creates, updates, removes, evaluates, races, breaks, rebuilds, starts, publishes, cascades,
  notifies, ticks, pays, floods, patches, advances, Reaches, stay, go,
}
use optio_ai_assignment.Segments.Evaluation.Persist.{written}
use optio_ai_assignment.Segments.Evaluation.Race.{evaluate_segment_at_once}
use optio_ai_assignment.Segments.Evaluation.Race.Outcome.{evaluate_segment_at_once-written}
use optio_ai_assignment.Segments.Order.Finding.{find_segment_row-id}

-- The property survives each write that the service makes.
pub record IsKept ⦃prisma : Prisma⦄ ⦃text : DecimalText⦄ (P : Tables → Type 0) : Type 0 where
  pub by_evaluate :
      (now : ℤ) (batch_id id : String) (force : Bool) (t : Tables)
      → P t
      → P (evaluate_segment now batch_id id force t).1
  pub by_written :
      (s : Segment) (batch_id : String) (added removed : List String) (t : Tables)
      → find_segment_row t.segments s.id ≡ some s
      → P t
      → P (written s.id s.name batch_id added removed t)
  pub by_rewire : (s : Segment) (t : Tables) → P t → P (rewired s t)
  pub by_insert :
      (s : Segment) (t : Tables)
      → has (segment_ids t.segments) s.id ≡ false
      → P t
      → P (record t { segments = t.segments ++ s ∷ [] })
  pub by_join :
      (s : Segment) (cs : List String) (t : Tables)
      → find_segment_row t.segments s.id ≡ some s
      → s.type ≡ static
      → P t
      → P (record t { members = insert_members s.id cs t.members })
  pub by_replace :
      (s u : Segment) (t : Tables)
      → find_segment_row t.segments s.id ≡ some u
      → s.type ≡ u.type
      → P t
      → P (record t { segments = replace_row s t.segments })
  pub by_delete :
      (id : String) (t : Tables)
      → P t
      → P (record t {
        segments = filter (λ s. not (s.id == id)) t.segments;
        members = filter (λ m. not (m.segment_id == id)) t.members;
        deltas = filter (λ d. not (d.segment_id == id)) t.deltas;
        dependencies = filter (λ d. not (d.parent_id == id || d.child_id == id)) t.dependencies;
      })
  pub by_same : (t u : Tables) → SameSegments t u → P t → P u

module _ ⦃prisma : Prisma⦄ ⦃text : DecimalText⦄ (P : Tables → Type 0) (kept : IsKept P) where
  race-keeps :
      (now : ℤ) (first second id : String) (force : Bool) (t : Tables)
      → P t
      → P (evaluate_segment_at_once now first second id force t).1
  race-keeps now first second id force t h =
      elim (evaluate_segment_at_once-written now first second id force t) [
        | inl same ↦ rw same h
        | inr (s, added, removed, found, still, left) ↦
            let u : Tables = (evaluate_segment now first id force t).1 in
            let own : find_segment_row u.segments s.id ≡ some s =
              subst (λ x. find_segment_row u.segments x ≡ some s)
                (sym (find_segment_row-id u.segments id s still)) still in
            rw left (
              kept.by_written s second added removed u own
                (kept.by_evaluate now first id force t h))
      ]

  failing-keeps :
      (f : Outages) (now : ℤ) (batch_id id : String) (force : Bool) (t : Tables)
      → P t
      → P (evaluate_segment_failing f now batch_id id force t).1
  failing-keeps f now batch_id id force t h =
      elim ((evaluate_segment-failing f now batch_id id force t).0) [
        | inl (e, failed) ↦ rw failed h
        | inr (inl (s, e, found, failed, _, _, _, _)) ↦ rw failed (kept.by_rewire s t h)
        | inr (inr (s, r, t', found, done, ran, _)) ↦
            rw done (subst P (ap (λ x. x.1) ran) (kept.by_evaluate now batch_id id force t h))
      ]

  create_dynamic-keeps :
      (env : Surroundings) (initial : List String) (row : Segment) (t : Tables)
      → has (segment_ids t.segments) row.id ≡ false
      → P t
      → P (create_row env initial (record row { type = dynamic }) t).1
  unfolding create_row
  create_dynamic-keeps env initial row t fresh h =
      let s : Segment = record row { type = dynamic } in
      let t1 : Tables = record t { segments = t.segments ++ s ∷ [] } in
      let h1 = kept.by_insert s t fresh h in
      let h2 = kept.by_evaluate (env.now s.id) (env.batch_id s.id) s.id false t1 h1 in
      elim (evaluate_segment_atomic (env.now s.id) (env.batch_id s.id) s.id false t1) [
        | inl (e, failed) ↦
            rw (prisma.create_segment_lem s t, failed, prisma.delete_segment_lem s.id t1)
              (kept.by_delete s.id t1 h1)
        | inr (u, r, t2, found, done, meets) ↦
            rw (prisma.create_segment_lem s t, done, detail-tables s.id t2) (rw done at h2)
      ]

  create_static-keeps :
      (env : Surroundings) (initial : List String) (row : Segment) (t : Tables)
      → has (segment_ids t.segments) row.id ≡ false
      → P t
      → P (create_row env initial (record row { type = static }) t).1
  unfolding create_row
  create_static-keeps env initial row t fresh h =
      let s : Segment = record row { type = static } in
      let t1 : Tables = record t { segments = t.segments ++ s ∷ [] } in
      let h1 = kept.by_insert s t fresh h in
      elim (Bool-cases (is_empty initial)) [
        | inl nobody_joins ↦
            rw (prisma.create_segment_lem s t, nobody_joins, detail-tables s.id t1) h1
        | inr somebody ↦ elim (Bool-cases (all (has (customer_ids t.customers)) initial)) [
          | inr stranger ↦ rw (prisma.create_segment_lem s t, somebody, stranger) h1
          | inl known ↦
              rw
                (
                  prisma.create_segment_lem s t,
                  somebody,
                  known,
                  detail-tables s.id (prisma.create_members s.id initial t1),
                  prisma.create_members_lem s.id initial t1,
                )
                (kept.by_join s initial t1 (find-fresh t.segments s fresh) refl h1)
        ]
      ]

  create_row-keeps :
      (env : Surroundings) (initial : List String) (row : Segment) (t : Tables) (type : SegmentType)
      → has (segment_ids t.segments) row.id ≡ false
      → P t
      → P (create_row env initial (record row { type = type }) t).1
  create_row-keeps env initial row t dynamic fresh h =
      create_dynamic-keeps env initial row t fresh h
  create_row-keeps env initial row t static fresh h = create_static-keeps env initial row t fresh h

  create-keeps :
      (env : Surroundings) (body : CreateSegmentBody) (t : Tables)
      → has (segment_ids t.segments) (prisma.new_segment_id t) ≡ false
      → P t
      → P (create env body t).1
  create-keeps env body t fresh h = elim (create-cases env body t) [
    | inl (e, failed) ↦ rw failed h
    | inr (row, type, done, same, exist) ↦ rw done (
        create_row-keeps env body.initial_member_ids row t type
          (subst (λ x. has (segment_ids t.segments) x ≡ false) (sym same) fresh) h)
  ]

  update_row-keeps :
      (env : Surroundings) (row existing : Segment) (changed : Bool) (t : Tables)
      (type : SegmentType)
      → find_segment_row t.segments row.id ≡ some existing
      → type ≡ existing.type
      → P t
      → P (update_row env changed (record row { type = type }) t).1
  unfolding update_row
  update_row-keeps env row existing true t dynamic found typed h =
      let s : Segment = record row { type = dynamic } in
      let t1 : Tables = record t { segments = replace_row s t.segments } in
      let h1 = kept.by_replace s existing t found typed h in
      let h2 = kept.by_evaluate (env.now s.id) (env.batch_id s.id) s.id false t1 h1 in
      elim (evaluate_segment_atomic (env.now s.id) (env.batch_id s.id) s.id false t1) [
        | inl (e, failed) ↦ rw (prisma.update_segment_lem s t, failed) h1
        | inr (u, r, t2, there, done, meets) ↦
            rw (prisma.update_segment_lem s t, done, detail-tables s.id t2) (rw done at h2)
      ]
  update_row-keeps env row existing false t dynamic found typed h =
      let s : Segment = record row { type = dynamic } in
      rw
        (
          prisma.update_segment_lem s t,
          detail-tables s.id (record t { segments = replace_row s t.segments }),
        )
        (kept.by_replace s existing t found typed h)
  update_row-keeps env row existing changed t static found typed h =
      let s : Segment = record row { type = static } in
      rw
        (
          prisma.update_segment_lem s t,
          detail-tables s.id (record t { segments = replace_row s t.segments }),
        )
        (kept.by_replace s existing t found typed h)

  update-keeps :
      (env : Surroundings) (id : String) (body : UpdateSegmentBody) (t : Tables)
      → P t
      → P (update env id body t).1
  update-keeps env id body t h = elim (update-cases env id body t) [
    | inl (e, failed) ↦ rw failed h
    | inr (row, existing, done, found, _, _) ↦
        rw done (update_row-keeps env row existing (is_some body.rule) t existing.type found refl h)
  ]

  remove-keeps : (id : String) (t : Tables) → P t → P (remove id t).1
  remove-keeps id t h = elim (remove-cases id t) [
    | inl (e, failed) ↦ rw failed h
    | inr (done, free) ↦ rw (done, prisma.delete_segment_lem id t) (kept.by_delete id t h)
  ]

module _ ⦃prisma : Prisma⦄ ⦃text : DecimalText⦄ ⦃redis : Redis⦄ (P : Tables → Type 0)
    (kept : IsKept P) where
  Step-keeps : {s s' : ChangeBuffer} → Step s s' → P s.tables → P s'.tables
  unfolding on_application_bootstrap Segments.evaluate
  Step-keeps (creates env body s fresh) h = create-keeps P kept env body s.tables fresh h
  Step-keeps (updates env id body s) h = update-keeps P kept env id body s.tables h
  Step-keeps (removes id s) h = remove-keeps P kept id s.tables h
  Step-keeps (evaluates env id force s) h =
      kept.by_evaluate (env.now id) (env.batch_id id) id force s.tables h
  Step-keeps (races now first second id force s) h =
      race-keeps P kept now first second id force s.tables h
  Step-keeps (breaks f now batch_id id force s) h =
      failing-keeps P kept f now batch_id id force s.tables h
  Step-keeps (rebuilds env s) h = rebuild_all_dynamic-keeps P kept.by_evaluate env s.tables h
  Step-keeps (starts env s) h = rebuild_all_dynamic-keeps P kept.by_evaluate env s.tables h
  Step-keeps (publishes reply s) h =
      kept.by_same s.tables (drain_batch reply s.tables).1 (drain_batch-SameSegments reply s.tables)
        h
  Step-keeps (cascades env e s) h = cascade-keeps P kept.by_evaluate env e s.tables h
  Step-keeps (notifies now customers e s) h =
      kept.by_same s.tables (Campaign.process now customers e s.tables).tables
        (campaign-SameSegments now customers e s.tables) h
  Step-keeps (ticks env s) h =
      tick-keeps P env s h (rebuild_all_dynamic-keeps P kept.by_evaluate env s.tables h)
  Step-keeps (pays customer_id amount occurred_at s) h =
      kept.by_same s.tables (simulate_transaction customer_id amount occurred_at s).1.tables
        (simulate_transaction-SameSegments customer_id amount occurred_at s) h
  Step-keeps (floods draw count chunk_size s) h =
      kept.by_same s.tables (simulate_bulk draw count chunk_size s).1.tables
        (simulate_bulk-SameSegments draw count chunk_size s) h
  Step-keeps (patches customer_id profile s) h =
      kept.by_same s.tables (simulate_profile customer_id profile s).1.tables
        (simulate_profile-SameSegments customer_id profile s) h
  Step-keeps (advances d s) h =
      kept.by_same s.tables (advance_time d s).1.tables (advance_time-SameSegments d s) h

  -- What each write keeps holds in every state that the service can reach.
  pub Reaches-keeps : (s s' : ChangeBuffer) → P s.tables → Reaches s s' → P s'.tables
  Reaches-keeps s s' h stay = h
  Reaches-keeps s s' h (go {s' = m} before step) = Step-keeps step (Reaches-keeps s m h before)
