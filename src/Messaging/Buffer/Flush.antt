-- ===== src/Messaging/Buffer/Flush.antt =====
-- What becomes of a marked change.
use optio_ai_assignment.Prelude.{
  ℕ, String, Bool, true, false, ◌≡◌, refl, List, [], ◌∷◌, has, distinct, is_empty, filter,
  Bool-cases, inl, inr, distinct-to_set_onto,
}
use optio_ai_assignment.Database.Views.{is_dynamic, segment_ids}
use optio_ai_assignment.Database.Prisma.{Prisma}
use optio_ai_assignment.Segments.Metrics.{DecimalText}
use optio_ai_assignment.Segments.Order.Complete.{IsRanked}
use optio_ai_assignment.Segments.Rebuild.{Surroundings, rebuild_all_dynamic}
use optio_ai_assignment.Segments.Rebuild.Convergence.{
  AllInSync, DynamicParentsExist, rebuild_all_dynamic-AllInSync,
}
use optio_ai_assignment.Segments.Rebuild.Cycles.{IsCycle, rebuild_all_dynamic_cycle}
use optio_ai_assignment.Messaging.Buffer.{
  Redis, ChangeBuffer, mark_changed, mark_changed_many, flush, tick,
}

module _ ⦃redis : Redis⦄ ⦃prisma : Prisma⦄ ⦃text : DecimalText⦄ where
  tick-flush :
      (env : Surroundings) (s : ChangeBuffer)
      → s.in_flight ≡ false
      → is_empty s.keys.buffer ≡ false
      → tick env s ≡ record {
        in_flight = false;
        keys = record { buffer = []; snapshot = [] };
        tables = (rebuild_all_dynamic env s.tables).1;
      }
  unfolding tick flush
  tick-flush env s idle marked = rw (idle, redis.rename_lem s.keys, marked, redis.del_lem)

  -- A tick with marked changes, when the references among the dynamic segments have no cycle and lead
  -- to segments that are there, empties the buffer and leaves every dynamic segment with exactly the
  -- members that satisfy its rule.
  pub tick-AllInSync :
      (env : Surroundings) (rank : String → ℕ) (s : ChangeBuffer)
      → s.in_flight ≡ false
      → is_empty s.keys.buffer ≡ false
      → distinct (segment_ids s.tables.segments) ≡ true
      → IsRanked rank (filter is_dynamic s.tables.segments)
      → DynamicParentsExist s.tables
      → AllInSync env (tick env s).tables (filter is_dynamic s.tables.segments)
        × ((tick env s).keys ≡ record { buffer = []; snapshot = [] })
  tick-AllInSync env rank s idle marked d ranked exist =
      let (results, t', ran, sync, _, _) =
        rebuild_all_dynamic-AllInSync env rank s.tables d ranked exist in
      rw (tick-flush env s idle marked, ran) (sync, refl)

  -- If some dynamic segments refer to one another in a cycle, a tick with marked changes empties the
  -- buffer although it changes no table, so that the next tick changes nothing any more: the marked
  -- changes are lost.
  pub tick_cycle_loses :
      (env env' : Surroundings) (s : ChangeBuffer) (in_cycle : String → Bool) (id : String)
      → s.in_flight ≡ false
      → is_empty s.keys.buffer ≡ false
      → distinct (segment_ids s.tables.segments) ≡ true
      → IsCycle in_cycle (filter is_dynamic s.tables.segments)
      → has (segment_ids (filter is_dynamic s.tables.segments)) id ≡ true
      → in_cycle id ≡ true
      → ((tick env s).tables ≡ s.tables)
        × ((tick env s).keys ≡ record { buffer = []; snapshot = [] })
        × (tick env' (tick env s) ≡ tick env s)
  tick_cycle_loses env env' s in_cycle id idle marked d cyc there inside =
      let (e, failed) = rebuild_all_dynamic_cycle env s.tables in_cycle id d cyc there inside in
      rw (tick-flush env s idle marked, failed)
        (
          refl,
          refl,
          unfold tick flush in rw (redis.rename_lem (record { buffer = []; snapshot = [] })),
        )

  -- One step of the service: a change is marked, many are, or the interval fires.
  pub data Step : ChangeBuffer → ChangeBuffer → Type 0 where
    marks : (id : String) (s : ChangeBuffer) → Step s (mark_changed id s)
    marks_many : (ids : List String) (s : ChangeBuffer) → Step s (mark_changed_many ids s)
    ticks : (env : Surroundings) (s : ChangeBuffer) → Step s (tick env s)

  pub data Reaches : ChangeBuffer → ChangeBuffer → Type 0 where
    stay : {s : ChangeBuffer} → Reaches s s
    go : {s s' s'' : ChangeBuffer} → Reaches s s' → Step s' s'' → Reaches s s''

  -- Between two steps no flush is in flight and no snapshot is left, and the buffer is a set.
  pub record IsIdle (s : ChangeBuffer) : Type 0 where
    pub not_in_flight : s.in_flight ≡ false
    pub no_snapshot : s.keys.snapshot ≡ []
    pub is_set : distinct s.keys.buffer ≡ true

  Step-IsIdle : {s s' : ChangeBuffer} → Step s s' → IsIdle s → IsIdle s'
  Step-IsIdle (marks id s) h =
      unfold mark_changed in
      rw (redis.sadd_lem (id ∷ []) s.keys) (record {
        not_in_flight = h.not_in_flight;
        no_snapshot = h.no_snapshot;
        is_set = distinct-to_set_onto s.keys.buffer (id ∷ []) h.is_set;
      })
  Step-IsIdle (marks_many ids s) h = elim (Bool-cases (is_empty ids)) [
    | inl e ↦ unfold mark_changed_many in rw e h
    | inr e ↦
        unfold mark_changed_many in
        rw (e, redis.sadd_lem ids s.keys)
          (record {
            not_in_flight = h.not_in_flight;
            no_snapshot = h.no_snapshot;
            is_set = distinct-to_set_onto s.keys.buffer ids h.is_set;
          })
  ]
  Step-IsIdle (ticks env s) h = elim (Bool-cases (is_empty s.keys.buffer)) [
    | inl e ↦
        unfold tick flush in
        rw (h.not_in_flight, redis.rename_lem s.keys, e)
          (record { not_in_flight = refl; no_snapshot = h.no_snapshot; is_set = h.is_set })
    | inr e ↦
        rw (tick-flush env s h.not_in_flight e)
          (record { not_in_flight = refl; no_snapshot = refl; is_set = unfold distinct in refl })
  ]

  -- Every sequence of marks and ticks that begins with no flush in flight, no snapshot and a buffer
  -- without repetitions ends so too, whether or not a rebuild threw in between.
  pub Reaches-IsIdle : (s s' : ChangeBuffer) → IsIdle s → Reaches s s' → IsIdle s'
  Reaches-IsIdle s s' h stay = h
  Reaches-IsIdle s s' h (go {s' = m} r step) = Step-IsIdle step (Reaches-IsIdle s m h r)
