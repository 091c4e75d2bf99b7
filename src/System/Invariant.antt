-- ===== src/System/Invariant.antt =====
-- What holds in every state that the service can reach.
use optio_ai_assignment.Prelude.Int.{ℤ}
use optio_ai_assignment.Segments.Evaluation.{is_refused, evaluate_segment}
use optio_ai_assignment.Segments.Evaluation.Race.{evaluate_segment_at_once, written-segments}
use optio_ai_assignment.Segments.Evaluation.Race.Outcome.{evaluate_segment_at_once-written}
use optio_ai_assignment.Segments.Evaluation.Outage.{Outages, rewired, evaluate_segment_failing}
use optio_ai_assignment.Segments.Evaluation.Outage.Cases.{answered, evaluate_segment-failing}
use optio_ai_assignment.Database.Views.{find_segment_row, members_of}
use optio_ai_assignment.Segments.Evaluator.Meaning.{refers}
use optio_ai_assignment.Segments.Dependency.Edges.{ParentsExist}
use optio_ai_assignment.Segments.Evaluation.Pass.{added_of, removed_of, evaluate_found-settled}
use optio_ai_assignment.Prelude.{
  some, false, sym, ap, subst, ◌≡◌, ◌∙◌, String, Bool, is_empty, Bool-cases, inl, inr,
}
use optio_ai_assignment.Database.{Segment, Tables}
use optio_ai_assignment.Database.Prisma.{Prisma}
use optio_ai_assignment.Segments.Metrics.{DecimalText}
use optio_ai_assignment.Segments.Rebuild.{
  Surroundings, rebuild_all_dynamic, on_application_bootstrap,
}
use optio_ai_assignment.Messaging.Buffer.{Redis, ChangeBuffer, flush, tick}
use optio_ai_assignment.Api.Segments
use optio_ai_assignment.System.Soundness.{IsSound, IsSoundBut-congr, evaluate_segment-IsSound}
use optio_ai_assignment.System.Passes.{rebuild_all_dynamic-keeps, cascade-keeps}
use optio_ai_assignment.System.Endpoints.{create-IsSound, update-IsSound, remove-IsSound}
use optio_ai_assignment.System.Untouched.{
  SameSegments, drain_batch-SameSegments, campaign-SameSegments, simulate_transaction-SameSegments,
  simulate_bulk-SameSegments, advance_time-SameSegments, simulate_profile-SameSegments,
}
use optio_ai_assignment.System.Steps.{
  Step, creates, updates, removes, evaluates, races, breaks, rebuilds, starts, publishes, cascades,
  notifies, ticks, pays, floods, patches, advances, Reaches, stay, go,
}

SameSegments-IsSound : {t u : Tables} → SameSegments t u → IsSound t → IsSound u
SameSegments-IsSound same h = IsSoundBut-congr same.segments same.dependencies h

module _ ⦃prisma : Prisma⦄ ⦃text : DecimalText⦄ ⦃redis : Redis⦄ where
  pub tick-keeps :
      (P : Tables → Type 0) (env : Surroundings) (s : ChangeBuffer)
      → P s.tables
      → P (rebuild_all_dynamic env s.tables).1
      → P (tick env s).tables
  unfolding tick flush
  tick-keeps P env s h k = elim (Bool-cases s.in_flight) [
    | inl busy ↦ rw busy h
    | inr idle ↦ elim (Bool-cases (is_empty s.keys.buffer)) [
      | inl nothing ↦ rw (idle, redis.rename_lem s.keys, nothing) h
      | inr marked ↦ rw (idle, redis.rename_lem s.keys, marked) k
    ]
  ]

  race-IsSound :
      (now : ℤ) (first second id : String) (force : Bool) (t : Tables)
      → IsSound t
      → IsSound (evaluate_segment_at_once now first second id force t).1
  race-IsSound now first second id force t h =
      elim (evaluate_segment_at_once-written now first second id force t) [
        | inl same ↦ rw same h
        | inr (s, added, removed, found, still, left) ↦
            let u : Tables = (evaluate_segment now first id force t).1 in
            let (segments, dependencies) = written-segments s second added removed u in
            rw left (
              IsSoundBut-congr segments dependencies
                (evaluate_segment-IsSound now first id force t h))
      ]

  -- The edges of a pass that went no further are sound, since those of the whole pass are.
  rewired-IsSound :
      (now : ℤ) (batch_id id : String) (force : Bool) (s : Segment) (t : Tables)
      → find_segment_row t.segments id ≡ some s
      → is_refused s force ≡ false
      → refers s.rule s.id ≡ false
      → ParentsExist s.rule t
      → IsSound t
      → IsSound (rewired s t)
  rewired-IsSound now batch_id id force s t found allowed no_self exist h =
      let (new, done, _, _) = evaluate_found-settled now batch_id s t no_self exist in
      let (segments, dependencies) =
        written-segments s batch_id (added_of (members_of t.members s.id) new)
          (removed_of (members_of t.members s.id) new) (rewired s t) in
      IsSoundBut-congr (sym segments) (sym dependencies) (
        subst IsSound (ap (λ x. x.1) (answered now batch_id id force s t found allowed ∙ done))
          (evaluate_segment-IsSound now batch_id id force t h))

  failing-IsSound :
      (f : Outages) (now : ℤ) (batch_id id : String) (force : Bool) (t : Tables)
      → IsSound t
      → IsSound (evaluate_segment_failing f now batch_id id force t).1
  failing-IsSound f now batch_id id force t h =
      elim ((evaluate_segment-failing f now batch_id id force t).0) [
        | inl (e, failed) ↦ rw failed h
        | inr (inl (s, e, found, failed, allowed, no_self, exist, _)) ↦
            rw failed (rewired-IsSound now batch_id id force s t found allowed no_self exist h)
        | inr (inr (s, r, t', found, done, ran, _)) ↦
            rw done (
              subst IsSound (ap (λ x. x.1) ran)
                (evaluate_segment-IsSound now batch_id id force t h))
      ]

  Step-IsSound : {s s' : ChangeBuffer} → Step s s' → IsSound s.tables → IsSound s'.tables
  unfolding on_application_bootstrap Segments.evaluate
  Step-IsSound (creates env body s fresh) h = create-IsSound env body s.tables fresh h
  Step-IsSound (updates env id body s) h = update-IsSound env id body s.tables h
  Step-IsSound (removes id s) h = remove-IsSound id s.tables h
  Step-IsSound (evaluates env id force s) h =
      evaluate_segment-IsSound (env.now id) (env.batch_id id) id force s.tables h
  Step-IsSound (races now first second id force s) h =
      race-IsSound now first second id force s.tables h
  Step-IsSound (breaks f now batch_id id force s) h =
      failing-IsSound f now batch_id id force s.tables h
  Step-IsSound (rebuilds env s) h =
      rebuild_all_dynamic-keeps IsSound evaluate_segment-IsSound env s.tables h
  Step-IsSound (starts env s) h =
      rebuild_all_dynamic-keeps IsSound evaluate_segment-IsSound env s.tables h
  Step-IsSound (publishes reply s) h =
      SameSegments-IsSound (drain_batch-SameSegments reply s.tables) h
  Step-IsSound (cascades env e s) h =
      cascade-keeps IsSound evaluate_segment-IsSound env e s.tables h
  Step-IsSound (notifies now customers e s) h =
      SameSegments-IsSound (campaign-SameSegments now customers e s.tables) h
  Step-IsSound (ticks env s) h =
      tick-keeps IsSound env s h
        (rebuild_all_dynamic-keeps IsSound evaluate_segment-IsSound env s.tables h)
  Step-IsSound (pays customer_id amount occurred_at s) h =
      SameSegments-IsSound (simulate_transaction-SameSegments customer_id amount occurred_at s) h
  Step-IsSound (floods draw count chunk_size s) h =
      SameSegments-IsSound (simulate_bulk-SameSegments draw count chunk_size s) h
  Step-IsSound (patches customer_id profile s) h =
      SameSegments-IsSound (simulate_profile-SameSegments customer_id profile s) h
  Step-IsSound (advances d s) h = SameSegments-IsSound (advance_time-SameSegments d s) h

  pub Reaches-IsSound : (s s' : ChangeBuffer) → IsSound s.tables → Reaches s s' → IsSound s'.tables
  Reaches-IsSound s s' h stay = h
  Reaches-IsSound s s' h (go {s' = m} before step) =
      Step-IsSound step (Reaches-IsSound s m h before)
