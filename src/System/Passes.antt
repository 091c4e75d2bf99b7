-- ===== src/System/Passes.antt =====
-- What every evaluation keeps, the rebuild, the cascade and the flush keep too.
use optio_ai_assignment.Prelude.{
  String, Bool, false, List, [], ◌∷◌, is_empty, if◌then◌else◌, ◌==◌, Bool-cases, inl, inr,
}
use optio_ai_assignment.Prelude.Int.{ℤ}
use optio_ai_assignment.Shared.Events.{segment_delta, EventEnvelope}
use optio_ai_assignment.Shared.Result.{Result, ok, err, pure, continue}
use optio_ai_assignment.Database.{Segment, Tables}
use optio_ai_assignment.Database.Prisma.{Prisma}
use optio_ai_assignment.Segments.Metrics.{DecimalText}
use optio_ai_assignment.Segments.Evaluation.{EvaluationResult, evaluate_segment}
use optio_ai_assignment.Segments.Evaluation.Contract.{evaluate_segment_atomic}
use optio_ai_assignment.Segments.Order.{topo_sort}
use optio_ai_assignment.Segments.Rebuild.{Surroundings, evaluate_in_order, rebuild_all_dynamic}
use optio_ai_assignment.Messaging.Cascade
use optio_ai_assignment.Messaging.Cascade.{evaluate_children}

module _ ⦃prisma : Prisma⦄ ⦃text : DecimalText⦄ (P : Tables → Type 0)
    (kept : (now : ℤ) (batch_id id : String) (force : Bool) (t : Tables)
      → P t
      → P (evaluate_segment now batch_id id force t).1) where
  evaluate_in_order-keeps :
      (env : Surroundings) (rows : List Segment) (t : Tables)
      → P t
      → P (evaluate_in_order env rows t).1
  unfolding evaluate_in_order
  evaluate_in_order-keeps env [] t h = h
  evaluate_in_order-keeps env (s ∷ rest) t h =
      let h1 = kept (env.now s.id) (env.batch_id s.id) s.id false t h in
      elim (evaluate_segment_atomic (env.now s.id) (env.batch_id s.id) s.id false t) [
        | inl (e, failed) ↦ rw failed h
        | inr (u, r, t', found, done, meets) ↦ rw done (
            wrapped r (evaluate_in_order env rest t')
              (evaluate_in_order-keeps env rest t' (rw done at h1)))
      ]
    where
      wrapped :
          (r : EvaluationResult) (x : Result (List EvaluationResult) × Tables)
          → P x.1
          → P (continue x.0 (λ results. pure (r ∷ results)) x.1).1
      wrapped r (ok results, u) k = k
      wrapped r (err e, u) k = k

  pub rebuild_all_dynamic-keeps :
      (env : Surroundings) (t : Tables) → P t → P (rebuild_all_dynamic env t).1
  unfolding rebuild_all_dynamic
  rebuild_all_dynamic-keeps env t h = sorted (topo_sort (prisma.find_dynamic t))
    where
      sorted : (x : Result (List Segment)) → P (continue x (evaluate_in_order env) t).1
      sorted (ok rows) = evaluate_in_order-keeps env rows t h
      sorted (err e) = h

  evaluate_children-keeps :
      (env : Surroundings) (children : List String) (t : Tables)
      → P t
      → P (evaluate_children env children t).1
  unfolding evaluate_children
  evaluate_children-keeps env [] t h = h
  evaluate_children-keeps env (id ∷ rest) t h =
      let h1 = kept (env.now id) (env.batch_id id) id false t h in
      elim (evaluate_segment_atomic (env.now id) (env.batch_id id) id false t) [
        | inl (e, failed) ↦ rw failed h
        | inr (u, r, t', found, done, meets) ↦
            rw done (evaluate_children-keeps env rest t' (rw done at h1))
      ]

  pub cascade-keeps :
      (env : Surroundings) (e : EventEnvelope) (t : Tables) → P t → P (Cascade.process env e t).1
  unfolding Cascade.process Cascade.handle
  cascade-keeps env e t h = elim (Bool-cases (e.event_type == segment_delta)) [
    | inr other ↦ rw other h
    | inl typed ↦ rw typed (reached (prisma.find_dependents t e.payload.segment_id))
  ]
    where
      reached :
          (children : List String)
          → P ((if is_empty children then pure tt else evaluate_children env children) t).1
      reached [] = h
      reached (child ∷ rest) = evaluate_children-keeps env (child ∷ rest) t h
