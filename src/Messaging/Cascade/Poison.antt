-- ===== src/Messaging/Cascade/Poison.antt =====
-- What a static dependent does to the cascade.
use optio_ai_assignment.Prelude.{
  String, true, false, ◌≡◌, ◌∙◌, some, List, [], ◌∷◌, has, ◌==◌, eq_iff, arith, Bool-cases, inl,
  inr,
}
use optio_ai_assignment.Shared.Events.{segment_delta, EventEnvelope}
use optio_ai_assignment.Shared.Result.{Error, err, static_segment}
use optio_ai_assignment.Database.{Segment, Tables}
use optio_ai_assignment.Database.Views.{find_segment_row, children_of, parents_of}
use optio_ai_assignment.Database.DependencyLaws.{children-parents}
use optio_ai_assignment.Database.Prisma.{Prisma}
use optio_ai_assignment.Segments.Metrics.{DecimalText}
use optio_ai_assignment.Segments.Evaluation.{is_refused, evaluate_segment}
use optio_ai_assignment.Segments.Evaluation.Contract.{evaluate_segment_atomic}
use optio_ai_assignment.Segments.Order.Finding.{find_segment_row-id}
use optio_ai_assignment.Segments.Rebuild.{Surroundings}
use optio_ai_assignment.Messaging.Campaign.{requeued}
use optio_ai_assignment.Messaging.Cascade.Dependents.{handle-children}
use optio_ai_assignment.Messaging.Cascade.{evaluate_children, handle, process}

-- The segment is static, and depends on the other.
abbrev pub IsStaticChild : Tables → String → String → Type 0
IsStaticChild t parent child =
    (s : Segment) × (find_segment_row t.segments child ≡ some s)
    × (is_refused s false ≡ true)
    × (has (parents_of t.dependencies child) parent ≡ true)

module _ ⦃prisma : Prisma⦄ ⦃text : DecimalText⦄ where
  evaluate_static :
      (env : Surroundings) (t : Tables) (child : String) (s : Segment)
      → find_segment_row t.segments child ≡ some s
      → is_refused s false ≡ true
      → evaluate_segment (env.now child) (env.batch_id child) child false t
        ≡ (err (static_segment s.name), t)
  unfolding evaluate_segment
  evaluate_static env t child s found refused = rw (prisma.find_segment_lem t child, found, refused)

  -- An evaluation without force leaves a static dependent where it is.
  evaluate-IsStaticChild :
      (env : Surroundings) (id : String) (t : Tables) (parent child : String)
      → IsStaticChild t parent child
      → IsStaticChild (evaluate_segment (env.now id) (env.batch_id id) id false t).1 parent child
  evaluate-IsStaticChild env id t parent child (s, found, refused, there) =
      elim (Bool-cases (id == child)) [
        | inl same ↦
            rw ((eq_iff id child).0 same, evaluate_static env t child s found refused)
              (s, found, refused, there)
        | inr other ↦ elim (evaluate_segment_atomic (env.now id) (env.batch_id id) id false t) [
          | inl (e, failed) ↦ rw failed (s, found, refused, there)
          | inr (u, r, t', found', done, meets) ↦ rw done (
            s,
            rw meets.segments found,
            refused,
            ground (
              arith,
              meets.parents child parent,
              find_segment_row-id t.segments id u found',
              eq_iff id child,
              eq_iff u.id child,
            ),
          )
        ]
      ]

  evaluate_children-IsStaticChild :
      (env : Surroundings) (children : List String) (t : Tables) (parent child : String)
      → IsStaticChild t parent child
      → IsStaticChild (evaluate_children env children t).1 parent child
  unfolding evaluate_children
  evaluate_children-IsStaticChild env [] t parent child h = h
  evaluate_children-IsStaticChild env (id ∷ rest) t parent child h =
      let h1 = evaluate-IsStaticChild env id t parent child h in
      elim (evaluate_segment_atomic (env.now id) (env.batch_id id) id false t) [
        | inl (e, failed) ↦ rw failed h
        | inr (u, r, t', found', done, meets) ↦
            rw done (evaluate_children-IsStaticChild env rest t' parent child (rw done at h1))
      ]

  -- The loop throws if it comes to a static segment.
  evaluate_children_throws :
      (env : Surroundings) (children : List String) (t : Tables) (parent child : String)
      → IsStaticChild t parent child
      → has children child ≡ true
      → (e : Error) × ((evaluate_children env children t).0 ≡ err e)
  unfolding evaluate_children has
  evaluate_children_throws env [] t parent child h m = absurd (ground arith)
  evaluate_children_throws env (id ∷ rest) t parent child (s, found, refused, there) m =
      elim (Bool-cases (id == child)) [
        | inl same ↦ (
          static_segment s.name,
          rw ((eq_iff id child).0 same, evaluate_static env t child s found refused),
        )
        | inr other ↦ elim (evaluate_segment_atomic (env.now id) (env.batch_id id) id false t) [
          | inl (e, failed) ↦ (e, rw failed)
          | inr (u, r, t', found', done, meets) ↦
              let h1 = evaluate-IsStaticChild env id t parent child (s, found, refused, there) in
              let (e, threw) =
                evaluate_children_throws env rest t' parent child (rw done at h1) (ground arith) in
              (e, rw done threw)
        ]
      ]

  -- The tables after deliveries of one event, each with its own surroundings.
  unfoldable pub redelivered : List Surroundings → EventEnvelope → Tables → Tables
  redelivered [] e t = t
  redelivered (env ∷ envs) e t = redelivered envs e (process env e t).1

  redelivered-IsStaticChild :
      (envs : List Surroundings) (e : EventEnvelope) (t : Tables) (child : String)
      → e.event_type ≡ segment_delta
      → IsStaticChild t e.payload.segment_id child
      → IsStaticChild (redelivered envs e t) e.payload.segment_id child
  unfolding redelivered process
  redelivered-IsStaticChild [] e t child typed h = h
  redelivered-IsStaticChild (env ∷ envs) e t child typed h =
      redelivered-IsStaticChild envs e (handle env e t).1 child typed (
        rw (handle-children env e t typed) (
          evaluate_children-IsStaticChild env (children_of t.dependencies e.payload.segment_id) t
            e.payload.segment_id child h))

  -- If a static segment depends on the changed one, the delivery is requeued, and so is every
  -- redelivery, however often the event comes back.
  pub process_static_dependent :
      (env : Surroundings) (envs : List Surroundings) (e : EventEnvelope) (t : Tables)
      (child : String)
      → e.event_type ≡ segment_delta
      → IsStaticChild t e.payload.segment_id child
      → (process env e (redelivered envs e t)).0 ≡ requeued
  unfolding process
  process_static_dependent env envs e t child typed h =
      let (s, found, refused, there) = redelivered-IsStaticChild envs e t child typed h in
      let u = redelivered envs e t in
      let (error, threw) =
        evaluate_children_throws env (children_of u.dependencies e.payload.segment_id) u
          e.payload.segment_id child (s, found, refused, there)
          (children-parents u.dependencies e.payload.segment_id child ∙ there) in
      rw (handle-children env e u typed, threw)
