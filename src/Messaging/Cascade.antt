-- ===== src/Messaging/Cascade.antt =====
-- apps/api/src/messaging/cascade-consumer.service.ts
pub mod Dependents
pub mod Poison
use optio_ai_assignment.Prelude.{String, false, List, [], ◌∷◌, is_empty, ◌==◌, if◌then◌else◌}
use optio_ai_assignment.Shared.Events.{segment_delta, EventEnvelope}
use optio_ai_assignment.Shared.Result.{Result, ok, err, Exec, pure, gets, continue, ◌>>=◌, ◌>>◌}
use optio_ai_assignment.Database.{Tables}
use optio_ai_assignment.Database.Prisma.{Prisma}
use optio_ai_assignment.Segments.Metrics.{DecimalText}
use optio_ai_assignment.Segments.Evaluation.{evaluate_segment}
use optio_ai_assignment.Segments.Rebuild.{Surroundings}
use optio_ai_assignment.Messaging.Campaign.{Settlement, acked, requeued}

-- `ack` if the handler returned, `nack` with requeue if it threw.
abbrev pub settle : Result (Unit {0}) → Settlement
settle (ok _) = acked
settle (err _) = requeued

module _ ⦃prisma : Prisma⦄ ⦃text : DecimalText⦄ where
  -- the loop over the dependents, without force
  unfoldable pub evaluate_children : Surroundings → List String → Exec Tables (Unit {0})
  evaluate_children env [] = pure tt
  evaluate_children env (child ∷ rest) =
      evaluate_segment (env.now child) (env.batch_id child) child false
      >> evaluate_children env rest

  unfoldable pub handle : Surroundings → EventEnvelope → Exec Tables (Unit {0})
  handle env e =
      if e.event_type == segment_delta
      then (gets (λ t. prisma.find_dependents t e.payload.segment_id) >>= λ dependents.
          if is_empty dependents then pure tt else evaluate_children env dependents)
      else pure tt

  unfoldable pub process : Surroundings → EventEnvelope → Tables → Settlement × Tables
  process env e t = (settle (handle env e t).0, (handle env e t).1)
