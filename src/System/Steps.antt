-- ===== src/System/Steps.antt =====
-- One step of the service at a time: a request, a delivery or a timer, in any order, or two evaluations
-- of one segment at once, or one that an outage of the database ends.
use optio_ai_assignment.Prelude.{ℕ, String, Bool, false, ◌≡◌, Option, List, has}
use optio_ai_assignment.Prelude.Int.{ℤ}
use optio_ai_assignment.Number.{Number}
use optio_ai_assignment.Shared.Json.{Fields}
use optio_ai_assignment.Shared.Events.{EventEnvelope}
use optio_ai_assignment.Database.{Customer, Transaction, Tables}
use optio_ai_assignment.Database.Views.{segment_ids}
use optio_ai_assignment.Database.Prisma.{Prisma}
use optio_ai_assignment.Segments.Metrics.{DecimalText}
use optio_ai_assignment.Segments.Evaluation.Race.{evaluate_segment_at_once}
use optio_ai_assignment.Segments.Evaluation.Outage.{Outages, evaluate_segment_failing}
use optio_ai_assignment.Segments.Rebuild.{
  Surroundings, rebuild_all_dynamic, on_application_bootstrap,
}
use optio_ai_assignment.Messaging.Outbox.{Reply, drain_batch}
use optio_ai_assignment.Messaging.Campaign
use optio_ai_assignment.Messaging.Campaign.{consumer_name, work}
use optio_ai_assignment.Messaging.Cascade
use optio_ai_assignment.Messaging.Buffer.{Redis, ChangeBuffer, tick}
use optio_ai_assignment.Api.Segments
use optio_ai_assignment.Api.Segments.{CreateSegmentBody, UpdateSegmentBody}
use optio_ai_assignment.Simulator.{
  simulate_transaction, simulate_bulk, simulate_profile, advance_time,
}

module _ ⦃prisma : Prisma⦄ ⦃text : DecimalText⦄ ⦃redis : Redis⦄ where
  abbrev on_tables : (Tables → Tables) → ChangeBuffer → ChangeBuffer
  on_tables f s = record s { tables = f s.tables }

  pub data Step : ChangeBuffer → ChangeBuffer → Type 0 where
    creates :
        (env : Surroundings) (body : CreateSegmentBody) (s : ChangeBuffer)
        → has (segment_ids s.tables.segments) (prisma.new_segment_id s.tables) ≡ false
        → Step s (on_tables (λ t. (Segments.create env body t).1) s)
    updates :
        (env : Surroundings) (id : String) (body : UpdateSegmentBody) (s : ChangeBuffer)
        → Step s (on_tables (λ t. (Segments.update env id body t).1) s)
    removes :
        (id : String) (s : ChangeBuffer) → Step s (on_tables (λ t. (Segments.remove id t).1) s)
    evaluates :
        (env : Surroundings) (id : String) (force : Bool) (s : ChangeBuffer)
        → Step s (on_tables (λ t. (Segments.evaluate env id force t).1) s)
    races :
        (now : ℤ) (first second id : String) (force : Bool) (s : ChangeBuffer)
        → Step s (on_tables (λ t. (evaluate_segment_at_once now first second id force t).1) s)
    -- an evaluation under outages; a rebuild or a cascade that an outage ends is evaluations, and then
    -- this step
    breaks :
        (f : Outages) (now : ℤ) (batch_id id : String) (force : Bool) (s : ChangeBuffer)
        → Step s (on_tables (λ t. (evaluate_segment_failing f now batch_id id force t).1) s)
    rebuilds :
        (env : Surroundings) (s : ChangeBuffer)
        → Step s (on_tables (λ t. (rebuild_all_dynamic env t).1) s)
    starts :
        (env : Surroundings) (s : ChangeBuffer)
        → Step s (on_tables (on_application_bootstrap env) s)
    publishes :
        (reply : EventEnvelope → Reply) (s : ChangeBuffer)
        → Step s (on_tables (λ t. (drain_batch reply t).1) s)
    cascades :
        (env : Surroundings) (e : EventEnvelope) (s : ChangeBuffer)
        → Step s (on_tables (λ t. (Cascade.process env e t).1) s)
    notifies :
        (now : ℕ) (customers : List String → Option (List Customer)) (e : EventEnvelope)
        (s : ChangeBuffer)
        → Step s (on_tables (λ t. (Campaign.process now customers e t).tables) s)
    ticks : (env : Surroundings) (s : ChangeBuffer) → Step s (tick env s)
    pays :
        (customer_id : String) (amount : Option ℤ) (occurred_at : ℤ) (s : ChangeBuffer)
        → Step s (simulate_transaction customer_id amount occurred_at s).1
    floods :
        (draw : ℕ → Transaction) (count chunk_size : ℕ) (s : ChangeBuffer)
        → Step s (simulate_bulk draw count chunk_size s).1
    patches :
        (customer_id : String) (profile : Option Fields) (s : ChangeBuffer)
        → Step s (simulate_profile customer_id profile s).1
    advances : (d : Number) (s : ChangeBuffer) → Step s (advance_time d s).1

  pub data Reaches : ChangeBuffer → ChangeBuffer → Type 0 where
    stay : {s : ChangeBuffer} → Reaches s s
    go : {s s' s'' : ChangeBuffer} → Reaches s s' → Step s' s'' → Reaches s s''
