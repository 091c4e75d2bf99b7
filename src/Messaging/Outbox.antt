-- ===== src/Messaging/Outbox.antt =====
-- apps/api/src/messaging/outbox-publisher.service.ts: one run of the publisher.
pub mod Delivery
use optio_ai_assignment.Prelude.{ℕ, String, Bool, true, false, List, [], ◌∷◌, ◌++◌, map}
use optio_ai_assignment.Shared.Events.{EventEnvelope}
use optio_ai_assignment.Database.{OutboxEvent, Tables}
use optio_ai_assignment.Database.Prisma.{Prisma}

-- How a call of `publish` on the channel ends: `true`, `false` (its write buffer is full; the
-- message is buffered all the same), or a throw before the message is taken.
pub data Reply : Type 0 where
  accepted full throws : Reply

-- BATCH_SIZE
abbrev pub batch_size : ℕ
batch_size = 100

abbrev pub envelope : OutboxEvent → EventEnvelope
envelope row = record {
  event_id = row.id;
  event_type = row.event_type;
  created_at = row.created_at;
  payload = row.payload;
}

-- `reply` is what the channel answers to each message of this run.
module _ ⦃prisma : Prisma⦄ (reply : EventEnvelope → Reply) where
  -- the `for` loop: the messages that the channel took, and the tables
  unfoldable pub publish_rows : List OutboxEvent → Tables → List EventEnvelope × Tables
  publish_rows [] t = ([], t)
  publish_rows (row ∷ rows) t =
      let rest : List EventEnvelope × Tables = publish_rows rows (prisma.publish_event row.id t) in
      elim (reply (envelope row)) [
        | accepted ↦ (envelope row ∷ rest.0, rest.1)
        | full ↦ (envelope row ∷ [], t)
        | throws ↦ ([], t)
      ]

  unfoldable pub drain_batch : Tables → List EventEnvelope × Tables
  drain_batch t = publish_rows (prisma.find_pending t batch_size) t

module _ ⦃prisma : Prisma⦄ (reply : EventEnvelope → Reply) where
  -- `tick`: while a run is in flight the timer does nothing; what a run throws is caught.
  unfoldable pub tick : Bool → Tables → List EventEnvelope × Tables
  tick true t = ([], t)
  tick false t = drain_batch reply t
