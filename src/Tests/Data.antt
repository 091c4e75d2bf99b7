-- ===== src/Tests/Data.antt =====
-- Segments, tables and clients for the tests.
use optio_ai_assignment.Prelude.{
  false, refl, none, some, [], ◌∷◌, is_empty, to_set_onto, if◌then◌else◌,
}
use optio_ai_assignment.Prelude.Int.{pos}
use optio_ai_assignment.Number.{finite}
use optio_ai_assignment.Shared.Json.{no_fields}
use optio_ai_assignment.Shared.Rule.{tx_count_total, gt, SegmentRule, compare, in_segment}
use optio_ai_assignment.Shared.Events.{segment_delta, SegmentDeltaPayload, EventEnvelope}
use optio_ai_assignment.Database.{dynamic, static, Customer, Transaction, Segment, Tables}
use optio_ai_assignment.Segments.Metrics.{DecimalText}
use optio_ai_assignment.Segments.Rebuild.{Surroundings}
use optio_ai_assignment.Messaging.Buffer.{Redis, ChangeBuffer}

instance abbrev pub decimal_text : DecimalText
decimal_text = record { of_amount = finite; of_age = finite }

instance abbrev pub redis_sets : Redis
redis_sets = record {
  sadd = λ ids k. record k { buffer = to_set_onto k.buffer ids };
  sadd_lem = λ ids k. refl;
  rename =
      λ k. if is_empty k.buffer then none else some (record { buffer = []; snapshot = k.buffer });
  rename_lem = λ k. refl;
  smembers = λ k. k.snapshot;
  smembers_lem = λ k. refl;
  del = λ k. record k { snapshot = [] };
  del_lem = λ k. refl;
}

abbrev pub has_bought : SegmentRule
has_bought = compare tx_count_total gt (finite (pos 0))

-- buyers: customers with a transaction; twins: those who are buyers; picked: the same, but static
abbrev pub buyers : Segment
buyers = record {
  id = "buyers";
  name = "Buyers";
  description = none;
  type = dynamic;
  rule = has_bought;
}

abbrev pub twins : Segment
twins = record {
  id = "twins";
  name = "Twins";
  description = none;
  type = dynamic;
  rule = in_segment "buyers";
}

abbrev pub picked : Segment
picked = record {
  id = "picked";
  name = "Picked";
  description = none;
  type = static;
  rule = in_segment "buyers";
}

abbrev pub ann : Customer
ann = record { id = "ann"; name = "Ann"; email = "ann@drift.test"; profile = no_fields }

abbrev pub bob : Customer
bob = record { id = "bob"; name = "Bob"; email = "bob@drift.test"; profile = no_fields }

abbrev pub bought : Transaction
bought = record { customer_id = "ann"; amount = pos 500; occurred_at = pos 1000 }

abbrev pub base : Tables
base = record {
  customers = ann ∷ bob ∷ [];
  transactions = bought ∷ [];
  segments = twins ∷ buyers ∷ picked ∷ [];
  members = [];
  deltas = [];
  dependencies = record { parent_id = "buyers"; child_id = "twins" } ∷ [];
  outbox = [];
  processed = [];
}

-- After the static segment was refreshed by hand: it depends on the buyers.
abbrev pub refreshed : Tables
refreshed = record base { dependencies = record { parent_id = "buyers"; child_id = "picked" } ∷ [] }

-- Two dynamic segments that refer to each other.
abbrev pub entwined : Tables
entwined = record base { segments = twins ∷ record buyers { rule = in_segment "twins" } ∷ [] }

abbrev pub env : Surroundings
env = record { now = λ id. pos 2000; batch_id = λ id. "batch" }

abbrev pub payload : SegmentDeltaPayload
payload = record {
  segment_id = "buyers";
  segment_name = "Buyers";
  batch_id = "batch";
  added = "ann" ∷ [];
  removed = [];
}

abbrev pub event : EventEnvelope
event = record { event_id = "e1"; event_type = segment_delta; created_at = 5; payload = payload }

-- A buffer with one marked customer.
abbrev pub buffered : Tables → ChangeBuffer
buffered t = record {
  in_flight = false;
  keys = record { buffer = "ann" ∷ []; snapshot = [] };
  tables = t;
}
