-- ===== src/Messaging/Campaign/Claims.antt =====
-- What a delivery does, first and again.
use optio_ai_assignment.Prelude.{
  ℕ, String, Bool, true, false, ◌&&◌, ◌||◌, ◌≡◌, refl, ap, Option, none, List, [], ◌∷◌, ◌++◌, take,
  is_empty, ◌==◌, eq_iff, arith,
}
use optio_ai_assignment.Shared.Events.{
  segment_delta, SegmentDeltaPayload, EventEnvelope, CampaignKind, add,
}
use optio_ai_assignment.Database.{Customer, ProcessedEvent, Tables}
use optio_ai_assignment.Database.Views.{is_claimed}
use optio_ai_assignment.Database.Prisma.{Prisma}
use optio_ai_assignment.Messaging.Campaign.{
  consumer_name, acked, requeued, Handled, notify, work, process,
}

is_claimed-append :
    (rows : List ProcessedEvent) (j id consumer : String)
    → is_claimed (rows ++ record { event_id = j; consumer_name = consumer } ∷ []) id consumer
      ≡ (is_claimed rows id consumer || j == id)
unfolding is_claimed
is_claimed-append [] j id consumer = ground (arith, eq_iff j id, eq_iff consumer consumer)
is_claimed-append (p ∷ rows) j id consumer = ground (arith, is_claimed-append rows j id consumer)

-- The campaign consumer has claimed the event.
abbrev pub claimed : Tables → String → Bool
claimed t id = is_claimed t.processed id consumer_name

module _ ⦃prisma : Prisma⦄ (now : ℕ) (customers : List String → Option (List Customer)) where
  -- A delivery of an event that is claimed is acknowledged, and does nothing.
  pub process_duplicate :
      (e : EventEnvelope) (t : Tables)
      → claimed t e.event_id ≡ true
      → process now customers e t ≡ record { broadcast = []; tables = t; settlement = acked }
  unfolding process
  process_duplicate e t h = rw (prisma.claim_event_lem e.event_id consumer_name t, h) (ground arith)

  -- Each delivery of a delta claims its event, whether or not the work on it succeeds, and claims no
  -- other; a delivery of another type claims nothing.
  pub process-claims :
      (e : EventEnvelope) (t : Tables) (id : String)
      → claimed (process now customers e t).tables id
        ≡ (claimed t id || (e.event_type == segment_delta) && e.event_id == id)
  unfolding process work
  process-claims e t id = rw (prisma.claim_event_lem e.event_id consumer_name t) (
      ground
        (arith, is_claimed-append t.processed e.event_id id consumer_name, eq_iff e.event_id id))

module _ ⦃prisma : Prisma⦄ (now : ℕ) (customers : List String → Option (List Customer)) where
  notify_failed :
      (p : SegmentDeltaPayload) (kind : CampaignKind) (ids : List String)
      → is_empty ids ≡ false
      → customers (take 3 ids) ≡ none
      → notify now customers p kind ids ≡ none
  unfolding notify
  notify_failed p kind [] h failed = absurd (ground arith)
  notify_failed p kind (id ∷ ids) h failed = rw failed

  process_failed :
      (e : EventEnvelope) (t : Tables)
      → (e.event_type == segment_delta) ≡ true
      → claimed t e.event_id ≡ false
      → is_empty e.payload.added ≡ false
      → customers (take 3 e.payload.added) ≡ none
      → ((process now customers e t).broadcast ≡ [])
        × ((process now customers e t).settlement ≡ requeued)
  unfolding process work
  process_failed e t typed fresh joined failed =
      rw
        (
          typed,
          prisma.claim_event_lem e.event_id consumer_name t,
          fresh,
          work,
          notify_failed e.payload add e.payload.added joined failed,
        )
        (refl, refl)

-- A delivery with what its surroundings answer: the clock, and the query for names.
pub record Delivery : Type 0 where
  pub now : ℕ
  pub customers : List String → Option (List Customer)
  pub envelope : EventEnvelope

module _ ⦃prisma : Prisma⦄ where
  abbrev pub deliver : Delivery → Tables → Handled
  deliver d t = process d.now d.customers d.envelope t

  -- The tables after deliveries, one behind the other.
  unfoldable pub after_all : List Delivery → Tables → Tables
  after_all [] t = t
  after_all (d ∷ rest) t = after_all rest (deliver d t).tables

  claimed-after_all :
      (rest : List Delivery) (t : Tables) (id : String)
      → claimed t id ≡ true
      → claimed (after_all rest t) id ≡ true
  unfolding after_all
  claimed-after_all [] t id h = h
  claimed-after_all (d ∷ rest) t id h =
      claimed-after_all rest (deliver d t).tables id
        (rw (process-claims d.now d.customers d.envelope t id, h) refl)

  -- After the first delivery of a delta event, and whatever was delivered since, another delivery
  -- of the event broadcasts nothing, changes no table and is acknowledged.
  pub process_at_most_once :
      (first again : Delivery) (between : List Delivery) (t : Tables)
      → first.envelope.event_type ≡ segment_delta
      → again.envelope.event_id ≡ first.envelope.event_id
      → deliver again (after_all between (deliver first t).tables) ≡ record {
        broadcast = [];
        tables = after_all between (deliver first t).tables;
        settlement = acked;
      }
  process_at_most_once first again between t typed same =
      process_duplicate again.now again.customers again.envelope
        (after_all between (deliver first t).tables)
        (rw same (
          claimed-after_all between (deliver first t).tables first.envelope.event_id (
            ground (
              arith,
              process-claims first.now first.customers first.envelope t first.envelope.event_id,
              eq_iff first.envelope.event_type segment_delta,
              eq_iff first.envelope.event_id first.envelope.event_id,
            ))))

  -- If the query for names fails at the first delivery of an event that has new members, the event is
  -- requeued without a notice, and its redelivery is acknowledged without a notice too.
  pub process_lost :
      (first again : Delivery) (t : Tables)
      → first.envelope.event_type ≡ segment_delta
      → again.envelope ≡ first.envelope
      → claimed t first.envelope.event_id ≡ false
      → is_empty first.envelope.payload.added ≡ false
      → first.customers (take 3 first.envelope.payload.added) ≡ none
      → ((deliver first t).broadcast ≡ [])
        × ((deliver first t).settlement ≡ requeued)
        × ((deliver again (deliver first t).tables).broadcast ≡ [])
        × ((deliver again (deliver first t).tables).settlement ≡ acked)
  process_lost first again t typed same fresh joined failed =
      let twice =
        process_at_most_once first again [] t typed (ap (λ (e : EventEnvelope). e.event_id) same) in
      let (silent, back) =
        process_failed first.now first.customers first.envelope t
          ((eq_iff first.envelope.event_type segment_delta).1 typed) fresh joined failed in
      (
        silent,
        back,
        unfold after_all in ap (λ (h : Handled). h.broadcast) twice,
        unfold after_all in ap (λ (h : Handled). h.settlement) twice,
      )
