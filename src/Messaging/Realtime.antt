-- ===== src/Messaging/Realtime.antt =====
-- apps/api/src/messaging/realtime.gateway.ts. What the gateway sends is a list of messages, and a
-- delivery that does not parse or whose emit throws is requeued; `ready`
-- says whether the socket server is there.
use optio_ai_assignment.Prelude.{
  Option, none, some, false, String, Bool, ◌≡◌, refl, List, [], ◌∷◌, ◌++◌, map, filter, ◌==◌,
  if◌then◌else◌, Bool-cases, inl, inr,
}
use optio_ai_assignment.Shared.Events.{
  segment_delta, campaign_notification, SegmentDeltaPayload, EventEnvelope,
  CampaignNotificationPayload,
}
use optio_ai_assignment.Messaging.Campaign.{Settlement, acked, requeued}

pub data Message : Type 0 where
  delta : SegmentDeltaPayload → Message
  campaign : CampaignNotificationPayload → Message

abbrev pub event_name : Message → String
event_name (delta payload) = segment_delta
event_name (campaign payload) = campaign_notification

-- `throws` says whether `server.emit` does; `none` is the throw
unfoldable pub handle : Bool → EventEnvelope → Option (List Message)
handle throws e =
    if e.event_type == segment_delta
    then (if throws then none else some (delta e.payload ∷ []))
    else some []

abbrev settle : Option (List Message) → List Message × Settlement
settle none = ([], requeued)
settle (some sent) = (sent, acked)

-- an event that does not parse is `none`; what throws is requeued
unfoldable pub process : Bool → Option EventEnvelope → List Message × Settlement
process throws none = ([], requeued)
process throws (some e) = settle (handle throws e)

unfoldable pub broadcast_campaign : Bool → CampaignNotificationPayload → List Message
broadcast_campaign ready payload = if ready then campaign payload ∷ [] else []

-- What the gateway sends for deliveries, one behind the other, where no emit throws.
unfoldable pub process_all : List EventEnvelope → List Message
process_all [] = []
process_all (e ∷ rest) = (process false (some e)).0 ++ process_all rest

abbrev pub is_delta : EventEnvelope → Bool
is_delta e = e.event_type == segment_delta

-- The clients get the payload of every delta event that is delivered, once for each delivery and in
-- the order of the deliveries, and nothing for another event.
pub process_all-deltas :
    (events : List EventEnvelope)
    → process_all events ≡ map (λ e. delta e.payload) (filter is_delta events)
unfolding process_all process handle
process_all-deltas [] = refl
process_all-deltas (e ∷ rest) = elim (Bool-cases (is_delta e)) [
  | inl d ↦ rw (d, process_all-deltas rest)
  | inr d ↦ rw (d, process_all-deltas rest)
]
