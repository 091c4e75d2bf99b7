-- ===== src/Messaging/Campaign.antt =====
-- apps/api/src/messaging/campaign-consumer.service.ts
pub mod Claims
pub mod Notices
use Prim.Native.String.{slice}
use mathlib.Core.Option
use optio_ai_assignment.Prelude.{
  ℕ, String, Bool, true, false, not, Option, none, some, List, [], ◌∷◌, ◌++◌, map, take, length,
  is_empty, ◌==◌, eqb, if◌then◌else◌,
}
use optio_ai_assignment.Shared.Events.{
  segment_delta, SegmentDeltaPayload, EventEnvelope, CampaignKind, add, remove,
  CampaignNotificationPayload,
}
use optio_ai_assignment.Database.{Customer, Tables}
use optio_ai_assignment.Database.Prisma.{Prisma}

-- CONSUMER_NAME
abbrev pub consumer_name : String
consumer_name = "campaign-consumer"

-- How the handling of a delivery ends on the channel: `ack`, or `nack` with requeue.
pub data Settlement : Type 0 where
  acked requeued : Settlement

-- `byId.get(id) ?? id.slice(0, 8)`, for the rows that the query found
unfoldable pub name_of : List Customer → String → String
name_of [] id = slice id 0 8
name_of (c ∷ rows) id = let later = name_of rows id in if c.id == id then c.name else later

-- What one delivery does: what is broadcast, the tables, and whether the handler returned or threw.
pub record Handled : Type 0 where
  pub broadcast : List CampaignNotificationPayload
  pub tables : Tables
  pub settlement : Settlement

-- `now` is the clock; `customers` answers the query for names, and `none` is its throw.
module _ ⦃prisma : Prisma⦄ (now : ℕ) (customers : List String → Option (List Customer)) where
  unfoldable pub lookup_names : List String → Option (List String)
  lookup_names ids =
      if is_empty ids then some [] else Option.map (λ rows. map (name_of rows) ids) (customers ids)

  abbrev pub notification :
      SegmentDeltaPayload → CampaignKind → List String → List String → CampaignNotificationPayload
  notification p kind ids names = record {
    at = now;
    segment_id = p.segment_id;
    segment_name = p.segment_name;
    kind = kind;
    customer_names = names;
    total_count = length ids;
  }

  -- one of the two blocks: nothing for an empty list, else the names of the first three and a notice
  unfoldable pub notify :
      SegmentDeltaPayload → CampaignKind → List String → Option (List CampaignNotificationPayload)
  unfolding lookup_names
  notify p kind ids =
      if is_empty ids
      then some []
      else Option.map (λ names. notification p kind ids names ∷ []) (lookup_names (take 3 ids))

  -- the work on a claimed event; what was broadcast before a throw stays broadcast
  unfoldable pub work : SegmentDeltaPayload → Tables → Handled
  work p t = elim (notify p add p.added) [
    | none ↦ record { broadcast = []; tables = t; settlement = requeued }
    | some joined ↦ elim (notify p remove p.removed) [
      | none ↦ record { broadcast = joined; tables = t; settlement = requeued }
      | some left ↦ record { broadcast = joined ++ left; tables = t; settlement = acked }
    ]
  ]

  unfoldable pub process : EventEnvelope → Tables → Handled
  process e t =
      if e.event_type == segment_delta
      then (let claim : ℕ × Tables = prisma.claim_event e.event_id consumer_name t in
          if eqb claim.0 0
          then record { broadcast = []; tables = claim.1; settlement = acked }
          else work e.payload claim.1)
      else record { broadcast = []; tables = t; settlement = acked }
