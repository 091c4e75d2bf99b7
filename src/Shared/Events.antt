-- ===== src/Shared/Events.antt =====
-- packages/shared/src/segment-events.ts
use optio_ai_assignment.Prelude.{ℕ, String, List}

-- EventTypes
abbrev pub segment_delta : String
segment_delta = "segment.delta"

abbrev pub campaign_notification : String
campaign_notification = "campaign.notification"

pub record SegmentDeltaPayload : Type 0 where
  pub segment_id : String
  pub segment_name : String
  pub batch_id : String
  pub added : List String
  pub removed : List String

pub record EventEnvelope : Type 0 where
  pub event_id : String
  pub event_type : String
  pub created_at : ℕ
  pub payload : SegmentDeltaPayload

pub data CampaignKind : Type 0 where
  add remove : CampaignKind

pub record CampaignNotificationPayload : Type 0 where
  pub at : ℕ
  pub segment_id : String
  pub segment_name : String
  pub kind : CampaignKind
  pub customer_names : List String
  pub total_count : ℕ
