-- ===== src/Database.antt =====
-- The tables of apps/api/prisma/schema.prisma, and the columns that the services read or write.
-- A list stands for the rows in the order in which the database returns them.
pub mod Views
pub mod MemberLaws
pub mod DependencyLaws
pub mod Prisma
pub mod InMemory
use optio_ai_assignment.Prelude.{ℕ, String, Option, List}
use optio_ai_assignment.Prelude.Int.{ℤ}
use optio_ai_assignment.Shared.Json.{Fields}
use optio_ai_assignment.Shared.Rule.{SegmentRule}
use optio_ai_assignment.Shared.Events.{SegmentDeltaPayload}

pub data SegmentType : Type 0 where
  dynamic static : SegmentType

pub data DeltaChange : Type 0 where
  add remove : DeltaChange

pub data OutboxStatus : Type 0 where
  pending published : OutboxStatus

pub record Customer : Type 0 where
  pub id : String
  pub name : String
  pub email : String
  pub profile : Fields

-- `amount` in hundredths (Decimal(12, 2)), `occurred_at` in milliseconds.
pub record Transaction : Type 0 where
  pub customer_id : String
  pub amount : ℤ
  pub occurred_at : ℤ

pub record Segment : Type 0 where
  pub id : String
  pub name : String
  pub description : Option String
  pub type : SegmentType
  pub rule : SegmentRule

pub record SegmentMember : Type 0 where
  pub segment_id : String
  pub customer_id : String

pub record SegmentDelta : Type 0 where
  pub segment_id : String
  pub customer_id : String
  pub change : DeltaChange
  pub batch_id : String

pub record SegmentDependency : Type 0 where
  pub parent_id : String
  pub child_id : String

pub record ProcessedEvent : Type 0 where
  pub event_id : String
  pub consumer_name : String

pub record OutboxEvent : Type 0 where
  pub id : String
  pub event_type : String
  pub payload : SegmentDeltaPayload
  pub status : OutboxStatus
  pub created_at : ℕ

pub record Tables : Type 0 where
  pub customers : List Customer
  pub transactions : List Transaction
  pub segments : List Segment
  pub members : List SegmentMember
  pub deltas : List SegmentDelta
  pub dependencies : List SegmentDependency
  pub outbox : List OutboxEvent
  pub processed : List ProcessedEvent
