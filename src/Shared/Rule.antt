-- ===== src/Shared/Rule.antt =====
-- packages/shared/src/segment-rules.ts. The children of an `and` node are a list type of their own.
use optio_ai_assignment.Prelude.{String}
use optio_ai_assignment.Number.{Number}

pub data CustomerMetric : Type 0 where
  tx_count_30d tx_count_total sum_amount_60d last_tx_age_days : CustomerMetric

-- '>', '>=', '<', '<=', '==', '!='
pub data ComparisonOp : Type 0 where
  gt ge lt le eq ne : ComparisonOp

mutual
  pub data SegmentRule : Type 0 where
    compare : CustomerMetric → ComparisonOp → Number → SegmentRule
    in_segment : String → SegmentRule
    and : Rules → SegmentRule

  pub data Rules : Type 0 where
    nil : Rules
    cons : SegmentRule → Rules → Rules
