-- ===== src/Segments/Evaluator.antt =====
-- apps/api/src/segments/evaluator.service.ts
pub mod Meaning
pub mod Comparison
pub mod Throws
pub mod Congruence
use optio_ai_assignment.Prelude.{
  String, Bool, true, false, not, Option, none, some, List, [], ◌∷◌, ◌==◌, has, if◌then◌else◌,
}
use optio_ai_assignment.Number.{Number, lt, le, strict_eq}
use optio_ai_assignment.Shared.Rule.{
  CustomerMetric, tx_count_30d, tx_count_total, sum_amount_60d, last_tx_age_days, ComparisonOp,
  SegmentRule, compare, in_segment, and, Rules, nil, cons,
}
use optio_ai_assignment.Shared.Result.{Result, ok, err, bind, missing_membership}
use optio_ai_assignment.Segments.Metrics.{CustomerMetrics}

-- `Map<string, Set<string>>`
abbrev pub Memberships : Type 0
Memberships = List (String × List String)

-- `map.get(key)`
unfoldable pub get : Memberships → String → Option (List String)
get [] key = none
get ((k, members) ∷ rest) key = let later = get rest key in if k == key then some members else later

-- `metrics[node.metric]`
abbrev pub metric_value : CustomerMetrics → CustomerMetric → Number
metric_value m tx_count_30d = m.tx_count_30d
metric_value m tx_count_total = m.tx_count_total
metric_value m sum_amount_60d = m.sum_amount_60d
metric_value m last_tx_age_days = m.last_tx_age_days

unfoldable pub apply_op : Number → ComparisonOp → Number → Bool
apply_op left ComparisonOp.gt right = lt right left
apply_op left ComparisonOp.ge right = le right left
apply_op left ComparisonOp.lt right = lt left right
apply_op left ComparisonOp.le right = le left right
apply_op left ComparisonOp.eq right = strict_eq left right
apply_op left ComparisonOp.ne right = not (strict_eq left right)

unfoldable pub evaluate_compare : CustomerMetric → ComparisonOp → Number → CustomerMetrics → Bool
evaluate_compare metric op value metrics = apply_op (metric_value metrics metric) op value

-- the `in_segment` case: `members.has(customerId)`, or the throw if no membership was loaded
abbrev has_member : String → Option (List String) → String → Result Bool
has_member segment_id none customer_id = err (missing_membership segment_id)
has_member segment_id (some members) customer_id = ok (has members customer_id)

unfoldable mutual
  pub evaluate : SegmentRule → CustomerMetrics → Memberships → String → Result Bool
  evaluate (compare metric op value) metrics parent_memberships customer_id =
      ok (evaluate_compare metric op value metrics)
  evaluate (in_segment segment_id) metrics parent_memberships customer_id =
      has_member segment_id (get parent_memberships segment_id) customer_id
  evaluate (and children) metrics parent_memberships customer_id =
      every children metrics parent_memberships customer_id

  -- `every` stops at the first child that is false, and so does not reach a later throw
  pub every : Rules → CustomerMetrics → Memberships → String → Result Bool
  every nil metrics parent_memberships customer_id = ok true
  every (cons child rest) metrics parent_memberships customer_id =
      let later = every rest metrics parent_memberships customer_id in
      bind (evaluate child metrics parent_memberships customer_id)
        (λ b. if b then later else ok false)
