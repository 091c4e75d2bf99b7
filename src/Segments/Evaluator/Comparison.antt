-- ===== src/Segments/Evaluator/Comparison.antt =====
-- The comparison operators of a rule, against one another.
use optio_ai_assignment.Prelude.{true, false, not, ◌&&◌, ◌||◌, ◌≡◌, arith}
use optio_ai_assignment.Number.{
  Number, finite, infinity, neg_infinity, nan, lt, le, strict_eq, is_nan, is_finite,
}
use optio_ai_assignment.Shared.Rule.{ComparisonOp}
use optio_ai_assignment.Segments.Evaluator.{apply_op}

-- On numbers that are not NaN the six operators are three pairs of opposites, `>=` is `>` or `==`,
-- and `==` is `<=` and `>=`.
pub apply_op_complement :
    (a b : Number)
    → is_nan a ≡ false
    → is_nan b ≡ false
    → (apply_op a ComparisonOp.gt b ≡ not (apply_op a ComparisonOp.le b))
      × (apply_op a ComparisonOp.lt b ≡ not (apply_op a ComparisonOp.ge b))
      × (apply_op a ComparisonOp.ne b ≡ not (apply_op a ComparisonOp.eq b))
      × (apply_op a ComparisonOp.ge b
          ≡ (apply_op a ComparisonOp.gt b || apply_op a ComparisonOp.eq b))
      × (apply_op a ComparisonOp.eq b
          ≡ (apply_op a ComparisonOp.le b && apply_op a ComparisonOp.ge b))
unfolding apply_op lt le strict_eq is_nan
apply_op_complement (finite a) (finite b) h k = ground arith
apply_op_complement (finite a) infinity h k = ground arith
apply_op_complement (finite a) neg_infinity h k = ground arith
apply_op_complement infinity (finite a) h k = ground arith
apply_op_complement infinity infinity h k = ground arith
apply_op_complement infinity neg_infinity h k = ground arith
apply_op_complement neg_infinity (finite a) h k = ground arith
apply_op_complement neg_infinity infinity h k = ground arith
apply_op_complement neg_infinity neg_infinity h k = ground arith
apply_op_complement nan b h k = ground arith
apply_op_complement a nan h k = ground arith

-- `Infinity`, the age of a customer with no transaction, is above every finite threshold: `>` and `>=`
-- hold, `<`, `<=` and `==` do not.
pub apply_op-infinity :
    (value : Number)
    → is_finite value ≡ true
    → (apply_op infinity ComparisonOp.gt value ≡ true)
      × (apply_op infinity ComparisonOp.ge value ≡ true)
      × (apply_op infinity ComparisonOp.lt value ≡ false)
      × (apply_op infinity ComparisonOp.le value ≡ false)
      × (apply_op infinity ComparisonOp.eq value ≡ false)
unfolding apply_op lt le strict_eq is_finite
apply_op-infinity (finite a) h = ground arith
apply_op-infinity value h = ground arith
