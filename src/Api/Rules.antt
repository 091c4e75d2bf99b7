-- ===== src/Api/Rules.antt =====
-- `validateRule` of apps/api/src/segments/segments.controller.ts. The depth counts down: 33 levels
-- are left at depth 0, and none at depth 33, where the source refuses the node.
pub mod Written
pub mod Validated
use optio_ai_assignment.Prelude.{
  ℕ, zero, suc, ◌+◌, String, Bool, true, false, Option, none, some, List, [], ◌∷◌, ◌++◌, ◌==◌,
  if◌then◌else◌,
}
use optio_ai_assignment.Number.{Number, is_finite}
use optio_ai_assignment.Shared.Rule.{
  CustomerMetric, tx_count_30d, tx_count_total, sum_amount_60d, last_tx_age_days, ComparisonOp, gt,
  ge, lt, le, eq, ne, SegmentRule, compare, in_segment, and, Rules,
}
use optio_ai_assignment.Shared.Result.{
  Error, Result, ok, err, bind, Fault, too_deep, not_an_object, bad_metric, bad_op, bad_value,
  bad_segment_id, bad_children, bad_kind, invalid_rule,
}
use optio_ai_assignment.Shared.Json.{
  Json, null, bool, number, string, array, object, Elements, no_elements, element, Fields, field,
}

-- VALID_METRICS.includes(metric)
unfoldable pub metric_of : String → Option CustomerMetric
metric_of s =
    if s == "tx_count_30d"
    then some tx_count_30d
    else if s == "tx_count_total"
    then some tx_count_total
    else if s == "sum_amount_60d"
    then some sum_amount_60d
    else if s == "last_tx_age_days"
    then some last_tx_age_days
    else none

-- VALID_OPS.includes(op)
unfoldable pub op_of : String → Option ComparisonOp
op_of s =
    if s == ">"
    then some gt
    else if s == ">="
    then some ge
    else if s == "<"
    then some lt
    else if s == "<="
    then some le
    else if s == "=="
    then some eq
    else if s == "!="
    then some ne
    else none

-- a field read as what it must be, and `none` if it is something else
abbrev pub as_string : Option Json → Option String
as_string (some (string s)) = some s
as_string _ = none

abbrev pub as_number : Option Json → Option Number
as_number (some (number n)) = if is_finite n then some n else none
as_number _ = none

abbrev pub as_id : Option String → Option String
as_id (some s) = if s == "" then none else some s
as_id none = none

abbrev pub as_array : Option Json → Option Elements
as_array (some (array no_elements)) = none
as_array (some (array es)) = some es
as_array _ = none

abbrev pub chain {ℓ} : {A B : Type ℓ} → (A → Option B) → Option A → Option B
chain f (some a) = f a
chain f none = none

-- the value, or the fault
abbrev pub require {ℓ} : {A : Type ℓ} → List ℕ → Fault → Option A → Result A
require path fault (some a) = ok a
require path fault none = err (invalid_rule path fault)

unfoldable pub validate_compare : List ℕ → Fields → Result SegmentRule
validate_compare path node =
    bind (require path bad_metric (chain metric_of (as_string (field "metric" node)))) (λ metric.
      bind (require path bad_op (chain op_of (as_string (field "op" node)))) (λ op.
        bind (require path bad_value (as_number (field "value" node)))
          (λ value. ok (compare metric op value))))

unfoldable pub validate_reference : List ℕ → Fields → Result SegmentRule
validate_reference path node =
    bind (require path bad_segment_id (as_id (as_string (field "segmentId" node))))
      (λ id. ok (in_segment id))

-- `children.map((c, i) => …)`, from the position `i` on
unfoldable pub validate_each : (ℕ → Json → Result SegmentRule) → ℕ → Elements → Result Rules
validate_each f i no_elements = ok Rules.nil
validate_each f i (element c rest) =
    let later = validate_each f (i + 1) rest in
    bind (f i c) (λ rule. bind later (λ rules. ok (Rules.cons rule rules)))

abbrev pub validate_kind :
    List ℕ → (ℕ → Json → Result SegmentRule) → Fields → Option String → Result SegmentRule
validate_kind path child node none = err (invalid_rule path bad_kind)
validate_kind path child node (some kind) =
    if kind == "compare"
    then validate_compare path node
    else if kind == "in_segment"
    then validate_reference path node
    else if kind == "and"
    then bind (require path bad_children (as_array (field "children" node)))
        (λ children. bind (validate_each child 0 children) (λ rules. ok (and rules)))
    else err (invalid_rule path bad_kind)

-- the object test and the switch on `kind`; an array is an object without `kind`
abbrev pub validate_node : List ℕ → (ℕ → Json → Result SegmentRule) → Json → Result SegmentRule
validate_node path child (object node) =
    validate_kind path child node (as_string (field "kind" node))
validate_node path child (array es) = err (invalid_rule path bad_kind)
validate_node path child _ = err (invalid_rule path not_an_object)

unfoldable pub validate_at : ℕ → List ℕ → Json → Result SegmentRule
validate_at zero path input = err (invalid_rule path too_deep)
validate_at (suc left) path input =
    validate_node path (λ i c. validate_at left (path ++ i ∷ []) c) input

abbrev pub validate_rule : Json → Result SegmentRule
validate_rule input = validate_at 33 [] input
