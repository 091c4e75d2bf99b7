-- ===== src/Api/Rules/Written.antt =====
-- The JSON of a rule, and how the validation reads it back.
use optio_ai_assignment.Prelude.{
  ℕ, zero, suc, ◌+◌, String, Bool, true, false, not, ◌&&◌, ◌≡◌, refl, some, List, [], ◌∷◌, ◌++◌,
  ◌==◌, arith,
}
use optio_ai_assignment.Number.{is_finite}
use optio_ai_assignment.Shared.Rule.{
  CustomerMetric, tx_count_30d, tx_count_total, sum_amount_60d, last_tx_age_days, ComparisonOp, gt,
  ge, lt, le, eq, ne, SegmentRule, compare, in_segment, and, Rules, nil, cons,
}
use optio_ai_assignment.Shared.Result.{ok}
use optio_ai_assignment.Shared.Json.{
  Json, number, string, array, object, Elements, no_elements, element, no_fields, entry, field,
}
use optio_ai_assignment.Api.Rules.{
  metric_of, op_of, as_array, validate_compare, validate_reference, validate_each, validate_at,
  validate_rule,
}

metric_name : CustomerMetric → String
metric_name tx_count_30d = "tx_count_30d"
metric_name tx_count_total = "tx_count_total"
metric_name sum_amount_60d = "sum_amount_60d"
metric_name last_tx_age_days = "last_tx_age_days"

op_name : ComparisonOp → String
op_name gt = ">"
op_name ge = ">="
op_name lt = "<"
op_name le = "<="
op_name eq = "=="
op_name ne = "!="

metric_of-metric_name : (m : CustomerMetric) → metric_of (metric_name m) ≡ some m
unfolding metric_of metric_name
metric_of-metric_name tx_count_30d = refl
metric_of-metric_name tx_count_total = refl
metric_of-metric_name sum_amount_60d = refl
metric_of-metric_name last_tx_age_days = refl

op_of-op_name : (op : ComparisonOp) → op_of (op_name op) ≡ some op
unfolding op_of op_name
op_of-op_name gt = refl
op_of-op_name ge = refl
op_of-op_name lt = refl
op_of-op_name le = refl
op_of-op_name eq = refl
op_of-op_name ne = refl

mutual
  -- The JSON of a rule, as the clients send it.
  pub to_json : SegmentRule → Json
  to_json (compare metric op value) = object (
      entry "kind" (string "compare") (
        entry "metric" (string (metric_name metric))
          (entry "op" (string (op_name op)) (entry "value" (number value) no_fields))))
  to_json (in_segment id) =
      object (entry "kind" (string "in_segment") (entry "segmentId" (string id) no_fields))
  to_json (and children) =
      object
        (entry "kind" (string "and") (entry "children" (array (to_elements children)) no_fields))

  pub to_elements : Rules → Elements
  to_elements nil = no_elements
  to_elements (cons rule rest) = element (to_json rule) (to_elements rest)

abbrev pub has_children : Rules → Bool
has_children nil = false
has_children (cons rule rest) = true

unfoldable mutual
  -- The rule has at most so many levels, finite values, and neither an empty id nor an empty `and`.
  pub fits : ℕ → SegmentRule → Bool
  fits zero (compare metric op value) = false
  fits (suc left) (compare metric op value) = is_finite value
  fits zero (in_segment id) = false
  fits (suc left) (in_segment id) = not (id == "")
  fits zero (and children) = false
  fits (suc left) (and children) = has_children children && all_fit left children

  pub all_fit : ℕ → Rules → Bool
  all_fit left nil = true
  all_fit left (cons rule rest) = fits left rule && all_fit left rest

as_array-to_elements :
    (children : Rules)
    → has_children children ≡ true
    → as_array (some (array (to_elements children))) ≡ some (to_elements children)
unfolding to_elements
as_array-to_elements nil h = absurd (ground arith)
as_array-to_elements (cons rule rest) h = refl

mutual
  unfolding to_json fits validate_at field validate_compare validate_reference validate_each

  validate_at-to_json :
      (rule : SegmentRule) (left : ℕ) (path : List ℕ)
      → fits left rule ≡ true
      → validate_at left path (to_json rule) ≡ ok rule
  validate_at-to_json (compare metric op value) zero path h = absurd (ground arith)
  validate_at-to_json (compare metric op value) (suc left) path h =
      rw (metric_of-metric_name metric, op_of-op_name op, h)
  validate_at-to_json (in_segment id) zero path h = absurd (ground arith)
  validate_at-to_json (in_segment id) (suc left) path h = ground arith
  validate_at-to_json (and children) zero path h = absurd (ground arith)
  validate_at-to_json (and children) (suc left) path h = rw (
    as_array-to_elements children (ground arith),
    validate_each-to_elements children left path 0 (ground arith),
  )

  validate_each-to_elements :
      (children : Rules) (left : ℕ) (path : List ℕ) (i : ℕ)
      → all_fit left children ≡ true
      → validate_each (λ j c. validate_at left (path ++ j ∷ []) c) i (to_elements children)
        ≡ ok children
  validate_each-to_elements nil left path i h = refl
  validate_each-to_elements (cons rule rest) left path i h = rw (
    validate_at-to_json rule left (path ++ i ∷ []) (ground arith),
    validate_each-to_elements rest left path (i + 1) (ground arith),
  )

-- Every rule of at most 33 levels (depth 0 to 32) whose values are finite and which has neither an
-- empty segment id nor an empty `and` is accepted, and is read as itself.
pub validate_rule-to_json :
    (rule : SegmentRule) → fits 33 rule ≡ true → validate_rule (to_json rule) ≡ ok rule
validate_rule-to_json rule h = validate_at-to_json rule 33 [] h
