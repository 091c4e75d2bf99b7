-- ===== src/Api/Rules/Validated.antt =====
-- What every rule has that the validation lets through.
use optio_ai_assignment.Prelude.{
  ℕ, zero, suc, ◌+◌, String, true, false, ◌≡◌, refl, subst, Option, none, some, List, [], ◌∷◌, ◌++◌,
  ◌==◌, arith, Bool-cases, inl, inr, and_intro,
}
use optio_ai_assignment.Number.{Number, is_finite}
use optio_ai_assignment.Shared.Rule.{
  CustomerMetric, ComparisonOp, SegmentRule, compare, in_segment, and, Rules, cons,
}
use optio_ai_assignment.Shared.Result.{
  Result, ok, err, bind, bad_metric, bad_op, bad_value, bad_segment_id, bad_children,
}
use optio_ai_assignment.Shared.Json.{
  Json, null, bool, number, string, array, object, Elements, no_elements, element, Fields, field,
}
use optio_ai_assignment.Api.Rules.{
  metric_of, op_of, as_string, as_number, as_id, as_array, chain, require, validate_compare,
  validate_reference, validate_each, validate_kind, validate_at, validate_rule,
}
use optio_ai_assignment.Api.Rules.Written.{fits, all_fit}

as_number-finite : (o : Option Json) (n : Number) → as_number o ≡ some n → is_finite n ≡ true
as_number-finite (some (number m)) n h = ground arith
as_number-finite none n h = ground arith
as_number-finite (some null) n h = ground arith
as_number-finite (some (bool b)) n h = ground arith
as_number-finite (some (string s)) n h = ground arith
as_number-finite (some (array es)) n h = ground arith
as_number-finite (some (object node)) n h = ground arith

as_id-nonempty : (o : Option String) (id : String) → as_id o ≡ some id → (id == "") ≡ false
as_id-nonempty (some s) id h = ground arith
as_id-nonempty none id h = ground arith

-- The result of a branch fits, if it is a rule at all.
abbrev Fits : ℕ → Result SegmentRule → Type 0
Fits left (ok rule) = fits left rule ≡ true
Fits left (err e) = Unit

abbrev AllFit : ℕ → Result Rules → Type 0
AllFit left (ok rules) = all_fit left rules ≡ true
AllFit left (err e) = Unit

compare-Fits :
    (path : List ℕ) (left : ℕ) (m : Option CustomerMetric) (o : Option ComparisonOp)
    (v : Option Number)
    → ((n : Number) → v ≡ some n → is_finite n ≡ true)
    → Fits (suc left) (
        bind (require path bad_metric m) (λ metric.
          bind
            (require path bad_op o)
            (λ op. bind (require path bad_value v) (λ value. ok (compare metric op value)))))
unfolding fits
compare-Fits path left none o v h = tt
compare-Fits path left (some m) none v h = tt
compare-Fits path left (some m) (some o) none h = tt
compare-Fits path left (some m) (some o) (some v) h = h v refl

reference-Fits :
    (path : List ℕ) (left : ℕ) (v : Option String)
    → ((id : String) → v ≡ some id → (id == "") ≡ false)
    → Fits (suc left) (bind (require path bad_segment_id v) (λ id. ok (in_segment id)))
unfolding fits
reference-Fits path left none h = tt
reference-Fits path left (some id) h = rw (h id refl)

cons-AllFit :
    (left : ℕ) (r : Result SegmentRule) (rs : Result Rules)
    → Fits left r
    → AllFit left rs
    → AllFit left (bind r (λ rule. bind rs (λ rules. ok (cons rule rules))))
unfolding fits
cons-AllFit left (err e) rs h k = tt
cons-AllFit left (ok r) (err e) h k = tt
cons-AllFit left (ok r) (ok rs) h k = and_intro (fits left r) (all_fit left rs) h k

validate_each-AllFit :
    (f : ℕ → Json → Result SegmentRule) (left : ℕ)
    → ((i : ℕ) (c : Json) → Fits left (f i c))
    → (i : ℕ) (es : Elements) → AllFit left (validate_each f i es)
unfolding validate_each fits
validate_each-AllFit f left sound i no_elements = refl
validate_each-AllFit f left sound i (element c rest) =
    cons-AllFit left (f i c) (validate_each f (i + 1) rest) (sound i c)
      (validate_each-AllFit f left sound (i + 1) rest)

-- An `and` node keeps a child for each element.
and-Fits :
    (path : List ℕ) (f : ℕ → Json → Result SegmentRule) (left : ℕ)
    → ((i : ℕ) (c : Json) → Fits left (f i c))
    → (o : Option Json)
    → Fits (suc left) (
        bind
          (require path bad_children (as_array o))
          (λ children. bind (validate_each f 0 children) (λ rules. ok (and rules))))
and-Fits path f left sound none = tt
and-Fits path f left sound (some null) = tt
and-Fits path f left sound (some (bool b)) = tt
and-Fits path f left sound (some (number n)) = tt
and-Fits path f left sound (some (string s)) = tt
and-Fits path f left sound (some (object node)) = tt
and-Fits path f left sound (some (array no_elements)) = tt
and-Fits path f left sound (some (array (element c rest))) =
    unfold validate_each in
    both (f 0 c) (validate_each f 1 rest) (sound 0 c) (validate_each-AllFit f left sound 1 rest)
  where
    both :
        (r : Result SegmentRule) (rs : Result Rules)
        → Fits left r
        → AllFit left rs
        → Fits (suc left) (
            bind
              (bind r (λ rule. bind rs (λ rules. ok (cons rule rules))))
              (λ rules. ok (and rules)))
    both (err e) rs h k = tt
    both (ok r) (err e) h k = tt
    both (ok r) (ok rs) h k = unfold fits in and_intro (fits left r) (all_fit left rs) h k

kind-Fits :
    (path : List ℕ) (f : ℕ → Json → Result SegmentRule) (left : ℕ)
    → ((i : ℕ) (c : Json) → Fits left (f i c))
    → (node : Fields) (kind : Option String) → Fits (suc left) (validate_kind path f node kind)
kind-Fits path f left sound node none = tt
kind-Fits path f left sound node (some kind) = elim (Bool-cases (kind == "compare")) [
  | inl c ↦
      unfold validate_compare in
      rw c (
        compare-Fits path left (chain metric_of (as_string (field "metric" node)))
          (chain op_of (as_string (field "op" node))) (as_number (field "value" node))
          (as_number-finite (field "value" node)))
  | inr c ↦ elim (Bool-cases (kind == "in_segment")) [
    | inl r ↦
        unfold validate_reference in
        rw (c, r)
          (reference-Fits path left (as_id (as_string (field "segmentId" node)))
            (as_id-nonempty (as_string (field "segmentId" node))))
    | inr r ↦ elim (Bool-cases (kind == "and")) [
      | inl a ↦ rw (c, r, a) (and-Fits path f left sound (field "children" node))
      | inr a ↦ rw (c, r, a) tt
    ]
  ]
]

validate_at-Fits :
    (left : ℕ) (path : List ℕ) (input : Json) → Fits left (validate_at left path input)
unfolding validate_at
validate_at-Fits zero path input = tt
validate_at-Fits (suc left) path (object node) =
    kind-Fits path (λ i c. validate_at left (path ++ i ∷ []) c) left
      (λ i c. validate_at-Fits left (path ++ i ∷ []) c) node (as_string (field "kind" node))
validate_at-Fits (suc left) path null = tt
validate_at-Fits (suc left) path (bool b) = tt
validate_at-Fits (suc left) path (number n) = tt
validate_at-Fits (suc left) path (string s) = tt
validate_at-Fits (suc left) path (array es) = tt

-- Whatever the body, a rule that the validation returns has at most 33 levels (depth 0 to 32), finite
-- values, and neither an empty segment id nor an empty `and`.
pub validate_rule-fits :
    (input : Json) (rule : SegmentRule) → validate_rule input ≡ ok rule → fits 33 rule ≡ true
validate_rule-fits input rule h = subst (Fits 33) h (validate_at-Fits 33 [] input)
