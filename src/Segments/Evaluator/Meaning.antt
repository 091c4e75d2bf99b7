-- ===== src/Segments/Evaluator/Meaning.antt =====
-- What a rule means, apart from the way evaluator.service.ts computes it.
use optio_ai_assignment.Prelude.{
  String, Bool, true, false, ◌&&◌, ◌||◌, ◌≡◌, refl, ap, some, List, ◌==◌, has, arith, eq_iff,
}
use optio_ai_assignment.Prelude.Int.{ℤ, lt_ℤ, le_ℤ}
use optio_ai_assignment.Number.{Number, finite, infinity, neg_infinity, nan, lt, le, strict_eq}
use optio_ai_assignment.Shared.Rule.{
  CustomerMetric, tx_count_30d, tx_count_total, sum_amount_60d, last_tx_age_days, ComparisonOp,
  SegmentRule, compare, in_segment, and, Rules, nil, cons,
}
use optio_ai_assignment.Shared.Result.{ok}
use optio_ai_assignment.Segments.Metrics.{CustomerMetrics}
use optio_ai_assignment.Segments.Evaluator.{
  Memberships, get, apply_op, evaluate_compare, evaluate, every,
}

-- How two numbers lie to each other: NaN is `apart` from every number, itself included.
pub data Relation : Type 0 where
  below level above apart : Relation

unfoldable relate_ℤ : ℤ → ℤ → Relation
relate_ℤ a b = elim (lt_ℤ a b) [
  | true ↦ below
  | false ↦ elim (lt_ℤ b a) [ true ↦ above | false ↦ level ]
]

unfoldable pub relate : Number → Number → Relation
unfolding relate_ℤ
relate nan b = apart
relate a nan = apart
relate infinity infinity = level
relate infinity b = above
relate neg_infinity neg_infinity = level
relate neg_infinity b = below
relate (finite a) infinity = below
relate (finite a) neg_infinity = above
relate (finite a) (finite b) = relate_ℤ a b

-- Which relations of the metric to the value a comparison admits.
unfoldable pub admits : ComparisonOp → Relation → Bool
admits ComparisonOp.gt above = true
admits ComparisonOp.ge above = true
admits ComparisonOp.ge level = true
admits ComparisonOp.lt below = true
admits ComparisonOp.le below = true
admits ComparisonOp.le level = true
admits ComparisonOp.eq level = true
admits ComparisonOp.ne below = true
admits ComparisonOp.ne above = true
admits ComparisonOp.ne apart = true
admits _ _ = false

-- The number that a rule calls by the name of a metric.
unfoldable pub measured : CustomerMetric → CustomerMetrics → Number
measured tx_count_30d m = m.tx_count_30d
measured tx_count_total m = m.tx_count_total
measured sum_amount_60d m = m.sum_amount_60d
measured last_tx_age_days m = m.last_tx_age_days

every_op :
    (f g : ComparisonOp → Bool)
    → (f ComparisonOp.gt ≡ g ComparisonOp.gt)
      × (f ComparisonOp.ge ≡ g ComparisonOp.ge)
      × (f ComparisonOp.lt ≡ g ComparisonOp.lt)
      × (f ComparisonOp.le ≡ g ComparisonOp.le)
      × (f ComparisonOp.eq ≡ g ComparisonOp.eq)
      × (f ComparisonOp.ne ≡ g ComparisonOp.ne)
    → (op : ComparisonOp) → f op ≡ g op
every_op f g (pgt, pge, plt, ple, peq, pne) ComparisonOp.gt = pgt
every_op f g (pgt, pge, plt, ple, peq, pne) ComparisonOp.ge = pge
every_op f g (pgt, pge, plt, ple, peq, pne) ComparisonOp.lt = plt
every_op f g (pgt, pge, plt, ple, peq, pne) ComparisonOp.le = ple
every_op f g (pgt, pge, plt, ple, peq, pne) ComparisonOp.eq = peq
every_op f g (pgt, pge, plt, ple, peq, pne) ComparisonOp.ne = pne

admits-apply_op_ℤ :
    (a b : ℤ) (op : ComparisonOp) → apply_op (finite a) op (finite b) ≡ admits op (relate_ℤ a b)
unfolding apply_op lt le strict_eq admits relate_ℤ lt_ℤ le_ℤ
admits-apply_op_ℤ a b ComparisonOp.gt = ground arith
admits-apply_op_ℤ a b ComparisonOp.ge = ground arith
admits-apply_op_ℤ a b ComparisonOp.lt = ground arith
admits-apply_op_ℤ a b ComparisonOp.le = ground arith
admits-apply_op_ℤ a b ComparisonOp.eq = ground arith
admits-apply_op_ℤ a b ComparisonOp.ne = ground arith

admits-apply_op : (a b : Number) (op : ComparisonOp) → apply_op a op b ≡ admits op (relate a b)
unfolding apply_op lt le strict_eq relate admits
admits-apply_op (finite a) (finite b) op = admits-apply_op_ℤ a b op
admits-apply_op (finite a) infinity op =
    every_op (λ o. apply_op (finite a) o infinity) (λ o. admits o (relate (finite a) infinity))
      (refl, refl, refl, refl, refl, refl) op
admits-apply_op (finite a) neg_infinity op =
    every_op (λ o. apply_op (finite a) o neg_infinity)
      (λ o. admits o (relate (finite a) neg_infinity)) (refl, refl, refl, refl, refl, refl) op
admits-apply_op (finite a) nan op =
    every_op (λ o. apply_op (finite a) o nan) (λ o. admits o (relate (finite a) nan))
      (refl, refl, refl, refl, refl, refl) op
admits-apply_op infinity (finite b) op =
    every_op (λ o. apply_op infinity o (finite b)) (λ o. admits o (relate infinity (finite b)))
      (refl, refl, refl, refl, refl, refl) op
admits-apply_op infinity infinity op =
    every_op (λ o. apply_op infinity o infinity) (λ o. admits o (relate infinity infinity))
      (refl, refl, refl, refl, refl, refl) op
admits-apply_op infinity neg_infinity op =
    every_op (λ o. apply_op infinity o neg_infinity) (λ o. admits o (relate infinity neg_infinity))
      (refl, refl, refl, refl, refl, refl) op
admits-apply_op infinity nan op =
    every_op (λ o. apply_op infinity o nan) (λ o. admits o (relate infinity nan))
      (refl, refl, refl, refl, refl, refl) op
admits-apply_op neg_infinity (finite b) op =
    every_op (λ o. apply_op neg_infinity o (finite b))
      (λ o. admits o (relate neg_infinity (finite b))) (refl, refl, refl, refl, refl, refl) op
admits-apply_op neg_infinity infinity op =
    every_op (λ o. apply_op neg_infinity o infinity) (λ o. admits o (relate neg_infinity infinity))
      (refl, refl, refl, refl, refl, refl) op
admits-apply_op neg_infinity neg_infinity op =
    every_op (λ o. apply_op neg_infinity o neg_infinity)
      (λ o. admits o (relate neg_infinity neg_infinity)) (refl, refl, refl, refl, refl, refl) op
admits-apply_op neg_infinity nan op =
    every_op (λ o. apply_op neg_infinity o nan) (λ o. admits o (relate neg_infinity nan))
      (refl, refl, refl, refl, refl, refl) op
admits-apply_op nan (finite b) op =
    every_op (λ o. apply_op nan o (finite b)) (λ o. admits o (relate nan (finite b)))
      (refl, refl, refl, refl, refl, refl) op
admits-apply_op nan infinity op =
    every_op (λ o. apply_op nan o infinity) (λ o. admits o (relate nan infinity))
      (refl, refl, refl, refl, refl, refl) op
admits-apply_op nan neg_infinity op =
    every_op (λ o. apply_op nan o neg_infinity) (λ o. admits o (relate nan neg_infinity))
      (refl, refl, refl, refl, refl, refl) op
admits-apply_op nan nan op =
    every_op (λ o. apply_op nan o nan) (λ o. admits o (relate nan nan))
      (refl, refl, refl, refl, refl, refl) op

-- A comparison of the code is the comparison of the rule.
evaluate_compare-admits :
    (metric : CustomerMetric) (op : ComparisonOp) (value : Number) (metrics : CustomerMetrics)
    → evaluate_compare metric op value metrics ≡ admits op (relate (measured metric metrics) value)
unfolding evaluate_compare measured
evaluate_compare-admits tx_count_30d op value metrics = admits-apply_op _ value op
evaluate_compare-admits tx_count_total op value metrics = admits-apply_op _ value op
evaluate_compare-admits sum_amount_60d op value metrics = admits-apply_op _ value op
evaluate_compare-admits last_tx_age_days op value metrics = admits-apply_op _ value op

-- The truth value of a rule for one customer, given which segments the customer is in.
unfoldable mutual
  pub holds : SegmentRule → CustomerMetrics → (String → Bool) → Bool
  holds (compare metric op value) metrics is_in = admits op (relate (measured metric metrics) value)
  holds (in_segment segment_id) metrics is_in = is_in segment_id
  holds (and children) metrics is_in = all_hold children metrics is_in

  pub all_hold : Rules → CustomerMetrics → (String → Bool) → Bool
  all_hold nil metrics is_in = true
  all_hold (cons child rest) metrics is_in =
      holds child metrics is_in && all_hold rest metrics is_in

-- The segment is named by an `in_segment` node somewhere in the rule.
unfoldable mutual
  pub refers : SegmentRule → String → Bool
  refers (compare metric op value) id = false
  refers (in_segment segment_id) id = segment_id == id
  refers (and children) id = any_refers children id

  pub any_refers : Rules → String → Bool
  any_refers nil id = false
  any_refers (cons child rest) id = refers child id || any_refers rest id

-- A membership was loaded for the segment, and it says `is_in`.
abbrev pub LoadedAs : Memberships → String → (String → Bool) → String → Type 0
LoadedAs loaded customer_id is_in id =
    (members : List String) × (get loaded id ≡ some members) × (has members customer_id ≡ is_in id)

module _ (metrics : CustomerMetrics) (loaded : Memberships) (customer_id : String)
    (is_in : String → Bool) where
  mutual
    unfolding evaluate holds refers

    evaluate-holds_aux :
        (rule : SegmentRule)
        → ((id : String) → refers rule id ≡ true → LoadedAs loaded customer_id is_in id)
        → evaluate rule metrics loaded customer_id ≡ ok (holds rule metrics is_in)
    evaluate-holds_aux (compare metric op value) h =
        ap ok (evaluate_compare-admits metric op value metrics)
    evaluate-holds_aux (in_segment segment_id) h =
        let (members, found, same) = h segment_id (ground (arith, eq_iff segment_id segment_id)) in
        rw (found, same)
    evaluate-holds_aux (and children) h = every-all_hold_aux children h

    every-all_hold_aux :
        (children : Rules)
        → ((id : String) → any_refers children id ≡ true → LoadedAs loaded customer_id is_in id)
        → every children metrics loaded customer_id ≡ ok (all_hold children metrics is_in)
    every-all_hold_aux nil h = refl
    every-all_hold_aux (cons child rest) h = ground (
      arith,
      evaluate-holds_aux child (λ id r. h id (ground arith)),
      every-all_hold_aux rest (λ id r. h id (ground arith)),
    )

  -- If a membership is loaded for each segment that the rule names, `evaluate` does not throw, and
  -- its answer is the truth value of the rule: a comparison by how the named metric lies to the
  -- value, where NaN satisfies `!=` only; a reference by whether the customer is in the segment; and
  -- an and-node by all of its children.
  pub evaluate-holds :
      (rule : SegmentRule)
      → ((id : String) → refers rule id ≡ true → LoadedAs loaded customer_id is_in id)
      → evaluate rule metrics loaded customer_id ≡ ok (holds rule metrics is_in)
  evaluate-holds rule h = evaluate-holds_aux rule h
