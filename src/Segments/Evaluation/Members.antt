-- ===== src/Segments/Evaluation/Members.antt =====
-- The members that a pass computes: the customers for whom the rule holds.
use optio_ai_assignment.Prelude.{
  String, Bool, true, false, ◌&&◌, ◌||◌, ◌≡◌, refl, sym, ap, Bool-cases, inl, inr, List, [], ◌∷◌,
  has, add, distinct, ◌==◌, eq_iff, arith, has-add, distinct-add, if◌then◌else◌,
}
use optio_ai_assignment.Shared.Rule.{SegmentRule}
use optio_ai_assignment.Shared.Result.{ok}
use optio_ai_assignment.Segments.Metrics.{CustomerMetrics}
use optio_ai_assignment.Segments.Evaluator.{Memberships}
use optio_ai_assignment.Segments.Evaluator.Meaning.{holds, refers, LoadedAs, evaluate-holds}
use optio_ai_assignment.Segments.Evaluation.{evaluate_each}

-- A customer of the table for whom the rule holds; `is_in p c` says who is in which parent.
unfoldable pub qualifies :
    SegmentRule → List (String × CustomerMetrics) → (String → String → Bool) → String → Bool
qualifies rule [] is_in c = false
qualifies rule ((id, metrics) ∷ rest) is_in c =
    id == c && holds rule metrics (λ p. is_in p c) || qualifies rule rest is_in c

-- For each customer and each segment that the rule refers to, the membership is loaded.
abbrev pub AllLoaded : SegmentRule → Memberships → (String → String → Bool) → Type 0
AllLoaded rule memberships is_in =
    (c p : String) → refers rule p ≡ true → LoadedAs memberships c (λ q. is_in q c) p

-- Where two names are equal a test of one is a test of the other.
at_same : (id c : String) (test : String → Bool) → (id == c && test c) ≡ (id == c && test id)
at_same id c test = elim (Bool-cases (id == c)) [
  | inl e ↦ let same = (eq_iff id c).0 e in ap (λ x. id == c && test x) (sym same)
  | inr e ↦ rw e
]

-- The loop does not throw, and collects the customers who qualify.
pub evaluate_each-qualifies :
    (rule : SegmentRule) (memberships : Memberships) (is_in : String → String → Bool)
    (acc : List String) (all_metrics : List (String × CustomerMetrics))
    → AllLoaded rule memberships is_in
    → distinct acc ≡ true
    → (new : List String) × (evaluate_each rule memberships acc all_metrics ≡ ok new)
      × ((c : String) → has new c ≡ (has acc c || qualifies rule all_metrics is_in c))
      × (distinct new ≡ true)
unfolding evaluate_each qualifies
evaluate_each-qualifies rule memberships is_in acc [] loaded d = (acc, refl, (λ c. ground arith), d)
evaluate_each-qualifies rule memberships is_in acc ((id, metrics) ∷ rest) loaded d =
    let b : Bool = holds rule metrics (λ p. is_in p id) in
    let acc' : List String = if b then add acc id else acc in
    let (new, done, same, d') =
      evaluate_each-qualifies rule memberships is_in acc' rest loaded
        (ground (arith, distinct-add acc id)) in
    (
      new,
      rw (evaluate-holds metrics memberships id (λ p. is_in p id) rule (loaded id)) done,
      (λ c. ground (
        arith,
        same c,
        has-add acc id c,
        at_same id c (λ x. holds rule metrics (λ p. is_in p x)),
      )),
      d',
    )
