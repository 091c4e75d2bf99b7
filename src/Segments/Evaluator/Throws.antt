-- ===== src/Segments/Evaluator/Throws.antt =====
-- When the evaluator throws.
use optio_ai_assignment.Prelude.{
  String, Bool, true, false, ◌≡◌, none, inl, inr, ◌⊎◌, arith, eq_iff, Option-cases, if◌then◌else◌,
}
use optio_ai_assignment.Shared.Rule.{SegmentRule, compare, in_segment, and, Rules, nil, cons}
use optio_ai_assignment.Shared.Result.{Error, Result, ok, err, bind, missing_membership}
use optio_ai_assignment.Segments.Metrics.{CustomerMetrics}
use optio_ai_assignment.Segments.Evaluator.{Memberships, get, evaluate, every}
use optio_ai_assignment.Segments.Evaluator.Meaning.{refers, any_refers}

-- The error names a segment that the rule refers to and that was not loaded.
abbrev pub NamesUnloaded : (String → Bool) → Memberships → Error → Type 0
NamesUnloaded named loaded e =
    (id : String) × (named id ≡ true) × (get loaded id ≡ none) × (e ≡ missing_membership id)

-- A throw of `every` comes from the first child or from the later ones.
every_cases :
    (first later : Result Bool) (e : Error)
    → bind first (λ b. if b then later else ok false) ≡ err e
    → (first ≡ err e) ⊎ (later ≡ err e)
every_cases (ok true) later e h = inr h
every_cases (ok false) later e h = absurd (ground arith)
every_cases (err d) later e h = inl h

module _ (metrics : CustomerMetrics) (loaded : Memberships) (customer_id : String) where
  mutual
    unfolding evaluate refers

    throws_aux :
        (rule : SegmentRule) (e : Error)
        → evaluate rule metrics loaded customer_id ≡ err e
        → NamesUnloaded (refers rule) loaded e
    throws_aux (compare metric op value) e h = absurd (ground arith)
    throws_aux (in_segment segment_id) e h = elim (Option-cases (get loaded segment_id)) [
      | inl absent ↦
          (segment_id, ground (arith, eq_iff segment_id segment_id), absent, ground arith)
      | inr (members, found) ↦ absurd (ground arith)
    ]
    throws_aux (and children) e h = every_throws_aux children e h

    every_throws_aux :
        (children : Rules) (e : Error)
        → every children metrics loaded customer_id ≡ err e
        → NamesUnloaded (any_refers children) loaded e
    every_throws_aux nil e h = absurd (ground arith)
    every_throws_aux (cons child rest) e h = elim (every_cases _ _ e h) [
      | inl first ↦
          let (id, named, absent, same) = throws_aux child e first in
          (id, ground arith, absent, same)
      | inr later ↦
          let (id, named, absent, same) = every_throws_aux rest e later in
          (id, ground arith, absent, same)
    ]

  -- Whatever `evaluate` throws, it names a segment of the rule that was not loaded.
  pub evaluate_throws :
      (rule : SegmentRule) (e : Error)
      → evaluate rule metrics loaded customer_id ≡ err e
      → NamesUnloaded (refers rule) loaded e
  evaluate_throws rule e h = throws_aux rule e h
