-- ===== src/Segments/Evaluator/Congruence.antt =====
-- A rule depends only on the memberships in the segments that it refers to.
use optio_ai_assignment.Prelude.{String, Bool, true, ◌≡◌, refl, eq_iff, arith}
use optio_ai_assignment.Shared.Rule.{SegmentRule, compare, in_segment, and, Rules, nil, cons}
use optio_ai_assignment.Segments.Metrics.{CustomerMetrics}
use optio_ai_assignment.Segments.Evaluator.Meaning.{holds, all_hold, refers, any_refers}

module _ (metrics : CustomerMetrics) (f g : String → Bool) where
  mutual
    unfolding holds refers

    holds_congr_aux :
        (rule : SegmentRule)
        → ((p : String) → refers rule p ≡ true → f p ≡ g p)
        → holds rule metrics f ≡ holds rule metrics g
    holds_congr_aux (compare metric op value) h = refl
    holds_congr_aux (in_segment id) h = h id (ground (arith, eq_iff id id))
    holds_congr_aux (and children) h = all_hold_congr children h

    all_hold_congr :
        (children : Rules)
        → ((p : String) → any_refers children p ≡ true → f p ≡ g p)
        → all_hold children metrics f ≡ all_hold children metrics g
    all_hold_congr nil h = refl
    all_hold_congr (cons child rest) h = ground (
      arith,
      holds_congr_aux child (λ p r. h p (ground arith)),
      all_hold_congr rest (λ p r. h p (ground arith)),
    )

  pub holds_congr :
      (rule : SegmentRule)
      → ((p : String) → refers rule p ≡ true → f p ≡ g p)
      → holds rule metrics f ≡ holds rule metrics g
  holds_congr rule h = holds_congr_aux rule h
