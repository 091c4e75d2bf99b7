-- ===== src/Api/Segments/References.antt =====
-- Which rules `assertRuleReferences` lets through.
use optio_ai_assignment.Prelude.{
  ◌⊎◌, inl, inr, sym, ◌∙◌, Bool-cases, true_not_false, String, Bool, true, false, not, ◌&&◌, ◌≡◌,
  refl, Option, none, some, List, [], ◌∷◌, filter, has, is_empty, arith, has-filter, has-nil,
}
use optio_ai_assignment.Shared.Rule.{SegmentRule}
use optio_ai_assignment.Shared.Result.{Error, ok, err, bad_request, unknown_segments}
use optio_ai_assignment.Database.{Tables}
use optio_ai_assignment.Database.Views.{segment_ids}
use optio_ai_assignment.Database.Prisma.{Prisma}
use optio_ai_assignment.Segments.Evaluator.Meaning.{refers}
use optio_ai_assignment.Segments.Dependency.{collect_parent_ids}
use optio_ai_assignment.Segments.Dependency.Laws.{collect_parent_ids-refers}
use optio_ai_assignment.Segments.Dependency.Edges.{ParentsExist}
use optio_ai_assignment.Api.Segments.{is_self, missing, assert_rule_references}

-- The rule refers to the segment, if one is named.
abbrev pub refers_self : SegmentRule → Option String → Bool
refers_self rule none = false
refers_self rule (some id) = refers rule id

is_self-refers :
    (rule : SegmentRule) (self_id : Option String)
    → is_self self_id (collect_parent_ids rule []) ≡ refers_self rule self_id
is_self-refers rule none = refl
is_self-refers rule (some id) = (collect_parent_ids-refers rule).0 id

module _ ⦃prisma : Prisma⦄ where
  has-missing :
      (refs : List String) (t : Tables) (id : String)
      → has (missing refs t) id ≡ (has refs id && not (has (segment_ids t.segments) id))
  has-missing refs t id = rw (prisma.find_existing_lem t refs) (
      ground (
        arith,
        has-filter (λ x. not (has (filter (has refs) (segment_ids t.segments)) x)) refs id,
        has-filter (has refs) (segment_ids t.segments) id,
      ))

  -- A rule that refers to no segment but those that are there, and not to the segment it is for, is
  -- let through.
  pub assert_rule_references-ok :
      (rule : SegmentRule) (self_id : Option String) (t : Tables)
      → refers_self rule self_id ≡ false
      → ParentsExist rule t
      → assert_rule_references rule self_id t ≡ (ok tt, t)
  unfolding assert_rule_references
  assert_rule_references-ok rule self_id t other exist =
      let refs : List String = collect_parent_ids rule [] in
      let none_missing : missing refs t ≡ [] = has-nil (missing refs t) (λ id.
        ground (arith, has-missing refs t id, (collect_parent_ids-refers rule).0 id, exist id)) in
      rw (is_self-refers rule self_id, other, none_missing) (ground arith)

  -- A rule that refers to a segment that is not there is refused with an error that names that
  -- segment, and no table changes.
  pub assert_rule_references_unknown :
      (rule : SegmentRule) (self_id : Option String) (t : Tables) (p : String)
      → refers_self rule self_id ≡ false
      → refers rule p ≡ true
      → has (segment_ids t.segments) p ≡ false
      → (assert_rule_references rule self_id t
          ≡ (err (unknown_segments (missing (collect_parent_ids rule []) t)), t))
        × (has (missing (collect_parent_ids rule []) t) p ≡ true)
  unfolding assert_rule_references has
  assert_rule_references_unknown rule self_id t p other referred absent =
      let refs : List String = collect_parent_ids rule [] in
      let collected : has refs p ≡ true = ground (arith, (collect_parent_ids-refers rule).0 p) in
      let named : has (missing refs t) p ≡ true = ground (arith, has-missing refs t p) in
      (
        rw (
          is_self-refers rule self_id,
          other,
          not_empty refs p collected,
          not_empty (missing refs t) p named,
        ),
        named,
      )
    where
      not_empty : (xs : List String) (x : String) → has xs x ≡ true → is_empty xs ≡ false
      not_empty [] x h = absurd (ground arith)
      not_empty (y ∷ xs) x h = refl

  -- Either the rule is let through, and it is fit, or the check throws; no table changes.
  pub assert_rule_references_cases :
      (rule : SegmentRule) (self_id : Option String) (t : Tables)
      → ((assert_rule_references rule self_id t ≡ (ok tt, t))
          × (refers_self rule self_id ≡ false)
          × ParentsExist rule t)
        ⊎ ((e : Error) × (assert_rule_references rule self_id t ≡ (err e, t)))
  unfolding assert_rule_references has
  assert_rule_references_cases rule self_id t = elim (Bool-cases (is_self self_id refs)) [
    | inl self ↦
        inr (bad_request "rule cannot reference itself — would cascade infinitely", rw self)
    | inr other ↦ elim (Bool-cases (is_empty refs)) [
      | inl free ↦ inl (
        rw (other, free),
        sym (is_self-refers rule self_id) ∙ other,
        λ p r. absurd (no_refs free p r),
      )
      | inr some_refs ↦ elim (Bool-cases (is_empty (missing refs t))) [
        | inl complete ↦ inl (
          rw (other, some_refs, complete),
          sym (is_self-refers rule self_id) ∙ other,
          λ p r. there complete p r,
        )
        | inr lacking ↦ inr (unknown_segments (missing refs t), rw (other, some_refs, lacking))
      ]
    ]
  ]
    where
      refs : List String
      refs = collect_parent_ids rule []

      empty_has : (xs : List String) (p : String) → is_empty xs ≡ true → has xs p ≡ false
      empty_has [] p e = refl
      empty_has (x ∷ xs) p e = absurd (ground arith)

      no_refs : is_empty refs ≡ true → (p : String) → refers rule p ≡ true → ⊥
      no_refs free p r =
          true_not_false
            (sym r ∙ sym ((collect_parent_ids-refers rule).0 p) ∙ empty_has refs p free)

      there : is_empty (missing refs t) ≡ true → ParentsExist rule t
      there complete p r = ground (
        arith,
        has-missing refs t p,
        empty_has (missing refs t) p complete,
        (collect_parent_ids-refers rule).0 p,
      )
