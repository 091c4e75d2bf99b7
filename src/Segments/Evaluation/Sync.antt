-- ===== src/Segments/Evaluation/Sync.antt =====
-- When the members of a segment are those of its rule, and what keeps it so.
use mathlib.Core.List.{append-nil}
use optio_ai_assignment.Prelude.{
  String, Bool, true, false, ◌≡◌, refl, sym, ap, ◌∙◌, ◌≢◌, some, List, [], ◌∷◌, eq_iff, arith,
  has-nil,
}
use optio_ai_assignment.Prelude.Int.{ℤ}
use optio_ai_assignment.Shared.Rule.{SegmentRule}
use optio_ai_assignment.Shared.Result.{ok}
use optio_ai_assignment.Database.{Segment, Tables}
use optio_ai_assignment.Database.Views.{find_segment_row}
use optio_ai_assignment.Database.Prisma.{Prisma}
use optio_ai_assignment.Segments.Metrics.{CustomerMetrics, DecimalText, compute_all}
use optio_ai_assignment.Segments.Evaluator.Meaning.{refers}
use optio_ai_assignment.Segments.Evaluator.Congruence.{holds_congr}
use optio_ai_assignment.Segments.Dependency.Edges.{ParentsExist}
use optio_ai_assignment.Segments.Evaluation.{EvaluationResult, is_refused, evaluate_segment}
use optio_ai_assignment.Segments.Evaluation.Members.{qualifies}
use optio_ai_assignment.Segments.Evaluation.Pass.{is_in, satisfies}
use optio_ai_assignment.Segments.Evaluation.Contract.{
  Evaluated, is_unchanged, delta_rows_unchanged, evaluate_segment-Evaluated,
}

-- Who qualifies depends only on the memberships in the segments that the rule refers to.
pub qualifies_congr :
    (rule : SegmentRule) (all_metrics : List (String × CustomerMetrics))
    (f g : String → String → Bool) (c : String)
    → ((p : String) → refers rule p ≡ true → f p c ≡ g p c)
    → qualifies rule all_metrics f c ≡ qualifies rule all_metrics g c
unfolding qualifies
qualifies_congr rule [] f g c h = refl
qualifies_congr rule ((id, metrics) ∷ rest) f g c h =
    rw (holds_congr metrics (λ p. f p c) (λ p. g p c) rule h, qualifies_congr rule rest f g c h)

module _ ⦃text : DecimalText⦄ where
  -- The members of the segment are the customers who satisfy its rule at that instant.
  abbrev pub InSync : ℤ → Tables → Segment → Type 0
  InSync now t s = (c : String) → is_in t s.id c ≡ satisfies now t s.rule c

  -- The same customers with the same transactions satisfy a rule, if the memberships in the segments
  -- that it refers to are the same.
  pub satisfies_congr :
      (now : ℤ) (t u : Tables) (rule : SegmentRule) (c : String)
      → u.customers ≡ t.customers
      → u.transactions ≡ t.transactions
      → ((p : String) → refers rule p ≡ true → is_in u p c ≡ is_in t p c)
      → satisfies now u rule c ≡ satisfies now t rule c
  satisfies_congr now t u rule c e k h =
      ap (λ m. qualifies rule m (is_in u) c) same
      ∙ qualifies_congr rule (compute_all now t) (is_in u) (is_in t) c h
    where
      same : compute_all now u ≡ compute_all now t
      same = unfold compute_all in rw (e, k)

module _ ⦃prisma : Prisma⦄ ⦃text : DecimalText⦄ {now : ℤ} {s : Segment} {r : EvaluationResult}
    {t t' : Tables} (done : Evaluated now s r t t') where
  -- A pass leaves its segment in sync.
  pub Evaluated-InSync : refers s.rule s.id ≡ false → InSync now t' s
  Evaluated-InSync no_self c =
      let here : is_in t' s.id c ≡ satisfies now t s.rule c =
        ground (arith, done.members s.id c, eq_iff s.id s.id) in
      here
      ∙ sym (satisfies_congr now t t' s.rule c done.customers done.transactions (λ p r. others p r))
    where
      others : (p : String) → refers s.rule p ≡ true → is_in t' p c ≡ is_in t p c
      others p r = ground (arith, done.members p c, eq_iff s.id p)

  -- A pass over one segment keeps another in sync, if the other's rule does not refer to it.
  pub Evaluated-keeps :
      (at : ℤ) (u : Segment)
      → u.id ≢ s.id
      → refers u.rule s.id ≡ false
      → InSync at t u
      → InSync at t' u
  Evaluated-keeps at u other apart sync c =
      unmoved
      ∙ sync c
      ∙ sym (satisfies_congr at t t' u.rule c done.customers done.transactions (λ p r. others p r))
    where
      unmoved : is_in t' u.id c ≡ is_in t u.id c
      unmoved = ground (arith, done.members u.id c, eq_iff s.id u.id)

      others : (p : String) → refers u.rule p ≡ true → is_in t' p c ≡ is_in t p c
      others p r = ground (arith, done.members p c, eq_iff s.id p)

  -- A pass over a segment that is in sync finds no change.
  pub InSync-unchanged : InSync now t s → is_unchanged r ≡ true
  InSync-unchanged sync =
      let a : r.added ≡ [] = has-nil r.added (λ c. ground (arith, done.added c, sync c)) in
      let b : r.removed ≡ [] = has-nil r.removed (λ c. ground (arith, done.removed c, sync c)) in
      rw (a, b)

module _ ⦃prisma : Prisma⦄ ⦃text : DecimalText⦄ where
  -- At the same instant, with nothing between, a second evaluation of a segment finds no change and
  -- writes no member, no history row and no event.
  pub evaluate_segment_twice :
      (now : ℤ) (first second id : String) (force : Bool) (s : Segment) (t : Tables)
      → find_segment_row t.segments id ≡ some s
      → is_refused s force ≡ false
      → refers s.rule s.id ≡ false
      → ParentsExist s.rule t
      → (r r' : EvaluationResult) × (t' t'' : Tables) × (evaluate_segment now first id force t
          ≡ (ok r, t'))
        × (evaluate_segment now second id force t' ≡ (ok r', t''))
        × (is_unchanged r' ≡ true)
        × (t''.members ≡ t'.members)
        × (t''.deltas ≡ t'.deltas)
        × (t''.outbox ≡ t'.outbox)
  evaluate_segment_twice now first second id force s t found allowed no_self exist =
      let (r, t', done, meets, _) =
        evaluate_segment-Evaluated now first id force s t found allowed no_self exist in
      let (r', t'', done', meets', _) =
        evaluate_segment-Evaluated now second id force s t' (rw meets.segments found) allowed
          no_self (λ p q. rw meets.segments (exist p q)) in
      let still : is_unchanged r' ≡ true =
        InSync-unchanged meets' (Evaluated-InSync meets no_self) in
      (
        r,
        r',
        t',
        t'',
        done,
        done',
        still,
        (rw still at meets'.kept),
        meets'.deltas
            ∙ rw (delta_rows_unchanged s.id r'.batch_id r'.added r'.removed still, append-nil),
        meets'.outbox ∙ (rw still),
      )
