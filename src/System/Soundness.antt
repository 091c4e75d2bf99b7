-- ===== src/System/Soundness.antt =====
-- The segments and their dependency edges fit together.
use mathlib.Core.Option.{some-injective}
use optio_ai_assignment.Prelude.{
  String, Bool, true, false, ◌≡◌, refl, sym, ap, subst, ◌∙◌, some, has, distinct, ◌==◌, eq_iff,
  arith, Bool-cases, inl, inr,
}
use optio_ai_assignment.Prelude.Int.{ℤ}
use optio_ai_assignment.Shared.Result.{Error, Result, ok, err, static_segment}
use optio_ai_assignment.Database.{Segment, Tables}
use optio_ai_assignment.Database.Views.{is_dynamic, segment_ids, find_segment_row, parents_of}
use optio_ai_assignment.Database.Prisma.{Prisma}
use optio_ai_assignment.Segments.Metrics.{DecimalText}
use optio_ai_assignment.Segments.Evaluator.Meaning.{refers}
use optio_ai_assignment.Segments.Dependency.Edges.{ParentsExist, replace_dependencies_cases}
use optio_ai_assignment.Segments.Evaluation.{
  EvaluationResult, is_refused, evaluate_found, evaluate_segment,
}
use optio_ai_assignment.Segments.Evaluation.Contract.{Evaluated, evaluate_segment_atomic}
use optio_ai_assignment.Segments.Order.Finding.{has-find, find_segment_row-id}

-- Ids are unique; an edge joins segments that are there; and the edges of a dynamic segment are those
-- of its rule, none of them to itself, but for the segments that `except` names.
pub record IsSoundBut (except : String → Bool) (t : Tables) : Type 0 where
  pub ids : distinct (segment_ids t.segments) ≡ true
  pub ends :
      (id p : String)
      → has (parents_of t.dependencies id) p ≡ true
      → has (segment_ids t.segments) p ≡ true
  pub owners :
      (id p : String)
      → has (parents_of t.dependencies id) p ≡ true
      → has (segment_ids t.segments) id ≡ true
  pub edges :
      (id : String) (s : Segment)
      → find_segment_row t.segments id ≡ some s
      → is_dynamic s ≡ true
      → except id ≡ false
      → (p : String) → has (parents_of t.dependencies id) p ≡ refers s.rule p
  pub no_self :
      (id : String) (s : Segment)
      → find_segment_row t.segments id ≡ some s
      → is_dynamic s ≡ true
      → except id ≡ false
      → refers s.rule id ≡ false

abbrev pub nobody : String → Bool
nobody id = false

abbrev pub IsSound : Tables → Type 0
IsSound = IsSoundBut nobody

abbrev pub only : String → String → Bool
only id j = id == j

-- What is read of the tables are the segments and the edges.
pub IsSoundBut-congr :
    {except : String → Bool} {t u : Tables}
    → u.segments ≡ t.segments
    → u.dependencies ≡ t.dependencies
    → IsSoundBut except t
    → IsSoundBut except u
IsSoundBut-congr e k h = record {
  ids = rw e h.ids;
  ends = rw (e, k) h.ends;
  owners = rw (e, k) h.owners;
  edges = rw (e, k) h.edges;
  no_self = rw e h.no_self;
}

pub IsSoundBut-weaken : (id : String) {t : Tables} → IsSound t → IsSoundBut (only id) t
IsSoundBut-weaken id h = record {
  ids = h.ids;
  ends = h.ends;
  owners = h.owners;
  edges = λ j s found d o. h.edges j s found d refl;
  no_self = λ j s found d o. h.no_self j s found d refl;
}

-- The parents of a dynamic segment exist.
pub IsSound-ParentsExist :
    {t : Tables} (id : String) (s : Segment)
    → IsSound t
    → find_segment_row t.segments id ≡ some s
    → is_dynamic s ≡ true
    → ParentsExist s.rule t
IsSound-ParentsExist id s h found d p r = h.ends id p (h.edges id s found d refl p ∙ r)

module _ ⦃prisma : Prisma⦄ ⦃text : DecimalText⦄ where
  -- A pass mends the edges of its segment.
  pub Evaluated-IsSound :
      {now : ℤ} {s : Segment} {r : EvaluationResult} {t t' : Tables}
      → Evaluated now s r t t'
      → find_segment_row t.segments s.id ≡ some s
      → refers s.rule s.id ≡ false
      → ParentsExist s.rule t
      → IsSoundBut (only s.id) t
      → IsSound t'
  Evaluated-IsSound {s = s} {t = t} {t' = t'} meets found other exist h = record {
    ids = rw meets.segments h.ids;
    ends = λ id p m. rw meets.segments (ground (arith, meets.parents id p, h.ends id p, exist p));
    owners = λ id p m. rw meets.segments (
        ground (
          arith,
          meets.parents id p,
          h.owners id p,
          eq_iff s.id id,
          has-find (λ x. x.id == s.id) t.segments s found,
        ));
    edges = edges_after;
    no_self = no_self_after;
  }
    where
      edges_after :
          (id : String) (u : Segment)
          → find_segment_row t'.segments id ≡ some u
          → is_dynamic u ≡ true
          → false ≡ false
          → (p : String) → has (parents_of t'.dependencies id) p ≡ refers u.rule p
      edges_after id u row d o p = elim (Bool-cases (s.id == id)) [
        | inl here ↦
            let row' : find_segment_row t.segments id ≡ some u = rw meets.segments at row in
            let same : s ≡ u = some-injective s u (sym found ∙ rw ((eq_iff s.id id).0 here) row') in
            meets.parents id p ∙ rw (here, same)
        | inr there ↦
            let row' : find_segment_row t.segments id ≡ some u = rw meets.segments at row in
            meets.parents id p ∙ rw there (h.edges id u row' d there p)
      ]

      no_self_after :
          (id : String) (u : Segment)
          → find_segment_row t'.segments id ≡ some u
          → is_dynamic u ≡ true
          → false ≡ false
          → refers u.rule id ≡ false
      no_self_after id u row d o = elim (Bool-cases (s.id == id)) [
        | inl here ↦
            let row' : find_segment_row t.segments id ≡ some u = rw meets.segments at row in
            let e : s.id ≡ id = (eq_iff s.id id).0 here in
            let same : s ≡ u = some-injective s u (sym found ∙ rw e row') in
            subst (λ x. refers x.rule id ≡ false) same
              (subst (λ j. refers s.rule j ≡ false) e other)
        | inr there ↦ h.no_self id u (rw meets.segments at row) d there
      ]

  -- An evaluation that returns had a rule that fits.
  pub evaluate_segment-fits :
      (now : ℤ) (batch_id id : String) (force : Bool) (s : Segment) (r : EvaluationResult)
      (t t' : Tables)
      → find_segment_row t.segments id ≡ some s
      → evaluate_segment now batch_id id force t ≡ (ok r, t')
      → (refers s.rule s.id ≡ false) × ParentsExist s.rule t
  unfolding evaluate_segment evaluate_found
  evaluate_segment-fits now batch_id id force s r t t' found done =
      elim (Bool-cases (is_refused s force)) [
        | inl refused ↦ absurd (
            failed_not_done (static_segment s.name)
              (rw (prisma.find_segment_lem t id, found, refused) at done))
        | inr allowed ↦ elim (replace_dependencies_cases s.id s.rule t) [
          | inl fits ↦ fits
          | inr (e, failed) ↦ absurd (
              failed_not_done e (rw (prisma.find_segment_lem t id, found, allowed, failed) at done))
        ]
      ]
    where
      failed_not_done :
          (e : Error) → ◌≡◌ {A = Result EvaluationResult × Tables} (err e, t) (ok r, t') → ⊥
      failed_not_done e q = cc (ap (λ x. x.0) q)

  -- An evaluation, whatever comes of it, keeps the tables sound.
  pub evaluate_segment-IsSound :
      (now : ℤ) (batch_id id : String) (force : Bool) (t : Tables)
      → IsSound t
      → IsSound (evaluate_segment now batch_id id force t).1
  evaluate_segment-IsSound now batch_id id force t h =
      elim (evaluate_segment_atomic now batch_id id force t) [
        | inl (e, failed) ↦ rw failed h
        | inr (s, r, t', found, done, meets) ↦
            let (other, exist) = evaluate_segment-fits now batch_id id force s r t t' found done in
            let row : find_segment_row t.segments s.id ≡ some s =
              subst (λ x. find_segment_row t.segments x ≡ some s)
                (sym (find_segment_row-id t.segments id s found)) found in
            rw done (Evaluated-IsSound meets row other exist (IsSoundBut-weaken s.id h))
      ]
