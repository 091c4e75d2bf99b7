-- ===== src/Api/Segments/Removing.antt =====
-- What `remove` lets through, and what it leaves behind.
use optio_ai_assignment.Prelude.{
  String, true, false, not, ◌&&◌, ◌≡◌, refl, some, List, [], ◌∷◌, filter, has, is_empty, ◌==◌,
  eq_iff, arith, inl, inr,
}
use optio_ai_assignment.Prelude.Int.{ℤ}
use optio_ai_assignment.Shared.Result.{Error, ok, err}
use optio_ai_assignment.Database.{Segment, Tables}
use optio_ai_assignment.Database.Views.{segment_ids, find_segment_row, children_of}
use optio_ai_assignment.Database.Prisma.{Prisma}
use optio_ai_assignment.Segments.Metrics.{DecimalText}
use optio_ai_assignment.Segments.Evaluator.Meaning.{refers}
use optio_ai_assignment.Segments.Dependency.Edges.{replace_dependencies_cases}
use optio_ai_assignment.Segments.Evaluation.{is_refused, evaluate_found, evaluate_segment}
use optio_ai_assignment.Api.Segments.{remove}

pub has-filter_ids :
    (rows : List Segment) (id x : String)
    → has (segment_ids (filter (λ s. not (s.id == id)) rows)) x
      ≡ (has (segment_ids rows) x && not (x == id))
unfolding has
has-filter_ids [] id x = refl
has-filter_ids (s ∷ rows) id x = ground (arith, has-filter_ids rows id x, eq_iff s.id x)

find-filter_ids :
    (rows : List Segment) (id x : String) (s : Segment)
    → (x == id) ≡ false
    → find_segment_row rows x ≡ some s
    → find_segment_row (filter (λ u. not (u.id == id)) rows) x ≡ some s
find-filter_ids [] id x s other found = absurd (ground arith)
find-filter_ids (u ∷ rows) id x s other found =
    ground (arith, find-filter_ids rows id x s, eq_iff u.id x, eq_iff u.id id)

module _ ⦃prisma : Prisma⦄ where
  remove-deleted :
      (id : String) (s : Segment) (t : Tables)
      → find_segment_row t.segments id ≡ some s
      → is_empty (children_of t.dependencies id) ≡ true
      → remove id t ≡ (ok tt, prisma.delete_segment id t)
  unfolding remove
  remove-deleted id s t found free =
      rw (prisma.find_segment_lem t id, found, prisma.find_dependents_lem t id, free)

module _ ⦃prisma : Prisma⦄ ⦃text : DecimalText⦄ where
  -- A rule that refers to a segment that is not there cannot be evaluated.
  evaluate_dangling :
      (now : ℤ) (batch_id : String) (s : Segment) (t : Tables) (p : String)
      → find_segment_row t.segments s.id ≡ some s
      → refers s.rule p ≡ true
      → has (segment_ids t.segments) p ≡ false
      → (e : Error) × (evaluate_segment now batch_id s.id true t ≡ (err e, t))
  unfolding evaluate_segment evaluate_found
  evaluate_dangling now batch_id s t p found referred absent =
      elim (replace_dependencies_cases s.id s.rule t) [
        | inl (_, exist) ↦ absurd (ground (arith, exist p referred))
        | inr (e, failed) ↦ (e, rw (prisma.find_segment_lem t s.id, found, forced s, failed))
      ]
    where
      forced : (u : Segment) → is_refused u true ≡ false
      forced u = ground arith

  -- A segment to which the rule of another one refers is removed all the same, if no dependency edge
  -- says so; from then on every forced evaluation of the other one throws and changes no table.
  pub remove_dangling :
      (now : ℤ) (batch_id id : String) (s u : Segment) (t : Tables)
      → find_segment_row t.segments id ≡ some s
      → is_empty (children_of t.dependencies id) ≡ true
      → find_segment_row t.segments u.id ≡ some u
      → (u.id == id) ≡ false
      → refers u.rule id ≡ true
      → (t' : Tables) × (e : Error) × (remove id t ≡ (ok tt, t'))
        × (has (segment_ids t'.segments) id ≡ false)
        × (find_segment_row t'.segments u.id ≡ some u)
        × (evaluate_segment now batch_id u.id true t' ≡ (err e, t'))
  remove_dangling now batch_id id s u t found free there other referred =
      let t' = prisma.delete_segment id t in
      let gone : has (segment_ids t'.segments) id ≡ false =
        rw (prisma.delete_segment_lem id t)
          (ground (arith, has-filter_ids t.segments id id, eq_iff id id)) in
      let kept : find_segment_row t'.segments u.id ≡ some u =
        rw (prisma.delete_segment_lem id t) (find-filter_ids t.segments id u.id u other there) in
      let (e, failed) = evaluate_dangling now batch_id u t' id kept referred gone in
      (t', e, remove-deleted id s t found free, gone, kept, failed)
