-- ===== src/Segments/Order/Cover.antt =====
-- The order has every segment of the batch.
use optio_ai_assignment.Prelude.{
  suc, ◌≤◌, String, true, false, ◌≡◌, refl, ap, List, [], ◌∷◌, length, has, add, distinct, ◌==◌,
  eq_iff, arith, Bool-cases, inl, inr, has-add,
}
use optio_ai_assignment.Prelude.Counting.{length-le_of_subset}
use optio_ai_assignment.Database.{Segment}
use optio_ai_assignment.Database.Views.{segment_ids}
use optio_ai_assignment.Segments.Order.Finding.{has-find}
use optio_ai_assignment.Segments.Order.Sound.{IsOrdered}

pub length-segment_ids : (rows : List Segment) → length (segment_ids rows) ≡ length rows
length-segment_ids [] = refl
length-segment_ids (s ∷ rows) = ap suc (length-segment_ids rows)

module _ (batch : List Segment) where
  IsOrdered-fresh :
      (done : List String) (out : List Segment) (id : String)
      → IsOrdered batch done out
      → has done id ≡ true
      → has (segment_ids out) id ≡ false
  unfolding has
  IsOrdered-fresh done [] id o h = refl
  IsOrdered-fresh done (s ∷ out) id o h =
      ground (
        arith,
        IsOrdered-fresh (add done s.id) out id o.3,
        has-add done s.id id,
        eq_iff s.id id,
        o.1,
      )

  IsOrdered-distinct :
      (done : List String) (out : List Segment)
      → IsOrdered batch done out
      → distinct (segment_ids out) ≡ true
  unfolding distinct
  IsOrdered-distinct done [] o = refl
  IsOrdered-distinct done (s ∷ out) o = ground (
    arith,
    IsOrdered-distinct (add done s.id) out o.3,
    IsOrdered-fresh (add done s.id) out s.id o.3,
    has-add done s.id s.id,
    eq_iff s.id s.id,
  )

  pub IsOrdered-subset :
      (done : List String) (out : List Segment) (id : String)
      → IsOrdered batch done out
      → has (segment_ids out) id ≡ true
      → has (segment_ids batch) id ≡ true
  unfolding has
  IsOrdered-subset done [] id o h = absurd (ground arith)
  IsOrdered-subset done (s ∷ out) id o h = ground (
    arith,
    IsOrdered-subset (add done s.id) out id o.3,
    has-find (λ x. x.id == s.id) batch s o.0,
    eq_iff s.id id,
  )

  -- An ordered list that is as long as the batch has exactly the ids of the batch.
  pub IsOrdered-cover :
      (out : List Segment) (id : String)
      → IsOrdered batch [] out
      → length out ≡ length batch
      → has (segment_ids batch) id ≡ true
      → has (segment_ids out) id ≡ true
  unfolding distinct has
  IsOrdered-cover out id o n h = elim (Bool-cases (has (segment_ids out) id)) [
    | inl there ↦ there
    | inr absent ↦
        let longer : suc (length (segment_ids out)) ≤ length (segment_ids batch) =
          length-le_of_subset (id ∷ segment_ids out) (segment_ids batch)
            (ground (arith, IsOrdered-distinct [] out o))
            (λ x m. ground (arith, IsOrdered-subset [] out x o, eq_iff id x)) in
        absurd (omega (arith, longer, length-segment_ids out, length-segment_ids batch))
  ]
