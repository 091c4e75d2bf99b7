-- ===== src/Segments/Order/Complete.antt =====
-- `topoSort` throws for cycles only.
use optio_ai_assignment.Prelude.{
  ℕ, zero, suc, ◌+◌, ◌≤◌, ◌<◌, String, true, false, ◌≡◌, refl, subst, none, some, List, [], ◌∷◌,
  ◌++◌, find, all, length, has, add, distinct, arith, Option-cases, inl, inr, all_intro,
  length-append, distinct-add,
}
use optio_ai_assignment.Prelude.Counting.{length-le_of_subset}
use optio_ai_assignment.Shared.Result.{ok}
use optio_ai_assignment.Database.{Segment}
use optio_ai_assignment.Database.Views.{segment_ids, find_segment_row}
use optio_ai_assignment.Segments.Evaluator.Meaning.{refers}
use optio_ai_assignment.Segments.Order.{refs_in, is_ready, place, topo_sort}
use optio_ai_assignment.Segments.Order.Finding.{
  find-holds, find-none, find_segment_row-id, find_segment_row-total,
}
use optio_ai_assignment.Segments.Order.Sound.{has-refs_in}
use optio_ai_assignment.Segments.Order.Cover.{length-segment_ids}

-- `rank` puts every parent in the batch below its children, so the references have no cycle.
abbrev pub IsRanked : (String → ℕ) → List Segment → Type 0
IsRanked rank batch =
    (id : String) (s : Segment) (p : String)
    → find_segment_row batch id ≡ some s
    → refers s.rule p ≡ true
    → has (segment_ids batch) p ≡ true
    → rank p < rank id

-- One more segment is done, and one fewer is left.
pub grown :
    (batch : List Segment) (left : ℕ) (done : List String) (next : Segment)
    → is_ready batch done next ≡ true
    → length done + suc left ≡ length batch
    → length (add done next.id) + left ≡ length batch
unfolding is_ready add
grown batch left done next ready n = ground (arith, length-append done (next.id ∷ []))

module _ (rank : String → ℕ) (batch : List Segment) (ranked : IsRanked rank batch) where
  done_of_not_ready :
      (done : List String) (s : Segment)
      → all (λ p. has done p) (refs_in batch s) ≡ true
      → is_ready batch done s ≡ false
      → has done s.id ≡ true
  unfolding is_ready
  done_of_not_ready done s parents not_ready = ground arith

  in_batch :
      (s : Segment) (p : String) → has (refs_in batch s) p ≡ true → has (segment_ids batch) p ≡ true
  in_batch s p m = ground (arith, has-refs_in batch s p)

  deeper :
      {n : ℕ} (id : String) (s : Segment) (p : String)
      → find_segment_row batch id ≡ some s
      → has (refs_in batch s) p ≡ true
      → rank id < suc n
      → rank p < n
  deeper id s p found m below =
      omega (arith, ranked id s p found (ground (arith, has-refs_in batch s p)) (in_batch s p m))

  -- If nothing is ready, everything below any rank is done.
  all_done :
      (done : List String)
      → find (is_ready batch done) batch ≡ none
      → (n : ℕ) (id : String) → rank id < n
      → has (segment_ids batch) id ≡ true
      → has done id ≡ true
  all_done done idle zero id below h = absurd (omega arith)
  all_done done idle (suc n) id below h =
      let (s, found) = find_segment_row-total batch id h in
      let parents : all (λ p. has done p) (refs_in batch s) ≡ true =
        all_intro (λ p. has done p) (refs_in batch s)
          (λ p m. all_done done idle n p (deeper id s p found m below) (in_batch s p m)) in
      let not_ready : is_ready batch done s ≡ false =
        find-none (is_ready batch done) batch id s idle found in
      let same : s.id ≡ id = find_segment_row-id batch id s found in
      subst (λ x. has done x ≡ true) same (done_of_not_ready done s parents not_ready)

  all_placed :
      (done : List String)
      → find (is_ready batch done) batch ≡ none
      → distinct (segment_ids batch) ≡ true
      → length (segment_ids batch) ≤ length done
  all_placed done idle d =
      length-le_of_subset (segment_ids batch) done d
        (λ x m. all_done done idle (suc (rank x)) x (omega arith) m)

  place-total :
      (left : ℕ) (result : List Segment) (done : List String)
      → distinct done ≡ true
      → distinct (segment_ids batch) ≡ true
      → length done + left ≡ length batch
      → (out : List Segment) × (place batch left result done ≡ ok out)
  unfolding place
  place-total zero result done d e n = (result, refl)
  place-total (suc left) result done d e n =
      elim (Option-cases (find (is_ready batch done) batch)) [
        | inl idle ↦ absurd (omega (arith, n, all_placed done idle e, length-segment_ids batch))
        | inr (next, found) ↦
            let (out, ends) =
              place-total left (result ++ next ∷ []) (add done next.id)
                (distinct-add done next.id d) e
                (grown batch left done next (find-holds (is_ready batch done) batch next found)
                  n) in
            (out, rw (found, place) ends)
      ]

-- If the references among the segments have no cycle, the sort returns an order.
pub topo_sort-total :
    (rank : String → ℕ) (batch : List Segment)
    → distinct (segment_ids batch) ≡ true
    → IsRanked rank batch
    → (out : List Segment) × (topo_sort batch ≡ ok out)
unfolding topo_sort distinct
topo_sort-total rank batch d ranked =
    place-total rank batch ranked (length batch) [] [] refl d (omega arith)
