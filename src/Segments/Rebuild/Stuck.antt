-- ===== src/Segments/Rebuild/Stuck.antt =====
-- The rebuild throws for a cycle, and for nothing else.
use optio_ai_assignment.Prelude.{
  ℕ, zero, suc, ◌+◌, String, Bool, true, false, not, ◌≡◌, refl, ap, subst, none, some, List, [],
  ◌∷◌, ◌++◌, filter, find, all, length, has, add, distinct, eq_iff, arith, Bool-cases, Option-cases,
  inl, inr, ◌⊎◌, distinct-add,
}
use optio_ai_assignment.Prelude.Counting.{length-le_of_subset}
use optio_ai_assignment.Shared.Result.{Error, ok, err, Result-cases}
use optio_ai_assignment.Database.{Segment, Tables}
use optio_ai_assignment.Database.Views.{is_dynamic, segment_ids, find_segment_row}
use optio_ai_assignment.Database.Prisma.{Prisma}
use optio_ai_assignment.Segments.Metrics.{DecimalText}
use optio_ai_assignment.Segments.Evaluation.{EvaluationResult}
use optio_ai_assignment.Segments.Order.{refs_in, is_ready, place, topo_sort}
use optio_ai_assignment.Segments.Order.Finding.{
  has-find, find-holds, find-none, find_segment_row-id, find_segment_row-total,
  distinct-filter_rows,
}
use optio_ai_assignment.Segments.Order.Sound.{has-refs_in, topo_sort-IsOrdered}
use optio_ai_assignment.Segments.Order.Cover.{length-segment_ids, IsOrdered-cover}
use optio_ai_assignment.Segments.Order.Complete.{grown}
use optio_ai_assignment.Segments.Rebuild.{Surroundings, rebuild_all_dynamic}
use optio_ai_assignment.Segments.Rebuild.Convergence.{
  IsFit, AllInSync, AllInSync-intro, evaluate_in_order-Settled, in_table,
}
use optio_ai_assignment.Segments.Rebuild.Cycles.{IsCycle}

not_all :
    (p : String → Bool) (xs : List String)
    → all p xs ≡ false
    → (x : String) × (has xs x ≡ true) × (p x ≡ false)
unfolding has
not_all p [] h = absurd (ground arith)
not_all p (x ∷ xs) h = elim (Bool-cases (p x)) [
  | inr fails ↦ (x, ground (arith, eq_iff x x), fails)
  | inl passes ↦ let (y, there, fails) = not_all p xs (ground arith) in (y, ground arith, fails)
]

-- Some segments are in a cycle.
pub record HasCycle (batch : List Segment) : Type 0 where
  pub in_cycle : String → Bool
  pub cycle : IsCycle in_cycle batch
  pub id : String
  pub there : has (segment_ids batch) id ≡ true
  pub inside : in_cycle id ≡ true

module _ (batch : List Segment) where
  -- If nothing is ready, each segment that is not done waits for another one.
  waiting-IsCycle :
      (done : List String)
      → find (is_ready batch done) batch ≡ none
      → IsCycle (λ id. not (has done id)) batch
  unfolding is_ready
  waiting-IsCycle done idle id s found open_still =
      let same : s.id ≡ id = find_segment_row-id batch id s found in
      let not_ready = find-none (is_ready batch done) batch id s idle found in
      let waits : all (λ p. has done p) (refs_in batch s) ≡ false =
        ground (arith, not_ready, ap (has done) same) in
      let (p, referred, not_done) = not_all (λ p. has done p) (refs_in batch s) waits in
      (p, ground (arith, has-refs_in batch s p), ground (arith, has-refs_in batch s p), rw not_done)

  waiting-HasCycle :
      (left : ℕ) (done : List String)
      → find (is_ready batch done) batch ≡ none
      → distinct (segment_ids batch) ≡ true
      → length done + suc left ≡ length batch
      → HasCycle batch
  waiting-HasCycle left done idle d n =
      elim (Option-cases (find (λ s. not (has done s.id)) batch)) [
        | inr (s, found) ↦ record {
          in_cycle = λ id. not (has done id);
          cycle = waiting-IsCycle done idle;
          id = s.id;
          there = has-find (λ u. not (has done u.id)) batch s found;
          inside = find-holds (λ u. not (has done u.id)) batch s found;
        }
        | inl full ↦ absurd (
            omega (
              arith,
              n,
              length-segment_ids batch,
              length-le_of_subset (segment_ids batch) done d (λ x m. every_done full x m),
            ))
      ]
    where
      every_done :
          find (λ s. not (has done s.id)) batch ≡ none
          → (x : String) → has (segment_ids batch) x ≡ true
          → has done x ≡ true
      every_done full x m =
          let (s, found) = find_segment_row-total batch x m in
          let same : s.id ≡ x = find_segment_row-id batch x s found in
          let h : not (has done s.id) ≡ false =
            find-none (λ u. not (has done u.id)) batch x s full found in
          subst (λ y. has done y ≡ true) same (ground (arith, h))

  place_stuck :
      (left : ℕ) (result : List Segment) (done : List String) (e : Error)
      → distinct done ≡ true
      → distinct (segment_ids batch) ≡ true
      → length done + left ≡ length batch
      → place batch left result done ≡ err e
      → HasCycle batch
  unfolding place
  place_stuck zero result done e d b n h = absurd (cc h)
  place_stuck (suc left) result done e d b n h =
      elim (Option-cases (find (is_ready batch done) batch)) [
        | inl idle ↦ waiting-HasCycle left done idle b n
        | inr (next, found) ↦
            place_stuck left (result ++ next ∷ []) (add done next.id) e
              (distinct-add done next.id d) b
              (grown batch left done next (find-holds (is_ready batch done) batch next found) n)
              (rw (found, place) at h)
      ]

  -- The sort throws only if some segments refer to one another in a cycle.
  pub topo_sort_stuck :
      (e : Error) → distinct (segment_ids batch) ≡ true → topo_sort batch ≡ err e → HasCycle batch
  unfolding topo_sort distinct
  topo_sort_stuck e d h = place_stuck (length batch) [] [] e refl d (omega arith) h

module _ ⦃prisma : Prisma⦄ ⦃text : DecimalText⦄ where
  -- The rebuild either returns, with every dynamic segment in sync, or it finds a cycle and throws, with
  -- every table as it was.
  pub rebuild_all_dynamic-cases :
      (env : Surroundings) (t : Tables)
      → distinct (segment_ids t.segments) ≡ true
      → ((id : String) (s : Segment)
          → find_segment_row (filter is_dynamic t.segments) id ≡ some s
          → IsFit t s)
      → ((results : List EvaluationResult) × (t' : Tables) × (rebuild_all_dynamic env t
            ≡ (ok results, t'))
          × AllInSync env t' (filter is_dynamic t.segments))
        ⊎ (HasCycle (filter is_dynamic t.segments)
            × (e : Error) × (rebuild_all_dynamic env t ≡ (err e, t)))
  unfolding rebuild_all_dynamic has
  rebuild_all_dynamic-cases env t d fit =
      let batch : List Segment = filter is_dynamic t.segments in
      let d' : distinct (segment_ids batch) ≡ true = distinct-filter_rows is_dynamic t.segments d in
      elim (Result-cases (topo_sort batch)) [
        | inr (e, failed) ↦
            inr (topo_sort_stuck batch e d' failed, e, rw (prisma.find_dynamic_lem t, failed))
        | inl (out, sorted) ↦
            let (ordered, n) = topo_sort-IsOrdered batch out d' sorted in
            let (results, t', ran, settled, _, _) =
              evaluate_in_order-Settled env batch [] out t ordered fit
                (λ id s found h. absurd (ground arith)) in
            inl (
              results,
              t',
              rw (prisma.find_dynamic_lem t, sorted) ran,
              AllInSync-intro env t' batch d' (λ id s found.
                  (settled id s found
                    (IsOrdered-cover batch out id ordered n (in_table batch id s found))).0),
            )
      ]
