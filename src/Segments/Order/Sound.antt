-- ===== src/Segments/Order/Sound.antt =====
-- The order that `topoSort` returns.
use mathlib.Core.List.{append_assoc, append-nil}
use optio_ai_assignment.Prelude.{
  ℕ, zero, suc, String, true, false, ◌&&◌, ◌≡◌, refl, sym, ap, subst, ◌∙◌, some, List, [], ◌∷◌,
  ◌++◌, find, length, has, add, distinct, arith, Option-cases, inl, inr, has-filter, all_at,
  and_right,
}
use optio_ai_assignment.Shared.Result.{ok, ok-injective}
use optio_ai_assignment.Database.{Segment}
use optio_ai_assignment.Database.Views.{segment_ids, find_segment_row}
use optio_ai_assignment.Segments.Evaluator.Meaning.{refers}
use optio_ai_assignment.Segments.Dependency.{collect_parent_ids}
use optio_ai_assignment.Segments.Dependency.Laws.{collect_parent_ids-refers}
use optio_ai_assignment.Segments.Order.{refs_in, is_ready, place, topo_sort}
use optio_ai_assignment.Segments.Order.Finding.{find-holds, find-find_segment_row}

pub has-refs_in :
    (batch : List Segment) (s : Segment) (p : String)
    → has (refs_in batch s) p ≡ (refers s.rule p && has (segment_ids batch) p)
unfolding refs_in
has-refs_in batch s p = ground (
  arith,
  has-filter (λ id. has (segment_ids batch) id) (collect_parent_ids s.rule []) p,
  (collect_parent_ids-refers s.rule).0 p,
)

-- Each parent of the segment that is in the batch is in `done`.
abbrev pub ParentsDone : List Segment → List String → Segment → Type 0
ParentsDone batch done s =
    (p : String) → refers s.rule p ≡ true → has (segment_ids batch) p ≡ true → has done p ≡ true

-- Each segment of the list is one of the batch, stands there once, and behind its parents; `done`
-- holds the ids that stand before the list.
abbrev pub IsOrdered : List Segment → List String → List Segment → Type 0
IsOrdered batch done [] = Unit
IsOrdered batch done (s ∷ rest) =
    (find_segment_row batch s.id ≡ some s)
    × (has done s.id ≡ false)
    × ParentsDone batch done s
    × IsOrdered batch (add done s.id) rest

parent_done :
    (batch : List Segment) (s : Segment) (done : List String)
    → is_ready batch done s ≡ true
    → ParentsDone batch done s
unfolding is_ready
parent_done batch s done ready p r m =
    all_at (λ q. has done q) (refs_in batch s) p (and_right _ _ ready)
      (ground (arith, has-refs_in batch s p))

-- the loop appends an ordered list of `left` segments to `result`
place-IsOrdered :
    (batch : List Segment) (left : ℕ) (result : List Segment) (done : List String)
    (out : List Segment)
    → distinct (segment_ids batch) ≡ true
    → place batch left result done ≡ ok out
    → (rest : List Segment) × (out ≡ result ++ rest)
      × IsOrdered batch done rest
      × (length rest ≡ left)
unfolding place
place-IsOrdered batch zero result done out d h =
    ([], sym (ok-injective h) ∙ sym (append-nil result), tt, refl)
place-IsOrdered batch (suc left) result done out d h =
    elim (Option-cases (find (is_ready batch done) batch)) [
      | inl stuck ↦ absurd (cc (rw (stuck, place) at h))
      | inr (next, found) ↦
          let ready : is_ready batch done next ≡ true =
            find-holds (is_ready batch done) batch next found in
          let (rest, e, ordered, n) =
            place-IsOrdered batch left (result ++ next ∷ []) (add done next.id) out d
              (rw (found, place) at h) in
          (
            next ∷ rest,
            e ∙ append_assoc result (next ∷ []) rest,
            (
              find-find_segment_row (is_ready batch done) batch next d found,
              unfold is_ready in ground arith,
              (λ p r m. parent_done batch next done ready p r m),
              ordered,
            ),
            ap suc n,
          )
    ]

-- The order is a rearrangement of the batch with parents first: as many segments, each of them one of
-- the batch, none twice, and each behind the parents that the batch holds.
pub topo_sort-IsOrdered :
    (batch out : List Segment)
    → distinct (segment_ids batch) ≡ true
    → topo_sort batch ≡ ok out
    → IsOrdered batch [] out × (length out ≡ length batch)
unfolding topo_sort
topo_sort-IsOrdered batch out d h =
    let (rest, e, ordered, n) = place-IsOrdered batch (length batch) [] [] out d h in
    (subst (IsOrdered batch []) (sym e) ordered, ap length e ∙ n)
