-- ===== src/Segments/Order.antt =====
-- `topoSort` of apps/api/src/segments/segment-evaluation.service.ts.
pub mod Finding
pub mod Sound
pub mod Cover
pub mod Complete
use optio_ai_assignment.Prelude.{
  ℕ, zero, suc, String, Bool, true, false, not, ◌&&◌, Option, none, some, List, [], ◌∷◌, ◌++◌, map,
  filter, find, all, length, has, add,
}
use optio_ai_assignment.Shared.Result.{Result, ok, err, unresolvable}
use optio_ai_assignment.Database.{Segment}
use optio_ai_assignment.Database.Views.{segment_ids}
use optio_ai_assignment.Segments.Dependency.{collect_parent_ids}

-- `parentsOf.get(s.id)`: the parents that are in the batch
unfoldable pub refs_in : List Segment → Segment → List String
refs_in batch s = filter (λ id. has (segment_ids batch) id) (collect_parent_ids s.rule [])

-- the test of `find`
unfoldable pub is_ready : List Segment → List String → Segment → Bool
unfolding refs_in
is_ready batch done s = not (has done s.id) && all (λ p. has done p) (refs_in batch s)

-- The `while` loop; it runs once for each segment that is not yet in `result`, and `left` counts
-- them.
unfoldable pub place : List Segment → ℕ → List Segment → List String → Result (List Segment)
place batch zero result done = ok result
place batch (suc left) result done = elim (find (is_ready batch done) batch) [
  | none ↦ err (unresolvable (map (λ s. s.name) (filter (λ s. not (has done s.id)) batch)))
  | some next ↦ place batch left (result ++ next ∷ []) (add done next.id)
]

unfoldable pub topo_sort : List Segment → Result (List Segment)
topo_sort batch = place batch (length batch) [] []
