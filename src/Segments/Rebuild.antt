-- ===== src/Segments/Rebuild.antt =====
-- `rebuildAllDynamic` and `onApplicationBootstrap` of
-- apps/api/src/segments/segment-evaluation.service.ts.
pub mod Convergence
pub mod Cycles
pub mod Stuck
use optio_ai_assignment.Prelude.{ℕ, ◌+◌, String, Bool, false, List, [], ◌∷◌, length}
use optio_ai_assignment.Prelude.Int.{ℤ}
use optio_ai_assignment.Shared.Result.{Result, ok, err, Exec, pure, lift, gets, continue, ◌>>=◌}
use optio_ai_assignment.Database.{Segment, Tables}
use optio_ai_assignment.Database.Prisma.{Prisma}
use optio_ai_assignment.Segments.Metrics.{DecimalText}
use optio_ai_assignment.Segments.Evaluation.{EvaluationResult, evaluate_segment}
use optio_ai_assignment.Segments.Order.{topo_sort}

-- What the surroundings give each pass: the instant at which its metrics are read, and its random
-- batch id, by the segment's id.
pub record Surroundings : Type 0 where
  pub now : String → ℤ
  pub batch_id : String → String

module _ ⦃prisma : Prisma⦄ ⦃text : DecimalText⦄ where
  -- the loop over the ordered segments
  unfoldable pub evaluate_in_order :
      Surroundings → List Segment → Exec Tables (List EvaluationResult)
  evaluate_in_order env [] = pure []
  evaluate_in_order env (segment ∷ rest) = do
    result ← evaluate_segment (env.now segment.id) (env.batch_id segment.id) segment.id false
    results ← evaluate_in_order env rest
    pure (result ∷ results)

  unfoldable pub rebuild_all_dynamic : Surroundings → Exec Tables (List EvaluationResult)
  rebuild_all_dynamic env = do
    segments ← gets prisma.find_dynamic
    ordered ← lift (topo_sort segments)
    evaluate_in_order env ordered

-- the number that the bootstrap logs
unfoldable pub total_changes : List EvaluationResult → ℕ
total_changes [] = 0
total_changes (r ∷ results) = length r.added + length r.removed + total_changes results

module _ ⦃prisma : Prisma⦄ ⦃text : DecimalText⦄ where
  -- The hook catches what the rebuild throws, so it always returns; what was written stays.
  unfoldable pub on_application_bootstrap : Surroundings → Tables → Tables
  on_application_bootstrap env t = (rebuild_all_dynamic env t).1
