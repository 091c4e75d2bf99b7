-- ===== src/Segments/Dependency.antt =====
-- apps/api/src/segments/dependency.service.ts. Its proofs stand in the modules below.
pub mod Laws
pub mod Edges
use optio_ai_assignment.Prelude.{
  String, Bool, true, false, Option, none, some, List, [], ◌∷◌, has, add, is_empty, if◌then◌else◌,
}
use optio_ai_assignment.Shared.Rule.{SegmentRule, compare, in_segment, and, Rules, nil, cons}
use optio_ai_assignment.Shared.Result.{Error, Result, ok, err, Exec, self_reference, foreign_key}
use optio_ai_assignment.Database.{Tables}
use optio_ai_assignment.Database.Prisma.{Prisma}

-- The set that the source passes along and fills is the second argument and the result.
unfoldable mutual
  pub collect_parent_ids : SegmentRule → List String → List String
  collect_parent_ids (compare metric op value) acc = acc
  collect_parent_ids (in_segment segment_id) acc = add acc segment_id
  collect_parent_ids (and children) acc = collect_from children acc

  -- the loop over `rule.children`
  pub collect_from : Rules → List String → List String
  collect_from nil acc = acc
  collect_from (cons child rest) acc = collect_from rest (collect_parent_ids child acc)

module _ ⦃prisma : Prisma⦄ where
  -- a failed insert rolls the transaction back
  abbrev commit : Tables → Option Tables → Result (Unit {0}) × Tables
  commit t none = (err foreign_key, t)
  commit t (some t') = (ok tt, t')

  -- the guard and the transaction
  unfoldable pub replace_edges : String → List String → Exec Tables (Unit {0})
  replace_edges segment_id parent_ids t =
      if has parent_ids segment_id
      then (err (self_reference segment_id), t)
      else if is_empty parent_ids
      then (ok tt, prisma.remove_dependencies segment_id [] t)
      else commit t (
          prisma.create_dependencies segment_id parent_ids
            (prisma.remove_dependencies segment_id parent_ids t))

  unfoldable pub replace_dependencies : String → SegmentRule → Exec Tables (Unit {0})
  replace_dependencies segment_id rule = replace_edges segment_id (collect_parent_ids rule [])
