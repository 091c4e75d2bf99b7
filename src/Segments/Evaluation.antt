-- ===== src/Segments/Evaluation.antt =====
-- apps/api/src/segments/segment-evaluation.service.ts: one evaluation pass, where every query and
-- transaction answers; Outage is the pass where they fail. The instant at which the
-- metrics are read and the random batch id are arguments.
pub mod Loading
pub mod Members
pub mod Persist
pub mod Pass
pub mod Contract
pub mod Sync
pub mod Outage
pub mod Race
use optio_ai_assignment.Prelude.{
  ℕ, String, Bool, true, false, not, ◌&&◌, Option, none, some, List, [], ◌∷◌, ◌++◌, map, filter,
  length, has, add, to_set_onto, is_empty, if◌then◌else◌, ◌==◌,
}
use optio_ai_assignment.Prelude.Int.{ℤ}
use optio_ai_assignment.Shared.Rule.{SegmentRule}
use optio_ai_assignment.Shared.Events.{SegmentDeltaPayload, segment_delta}
use optio_ai_assignment.Shared.Result.{
  Error, Result, ok, err, bind, Exec, lift, gets, pure, throw, continue, ◌>>=◌, ◌>>◌, not_found,
  static_segment,
}
use optio_ai_assignment.Database.{
  SegmentType, dynamic, static, Segment, SegmentMember, SegmentDelta, add as add_change,
  remove as remove_change, Tables,
}
use optio_ai_assignment.Database.Prisma.{Prisma}
use optio_ai_assignment.Segments.Metrics.{CustomerMetrics, DecimalText, compute_all}
use optio_ai_assignment.Segments.Evaluator.{Memberships, evaluate}
use optio_ai_assignment.Segments.Dependency.{collect_parent_ids, replace_dependencies}

pub record EvaluationResult : Type 0 where
  pub segment_id : String
  pub segment_name : String
  pub batch_id : String
  pub added : List String
  pub removed : List String
  pub total_members : ℕ

-- `map.get(row.segmentId)!.add(row.customerId)`; the rows are selected by the keys of the map.
unfoldable pub add_row : Memberships → SegmentMember → Memberships
add_row [] row = []
add_row ((id, members) ∷ rest) row =
    let later = add_row rest row in
    if id == row.segment_id then (id, add members row.customer_id) ∷ rest else (id, members) ∷ later

unfoldable pub add_rows : Memberships → List SegmentMember → Memberships
add_rows memberships [] = memberships
add_rows memberships (row ∷ rows) = add_rows (add_row memberships row) rows

-- `for (const id of parentIds) map.set(id, new Set())`
abbrev pub empty_sets : List String → Memberships
empty_sets ids = map (λ id. (id, [])) ids

-- the loop over the customers: the new members, in the order of the metrics
unfoldable pub evaluate_each :
    SegmentRule → Memberships → List String → List (String × CustomerMetrics) → Result (List String)
evaluate_each rule memberships new_members [] = ok new_members
evaluate_each rule memberships new_members ((customer_id, metrics) ∷ rest) =
    bind (evaluate rule metrics memberships customer_id) (λ b.
      evaluate_each rule memberships (if b then add new_members customer_id else new_members) rest)

abbrev pub delta_rows : String → String → List String → List String → List SegmentDelta
delta_rows id batch_id added removed =
    map (λ c. record { segment_id = id; customer_id = c; change = add_change; batch_id = batch_id })
      added
    ++ map
        (λ c. record {
          segment_id = id;
          customer_id = c;
          change = remove_change;
          batch_id = batch_id;
        })
        removed

-- the guard: a static segment is evaluated only by force
abbrev pub is_refused : Segment → Bool → Bool
is_refused segment force = elim segment.type [ dynamic ↦ false | static ↦ not force ]

module _ ⦃prisma : Prisma⦄ where
  unfoldable pub load_parent_memberships : List String → Tables → Memberships
  load_parent_memberships parent_ids t =
      if is_empty parent_ids
      then []
      else add_rows (empty_sets parent_ids) (prisma.find_members_in t parent_ids)

  -- the transaction that writes the members, the deltas and the outbox event
  unfoldable pub persist : String → String → String → List String → List String → Tables → Tables
  persist id name batch_id added removed t =
      let t1 = if is_empty added then t else prisma.create_members id added t in
      let t2 = if is_empty removed then t1 else prisma.remove_members id removed t1 in
      if is_empty added && is_empty removed
      then t2
      else prisma.create_event segment_delta
          (record {
            segment_id = id;
            segment_name = name;
            batch_id = batch_id;
            added = added;
            removed = removed;
          })
          (prisma.create_deltas (delta_rows id batch_id added removed) t2)

  -- the diff against the current members, its persistence, and the result
  unfoldable pub apply_diff : Segment → String → List String → Exec Tables EvaluationResult
  apply_diff segment batch_id new_members t =
      let current_set = to_set_onto [] (prisma.find_members t segment.id) in
      let added = filter (λ id. not (has current_set id)) new_members in
      let removed = filter (λ id. not (has new_members id)) current_set in
      (
        ok (record {
          segment_id = segment.id;
          segment_name = segment.name;
          batch_id = batch_id;
          added = added;
          removed = removed;
          total_members = length new_members;
        }),
        persist segment.id segment.name batch_id added removed t,
      )

  module _ ⦃text : DecimalText⦄ where
    -- the pass behind the guard, where every query and transaction answers
    unfoldable pub evaluate_found : ℤ → String → Segment → Exec Tables EvaluationResult
    evaluate_found now batch_id segment = do
      replace_dependencies segment.id segment.rule
      all_metrics ← gets (compute_all now)
      memberships ← gets (load_parent_memberships (collect_parent_ids segment.rule []))
      new_members ← lift (evaluate_each segment.rule memberships [] all_metrics)
      apply_diff segment batch_id new_members

    abbrev pub evaluate_row :
        ℤ → String → Bool → String → Option Segment → Exec Tables EvaluationResult
    evaluate_row now batch_id force id none = throw (not_found id)
    evaluate_row now batch_id force id (some segment) =
        if is_refused segment force
        then throw (static_segment segment.name)
        else evaluate_found now batch_id segment

    unfoldable pub evaluate_segment : ℤ → String → String → Bool → Exec Tables EvaluationResult
    evaluate_segment now batch_id segment_id force t =
        evaluate_row now batch_id force segment_id (prisma.find_segment t segment_id) t
