-- ===== src/Messaging/Buffer.antt =====
-- apps/api/src/messaging/change-buffer.service.ts. The Redis client is a parameter: its commands with
-- what they do to the two keys that the service uses.
pub mod Marks
pub mod Flush
use optio_ai_assignment.Prelude.{
  String, Bool, true, false, ◌≡◌, Option, none, some, List, [], ◌∷◌, is_empty, to_set_onto,
  if◌then◌else◌,
}
use optio_ai_assignment.Shared.Result.{Result, ok, err}
use optio_ai_assignment.Database.{Tables}
use optio_ai_assignment.Database.Prisma.{Prisma}
use optio_ai_assignment.Segments.Metrics.{DecimalText}
use optio_ai_assignment.Segments.Evaluation.{EvaluationResult}
use optio_ai_assignment.Segments.Rebuild.{Surroundings, rebuild_all_dynamic}

-- The set at BUFFER_KEY and the set at the snapshot key of the flush; an empty set is no key.
pub record Keys : Type 0 where
  pub buffer : List String
  pub snapshot : List String

pub record Redis : Type 0 where
  -- SADD BUFFER_KEY …
  pub sadd : List String → Keys → Keys
  pub sadd_lem :
      (ids : List String) (k : Keys) → sadd ids k ≡ record k { buffer = to_set_onto k.buffer ids }
  -- RENAME BUFFER_KEY snapshot; `none` is the error "no such key"
  pub rename : Keys → Option Keys
  pub rename_lem :
      (k : Keys)
      → rename k
        ≡ (if is_empty k.buffer then none else some (record { buffer = []; snapshot = k.buffer }))
  -- SMEMBERS snapshot
  pub smembers : Keys → List String
  pub smembers_lem : (k : Keys) → smembers k ≡ k.snapshot
  -- DEL snapshot
  pub del : Keys → Keys
  pub del_lem : (k : Keys) → del k ≡ record k { snapshot = [] }

pub record ChangeBuffer : Type 0 where
  pub in_flight : Bool
  pub keys : Keys
  pub tables : Tables

module _ ⦃redis : Redis⦄ where
  unfoldable pub mark_changed : String → ChangeBuffer → ChangeBuffer
  mark_changed customer_id s = record s { keys = redis.sadd (customer_id ∷ []) s.keys }

  unfoldable pub mark_changed_many : List String → ChangeBuffer → ChangeBuffer
  mark_changed_many customer_ids s =
      if is_empty customer_ids then s else record s { keys = redis.sadd customer_ids s.keys }

module _ ⦃redis : Redis⦄ ⦃prisma : Prisma⦄ ⦃text : DecimalText⦄ where
  -- after the rename; the customers that the snapshot holds are only counted for the log
  abbrev pub flush_renamed :
      Surroundings → Option Keys → ChangeBuffer → Result (List EvaluationResult) × ChangeBuffer
  flush_renamed env none s = (ok [], s)
  flush_renamed env (some keys) s = (
    (rebuild_all_dynamic env s.tables).0,
    record s { keys = redis.del keys; tables = (rebuild_all_dynamic env s.tables).1 },
  )

  unfoldable pub flush : Surroundings → ChangeBuffer → Result (List EvaluationResult) × ChangeBuffer
  flush env s = flush_renamed env (redis.rename s.keys) s

  -- what `flush` throws is logged
  unfoldable pub tick : Surroundings → ChangeBuffer → ChangeBuffer
  tick env s =
      if s.in_flight
      then s
      else record ((flush env (record s { in_flight = true })).1) { in_flight = false }
