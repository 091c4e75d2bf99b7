-- ===== src/Simulator.antt =====
-- apps/api/src/simulator/simulator.controller.ts. Random draws are an argument; amounts are
-- hundredths. The tables and the change buffer are one state.
pub mod Bulk
pub mod Clock
pub mod Profile
use optio_ai_assignment.Prelude.{
  ℕ, zero, suc, ◌+◌, ◌-◌, ◌/◌, ◌*◌, ◌^◌, min, String, Bool, true, false, not, ◌&&◌, ◌||◌, Option,
  none, some, List, [], ◌∷◌, ◌++◌, map, length, is_empty, has, to_set_onto, ltb, if◌then◌else◌,
  ◌==◌,
}
use optio_ai_assignment.Prelude.Int.{ℤ, pos, negsuc, ◌-ℤ◌}
use optio_ai_assignment.Number.{Number, finite, infinity, neg_infinity, nan, is_finite, lt, of_ℕ}
use optio_ai_assignment.Shared.Json.{Fields, spread}
use optio_ai_assignment.Shared.Result.{Result, ok, err, bad_request, not_found, foreign_key}
use optio_ai_assignment.Database.{Customer, Transaction, Tables}
use optio_ai_assignment.Database.Views.{customer_ids}
use optio_ai_assignment.Database.Prisma.{Prisma}
use optio_ai_assignment.Segments.Metrics.{days}
use optio_ai_assignment.Messaging.Buffer.{Redis, ChangeBuffer, mark_changed, mark_changed_many}

-- transaction.create and transaction.createMany
abbrev pub insert_transactions : List Transaction → ChangeBuffer → ChangeBuffer
insert_transactions rows s = record s {
  tables = record (s.tables) { transactions = s.tables.transactions ++ rows };
}

module _ ⦃redis : Redis⦄ where
  -- `amount` is `none` if it is no number; the insert throws if there is no such customer
  unfoldable pub simulate_transaction :
      String → Option ℤ → ℤ → ChangeBuffer → Result (Unit {0}) × ChangeBuffer
  simulate_transaction customer_id none occurred_at s =
      (err (bad_request "customerId and amount are required"), s)
  simulate_transaction customer_id (some amount) occurred_at s =
      if customer_id == ""
      then (err (bad_request "customerId and amount are required"), s)
      else if not (has (customer_ids s.tables.customers) customer_id)
      then (err foreign_key, s)
      else (
        ok tt,
        mark_changed customer_id (
            insert_transactions
              (record { customer_id = customer_id; amount = amount; occurred_at = occurred_at }
                ∷ [])
              s),
      )

module _ ⦃prisma : Prisma⦄ ⦃redis : Redis⦄ where
  abbrev patched :
      String → Fields → ChangeBuffer → Option Customer → Result (Unit {0}) × ChangeBuffer
  patched customer_id profile s none = (err (not_found customer_id), s)
  patched customer_id profile s (some existing) = (
    ok tt,
    mark_changed customer_id (record s {
      tables = prisma.update_profile customer_id (spread existing.profile profile) s.tables;
    }),
  )

  -- `profile` is `none` if it is missing
  unfoldable pub simulate_profile :
      String → Option Fields → ChangeBuffer → Result (Unit {0}) × ChangeBuffer
  simulate_profile customer_id none s = (err (bad_request "customerId and profile are required"), s)
  simulate_profile customer_id (some profile) s =
      if customer_id == ""
      then (err (bad_request "customerId and profile are required"), s)
      else patched customer_id profile s (prisma.find_customer s.tables customer_id)

-- `count` and `chunkSize` may be fractions: they are numbers of 2^-16ths here, for which the doubles
-- of the source are exact. A negative number is refused as 0 is.
abbrev pub unit : ℕ
unit = 65536

-- the passes of `for (let i = 0; i < size; i++)`
abbrev pub passes : ℕ → ℕ
passes size = (size + 65535) / 65536

pub record BulkResult : Type 0 where
  pub inserted : ℕ
  pub chunk_size : ℕ
  pub chunks : ℕ
  pub unique_customers : ℕ

-- the rows `i`, `i + 1`, …, so many
unfoldable pub drawn : (ℕ → Transaction) → ℕ → ℕ → List Transaction
drawn draw i zero = []
drawn draw i (suc n) = draw i ∷ drawn draw (i + 1) n

abbrev pub touched : List Transaction → List String
touched rows = to_set_onto [] (map (λ x. x.customer_id) rows)

-- `draw i` is the row that is drawn after `i` others
module _ ⦃redis : Redis⦄ (draw : ℕ → Transaction) where
  abbrev pub bulk_chunk : ℕ → ℕ → ChangeBuffer → ChangeBuffer
  bulk_chunk next size s =
      let rows = drawn draw next (passes size) in
      mark_changed_many (touched rows) (insert_transactions rows s)

  -- the loop from `offset`, with `inserted` so far and `next` rows drawn
  unfoldable pub bulk_loop : ℕ → ℕ → ℕ → ℕ → ℕ → ℕ → ChangeBuffer → ℕ × ChangeBuffer
  bulk_loop zero count chunk_size offset inserted next s = (inserted, s)
  bulk_loop (suc fuel) count chunk_size offset inserted next s =
      let size = min chunk_size (count - offset) in
      let later =
        bulk_loop fuel count chunk_size (offset + chunk_size) (inserted + size) (next + passes size)
          (bulk_chunk next size s) in
      if ltb offset count then later else (inserted, s)

  -- a chunk is at least 1, so `passes count` rounds of the loop are enough
  unfoldable pub simulate_bulk : ℕ → ℕ → ChangeBuffer → Result BulkResult × ChangeBuffer
  simulate_bulk count chunk_size s =
      if ltb count unit || ltb (200000 * unit) count
      then (err (bad_request "count must be between 1 and 200000"), s)
      else if ltb chunk_size unit || ltb (5000 * unit) chunk_size
      then (err (bad_request "chunkSize must be between 1 and 5000"), s)
      else if is_empty s.tables.customers
      then (err (bad_request "no customers in DB — run `prisma db seed`"), s)
      else (
        ok (record {
          inserted = (bulk_loop (passes count) count chunk_size 0 0 0 s).0;
          chunk_size = chunk_size;
          chunks = (count + chunk_size - 1) / chunk_size;
          unique_customers = length s.tables.customers;
        }),
        (bulk_loop (passes count) count chunk_size 0 0 0 s).1,
      )

-- `Math.floor(days)` of a positive number
unfoldable pub floor_days : Number → ℕ
floor_days (finite (pos n)) = n / 2 ^ 1074
floor_days _ = 0

-- `"occurredAt" - 'n days'::interval`
abbrev pub shift : ℕ → Transaction → Transaction
shift n x = record x { occurred_at = x.occurred_at -ℤ days n }

pub record AdvanceResult : Type 0 where
  pub shifted_transactions : ℕ
  pub shifted_days : Number
  pub affected_customers : ℕ

module _ ⦃redis : Redis⦄ where
  unfoldable pub advance_time : Number → ChangeBuffer → Result AdvanceResult × ChangeBuffer
  advance_time d s =
      if not (is_finite d) || (lt d (of_ℕ 1) || lt (of_ℕ 365) d)
      then (err (bad_request "days must be between 1 and 365"), s)
      else (
        ok (record {
          shifted_transactions = length s.tables.transactions;
          shifted_days = d;
          affected_customers = length s.tables.customers;
        }),
        mark_changed_many (customer_ids s.tables.customers) (record s {
          tables = record (s.tables) {
            transactions = map (shift (floor_days d)) s.tables.transactions;
          };
        }),
      )
