-- ===== src/System/Untouched.antt =====
-- Publishing, notifying and the simulator touch neither segments nor edges nor members.
use optio_ai_assignment.Prelude.{
  ℕ, zero, suc, ◌+◌, ◌-◌, ◌*◌, min, String, not, ◌||◌, ◌≡◌, refl, ◌∙◌, Option, some, none, List, [],
  ◌∷◌, ◌++◌, map, has, is_empty, ltb, ◌==◌, Bool-cases, Option-cases, inl, inr,
}
use optio_ai_assignment.Prelude.Int.{ℤ}
use optio_ai_assignment.Number.{Number, is_finite, lt, of_ℕ}
use optio_ai_assignment.Shared.Events.{
  segment_delta, EventEnvelope, SegmentDeltaPayload, add, remove,
}
use optio_ai_assignment.Shared.Json.{Fields, spread}
use optio_ai_assignment.Database.{Customer, OutboxEvent, Transaction, Tables}
use optio_ai_assignment.Database.Views.{is_claimed, customer_ids}
use optio_ai_assignment.Database.Prisma.{Prisma}
use optio_ai_assignment.Messaging.Outbox.{
  Reply, accepted, full, throws, envelope, publish_rows, drain_batch,
}
use optio_ai_assignment.Messaging.Campaign
use optio_ai_assignment.Messaging.Campaign.{consumer_name, notify, work}
use optio_ai_assignment.Messaging.Buffer.{Redis, ChangeBuffer, mark_changed}
use optio_ai_assignment.Messaging.Buffer.Marks.{mark_changed_many-tables}
use optio_ai_assignment.Simulator.{
  drawn, touched, unit, passes, bulk_chunk, bulk_loop, simulate_transaction, simulate_bulk,
  simulate_profile, floor_days, shift, advance_time,
}

-- The tables that say who is in which segment, and why, are the same.
pub record SameSegments (t u : Tables) : Type 0 where
  pub segments : u.segments ≡ t.segments
  pub dependencies : u.dependencies ≡ t.dependencies
  pub members : u.members ≡ t.members
  pub deltas : u.deltas ≡ t.deltas

SameSegments-refl : (t : Tables) → SameSegments t t
SameSegments-refl t = record { segments = refl; dependencies = refl; members = refl; deltas = refl }

SameSegments-trans : {t u v : Tables} → SameSegments t u → SameSegments u v → SameSegments t v
SameSegments-trans a b = record {
  segments = b.segments ∙ a.segments;
  dependencies = b.dependencies ∙ a.dependencies;
  members = b.members ∙ a.members;
  deltas = b.deltas ∙ a.deltas;
}

module _ ⦃prisma : Prisma⦄ where
  published : (id : String) (t : Tables) → SameSegments t (prisma.publish_event id t)
  published id t =
      rw (prisma.publish_event_lem id t)
        (record { segments = refl; dependencies = refl; members = refl; deltas = refl })

  publish_rows-SameSegments :
      (reply : EventEnvelope → Reply) (rows : List OutboxEvent) (t : Tables)
      → SameSegments t (publish_rows reply rows t).1
  unfolding publish_rows
  publish_rows-SameSegments reply [] t = SameSegments-refl t
  publish_rows-SameSegments reply (row ∷ rows) t =
      let later =
        SameSegments-trans (published row.id t)
          (publish_rows-SameSegments reply rows (prisma.publish_event row.id t)) in
      answered (reply (envelope row)) later
    where
      answered :
          (r : Reply)
          → SameSegments t (publish_rows reply rows (prisma.publish_event row.id t)).1
          → SameSegments t
              (elim r as (λ x. List EventEnvelope × Tables) [
                | accepted ↦ (
                  envelope row ∷ (publish_rows reply rows (prisma.publish_event row.id t)).0,
                  (publish_rows reply rows (prisma.publish_event row.id t)).1,
                )
                | full ↦ (envelope row ∷ [], t)
                | throws ↦ ([], t)
              ]).1
      answered accepted later = later
      answered full later = SameSegments-refl t
      answered throws later = SameSegments-refl t

  pub drain_batch-SameSegments :
      (reply : EventEnvelope → Reply) (t : Tables) → SameSegments t (drain_batch reply t).1
  unfolding drain_batch
  drain_batch-SameSegments reply t = publish_rows-SameSegments reply (prisma.find_pending t 100) t

  work-tables :
      (now : ℕ) (customers : List String → Option (List Customer)) (p : SegmentDeltaPayload)
      (t : Tables)
      → (work now customers p t).tables ≡ t
  unfolding work
  work-tables now customers p t = elim (Option-cases (notify now customers p add p.added)) [
    | inl failed ↦ rw (failed, work)
    | inr (joined, done) ↦ elim (Option-cases (notify now customers p remove p.removed)) [
      | inl failed ↦ rw (done, failed, work)
      | inr (left, done') ↦ rw (done, done', work)
    ]
  ]

  pub campaign-SameSegments :
      (now : ℕ) (customers : List String → Option (List Customer)) (e : EventEnvelope) (t : Tables)
      → SameSegments t (Campaign.process now customers e t).tables
  unfolding Campaign.process
  campaign-SameSegments now customers e t = elim (Bool-cases (e.event_type == segment_delta)) [
    | inr other ↦ rw other (SameSegments-refl t)
    | inl typed ↦ elim (Bool-cases (is_claimed t.processed e.event_id consumer_name)) [
      | inl again ↦
          rw (typed, prisma.claim_event_lem e.event_id consumer_name t, again) (SameSegments-refl t)
      | inr first ↦
          let claimed : Tables = record t {
            processed =
                t.processed ++ record { event_id = e.event_id; consumer_name = consumer_name } ∷ [];
          } in
          rw
            (
              typed,
              prisma.claim_event_lem e.event_id consumer_name t,
              first,
              work-tables now customers e.payload claimed,
            )
            (record { segments = refl; dependencies = refl; members = refl; deltas = refl })
    ]
  ]

module _ ⦃redis : Redis⦄ where
  inserted-SameSegments :
      (rows : List Transaction) (t : Tables) → SameSegments t (record t { transactions = rows })
  inserted-SameSegments rows t = record {
    segments = refl;
    dependencies = refl;
    members = refl;
    deltas = refl;
  }

  bulk_chunk-SameSegments :
      (draw : ℕ → Transaction) (offset size : ℕ) (s : ChangeBuffer)
      → SameSegments s.tables (bulk_chunk draw offset size s).tables
  bulk_chunk-SameSegments draw offset size s =
      rw
        (mark_changed_many-tables (touched (drawn draw offset (passes size))) (record s {
          tables = record (s.tables) {
            transactions = s.tables.transactions ++ drawn draw offset (passes size);
          };
        }))
        (inserted-SameSegments (s.tables.transactions ++ drawn draw offset (passes size)) s.tables)

  bulk_loop-SameSegments :
      (draw : ℕ → Transaction) (fuel count chunk_size offset inserted next : ℕ) (s : ChangeBuffer)
      → SameSegments s.tables (bulk_loop draw fuel count chunk_size offset inserted next s).1.tables
  unfolding bulk_loop
  bulk_loop-SameSegments draw zero count chunk_size offset inserted next s =
      SameSegments-refl s.tables
  bulk_loop-SameSegments draw (suc fuel) count chunk_size offset inserted next s =
      let size = min chunk_size (count - offset) in
      let later = SameSegments-trans (bulk_chunk-SameSegments draw next size s) (
        bulk_loop-SameSegments draw fuel count chunk_size (offset + chunk_size) (inserted + size)
          (next + passes size) (bulk_chunk draw next size s)) in
      elim (Bool-cases (ltb offset count)) [
        | inl more ↦ rw more later
        | inr over ↦ rw over (SameSegments-refl s.tables)
      ]

  pub simulate_transaction-SameSegments :
      (customer_id : String) (amount : Option ℤ) (occurred_at : ℤ) (s : ChangeBuffer)
      → SameSegments s.tables (simulate_transaction customer_id amount occurred_at s).1.tables
  unfolding simulate_transaction mark_changed
  simulate_transaction-SameSegments customer_id none occurred_at s = SameSegments-refl s.tables
  simulate_transaction-SameSegments customer_id (some amount) occurred_at s =
      elim (Bool-cases (customer_id == "")) [
        | inl blank ↦ rw blank (SameSegments-refl s.tables)
        | inr named ↦ elim (Bool-cases (has (customer_ids s.tables.customers) customer_id)) [
          | inl known ↦
              rw (named, known)
                (inserted-SameSegments
                  (s.tables.transactions
                    ++ record {
                      customer_id = customer_id;
                      amount = amount;
                      occurred_at = occurred_at;
                    }
                      ∷ [])
                  s.tables)
          | inr unknown ↦ rw (named, unknown) (SameSegments-refl s.tables)
        ]
      ]

  pub simulate_bulk-SameSegments :
      (draw : ℕ → Transaction) (count chunk_size : ℕ) (s : ChangeBuffer)
      → SameSegments s.tables (simulate_bulk draw count chunk_size s).1.tables
  unfolding simulate_bulk
  simulate_bulk-SameSegments draw count chunk_size s =
      elim (Bool-cases (ltb count unit || ltb (200000 * unit) count)) [
        | inl bad_count ↦ rw bad_count (SameSegments-refl s.tables)
        | inr good_count ↦ elim (Bool-cases (ltb chunk_size unit || ltb (5000 * unit) chunk_size)) [
          | inl bad_size ↦ rw (good_count, bad_size) (SameSegments-refl s.tables)
          | inr good_size ↦ elim (Bool-cases (is_empty s.tables.customers)) [
            | inl no_one ↦ rw (good_count, good_size, no_one) (SameSegments-refl s.tables)
            | inr someone ↦
                rw (good_count, good_size, someone)
                  (bulk_loop-SameSegments draw (passes count) count chunk_size 0 0 0 s)
          ]
        ]
      ]

  pub advance_time-SameSegments :
      (d : Number) (s : ChangeBuffer) → SameSegments s.tables (advance_time d s).1.tables
  unfolding advance_time
  advance_time-SameSegments d s =
      elim (Bool-cases (not (is_finite d) || (lt d (of_ℕ 1) || lt (of_ℕ 365) d))) [
        | inl bad ↦ rw bad (SameSegments-refl s.tables)
        | inr good ↦
            let rows = map (shift (floor_days d)) s.tables.transactions in
            rw
              (
                good,
                mark_changed_many-tables (customer_ids s.tables.customers)
                    (record s { tables = record (s.tables) { transactions = rows } }),
              )
              (inserted-SameSegments rows s.tables)
      ]

module _ ⦃prisma : Prisma⦄ ⦃redis : Redis⦄ where
  pub simulate_profile-SameSegments :
      (customer_id : String) (profile : Option Fields) (s : ChangeBuffer)
      → SameSegments s.tables (simulate_profile customer_id profile s).1.tables
  unfolding simulate_profile mark_changed
  simulate_profile-SameSegments customer_id none s = SameSegments-refl s.tables
  simulate_profile-SameSegments customer_id (some profile) s =
      elim (Bool-cases (customer_id == "")) [
        | inl unnamed ↦ rw unnamed (SameSegments-refl s.tables)
        | inr named ↦ elim (Option-cases (prisma.find_customer s.tables customer_id)) [
          | inl unknown ↦ rw (named, unknown) (SameSegments-refl s.tables)
          | inr (existing, found) ↦
              rw
                (
                  named,
                  found,
                  prisma.update_profile_lem customer_id (spread existing.profile profile) s.tables,
                )
                (record { segments = refl; dependencies = refl; members = refl; deltas = refl })
        ]
      ]
