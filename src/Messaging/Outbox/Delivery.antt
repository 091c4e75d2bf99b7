-- ===== src/Messaging/Outbox/Delivery.antt =====
-- What a run of the publisher sends and marks.
use optio_ai_assignment.Prelude.{
  ℕ, zero, suc, ◌≤◌, String, Bool, true, false, not, ◌&&◌, ◌||◌, ◌≡◌, refl, ap, ◌∙◌, List, [], ◌∷◌,
  map, filter, take, length, has, ◌==◌, eq_iff, arith,
}
use optio_ai_assignment.Shared.Events.{EventEnvelope}
use optio_ai_assignment.Database.{OutboxEvent, Tables}
use optio_ai_assignment.Database.Views.{event_ids, is_pending, mark_published, IsSortedFrom}
use optio_ai_assignment.Database.Prisma.{Prisma}
use optio_ai_assignment.Messaging.Outbox.{
  Reply, accepted, throws, batch_size, envelope, publish_rows, drain_batch,
}

-- Some row of this id is marked as published.
unfoldable pub is_published : List OutboxEvent → String → Bool
is_published [] id = false
is_published (e ∷ rows) id = e.id == id && not (is_pending e) || is_published rows id

-- Some row of this id waits to be published.
unfoldable pub is_waiting : List OutboxEvent → String → Bool
is_waiting [] id = false
is_waiting (e ∷ rows) id = e.id == id && is_pending e || is_waiting rows id

abbrev pub sent_ids : List EventEnvelope → List String
sent_ids sent = map (λ e. e.event_id) sent

is_published-mark :
    (j : String) (rows : List OutboxEvent) (id : String)
    → is_published (mark_published j rows) id
      ≡ (is_published rows id || j == id && is_waiting rows id)
unfolding is_published is_waiting mark_published
is_published-mark j [] id = ground arith
is_published-mark j (e ∷ rows) id =
    ground (arith, is_published-mark j rows id, eq_iff e.id j, eq_iff e.id id, eq_iff j id)

is_waiting-mark :
    (j : String) (rows : List OutboxEvent) (id : String)
    → is_waiting (mark_published j rows) id ≡ (is_waiting rows id && not (j == id))
unfolding is_waiting mark_published
is_waiting-mark j [] id = ground arith
is_waiting-mark j (e ∷ rows) id =
    ground (arith, is_waiting-mark j rows id, eq_iff e.id j, eq_iff e.id id, eq_iff j id)

module _ ⦃prisma : Prisma⦄ (reply : EventEnvelope → Reply) where
  -- one row that the channel accepts: what the rest of the loop starts from
  marked_row :
      (id j : String) (t : Tables)
      → (is_published (prisma.publish_event j t).outbox id
          ≡ (is_published t.outbox id || j == id && is_waiting t.outbox id))
        × (is_waiting (prisma.publish_event j t).outbox id
            ≡ (is_waiting t.outbox id && not (j == id)))
  marked_row id j t =
      rw (prisma.publish_event_lem j t)
        (is_published-mark j t.outbox id, is_waiting-mark j t.outbox id)

  publish_rows_safe :
      (rows : List OutboxEvent) (t : Tables) (id : String)
      → is_published (publish_rows reply rows t).1.outbox id ≡ true
      → (is_published t.outbox id || has (sent_ids (publish_rows reply rows t).0) id) ≡ true
  unfolding publish_rows has
  publish_rows_safe [] t id h = ground arith
  publish_rows_safe (row ∷ rows) t id h =
      ground (
        arith,
        publish_rows_safe rows (prisma.publish_event row.id t) id,
        (marked_row id row.id t).0,
      )

  publish_rows_keeps :
      (rows : List OutboxEvent) (t : Tables) (id : String)
      → (is_published (publish_rows reply rows t).1.outbox id
          || is_waiting (publish_rows reply rows t).1.outbox id)
        ≡ (is_published t.outbox id || is_waiting t.outbox id)
  unfolding publish_rows
  publish_rows_keeps [] t id = refl
  publish_rows_keeps (row ∷ rows) t id = ground (
    arith,
    publish_rows_keeps rows (prisma.publish_event row.id t) id,
    (marked_row id row.id t).0,
    (marked_row id row.id t).1,
  )

  -- If the channel accepts every message, every row of the list is sent and marked.
  publish_rows_all :
      (rows : List OutboxEvent) (t : Tables) (id : String)
      → ((e : EventEnvelope) → reply e ≡ accepted)
      → ((publish_rows reply rows t).0 ≡ map envelope rows)
        × (is_waiting (publish_rows reply rows t).1.outbox id
            ≡ (is_waiting t.outbox id && not (has (event_ids rows) id)))
  unfolding publish_rows has
  publish_rows_all [] t id h = (refl, ground arith)
  publish_rows_all (row ∷ rows) t id h =
      let ih = publish_rows_all rows (prisma.publish_event row.id t) id h in
      (
        ground (arith, ih.0, h (envelope row)),
        ground (arith, ih.1, h (envelope row), (marked_row id row.id t).1),
      )

  -- Whatever the channel answers, an event is marked as published only if a message for it was handed
  -- to the channel, in this run or before.
  pub drain_batch_safe :
      (t : Tables) (id : String)
      → is_published (drain_batch reply t).1.outbox id ≡ true
      → (is_published t.outbox id || has (sent_ids (drain_batch reply t).0) id) ≡ true
  unfolding drain_batch
  drain_batch_safe t id = publish_rows_safe (prisma.find_pending t batch_size) t id

  -- Whatever the channel answers, no event is lost: it waits or is published after the run exactly if
  -- it waited or was published before.
  pub drain_batch_keeps :
      (t : Tables) (id : String)
      → (is_published (drain_batch reply t).1.outbox id
          || is_waiting (drain_batch reply t).1.outbox id)
        ≡ (is_published t.outbox id || is_waiting t.outbox id)
  unfolding drain_batch
  drain_batch_keeps t id = publish_rows_keeps (prisma.find_pending t batch_size) t id

is_waiting-has :
    (rows : List OutboxEvent) (id : String)
    → has (event_ids (filter is_pending rows)) id ≡ is_waiting rows id
unfolding is_waiting has
is_waiting-has [] id = refl
is_waiting-has (e ∷ rows) id = ground (arith, is_waiting-has rows id, eq_iff e.id id)

take_all {ℓ} : {A : Type ℓ} (n : ℕ) (xs : List A) → length xs ≤ n → take n xs ≡ xs
take_all zero [] h = refl
take_all zero (x ∷ xs) h = absurd (omega arith)
take_all (suc n) [] h = refl
take_all (suc n) (x ∷ xs) h = ap (◌∷◌ x) (take_all n xs (omega arith))

module _ ⦃prisma : Prisma⦄ (reply : EventEnvelope → Reply) where
  -- If the channel accepts every message and no more than a batch of events wait, one run sends each
  -- of them, in ascending order of creation, and none waits afterwards.
  pub drain_batch_all :
      (t : Tables) (id : String)
      → ((e : EventEnvelope) → reply e ≡ accepted)
      → length (filter is_pending t.outbox) ≤ batch_size
      → ((drain_batch reply t).0 ≡ map envelope (prisma.by_created_at (filter is_pending t.outbox)))
        × IsSortedFrom 0 (prisma.by_created_at (filter is_pending t.outbox))
        × (is_waiting (drain_batch reply t).1.outbox id ≡ false)
  unfolding drain_batch
  drain_batch_all t id h few =
      let rows : List OutboxEvent = prisma.by_created_at (filter is_pending t.outbox) in
      let all_rows : prisma.find_pending t batch_size ≡ rows =
        prisma.find_pending_lem t batch_size
        ∙ take_all batch_size rows
            (omega (arith, prisma.length-by_created_at (filter is_pending t.outbox))) in
      let (sent, left) = publish_rows_all reply rows t id h in
      (
        rw all_rows sent,
        prisma.sorted-by_created_at (filter is_pending t.outbox),
        rw
            (
              all_rows,
              left,
              prisma.has-by_created_at (filter is_pending t.outbox) id,
              is_waiting-has t.outbox id,
            )
            (ground arith),
      )

  -- If the channel throws at every message, as when the broker is away, nothing is sent and every
  -- table is as it was.
  pub drain_batch_outage :
      (t : Tables) → ((e : EventEnvelope) → reply e ≡ throws) → drain_batch reply t ≡ ([], t)
  unfolding drain_batch publish_rows
  drain_batch_outage t h = outage (prisma.find_pending t batch_size)
    where
      outage : (rows : List OutboxEvent) → publish_rows reply rows t ≡ ([], t)
      outage [] = refl
      outage (row ∷ rows) = rw (h (envelope row), publish_rows)
