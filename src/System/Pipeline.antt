-- ===== src/System/Pipeline.antt =====
-- From a rebuild to the browser: the outbox, the publisher, the gateway and the list page, one behind
-- the other.
use optio_ai_assignment.Prelude.{
  ℕ, ◌+◌, ◌≤◌, String, true, ◌≡◌, refl, sym, ap, ◌∙◌, List, [], ◌∷◌, map, filter, filter-append,
  all, length, length-map, sum_of, ◌==◌, arith, if◌then◌else◌,
}
use optio_ai_assignment.Shared.Events.{SegmentDeltaPayload, EventEnvelope, segment_delta}
use optio_ai_assignment.Database.{Segment, OutboxEvent, Tables}
use optio_ai_assignment.Database.Views.{is_pending}
use optio_ai_assignment.Database.Prisma.{Prisma}
use optio_ai_assignment.Segments.Metrics.{DecimalText}
use optio_ai_assignment.Segments.Rebuild.{Surroundings, rebuild_all_dynamic}
use optio_ai_assignment.Messaging.Outbox.{Reply, accepted, batch_size, envelope, drain_batch}
use optio_ai_assignment.Messaging.Outbox.Delivery.{drain_batch_all}
use optio_ai_assignment.Messaging.Realtime.{Message, delta, campaign, process, handle, process_all}
use optio_ai_assignment.Api.Listing.{list}
use optio_ai_assignment.Web.SegmentsList.{ListPage, refreshed}
use optio_ai_assignment.Web.SegmentsList.Counts.{undated, apply_deltas, total_added, total_removed}
use optio_ai_assignment.System.Announced.{
  IsUnique, sum_added, sum_removed, payloads, is_news, Announced, Announced-evaluate,
  Announced-start,
}
use optio_ai_assignment.System.Counts.{shown, listed, follow, new_deltas, Announced-new_deltas}
use optio_ai_assignment.System.Passes.{rebuild_all_dynamic-keeps}
use optio_ai_assignment.System.Untouched.{drain_batch-SameSegments}

-- What one delta adds to a segment, and what it takes from it.
abbrev added_by : String → SegmentDeltaPayload → ℕ
added_by id d = if id == d.segment_id then length d.added else 0

abbrev removed_by : String → SegmentDeltaPayload → ℕ
removed_by id d = if id == d.segment_id then length d.removed else 0

-- The weight of a message, if it is a delta.
abbrev in_message : (SegmentDeltaPayload → ℕ) → Message → ℕ
in_message w (delta d) = w d
in_message w (campaign n) = 0

sum_of-map {ℓ κ} :
    {A : Type ℓ} {B : Type κ} (w : B → ℕ) (f : A → B) (xs : List A)
    → sum_of w (map f xs) ≡ sum_of (λ x. w (f x)) xs
sum_of-map w f [] = refl
sum_of-map w f (x ∷ xs) = ap (λ n. w (f x) + n) (sum_of-map w f xs)

total_added-sum_of :
    (ds : List (ℕ × SegmentDeltaPayload)) (id : String)
    → total_added ds id ≡ sum_of (λ d. added_by id d.1) ds
unfolding total_added
total_added-sum_of [] id = refl
total_added-sum_of ((now, d) ∷ ds) id = omega (arith, total_added-sum_of ds id)

total_removed-sum_of :
    (ds : List (ℕ × SegmentDeltaPayload)) (id : String)
    → total_removed ds id ≡ sum_of (λ d. removed_by id d.1) ds
unfolding total_removed
total_removed-sum_of [] id = refl
total_removed-sum_of ((now, d) ∷ ds) id = omega (arith, total_removed-sum_of ds id)

sum_added-sum_of :
    (rows : List OutboxEvent) (id : String)
    → sum_added (payloads rows) id ≡ sum_of (λ e. added_by id e.payload) rows
unfolding sum_added
sum_added-sum_of [] id = refl
sum_added-sum_of (e ∷ rows) id = omega (arith, sum_added-sum_of rows id)

sum_removed-sum_of :
    (rows : List OutboxEvent) (id : String)
    → sum_removed (payloads rows) id ≡ sum_of (λ e. removed_by id e.payload) rows
unfolding sum_removed
sum_removed-sum_of [] id = refl
sum_removed-sum_of (e ∷ rows) id = omega (arith, sum_removed-sum_of rows id)

-- The rows that are no delta events, counted.
abbrev odd : OutboxEvent → ℕ
odd e = if is_news e then 0 else 1

all-odd : (rows : List OutboxEvent) → all is_news rows ≡ true → sum_of odd rows ≡ 0
all-odd [] h = refl
all-odd (e ∷ rows) h = ground (arith, all-odd rows)

odd-all : (rows : List OutboxEvent) → sum_of odd rows ≡ 0 → all is_news rows ≡ true
odd-all [] h = refl
odd-all (e ∷ rows) h = ground (arith, odd-all rows)

news-pending : (rows : List OutboxEvent) → all is_news rows ≡ true → filter is_pending rows ≡ rows
news-pending [] h = refl
news-pending (e ∷ rows) h = ground (arith, news-pending rows)

-- The gateway turns every published delta event into one message.
sum-process_all :
    (w : SegmentDeltaPayload → ℕ) (rows : List OutboxEvent)
    → all is_news rows ≡ true
    → sum_of (in_message w) (process_all (map envelope rows)) ≡ sum_of (λ e. w e.payload) rows
unfolding process_all process handle
sum-process_all w [] h = refl
sum-process_all w (e ∷ rows) h =
    let typed : (e.event_type == segment_delta) ≡ true = ground arith in
    rw typed (ap (λ n. w e.payload + n) (sum-process_all w rows (ground arith)))

module _ ⦃prisma : Prisma⦄ (reply : EventEnvelope → Reply) (t u : Tables) (h : Announced t u)
    (all_taken : (e : EventEnvelope) → reply e ≡ accepted)
    (none_waited : filter is_pending t.outbox ≡ [])
    (few : length (new_deltas t u) ≤ batch_size) where
  waiting_rows : filter is_pending u.outbox ≡ h.rows
  waiting_rows =
      ap (filter is_pending) h.outbox
      ∙ filter-append is_pending t.outbox h.rows
      ∙ rw none_waited (news-pending h.rows h.news)

  few_rows : length (filter is_pending u.outbox) ≤ batch_size
  few_rows = rw waiting_rows (
      omega
        (arith, few, ap length (Announced-new_deltas t u h), length-map (λ e. e.payload) h.rows))

  sent_sum :
      (w : SegmentDeltaPayload → ℕ)
      → sum_of (in_message w) (process_all (drain_batch reply u).0)
        ≡ sum_of (λ e. w e.payload) h.rows
  sent_sum w =
      let rows : List OutboxEvent = prisma.by_created_at h.rows in
      let sent : (drain_batch reply u).0 ≡ map envelope rows =
        (drain_batch_all reply u "" all_taken few_rows).0
        ∙ ap (λ x. map envelope (prisma.by_created_at x)) waiting_rows in
      let news : all is_news rows ≡ true =
        odd-all rows (prisma.sum-by_created_at odd h.rows ∙ all-odd h.rows h.news) in
      ap (λ x. sum_of (in_message w) (process_all x)) sent
      ∙ sum-process_all w rows news
      ∙ prisma.sum-by_created_at (λ e. w e.payload) h.rows

module _ ⦃prisma : Prisma⦄ ⦃text : DecimalText⦄ where
  -- A rebuild, then one run of the publisher, then the gateway: a list page that was loaded before
  -- the rebuild and applies the deltas that the gateway emits for what the publisher sent, whenever
  -- they come, shows the rows and the counts that the list endpoint returns in the end, but for the
  -- times of the last change, which a delta sets to its arrival, whether the rebuild returns or
  -- throws. No emit of the gateway throws, no customer stands twice in a segment and no event waits at the start,
  -- the rebuild writes no more events than a batch holds, and the channel takes every message.
  pub rebuild_to_browser :
      (env : Surroundings) (reply : EventEnvelope → Reply) (by_name : List Segment → List Segment)
      (updated_at : String → ℕ) (t : Tables) (p : ListPage)
      (arrivals : List (ℕ × SegmentDeltaPayload))
      → IsUnique t
      → filter is_pending t.outbox ≡ []
      → ((e : EventEnvelope) → reply e ≡ accepted)
      → length (new_deltas t (rebuild_all_dynamic env t).1) ≤ batch_size
      → map (λ d. delta d.1) arrivals
        ≡ process_all (drain_batch reply (rebuild_all_dynamic env t).1).0
      → map undated
          (apply_deltas arrivals (refreshed (map shown (list by_name updated_at t)) p)).segments
        ≡ listed by_name updated_at (drain_batch reply (rebuild_all_dynamic env t).1).1
  unfolding list
  rebuild_to_browser env reply by_name updated_at t p arrivals unique none_waited all_taken few
        emitted =
      let u : Tables = (rebuild_all_dynamic env t).1 in
      let h : Announced t u =
        rebuild_all_dynamic-keeps (Announced t) (Announced-evaluate t) env t
          (Announced-start t unique) in
      let same = drain_batch-SameSegments reply u in
      let arrived : (w : SegmentDeltaPayload → ℕ)
          → sum_of (λ d. w d.1) arrivals ≡ sum_of (λ e. w e.payload) h.rows =
        λ w.
          sym (sum_of-map (in_message w) (λ d. delta d.1) arrivals)
          ∙ ap (sum_of (in_message w)) emitted
          ∙ sent_sum reply t u h all_taken none_waited few w in
      follow t u h arrivals
        (λ id.
          total_added-sum_of arrivals id ∙ arrived (added_by id) ∙ sym (sum_added-sum_of h.rows id))
        (λ id.
          total_removed-sum_of arrivals id
          ∙ arrived (removed_by id)
          ∙ sym (sum_removed-sum_of h.rows id))
        by_name updated_at p
      ∙ rw (same.segments, same.members)
