-- ===== src/Tests/PipelineTests.antt =====
-- A rebuild and its deltas on the small database.
use optio_ai_assignment.Prelude.{
  ℕ, ◌≤◌, Bool-cases, inl, inr, true, ◌≡◌, refl, ap, none, List, [], ◌∷◌, ◌++◌, map, length, has,
  arith, ◌==◌,
}
use optio_ai_assignment.Shared.Events.{SegmentDeltaPayload}
use optio_ai_assignment.Database.InMemory.{in_memory}
use optio_ai_assignment.Database.Views.{members_of, parents_of}
use optio_ai_assignment.Segments.Evaluation.{evaluate_segment}
use optio_ai_assignment.Segments.Rebuild.{rebuild_all_dynamic}
use optio_ai_assignment.System.Counts.{new_deltas, shown, listed, rebuild_counts}
use optio_ai_assignment.Api.Listing.{list}
use optio_ai_assignment.Web.SegmentsList.Counts.{undated, time_after}
use optio_ai_assignment.Web.SegmentsList
use optio_ai_assignment.Web.SegmentsList.{ListPage}
use optio_ai_assignment.Web.SegmentsList.Counts.{apply_deltas}
use optio_ai_assignment.Segments.Rebuild.{rebuild_all_dynamic}
use optio_ai_assignment.Segments.Rebuild.{evaluate_in_order}
use optio_ai_assignment.Segments.Order.{topo_sort}
use optio_ai_assignment.Segments.Order.{place}
use optio_ai_assignment.Segments.Order.{is_ready}
use optio_ai_assignment.Segments.Order.{refs_in}
use optio_ai_assignment.Segments.Dependency.{collect_parent_ids}
use optio_ai_assignment.Prelude.{add}
use optio_ai_assignment.Prelude.{has}
use optio_ai_assignment.Prelude.{to_set_onto}
use optio_ai_assignment.Segments.Evaluation.{evaluate_segment}
use optio_ai_assignment.Segments.Evaluation.{evaluate_found}
use optio_ai_assignment.Segments.Dependency.{replace_dependencies}
use optio_ai_assignment.Segments.Dependency.{replace_edges}
use optio_ai_assignment.Database.Views.{delete_dependencies}
use optio_ai_assignment.Database.Views.{insert_dependencies}
use optio_ai_assignment.Database.Views.{insert_dependency}
use optio_ai_assignment.Database.Views.{parents_of}
use optio_ai_assignment.Segments.Metrics.{compute_all}
use optio_ai_assignment.Segments.Metrics.{metrics_of}
use optio_ai_assignment.Segments.Metrics.{transactions_of}
use optio_ai_assignment.Segments.Metrics.{within_days}
use optio_ai_assignment.Segments.Metrics.{sum_amount}
use optio_ai_assignment.Segments.Metrics.{last_occurred}
use optio_ai_assignment.Segments.Metrics.{later_of}
use optio_ai_assignment.Segments.Evaluation.{load_parent_memberships}
use optio_ai_assignment.Segments.Evaluation.{add_rows}
use optio_ai_assignment.Segments.Evaluation.{add_row}
use optio_ai_assignment.Segments.Evaluation.{evaluate_each}
use optio_ai_assignment.Segments.Evaluator.{evaluate}
use optio_ai_assignment.Segments.Evaluator.{evaluate_compare}
use optio_ai_assignment.Segments.Evaluator.{get}
use optio_ai_assignment.Segments.Evaluator.{apply_op}
use optio_ai_assignment.Segments.Evaluation.{apply_diff}
use optio_ai_assignment.Segments.Evaluation.{persist}
use optio_ai_assignment.Database.Views.{members_of}
use optio_ai_assignment.Database.Views.{insert_members}
use optio_ai_assignment.Database.Views.{insert_member}
use optio_ai_assignment.Database.Views.{delete_members}
use optio_ai_assignment.Number.{of_ℕ}
use optio_ai_assignment.Number.{lt}
use optio_ai_assignment.Number.{le}
use optio_ai_assignment.Number.{strict_eq}
use optio_ai_assignment.Prelude.Int.{le_ℤ}
use optio_ai_assignment.Prelude.Int.{lt_ℤ}
use optio_ai_assignment.Prelude.Int.{◌+ℤ◌}
use optio_ai_assignment.Prelude.Int.{◌-ℤ◌}
use optio_ai_assignment.Shared.Events.{EventEnvelope, segment_delta}
use optio_ai_assignment.Messaging.Outbox.{accepted, batch_size, drain_batch}
use optio_ai_assignment.Messaging.Realtime.{Message, delta, campaign, process, handle, process_all}
use optio_ai_assignment.System.Pipeline.{rebuild_to_browser}
use optio_ai_assignment.Tests.Data.{decimal_text, redis_sets, base, env}
use optio_ai_assignment.Tests.SystemTests.{base-IsUnique}

-- The deltas of a rebuild, all at one time.
abbrev arrivals : List (ℕ × SegmentDeltaPayload)
arrivals = map (λ d. (7, d)) (new_deltas base (rebuild_all_dynamic env base).1)

timed :
    (ds : List SegmentDeltaPayload)
    → map (λ d. d.1) (map {B = ℕ × SegmentDeltaPayload} (λ d. (7, d)) ds) ≡ ds
timed [] = refl
timed (d ∷ ds) = ap (◌∷◌ d) (timed ds)

abbrev empty_page : ListPage
empty_page = record { segments = []; loading = true; error = none; flashes = [] }

rebuild_counts_example :
    (map (λ e. e.payload) (rebuild_all_dynamic env base).1.outbox
      ≡ map (λ e. e.payload) base.outbox ++ new_deltas base (rebuild_all_dynamic env base).1)
    × (map undated
          (apply_deltas arrivals (
            SegmentsList.refreshed
              (map shown (list (λ rows. rows) (λ id. 3) base))
              empty_page)).segments
        ≡ listed (λ rows. rows) (λ id. 3) (rebuild_all_dynamic env base).1)
    × (map
          (λ r. r.updated_at)
          (apply_deltas arrivals (
            SegmentsList.refreshed
              (map shown (list (λ rows. rows) (λ id. 3) base))
              empty_page)).segments
        ≡ map (time_after arrivals) (map shown (list (λ rows. rows) (λ id. 3) base)))
rebuild_counts_example =
    rebuild_counts env (λ rows. rows) (λ id. 3) base empty_page arrivals base-IsUnique
      (timed (new_deltas base (rebuild_all_dynamic env base).1))

-- The rebuild announces the buyer and the twin.
two_deltas : length (new_deltas base (rebuild_all_dynamic env base).1) ≡ 2
unfolding rebuild_all_dynamic evaluate_in_order topo_sort place is_ready refs_in collect_parent_ids
    add has to_set_onto evaluate_segment evaluate_found replace_dependencies replace_edges
    delete_dependencies insert_dependencies insert_dependency parents_of compute_all metrics_of
    transactions_of within_days sum_amount last_occurred later_of load_parent_memberships add_rows
    add_row evaluate_each evaluate evaluate_compare get apply_op apply_diff persist members_of
    insert_members insert_member delete_members of_ℕ lt le strict_eq le_ℤ lt_ℤ ◌+ℤ◌ ◌-ℤ◌
two_deltas = refl

-- What the gateway emits after one run of the publisher.
abbrev emitted : List Message
emitted = process_all (drain_batch (λ e. accepted) (rebuild_all_dynamic env base).1).0

-- The deltas among messages, all at one time.
abbrev deltas_in : List Message → List (ℕ × SegmentDeltaPayload)
deltas_in [] = []
deltas_in (delta d ∷ rest) = (7, d) ∷ deltas_in rest
deltas_in (campaign n ∷ rest) = deltas_in rest

gateway_deltas :
    (es : List EventEnvelope) → map (λ d. delta d.1) (deltas_in (process_all es)) ≡ process_all es
unfolding process_all process handle
gateway_deltas [] = refl
gateway_deltas (e ∷ es) = elim (Bool-cases (e.event_type == segment_delta)) [
  | inl typed ↦ rw (typed, gateway_deltas es)
  | inr other ↦ rw (other, gateway_deltas es)
]

few_deltas : length (new_deltas base (rebuild_all_dynamic env base).1) ≤ batch_size
few_deltas = rw two_deltas (omega arith)

rebuild_to_browser_example :
    map undated
      (apply_deltas (deltas_in emitted) (
        SegmentsList.refreshed
          (map shown (list (λ rows. rows) (λ id. 3) base))
          empty_page)).segments
    ≡ listed
        (λ rows. rows)
        (λ id. 3)
        (drain_batch (λ e. accepted) (rebuild_all_dynamic env base).1).1
rebuild_to_browser_example =
    rebuild_to_browser env (λ e. accepted) (λ rows. rows) (λ id. 3) base empty_page
      (deltas_in emitted) base-IsUnique refl (λ e. refl) few_deltas
      (gateway_deltas (drain_batch (λ e. accepted) (rebuild_all_dynamic env base).1).0)
