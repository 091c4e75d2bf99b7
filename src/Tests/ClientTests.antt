-- ===== src/Tests/ClientTests.antt =====
-- The broker, and the panel and the pages of the web client, on small inputs.
use mathlib.Core.Option.{some-injective}
use optio_ai_assignment.Prelude.{
  String, Bool, true, false, ◌&&◌, ◌||◌, ◌≡◌, ◌≢◌, ◌⊎◌, refl, sym, ap, none, some, List, [], ◌∷◌,
  all, length, distinct, ◌==◌, arith, if◌then◌else◌,
}
use optio_ai_assignment.Prelude.Int.{pos}
use optio_ai_assignment.Shared.Events.{segment_delta}
use optio_ai_assignment.Shared.Result.{ok}
use optio_ai_assignment.Database.{dynamic, Tables}
use optio_ai_assignment.Database.InMemory.{in_memory}
use optio_ai_assignment.Database.Views.{members_of}
use optio_ai_assignment.Segments.Evaluation.{EvaluationResult}
use optio_ai_assignment.Messaging.Outbox.{accepted, throws}
use optio_ai_assignment.Messaging.Realtime.{delta, process_all}
use optio_ai_assignment.Messaging.RabbitMq.{
  events_exchange, queues, Amqp, resolved, waiting, settled, Service, declare_topology,
  on_module_init, publish,
}
use optio_ai_assignment.Messaging.RabbitMq.Topology.{on_module_init-publish}
use optio_ai_assignment.Api.Segments
use optio_ai_assignment.Api.Listing.{MemberRow, DeltaRow}
use optio_ai_assignment.Web.SegmentsList.{SegmentRow, count_delta}
use optio_ai_assignment.Web.SegmentsList.Redelivery.{redelivery_drifts}
use optio_ai_assignment.Web.SegmentDetail.{DetailPage, page_size, force_refresh}
use optio_ai_assignment.Web.SegmentDetail.Refresh.{to_answer, server_of, force_refresh_shows}
use optio_ai_assignment.Web.SimulatorPanel.{Parsed, invalid, initial_panel, fire_bulk}
use optio_ai_assignment.Web.SimulatorPanel.Requests.{
  Session, opened, PanelReaches, rest, next, presses_bulk, panel_open,
}
use optio_ai_assignment.Tests.Data.{decimal_text, twins, base, env, event, payload}
use optio_ai_assignment.Tests.SegmentTests.{twins_no_self, twins_exist, buyers_there}

-- A broker that is the list of its bindings, and that takes every call.
abbrev bound_in : List (String × String × String) → String → String → String → Bool
bound_in [] q x k = false
bound_in ((queue, exchange, key) ∷ rows) q x k =
    bound_in rows q x k || queue == q && (exchange == x && key == k)

abbrev bindings : Amqp
bindings = record {
  Broker = List (String × String × String);
  connect = λ url b. some b;
  create_channel = λ b. some b;
  assert_exchange = λ x b. some b;
  assert_queue = λ q b. some b;
  bind_queue = λ q x k b. some ((q, x, k) ∷ b);
  publish_to = λ x k e b. (accepted, b);
  is_bound = bound_in;
  assert_queue_lem = λ queue b b' h q x k. ap (λ z. bound_in z q x k) (sym (some-injective b b' h));
  bind_queue_lem = λ queue exchange key b b' h q x k.
      ap (λ z. bound_in z q x k) (sym (some-injective ((queue, exchange, key) ∷ b) b' h));
}

abbrev stopped : Service bindings
stopped = record { ready = waiting; broker = [] }

abbrev started : Bool × Service bindings
started = on_module_init bindings (some "amqp://localhost") stopped

on_module_init-publish_example :
    ((declare_topology bindings (some "amqp://localhost") [] ≡ none)
      × (started.0 ≡ false)
      × (publish bindings segment_delta event started.1 ≡ (settled throws, started.1)))
    ⊎ ((b : List (String × String × String)) × (declare_topology bindings
            (some "amqp://localhost")
            []
          ≡ some b)
        × (started ≡ (true, record { ready = resolved; broker = b }))
        × (all (λ q. bound_in b q events_exchange segment_delta) queues ≡ true)
        × (publish bindings segment_delta event started.1
            ≡ (settled accepted, record { ready = resolved; broker = b })))
on_module_init-publish_example =
    on_module_init-publish bindings (some "amqp://localhost") stopped segment_delta event

abbrev buyers_row : SegmentRow
buyers_row = record {
  id = "buyers";
  name = "Buyers";
  description = none;
  type = dynamic;
  member_count = pos 3;
  updated_at = 1;
}

one_apart : length payload.added ≢ length payload.removed
one_apart h = absurd (omega (arith, h))

redelivery_drifts_example :
    (process_all (event ∷ event ∷ []) ≡ delta payload ∷ delta payload ∷ [])
    × ((count_delta 9 payload (count_delta 7 payload buyers_row)).member_count
        ≢ (count_delta 7 payload buyers_row).member_count)
redelivery_drifts_example = redelivery_drifts event buyers_row 7 9 refl refl one_apart

abbrev twins_page : DetailPage
twins_page = record {
  id = "twins";
  segment = none;
  deltas = [];
  members_page = none;
  offset = 0;
  loading = false;
  refreshing = false;
  error = some "refresh failed";
  last_delta_id = none;
}

no_members : distinct (members_of base.members "twins") ≡ true
unfolding distinct members_of
no_members = refl

abbrev as_read : List MemberRow → List MemberRow
as_read rows = rows

abbrev no_history : Tables → String → List DeltaRow
no_history t id = []

force_refresh_shows_example :
    (r : EvaluationResult) × (t' : Tables) × (p' : DetailPage) × (Segments.evaluate env "twins" true
        base
      ≡ (ok r, t'))
    × (force_refresh
          (to_answer (Segments.evaluate env "twins" true base).0)
          (server_of as_read no_history t' "twins")
          twins_page
        ≡ p')
    × (p'.segment ≡ some (record { name = "Twins"; member_count = pos r.total_members }))
    × (p'.members_page ≡ some ((server_of as_read no_history t' "twins").members page_size 0))
    × (((server_of as_read no_history t' "twins").members page_size 0).total ≡ r.total_members)
    × (p'.loading ≡ false)
    × (p'.refreshing ≡ false)
    × (p'.error ≡ none)
force_refresh_shows_example =
    force_refresh_shows as_read no_history env base twins twins_page refl refl twins_no_self
      (twins_exist base buyers_there) no_members

abbrev never_json : String → Parsed
never_json text = invalid text

abbrev start : Session
start = record { panel = initial_panel; waiting = [] }

abbrev pressed : Session
pressed = opened start (fire_bulk initial_panel)

start_path : PanelReaches never_json start pressed
unfolding initial_panel
start_path = next rest (presses_bulk start refl)

panel_open_example :
    (length pressed.waiting ≡ (if pressed.panel.busy then 1 else 0))
    × ((if pressed.panel.busy then pressed.panel.last_result else none) ≡ none)
    × ((if pressed.panel.busy then pressed.panel.error_msg else none) ≡ none)
panel_open_example = panel_open never_json pressed start_path
