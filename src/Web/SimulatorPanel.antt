-- ===== src/Web/SimulatorPanel.antt =====
-- apps/web/src/app/simulator/simulator-panel.ts. The texts that JSON.parse and JSON.stringify make
-- are arguments; what a call sends is the list of its requests.
pub mod Requests
use optio_ai_assignment.Prelude.{
  ℕ, ◌+◌, String, Bool, true, false, not, ◌||◌, Option, none, some, List, [], ◌∷◌, ◌==◌,
}
use optio_ai_assignment.Prelude.Int.{ℤ, pos}
use optio_ai_assignment.Number.{Number, is_nan, strict_eq, of_ℕ}
use optio_ai_assignment.Shared.Json.{Json}

pub record CustomerSummary : Type 0 where
  pub id : String
  pub name : String
  pub email : String

pub data Request : Type 0 where
  transaction_request : String → Number → Request
  profile_request : String → Json → Request
  bulk_request : Number → Request
  advance_request : Number → Request

-- what `JSON.parse` does: a value, or a throw, with the text `invalid JSON: …` that the panel makes of
-- its message
pub data Parsed : Type 0 where
  value : Json → Parsed
  invalid : String → Parsed

-- the signals and the form fields; `triggered` counts the emits of `actionTriggered`
pub record SimulatorPanel : Type 0 where
  pub customers : List CustomerSummary
  pub busy : Bool
  pub last_result : Option String
  pub error_msg : Option String
  pub tx_customer_id : String
  pub tx_amount : Number
  pub prof_customer_id : String
  pub profile_json : String
  pub bulk_count : Number
  pub advance_days : Number
  pub triggered : ℕ

unfoldable pub initial_panel : SimulatorPanel
initial_panel = record {
  customers = [];
  busy = false;
  last_result = none;
  error_msg = none;
  tx_customer_id = "";
  tx_amount = of_ℕ 100;
  prof_customer_id = "";
  profile_json = "{\"country\":\"GE\"}";
  bulk_count = of_ℕ 50000;
  advance_days = of_ℕ 30;
  triggered = 0;
}

-- the answer to the request of ngOnInit
unfoldable pub ng_on_init : List CustomerSummary → SimulatorPanel → SimulatorPanel
ng_on_init rows p = record p { customers = rows }

-- `fn` sends one request
unfoldable pub run : Request → SimulatorPanel → SimulatorPanel × List Request
run request p = (record p { error_msg = none; last_result = none; busy = true }, request ∷ [])

unfoldable pub done : String → SimulatorPanel → SimulatorPanel
done result p = record p { last_result = some result; busy = false; triggered = p.triggered + 1 }

-- `message` is what the panel reads off the failure
unfoldable pub failed : String → SimulatorPanel → SimulatorPanel
failed message p = record p { error_msg = some message; busy = false }

unfoldable pub fire_transaction : SimulatorPanel → SimulatorPanel × List Request
fire_transaction p = run (transaction_request p.tx_customer_id p.tx_amount) p

abbrev fire_parsed : Parsed → SimulatorPanel → SimulatorPanel × List Request
fire_parsed (value json) p = run (profile_request p.prof_customer_id json) p
fire_parsed (invalid message) p = (record p { error_msg = some message }, [])

unfoldable pub fire_profile : (String → Parsed) → SimulatorPanel → SimulatorPanel × List Request
fire_profile parse p = fire_parsed (parse p.profile_json) p

unfoldable pub fire_bulk : SimulatorPanel → SimulatorPanel × List Request
fire_bulk p = run (bulk_request p.bulk_count) p

unfoldable pub fire_advance_time : SimulatorPanel → SimulatorPanel × List Request
fire_advance_time p = run (advance_request p.advance_days) p

-- `!n` of a number
abbrev pub is_falsy : Number → Bool
is_falsy n = is_nan n || strict_eq n (of_ℕ 0)

-- the `disabled` of the four buttons
abbrev pub transaction_disabled : SimulatorPanel → Bool
transaction_disabled p = p.busy || p.tx_customer_id == "" || is_falsy p.tx_amount

abbrev pub profile_disabled : SimulatorPanel → Bool
profile_disabled p = p.busy || p.prof_customer_id == "" || p.profile_json == ""

abbrev pub advance_disabled : SimulatorPanel → Bool
advance_disabled p = p.busy || is_falsy p.advance_days

abbrev pub bulk_disabled : SimulatorPanel → Bool
bulk_disabled p = p.busy
