-- ===== src/Web/SimulatorPanel/Requests.antt =====
-- The panel and its open requests: what is open at any time, whatever the user and the server do.
use optio_ai_assignment.Prelude.{
  String, false, ◌≡◌, refl, none, List, [], ◌∷◌, ◌++◌, length, length-append, arith, if◌then◌else◌,
}
use optio_ai_assignment.Number.{Number}
use optio_ai_assignment.Web.SimulatorPanel.{
  CustomerSummary, Request, Parsed, value, invalid, SimulatorPanel, initial_panel, ng_on_init, run,
  done, failed, fire_transaction, fire_parsed, fire_profile, fire_bulk, fire_advance_time,
  transaction_disabled, profile_disabled, advance_disabled, bulk_disabled,
}

-- The panel, and the requests that have no answer yet.
pub record Session : Type 0 where
  pub panel : SimulatorPanel
  pub waiting : List Request

abbrev pub opened : Session → SimulatorPanel × List Request → Session
opened s (panel, requests) = record { panel = panel; waiting = s.waiting ++ requests }

module _ (parse : String → Parsed) where
  -- The user edits the fields or presses a button that is not disabled; the server answers the request
  -- that is open, or refuses it.
  pub data PanelStep : Session → Session → Type 0 where
    lists :
        (rows : List CustomerSummary) (s : Session)
        → PanelStep s (record s { panel = ng_on_init rows s.panel })
    edits :
        (tx_customer_id prof_customer_id profile_json : String)
        (tx_amount bulk_count advance_days : Number) (s : Session)
        → PanelStep s (record s {
          panel = record (s.panel) {
            tx_customer_id = tx_customer_id;
            prof_customer_id = prof_customer_id;
            profile_json = profile_json;
            tx_amount = tx_amount;
            bulk_count = bulk_count;
            advance_days = advance_days;
          };
        })
    presses_transaction :
        (s : Session)
        → transaction_disabled s.panel ≡ false
        → PanelStep s (opened s (fire_transaction s.panel))
    presses_profile :
        (s : Session)
        → profile_disabled s.panel ≡ false
        → PanelStep s (opened s (fire_profile parse s.panel))
    presses_bulk :
        (s : Session) → bulk_disabled s.panel ≡ false → PanelStep s (opened s (fire_bulk s.panel))
    presses_advance :
        (s : Session)
        → advance_disabled s.panel ≡ false
        → PanelStep s (opened s (fire_advance_time s.panel))
    succeeds :
        (result : String) (panel : SimulatorPanel) (request : Request) (waiting : List Request)
        → PanelStep
            (record { panel = panel; waiting = request ∷ waiting })
            (record { panel = done result panel; waiting = waiting })
    fails :
        (message : String) (panel : SimulatorPanel) (request : Request) (waiting : List Request)
        → PanelStep
            (record { panel = panel; waiting = request ∷ waiting })
            (record { panel = failed message panel; waiting = waiting })

  pub data PanelReaches : Session → Session → Type 0 where
    rest : {s : Session} → PanelReaches s s
    next : {s s' s'' : Session} → PanelReaches s s' → PanelStep s' s'' → PanelReaches s s''

  -- One request waits while the panel is busy, and none otherwise; a busy panel shows no message.
  pub record IsCoherent (s : Session) : Type 0 where
    pub count : length s.waiting ≡ (if s.panel.busy then 1 else 0)
    pub quiet_result : (if s.panel.busy then s.panel.last_result else none) ≡ none
    pub quiet_error : (if s.panel.busy then s.panel.error_msg else none) ≡ none

  run-IsCoherent :
      (request : Request) (s : Session)
      → s.panel.busy ≡ false
      → IsCoherent s
      → IsCoherent (opened s (run request s.panel))
  unfolding run
  run-IsCoherent request s idle h = record {
    count = ground (arith, length-append s.waiting (request ∷ []), h.count);
    quiet_result = refl;
    quiet_error = refl;
  }

  answered :
      (panel panel' : SimulatorPanel) (request : Request) (waiting : List Request)
      → panel'.busy ≡ false
      → IsCoherent (record { panel = panel; waiting = request ∷ waiting })
      → IsCoherent (record { panel = panel'; waiting = waiting })
  answered panel panel' request waiting idle h = record {
    count = ground (arith, h.count);
    quiet_result = rw idle;
    quiet_error = rw idle;
  }

  step-IsCoherent : {s s' : Session} → PanelStep s s' → IsCoherent s → IsCoherent s'
  unfolding ng_on_init fire_transaction fire_profile fire_bulk fire_advance_time done failed
  step-IsCoherent (lists rows s) h = record {
    count = h.count;
    quiet_result = h.quiet_result;
    quiet_error = h.quiet_error;
  }
  step-IsCoherent (edits a b c d e f s) h = record {
    count = h.count;
    quiet_result = h.quiet_result;
    quiet_error = h.quiet_error;
  }
  step-IsCoherent (presses_transaction s free) h = run-IsCoherent _ s (ground arith) h
  step-IsCoherent (presses_profile s free) h = parsed (parse s.panel.profile_json)
    where
      idle : s.panel.busy ≡ false
      idle = ground arith

      parsed : (x : Parsed) → IsCoherent (opened s (fire_parsed x s.panel))
      parsed (value json) = run-IsCoherent _ s idle h
      parsed (invalid message) = record {
        count = ground (arith, length-append s.waiting [], h.count);
        quiet_result = rw idle;
        quiet_error = rw idle;
      }
  step-IsCoherent (presses_bulk s free) h = run-IsCoherent _ s free h
  step-IsCoherent (presses_advance s free) h = run-IsCoherent _ s (ground arith) h
  step-IsCoherent (succeeds result panel request waiting) h =
      answered panel (done result panel) request waiting refl h
  step-IsCoherent (fails message panel request waiting) h =
      answered panel (failed message panel) request waiting refl h

  reaches-IsCoherent : (s s' : Session) → IsCoherent s → PanelReaches s s' → IsCoherent s'
  reaches-IsCoherent s s' h rest = h
  reaches-IsCoherent s s' h (next {s' = m} before step) =
      step-IsCoherent step (reaches-IsCoherent s m h before)

  -- From the panel as it is built, with no request open, whatever the user edits and presses and the
  -- server answers: one request is open while the panel is busy and none while it is not, and a busy
  -- panel shows neither a result nor an error.
  pub panel_open :
      (s : Session)
      → PanelReaches (record { panel = initial_panel; waiting = [] }) s
      → (length s.waiting ≡ (if s.panel.busy then 1 else 0))
        × ((if s.panel.busy then s.panel.last_result else none) ≡ none)
        × ((if s.panel.busy then s.panel.error_msg else none) ≡ none)
  unfolding initial_panel
  panel_open s reached =
      let h =
        reaches-IsCoherent (record { panel = initial_panel; waiting = [] }) s
          (record { count = refl; quiet_result = refl; quiet_error = refl }) reached in
      (h.count, h.quiet_result, h.quiet_error)
