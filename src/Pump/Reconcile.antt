-- ===== src/Pump/Reconcile.antt =====
-- state_machine/reconciliation.py. A pending command's text is the command.
pub mod Laws
pub mod Evidence
mod Examples
use intelipump.Common.{
  some, none, ℕ, ◌+◌, String, Bool, true, false, not, ◌&&◌, ◌||◌, Option, List, [], ◌∷◌, ◌++◌, map,
  ◌==◌, if◌then◌else◌, is_some, decided,
}
use intelipump.Pump.State.{
  suspended, is_non_idempotent, PumpState, disconnected, discovering, not_programmed, authorized,
  filling, filling_complete, faulted, PumpCommand, authorize, PumpState-discrete,
}
use intelipump.Pump.Context.{
  discarded_pending, discarded_non_idempotent, Warning, live_preferred, never_authorize,
  authorize_discarded, preserving_transaction, no_communication, live_unknown, live_filling,
  live_filling_complete, persisted_filling_overruled, live_authorized, PumpContext,
}

pub record LiveObservationSummary : Type 0 where
  pub communication_healthy : Bool
  pub wayne_status : Option ℕ
  pub normalized_hint : Option PumpState
  pub observed_at : Option ℕ
  pub selected_nozzle : Option ℕ
  pub raw_source_hex : Option String

pub record ReconciliationResult : Type 0 where
  pub context : PumpContext
  pub warnings : List Warning
  pub recovered_state : PumpState
  pub preserved_unresolved_transaction_id : Option String
  pub discarded_pending_commands : List PumpCommand
  pub auto_authorize_attempted : Bool
  pub pending_commands_replayed : Bool

-- `WaynePumpStatus(code)` through the mapping of `_infer_live_state`; 3, 7 and the codes above 8
-- give no state.
state_of_status : ℕ → Option PumpState
state_of_status code =
    if code == 0
    then some not_programmed
    else if code == 1
    then some PumpState.reset
    else if code == 2
    then some authorized
    else if code == 4
    then some filling
    else if code == 5
    then some filling_complete
    else if code == 6
    then some PumpState.limit_reached
    else if code == 8
    then some suspended
    else none

abbrev from_status : Option ℕ → Option PumpState
from_status none = none
from_status (some code) = state_of_status code

unfoldable pub infer_live_state : LiveObservationSummary → Option PumpState
unfolding state_of_status
infer_live_state live = elim live.normalized_hint [
  | some hint ↦ some hint
  | none ↦ from_status live.wayne_status
]

discard_warning : PumpCommand → Warning
unfolding is_non_idempotent
discard_warning cmd =
    if is_non_idempotent cmd then discarded_non_idempotent cmd else discarded_pending cmd

abbrev has_authorize : List PumpCommand → Bool
has_authorize [] = false
has_authorize (authorize ∷ cmds) = true
has_authorize (cmd ∷ cmds) = has_authorize cmds

abbrev warn_if : Bool → Warning → List Warning
warn_if true w = w ∷ []
warn_if false w = []

-- `had_active_transaction_persisted or unresolved is not None`; `None` is false.
abbrev truthy : Option Bool → Bool
truthy none = false
truthy (some b) = b

-- The warnings of every restart.
restart_warnings : PumpContext → Option Bool → List PumpCommand → List Warning
unfolding discard_warning
restart_warnings persisted had pending =
    (live_preferred ∷ never_authorize ∷ [])
    ++ (map discard_warning pending
        ++ (warn_if (has_authorize pending) authorize_discarded
            ++ warn_if (truthy had || is_some persisted.active_transaction_id)
                preserving_transaction))

-- `live or persisted` on nozzle numbers: 0 is false.
abbrev pub nonzero_or : Option ℕ → Option ℕ → Option ℕ
nonzero_or none old = old
nonzero_or (some n) old = if n == 0 then old else some n

abbrev in_state : PumpState → PumpState → Bool
in_state a b = decided (PumpState-discrete a b)

result :
    PumpContext → List Warning → PumpState → PumpContext → List PumpCommand → ReconciliationResult
result persisted warnings state ctx pending = record {
  context = ctx;
  warnings = warnings;
  recovered_state = state;
  preserved_unresolved_transaction_id = persisted.active_transaction_id;
  discarded_pending_commands = pending;
  auto_authorize_attempted = false;
  pending_commands_replayed = false;
}

-- The fields that every branch writes.
restarted : PumpContext → LiveObservationSummary → List Warning → PumpState → PumpContext
restarted persisted live warnings state = record persisted {
  previous_state = some persisted.current_state;
  current_state = state;
  state_version = persisted.state_version + 1;
  last_observation_at = live.observed_at;
  last_transition_at = live.observed_at;
  warnings = persisted.warnings ++ warnings;
}

-- The fields that a healthy restart writes too.
restarted_live : PumpContext → LiveObservationSummary → List Warning → PumpState → PumpContext
unfolding restarted
restarted_live persisted live warnings state = record (restarted persisted live warnings state) {
  communication_healthy = true;
  last_raw_wayne_status = live.wayne_status;
  selected_nozzle = nonzero_or live.selected_nozzle persisted.selected_nozzle;
  price_verified = false;
}

no_contact :
    PumpContext → LiveObservationSummary → List Warning → List PumpCommand → ReconciliationResult
unfolding result restarted
no_contact persisted live warnings pending =
    result persisted (warnings ++ no_communication ∷ []) disconnected
      (record (restarted persisted live warnings disconnected) { communication_healthy = false })
      pending

unknown_live :
    PumpContext → LiveObservationSummary → List Warning → List PumpCommand → ReconciliationResult
unfolding result restarted_live
unknown_live persisted live warnings pending =
    result persisted (warnings ++ live_unknown ∷ []) discovering
      (restarted_live persisted live warnings discovering) pending

live_warnings : PumpContext → PumpState → List Warning
live_warnings persisted state =
    warn_if (in_state state filling) live_filling
    ++ (warn_if (in_state state filling_complete) live_filling_complete
        ++ (warn_if (in_state persisted.current_state filling && not (in_state state filling))
              (persisted_filling_overruled state)
            ++ warn_if (in_state state authorized) live_authorized))

known_live :
    PumpContext
    → LiveObservationSummary
    → List Warning
    → List PumpCommand
    → PumpState
    → ReconciliationResult
unfolding result restarted_live live_warnings
known_live persisted live warnings pending state =
    let all = warnings ++ live_warnings persisted state in
    result persisted all state
      (record (restarted_live persisted live all state) {
        fault_code = if in_state state faulted then persisted.fault_code else none;
      })
      pending

pub reconcile_after_restart :
    PumpContext → LiveObservationSummary → Option Bool → List PumpCommand → ReconciliationResult
unfolding restart_warnings no_contact unknown_live known_live
reconcile_after_restart persisted live had pending =
    let warnings = restart_warnings persisted had pending in
    if not live.communication_healthy
    then no_contact persisted live warnings pending
    else elim (infer_live_state live) [
      | none ↦ unknown_live persisted live warnings pending
      | some state ↦ known_live persisted live warnings pending state
    ]
