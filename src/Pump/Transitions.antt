-- ===== src/Pump/Transitions.antt =====
-- state_machine/transitions.py. The table and the loops that extend it are one function by clauses.
pub mod Reach
mod Examples
use intelipump.Common.{ℕ, Bool, true, false, Option, none, some, if◌then◌else◌}
use intelipump.Pump.State.{
  PumpState, disconnected, discovering, not_programmed, ready, nozzle_up, authorized, filling,
  filling_complete, suspended, faulted, maintenance, PumpEvent, communication_started,
  communication_lost, pump_discovered, configuration_missing, reset_observed, ready_observed,
  nozzle_lifted, nozzle_returned, authorization_confirmed, filling_started, filling_updated,
  filling_completed, suspended_observed, resumed_observed, fault_observed, fault_cleared,
  maintenance_entered, maintenance_exited, is_operational,
}

unfoldable pub lookup_transition : PumpState → PumpEvent → Option PumpState
unfolding is_operational
lookup_transition s communication_lost = some disconnected
lookup_transition s fault_observed = if is_operational s then some faulted else none
lookup_transition maintenance maintenance_entered = none
lookup_transition s maintenance_entered = some maintenance
lookup_transition disconnected communication_started = some discovering
lookup_transition discovering configuration_missing = some not_programmed
lookup_transition discovering reset_observed = some PumpState.reset
lookup_transition discovering ready_observed = some ready
lookup_transition discovering pump_discovered = some PumpState.reset
lookup_transition not_programmed reset_observed = some PumpState.reset
lookup_transition not_programmed ready_observed = some ready
lookup_transition PumpState.reset ready_observed = some ready
lookup_transition PumpState.reset configuration_missing = some not_programmed
lookup_transition ready nozzle_lifted = some nozzle_up
lookup_transition ready reset_observed = some PumpState.reset
lookup_transition nozzle_up authorization_confirmed = some authorized
lookup_transition nozzle_up nozzle_returned = some ready
lookup_transition nozzle_up filling_started = some filling
lookup_transition authorized filling_started = some filling
lookup_transition authorized nozzle_returned = some ready
lookup_transition filling filling_updated = some filling
lookup_transition filling filling_completed = some filling_complete
lookup_transition filling suspended_observed = some suspended
lookup_transition filling PumpEvent.limit_reached = some PumpState.limit_reached
lookup_transition suspended resumed_observed = some filling
lookup_transition suspended filling_completed = some filling_complete
lookup_transition suspended PumpEvent.limit_reached = some PumpState.limit_reached
lookup_transition PumpState.limit_reached filling_completed = some filling_complete
lookup_transition PumpState.limit_reached reset_observed = some PumpState.reset
lookup_transition filling_complete reset_observed = some PumpState.reset
lookup_transition faulted fault_cleared = some discovering
lookup_transition maintenance maintenance_exited = some discovering
lookup_transition _ _ = none

-- SAME_STATE_NOOP_EVENTS
unfoldable pub is_same_state_noop : PumpState → PumpEvent → Bool
is_same_state_noop ready ready_observed = true
is_same_state_noop PumpState.reset reset_observed = true
is_same_state_noop filling filling_updated = true
is_same_state_noop filling filling_started = true
is_same_state_noop authorized authorization_confirmed = true
is_same_state_noop nozzle_up nozzle_lifted = true
is_same_state_noop filling_complete filling_completed = true
is_same_state_noop suspended suspended_observed = true
is_same_state_noop PumpState.limit_reached PumpEvent.limit_reached = true
is_same_state_noop faulted fault_observed = true
is_same_state_noop disconnected communication_lost = true
is_same_state_noop discovering communication_started = true
is_same_state_noop maintenance maintenance_entered = true
is_same_state_noop not_programmed configuration_missing = true
is_same_state_noop _ _ = false
