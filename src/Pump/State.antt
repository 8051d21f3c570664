-- ===== src/Pump/State.antt =====
-- domain/pump_state.py, domain/pump_event.py and domain/pump_command.py.
use intelipump.Common.{Bool, true, false}

pub data PumpState : Type 0 where
  disconnected discovering not_programmed reset ready nozzle_up authorized filling : PumpState
  filling_complete suspended limit_reached faulted maintenance : PumpState

pub data PumpEvent : Type 0 where
  communication_started communication_lost pump_discovered configuration_missing : PumpEvent
  reset_observed ready_observed nozzle_lifted nozzle_returned authorization_confirmed : PumpEvent
  filling_started filling_updated filling_completed limit_reached suspended_observed : PumpEvent
  resumed_observed fault_observed fault_cleared maintenance_entered maintenance_exited : PumpEvent
  unknown_observation : PumpEvent

pub data PumpCommand : Type 0 where
  read_status read_totals set_price reset authorize stop suspend resume : PumpCommand
  preset_amount preset_volume : PumpCommand

-- OPERATIONAL_STATES
unfoldable pub is_operational : PumpState → Bool
is_operational disconnected = false
is_operational _ = true

-- NON_IDEMPOTENT_COMMANDS
unfoldable pub is_non_idempotent : PumpCommand → Bool
is_non_idempotent read_status = false
is_non_idempotent read_totals = false
is_non_idempotent _ = true

-- `==` on the enumerations.
unfoldable pub PumpState-discrete : Discrete PumpState
PumpState-discrete = hlevel

unfoldable pub PumpEvent-discrete : Discrete PumpEvent
PumpEvent-discrete = hlevel

unfoldable pub PumpCommand-discrete : Discrete PumpCommand
PumpCommand-discrete = hlevel
