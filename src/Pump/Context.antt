-- ===== src/Pump/Context.antt =====
-- state_machine/models.py and state_machine/errors.py. A time is a number, a `datetime` being always
-- true in a test; a set of keys is a list; a warning's text is the constructor that stands for it,
-- with the values that the text quotes.
use intelipump.App.Transaction.{DecodeWarning}
use intelipump.Common.{ℕ, String, Bool, false, Option, none, List, []}
use intelipump.Pump.State.{PumpState, disconnected, PumpEvent, PumpCommand}

pub data TransitionSeverity : Type 0 where
  info warning error critical : TransitionSeverity

pub record ObservationRef : Type 0 where
  pub source_frame_raw_hex : Option String
  pub transaction_id : Option ℕ
  pub transaction_type : Option String
  pub raw_wayne_status : Option ℕ
  pub notes : List DecodeWarning

pub data Warning : Type 0 where
  stale_ignored : PumpEvent → ℕ → ℕ → Warning
  identical_frame unknown_preserved implicit_authorize_rejected : Warning
  duplicate_evidence_ignored : String → Warning
  transition_invalid : PumpState → PumpEvent → Warning
  live_preferred never_authorize authorize_discarded preserving_transaction : Warning
  discarded_non_idempotent discarded_pending : PumpCommand → Warning
  no_communication live_unknown live_filling live_filling_complete : Warning
  persisted_filling_overruled : PumpState → Warning
  live_authorized : Warning

pub record PumpContext : Type 0 where
  pub pump_id : String
  pub dart_address : ℕ
  pub current_state : PumpState
  pub previous_state : Option PumpState
  pub selected_nozzle : Option ℕ
  pub active_transaction_id : Option String
  pub last_observation_at : Option ℕ
  pub last_transition_at : Option ℕ
  pub last_raw_wayne_status : Option ℕ
  pub communication_healthy : Bool
  pub price_verified : Bool
  pub fault_code : Option ℕ
  pub warnings : List Warning
  pub state_version : ℕ
  pub completed_evidence_keys : List String
  pub last_source_frame_hex : Option String

-- `PumpContext(pump_id, dart_address)`, all else by default.
unfoldable pub new_context : String → ℕ → PumpContext
new_context pump_id dart_address = record {
  pump_id = pump_id;
  dart_address = dart_address;
  current_state = disconnected;
  previous_state = none;
  selected_nozzle = none;
  active_transaction_id = none;
  last_observation_at = none;
  last_transition_at = none;
  last_raw_wayne_status = none;
  communication_healthy = false;
  price_verified = false;
  fault_code = none;
  warnings = [];
  state_version = 0;
  completed_evidence_keys = [];
  last_source_frame_hex = none;
}

-- `attempted_event.value` and the other reasons of the machine.
pub data Reason : Type 0 where
  stale_observation duplicate_source_frame duplicate_completion_evidence : Reason
  unknown_observation_preserved implicit_authorize_not_supported same_state_noop : Reason
  invalid_transition transition_applied : Reason

pub record TransitionResult : Type 0 where
  pub accepted : Bool
  pub context : PumpContext
  pub current_state : PumpState
  pub previous_state : Option PumpState
  pub attempted_event : PumpEvent
  pub reason : Reason
  pub severity : TransitionSeverity
  pub noop : Bool
  pub observation : Option ObservationRef
  pub warnings : List Warning
