-- ===== src/Pump/Wayne/Types.antt =====
-- The types of state_machine/wayne_mapper.py. A text that explains a result, an inference or a warning, is
-- a constructor, with the value that the text quotes.
use intelipump.Common.{ℕ, String, Bool, false, Option, none, List, []}
use intelipump.App.Transaction.{MessageDirection, TransactionType}
use intelipump.Pump.State.{PumpState, PumpEvent}
use intelipump.Pump.Context.{ObservationRef}

pub data Inference : Type 0 where
  dc2_progress alarm_is_fault identity_discovers non_lifecycle caller_resolved_dc1 : Inference
  direction_selected_cd1 ambiguous_resolved_dc1 wire_collision_01 decoded_dc1 : Inference
  caller_selected_cd3 wire_collision_03 nozzle_out_lifts nozzle_in_returns nozzle_in_ready :
      Inference
  status_configuration_missing status_reset_observed status_authorization status_resumed : Inference
  status_already_filling status_filling_started status_completed status_limit : Inference
  status_is_suspended : Inference

pub data MapperWarning : Type 0 where
  no_lifecycle_mapping : TransactionType → MapperWarning
  resolved_as_cd1 raw_status_missing ambiguous_direction dc1_without_status : MapperWarning
  resolved_as_cd3 ambiguous_03 missing_nozzle_out switched_off_preserved : MapperWarning
  unknown_wayne_status : ℕ → MapperWarning

pub record MapperContext : Type 0 where
  pub current_state : Option PumpState
  pub previous_wayne_status : Option ℕ
  pub resolve_as_dc1 : Bool
  pub resolve_as_cd1 : Bool
  pub resolve_as_dc3 : Bool
  pub resolve_as_cd3 : Bool
  pub outstanding_request_was_cd1_status : Bool
  pub bus_direction : Option MessageDirection

pub record MappedWayneObservation : Type 0 where
  pub event : PumpEvent
  pub observation : ObservationRef
  pub raw_wayne_status : Option ℕ
  pub selected_nozzle : Option ℕ
  pub completion_evidence_key : Option String
  pub allow_implicit_authorize_to_filling : Bool
  pub inferences : List Inference
  pub warnings : List MapperWarning

-- `MappedWayneObservation(event, observation)`, all else by default.
abbrev pub mapped : PumpEvent → ObservationRef → MappedWayneObservation
mapped event obs = record {
  event = event;
  observation = obs;
  raw_wayne_status = none;
  selected_nozzle = none;
  completion_evidence_key = none;
  allow_implicit_authorize_to_filling = false;
  inferences = [];
  warnings = [];
}
