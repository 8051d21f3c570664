-- ===== src/Pump/Wayne/Status.antt =====
-- What state_machine/wayne_mapper.py makes of a status byte.
use intelipump.Common.{
  ℕ, String, Bool, false, ◌||◌, Option, none, some, List, [], ◌∷◌, ◌++◌, ◌==◌, if◌then◌else◌,
  or_keep,
}
use intelipump.App.Transaction.{
  status_suspended, dc1_pump_status, type_value, WaynePumpStatus, status_not_programmed,
  status_reset, status_authorized, status_filling, status_filling_completed, status_limit_reached,
  status_switched_off, wayne_status, Value, dict, lookup, int_of_scalar, int_of, body_or_empty,
  ApplicationTransaction,
}
use intelipump.Pump.State.{
  suspended_observed, PumpState, filling, PumpEvent, configuration_missing, reset_observed,
  authorization_confirmed, filling_started, filling_updated, filling_completed, resumed_observed,
  unknown_observation,
}
use intelipump.Pump.Context.{ObservationRef}
use intelipump.Pump.Machine.{is_state}
use intelipump.Pump.Wayne.Types.{
  status_is_suspended, Inference, caller_resolved_dc1, status_configuration_missing,
  status_reset_observed, status_authorization, status_resumed, status_already_filling,
  status_filling_started, status_completed, status_limit, switched_off_preserved,
  unknown_wayne_status, MappedWayneObservation, mapped,
}
use Prim.Native.String.{◌++◌ as str_append}

dc1_raw_code : Option Value → Option ℕ
dc1_raw_code (some (dict d)) = int_of_scalar (lookup "raw_code" d)
dc1_raw_code _ = none

unfoldable pub extract_raw_status : ApplicationTransaction → Option ℕ
unfolding dc1_raw_code
extract_raw_status tx =
    let body = body_or_empty tx.decoded_body in
    or_keep (int_of (lookup "raw_code" body)) (dc1_raw_code (lookup "dc1_pump_status" body))

abbrev pub text_or_empty : Option String → String
text_or_empty none = ""
text_or_empty (some t) = t

-- `f"complete:{frame}:{status_code}"`, where the status is 5.
unfoldable pub completion_key : Option String → String
completion_key frame = str_append "complete:" (str_append (text_or_empty frame) ":5")

-- The branches of a status that is known; `given` are the caller's inferences.
unfoldable pub known_status_event :
    WaynePumpStatus
    → ℕ
    → ObservationRef
    → Option ℕ
    → Option PumpState
    → List Inference
    → MappedWayneObservation
known_status_event status code obs previous state given = elim status [
  | status_not_programmed ↦ with configuration_missing status_configuration_missing
  | status_reset ↦ with reset_observed status_reset_observed
  | status_authorized ↦ with authorization_confirmed status_authorization
  | status_filling ↦
      if is_status 8 previous
      then with resumed_observed status_resumed
      else if filling_now state || is_status 4 previous
      then with filling_updated status_already_filling
      else with filling_started status_filling_started
  | status_filling_completed ↦ record (with filling_completed status_completed) {
    completion_evidence_key = some (completion_key obs.source_frame_raw_hex);
  }
  | status_limit_reached ↦ with PumpEvent.limit_reached status_limit
  | status_switched_off ↦ record (mapped unknown_observation obs) {
    raw_wayne_status = some code;
    inferences = given;
    warnings = switched_off_preserved ∷ [];
  }
  | status_suspended ↦ with suspended_observed status_is_suspended
]
  where
    with : PumpEvent → Inference → MappedWayneObservation
    with event reason = record (mapped event obs) {
      raw_wayne_status = some code;
      inferences = given ++ reason ∷ [];
    }

    is_status : ℕ → Option ℕ → Bool
    is_status n none = false
    is_status n (some m) = m == n

    filling_now : Option PumpState → Bool
    filling_now none = false
    filling_now (some s) = is_state s filling

unfoldable pub status_code_to_event :
    ℕ → ObservationRef → Option ℕ → Option PumpState → List Inference → MappedWayneObservation
unfolding known_status_event
status_code_to_event code obs previous state given = elim (wayne_status code) [
  | none ↦ record (mapped unknown_observation obs) {
    raw_wayne_status = some code;
    inferences = given;
    warnings = unknown_wayne_status code ∷ [];
  }
  | some status ↦ known_status_event status code obs previous state given
]

unfoldable pub map_wayne_status_code :
    ℕ → Option ℕ → Option PumpState → Option String → Option ℕ → MappedWayneObservation
unfolding status_code_to_event
map_wayne_status_code code previous state frame id =
    let obs : ObservationRef = record {
      source_frame_raw_hex = frame;
      transaction_id = id;
      transaction_type = some (type_value dc1_pump_status);
      raw_wayne_status = some code;
      notes = [];
    } in
    status_code_to_event code obs previous state (caller_resolved_dc1 ∷ [])
