-- ===== src/Pump/Wayne.antt =====
-- state_machine/wayne_mapper.py, and `apply_mapped` of state_machine/machine.py: from a decoded
-- transaction to a call of the machine.
mod Types
mod Status
pub mod Laws
mod Examples
pub use Types.*
unfoldable pub use Status.*
use intelipump.Common.{
  ℕ, String, Bool, true, false, not, ◌&&◌, ◌||◌, Option, none, some, [], ◌∷◌, if◌then◌else◌,
  or_keep,
}
use intelipump.App.Transaction.{
  MessageDirection, master_to_slave, slave_to_master, DecodeStatus, decoded, TransactionType,
  dc1_pump_status, dc2_filled_volume_amount, dc3_nozzle_status_price, dc5_alarm, dc9_pump_identity,
  ambiguous_cd1_or_dc1, type_value, lookup, int_of, flag_of, body_or_empty, ApplicationTransaction,
}
use intelipump.Pump.State.{
  PumpState, nozzle_up, authorized, filling, suspended, pump_discovered, ready_observed,
  nozzle_lifted, nozzle_returned, filling_updated, fault_observed, unknown_observation,
}
use intelipump.Pump.Context.{ObservationRef, PumpContext, TransitionResult}
use intelipump.Pump.Machine.{Input, is_event, or_flag, apply}

abbrev direction_or : Option MessageDirection → MessageDirection → MessageDirection
direction_or none d = d
direction_or (some d) e = d

abbrev is_slave : MessageDirection → Bool
is_slave slave_to_master = true
is_slave _ = false

abbrev is_master : MessageDirection → Bool
is_master master_to_slave = true
is_master _ = false

-- The tests of `_map_ambiguous_cd1_dc1`.
pub resolves_dc1 : ApplicationTransaction → MapperContext → Bool
resolves_dc1 tx ctx =
    ctx.resolve_as_dc1
    || ctx.outstanding_request_was_cd1_status
    || is_slave (direction_or ctx.bus_direction tx.direction)

pub resolves_cd1 : ApplicationTransaction → MapperContext → Bool
resolves_cd1 tx ctx = ctx.resolve_as_cd1 || is_master (direction_or ctx.bus_direction tx.direction)

status_or_missing :
    MapperWarning → ObservationRef → MapperContext → Inference → Option ℕ → MappedWayneObservation
unfolding status_code_to_event
status_or_missing missing obs ctx given none = record (mapped unknown_observation obs) {
  warnings = missing ∷ [];
}
status_or_missing missing obs ctx given (some code) =
    status_code_to_event code obs ctx.previous_wayne_status ctx.current_state (given ∷ [])

pub map_ambiguous_cd1_dc1 :
    ApplicationTransaction → ObservationRef → MapperContext → MappedWayneObservation
unfolding resolves_dc1 resolves_cd1 status_or_missing
map_ambiguous_cd1_dc1 tx obs ctx =
    if resolves_cd1 tx ctx && not (resolves_dc1 tx ctx)
    then record (mapped unknown_observation obs) {
      raw_wayne_status = obs.raw_wayne_status;
      warnings = resolved_as_cd1 ∷ [];
      inferences = direction_selected_cd1 ∷ [];
    }
    else if resolves_dc1 tx ctx && not (resolves_cd1 tx ctx)
    then status_or_missing raw_status_missing obs ctx ambiguous_resolved_dc1 obs.raw_wayne_status
    else record (mapped unknown_observation obs) {
      raw_wayne_status = obs.raw_wayne_status;
      warnings = ambiguous_direction ∷ [];
      inferences = wire_collision_01 ∷ [];
    }

pub map_dc1 : ApplicationTransaction → ObservationRef → MapperContext → MappedWayneObservation
unfolding status_or_missing
map_dc1 tx obs ctx =
    let fallback = int_of (lookup "status" (body_or_empty tx.decoded_body)) in
    status_or_missing dc1_without_status obs ctx decoded_dc1 (or_keep obs.raw_wayne_status fallback)

-- The states in which a nozzle that is back means NOZZLE_RETURNED.
abbrev pub nozzle_in_use : Option PumpState → Bool
nozzle_in_use (some nozzle_up) = true
nozzle_in_use (some authorized) = true
nozzle_in_use (some filling) = true
nozzle_in_use (some suspended) = true
nozzle_in_use _ = false

pub dc3_nozzle : ObservationRef → MapperContext → Option ℕ → Option Bool → MappedWayneObservation
dc3_nozzle obs ctx nozzle none = record (mapped unknown_observation obs) {
  selected_nozzle = nozzle;
  warnings = missing_nozzle_out ∷ [];
}
dc3_nozzle obs ctx nozzle (some true) = record (mapped nozzle_lifted obs) {
  selected_nozzle = nozzle;
  inferences = nozzle_out_lifts ∷ [];
}
dc3_nozzle obs ctx nozzle (some false) =
    if nozzle_in_use ctx.current_state
    then record (mapped nozzle_returned obs) {
      selected_nozzle = nozzle;
      inferences = nozzle_in_returns ∷ [];
    }
    else record (mapped ready_observed obs) {
      selected_nozzle = nozzle;
      inferences = nozzle_in_ready ∷ [];
    }

abbrev is_decoded : DecodeStatus → Bool
is_decoded decoded = true
is_decoded _ = false

-- `resolved_dc3`
pub resolves_dc3 : ApplicationTransaction → MapperContext → Bool
resolves_dc3 tx ctx =
    ctx.resolve_as_dc3
    || is_decoded tx.decode_status && is_slave (direction_or ctx.bus_direction tx.direction)

pub map_dc3 : ApplicationTransaction → ObservationRef → MapperContext → MappedWayneObservation
unfolding resolves_dc3 dc3_nozzle
map_dc3 tx obs ctx =
    if ctx.resolve_as_cd3
    then record (mapped unknown_observation obs) {
      warnings = resolved_as_cd3 ∷ [];
      inferences = caller_selected_cd3 ∷ [];
    }
    else if not (resolves_dc3 tx ctx)
    then record (mapped unknown_observation obs) {
      warnings = ambiguous_03 ∷ [];
      inferences = wire_collision_03 ∷ [];
    }
    else let body = body_or_empty tx.decoded_body in
      dc3_nozzle obs ctx (int_of (lookup "selected_logical_nozzle" body))
        (flag_of (lookup "nozzle_out" body))

map_dc5 : ApplicationTransaction → ObservationRef → MappedWayneObservation
map_dc5 tx obs =
    let fault = int_of (lookup "alarm_code" (body_or_empty tx.decoded_body)) in
    record (mapped fault_observed (record obs { raw_wayne_status = fault })) {
      raw_wayne_status = fault;
      inferences = alarm_is_fault ∷ [];
    }

abbrev observed : ApplicationTransaction → ObservationRef
observed tx = record {
  source_frame_raw_hex = tx.source_frame_raw_hex;
  transaction_id = some tx.transaction_id;
  transaction_type = some (type_value tx.transaction_type);
  raw_wayne_status = extract_raw_status tx;
  notes = tx.warnings;
}

no_mapping : TransactionType → ObservationRef → MappedWayneObservation
no_mapping type obs = record (mapped unknown_observation obs) {
  warnings = no_lifecycle_mapping type ∷ [];
  inferences = non_lifecycle ∷ [];
}

pub map_wayne_observation : ApplicationTransaction → MapperContext → MappedWayneObservation
unfolding map_ambiguous_cd1_dc1 map_dc1 map_dc3 map_dc5 no_mapping
map_wayne_observation tx ctx = elim tx.transaction_type [
  | ambiguous_cd1_or_dc1 ↦ map_ambiguous_cd1_dc1 tx (observed tx) ctx
  | dc1_pump_status ↦ map_dc1 tx (observed tx) ctx
  | dc3_nozzle_status_price ↦ map_dc3 tx (observed tx) ctx
  | dc2_filled_volume_amount ↦ record (mapped filling_updated (observed tx)) {
    inferences = dc2_progress ∷ [];
  }
  | dc5_alarm ↦ map_dc5 tx (observed tx)
  | dc9_pump_identity ↦ record (mapped pump_discovered (observed tx)) {
    inferences = identity_discovers ∷ [];
  }
  | _ ↦ no_mapping tx.transaction_type (observed tx)
]

-- The call of `apply` that `apply_mapped` makes.
pub mapped_input :
    MappedWayneObservation → Option ℕ → Option String → Option Bool → Option ℕ → Option Bool → Input
mapped_input m at transaction price fault implicit = record {
  event = m.event;
  observation = some m.observation;
  observed_at = at;
  selected_nozzle = m.selected_nozzle;
  active_transaction_id = transaction;
  raw_wayne_status = m.raw_wayne_status;
  price_verified = price;
  fault_code = or_keep fault (if is_event m.event fault_observed then m.raw_wayne_status else none);
  completion_evidence_key = m.completion_evidence_key;
  allow_implicit_authorize_to_filling = or_flag implicit m.allow_implicit_authorize_to_filling;
}

pub apply_mapped :
    PumpContext
    → MappedWayneObservation
    → Option ℕ
    → Option String
    → Option Bool
    → Option ℕ
    → Option Bool
    → TransitionResult
unfolding mapped_input
apply_mapped ctx m at transaction price fault implicit =
    apply ctx (mapped_input m at transaction price fault implicit)
