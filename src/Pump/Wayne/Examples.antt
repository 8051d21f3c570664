-- ===== src/Pump/Wayne/Examples.antt =====
-- Concrete transactions and status bytes.
use intelipump.Pump.Transitions.{is_same_state_noop, lookup_transition}
use intelipump.Common.{String, ◌≡◌, refl, ◌≢◌, inl, true, false, Option, none, some, [], ◌∷◌}
use intelipump.App.Transaction.{
  unknown_direction, partial, ambiguous_cd1_or_dc1, wayne_status, int, scalar,
  ApplicationTransaction,
}
use intelipump.Pump.State.{
  PumpState, nozzle_up, authorized, filling, authorization_confirmed, PumpState-discrete,
  PumpEvent-discrete,
}
use intelipump.Pump.Context.{PumpContext, new_context, transition_applied}
use intelipump.Pump.Machine.{run, apply_transition, apply_lookup, apply}
use intelipump.Pump.Reconcile.{infer_live_state}
use intelipump.Pump.Wayne.{
  MapperContext, extract_raw_status, known_status_event, map_wayne_status_code,
  map_ambiguous_cd1_dc1, map_wayne_observation, apply_mapped,
}
use intelipump.Pump.Wayne.Laws.{
  shared_keeps_state, seen_live, status_agrees, same_frame_completes_once,
}

abbrev status_byte : ApplicationTransaction
status_byte = record {
  transaction_id = 0x01;
  transaction_type = ambiguous_cd1_or_dc1;
  length' = 1;
  raw_payload = 0x02 ∷ [];
  raw_transaction = 0x01 ∷ 1 ∷ 0x02 ∷ [];
  decoded_body = some (("raw_code", scalar (int 2)) ∷ []);
  pump_address = some 0x51;
  line_sequence = some 3;
  direction = unknown_direction;
  decode_status = partial;
  warnings = [];
  source_frame_raw_hex = some "51 33 01 01 02";
  offset = 0;
  reserved_or_unknown_fields = [];
}

abbrev no_hint : MapperContext
no_hint = record {
  current_state = none;
  previous_wayne_status = none;
  resolve_as_dc1 = false;
  resolve_as_cd1 = false;
  resolve_as_dc3 = false;
  resolve_as_cd3 = false;
  outstanding_request_was_cd1_status = false;
  bus_direction = none;
}

at_state : PumpState → PumpContext
unfolding new_context
at_state s = record (new_context "pump-1" 0x51) { current_state = s; communication_healthy = true }

resolved_as_dc1 :
    (map_wayne_observation status_byte (record no_hint { resolve_as_dc1 = true })).event
    ≡ authorization_confirmed
unfolding map_wayne_observation map_ambiguous_cd1_dc1 known_status_event wayne_status
    extract_raw_status
resolved_as_dc1 = refl

shared_keeps_state_example :
    (apply_mapped
      (at_state nozzle_up)
      (map_wayne_observation status_byte no_hint)
      (some 7)
      none
      none
      none
      none).context.current_state
    ≡ nozzle_up
unfolding at_state
shared_keeps_state_example =
    shared_keeps_state (at_state nozzle_up) status_byte no_hint (some 7) none none none none
      (inl refl) refl

status_applied :
    (apply_mapped
      (at_state authorized)
      (map_wayne_status_code 4 none none none none)
      (some 7)
      none
      none
      none
      none).reason
    ≡ transition_applied
unfolding at_state apply_mapped map_wayne_status_code known_status_event wayne_status apply
    apply_lookup apply_transition lookup_transition is_same_state_noop PumpState-discrete
    PumpEvent-discrete
status_applied = refl

abbrev completion_frame : Option String
completion_frame = some "51 33 01 01 05"

completion_applied :
    (apply_mapped
      (at_state filling)
      (map_wayne_status_code 5 none none completion_frame none)
      none
      none
      none
      none
      none).reason
    ≡ transition_applied
unfolding at_state apply_mapped map_wayne_status_code known_status_event wayne_status apply
    apply_lookup apply_transition lookup_transition is_same_state_noop PumpState-discrete
    PumpEvent-discrete
completion_applied = refl

status_agrees_example :
    infer_live_state (seen_live 4)
    ≡ some
        (apply_mapped
          (at_state authorized)
          (map_wayne_status_code 4 none none none none)
          (some 7)
          none
          none
          none
          none).context.current_state
status_agrees_example =
    status_agrees (at_state authorized) 4 none none none none (some 7) none none none none
      status_applied

same_frame_completes_once_example :
    (apply_mapped
      (run
        (apply_mapped
          (at_state filling)
          (map_wayne_status_code 5 none none completion_frame none)
          none
          none
          none
          none
          none).context
        [])
      (map_wayne_status_code 5 none none completion_frame none)
      (some 9)
      none
      none
      none
      none).reason
    ≢ transition_applied
same_frame_completes_once_example =
    same_frame_completes_once (at_state filling) completion_frame none none none none none none none
      (some 9) [] completion_applied
