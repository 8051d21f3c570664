-- ===== src/Controller/Session/Apply.antt =====
-- The parts of controller/pump_session.py that apply an observation to the machine and publish what
-- came of it. The bus, which a session shares, is threaded through it.
use intelipump.Controller.Session.Types.{healthy, disconnected_health}
use intelipump.App.Fields.{hex}
use intelipump.App.Decoder.{DecodeArguments, decode_data_payload}
use intelipump.Pump.Wayne.{map_wayne_observation, MapperContext, MappedWayneObservation}
use intelipump.Pump.Context.{PumpContext, TransitionResult}
use intelipump.Controller.Session.Types.{same_health, PumpSession, CommunicationHealth}
use intelipump.Controller.Events.{
  pump_disconnected, no_payload, no_detail, pump_connected, state_note, from_to, publish,
  transaction_note, application_transaction_decoded, EventPayload, state_changed, EventDetail,
  TransactionNote, ControllerEventType, StateNote,
}
use intelipump.App.Transaction.{
  null, dict, body_or_empty, lookup, Scalar, ApplicationTransaction, Body,
}
use intelipump.Line.Frame.{DartLineFrame}
use intelipump.Pump.State.{PumpEvent, PumpState}
use intelipump.Common.{
  not, String, false, ◌&&◌, Option, none, some, List, [], ◌∷◌, ◌==◌, if◌then◌else◌,
}
use intelipump.Pump.Machine.{truthy_hex, known_key, is_state, add_key, Input, apply}

-- `self.events.publish(ControllerEvent(type, address=self.address, ...))`
unfoldable pub tell : ControllerEventType → EventDetail → EventPayload → PumpSession → PumpSession
tell type d p s = record s {
  events =
      publish (record { type = type; address = some s.state.address; detail = d; payload = p })
        s.events;
}

abbrev pub change_note : PumpState → PumpState → PumpEvent → PumpContext → Option String → StateNote
change_note before after event context key = record {
  event = event;
  previous_state = before;
  normalized_state = after;
  state_version = context.state_version;
  selected_nozzle = context.selected_nozzle;
  active_transaction_id = context.active_transaction_id;
  communication_healthy = context.communication_healthy;
  raw_wayne_status = context.last_raw_wayne_status;
  source_frame_ref = context.last_source_frame_hex;
  completion_evidence_key = key;
}

-- `_publish_state_changed`
unfoldable pub publish_state_changed :
    PumpState → PumpState → PumpEvent → PumpContext → Option String → PumpSession → PumpSession
unfolding tell
publish_state_changed before after event context key s =
    tell state_changed (from_to before after)
      (state_note (change_note before after event context key)) s

-- What `_apply_mapped` and `_apply_sm` do with the machine's result.
unfoldable pub take_result :
    TransitionResult → PumpEvent → Option String → List String → PumpSession → PumpSession
unfolding publish_state_changed
take_result result event key keys s =
    let before = s.machine.current_state in
    let after = result.context.current_state in
    let moved : PumpSession = record s {
      machine = result.context;
      applied_completion_keys = keys;
      state = record s.state { last_state = after };
    } in
    if is_state before after
    then moved
    else publish_state_changed before after event result.context key moved

-- The call `apply(event)`.
abbrev pub event_only : PumpEvent → Input
event_only event = record {
  event = event;
  observation = none;
  observed_at = none;
  selected_nozzle = none;
  active_transaction_id = none;
  raw_wayne_status = none;
  price_verified = none;
  fault_code = none;
  completion_evidence_key = none;
  allow_implicit_authorize_to_filling = false;
}

unfoldable pub apply_sm : PumpEvent → PumpSession → PumpSession
unfolding take_result
apply_sm event s =
    take_result (apply s.machine (event_only event)) event none s.applied_completion_keys s

-- The call of the machine for a mapped observation.
abbrev pub observation_input : MappedWayneObservation → Input
observation_input m = record {
  event = m.event;
  observation = some m.observation;
  observed_at = none;
  selected_nozzle = m.selected_nozzle;
  active_transaction_id = none;
  raw_wayne_status = m.raw_wayne_status;
  price_verified = none;
  fault_code = none;
  completion_evidence_key = m.completion_evidence_key;
  allow_implicit_authorize_to_filling = m.allow_implicit_authorize_to_filling;
}

-- The keys after a result: `truthy_hex` is the truth of a text.
abbrev pub keys_after : Option String → TransitionResult → List String → List String
keys_after none result keys = keys
keys_after (some key) result keys =
    if result.accepted && not result.noop then add_key key keys else keys

-- `_apply_mapped`
unfoldable pub apply_observation : MappedWayneObservation → PumpSession → PumpSession
unfolding take_result
apply_observation m s =
    let result = apply s.machine (observation_input m) in
    if known_key (truthy_hex m.completion_evidence_key) s.applied_completion_keys
    then s
    else take_result result m.event m.completion_evidence_key
        (keys_after (truthy_hex m.completion_evidence_key) result s.applied_completion_keys) s

-- `_set_communication`
unfoldable pub set_communication : CommunicationHealth → PumpSession → PumpSession
unfolding tell
set_communication wanted s =
    let set : PumpSession = record s { state = record s.state { communication = wanted } } in
    if same_health s.state.communication wanted then set else elim wanted [
      | healthy ↦ tell pump_connected no_detail no_payload set
      | disconnected_health ↦ tell pump_disconnected no_detail no_payload set
      | _ ↦ set
    ]

-- `d.get(key)` of the dictionary `body[name]`, if it is one.
abbrev field_of : String → String → Body → Scalar
field_of name key body = elim (lookup name body) [
  | some (dict entries) ↦ elim (lookup key entries) [ some value ↦ value | none ↦ null ]
  | _ ↦ null
]

abbrev pub note_of : ApplicationTransaction → TransactionNote
note_of tx =
    let body = body_or_empty tx.decoded_body in
    record {
      decode_status = tx.decode_status;
      direction = tx.direction;
      transaction_type = tx.transaction_type;
      transaction_id = tx.transaction_id;
      source_frame_ref = tx.source_frame_raw_hex;
      raw_volume = field_of "volume" "raw_scaled" body;
      volume_decimals = field_of "volume" "decimals" body;
      raw_amount = field_of "amount" "raw_scaled" body;
      amount_decimals = field_of "amount" "decimals" body;
      raw_price = field_of "price" "raw_scaled" body;
      price_decimals = field_of "price" "decimals" body;
    }

abbrev pub mapper_context : ApplicationTransaction → PumpContext → MapperContext
mapper_context tx machine = record {
  current_state = some machine.current_state;
  previous_wayne_status = machine.last_raw_wayne_status;
  resolve_as_dc1 = tx.transaction_id == 0x01;
  resolve_as_cd1 = false;
  resolve_as_dc3 = tx.transaction_id == 0x03;
  resolve_as_cd3 = false;
  outstanding_request_was_cd1_status = false;
  bus_direction = some tx.direction;
}

unfoldable pub tell_decoded : ApplicationTransaction → PumpSession → PumpSession
unfolding tell
tell_decoded tx s =
    tell application_transaction_decoded (EventDetail.transaction_type tx.transaction_type)
      (transaction_note (note_of tx)) s

-- The loop of `_decode_and_apply`.
unfoldable pub apply_transactions : List ApplicationTransaction → PumpSession → PumpSession
unfolding apply_observation tell_decoded
apply_transactions [] s = s
apply_transactions (tx ∷ txs) s =
    let told : PumpSession = tell_decoded tx s in
    apply_transactions txs
      (apply_observation (map_wayne_observation tx (mapper_context tx told.machine)) told)

abbrev pub frame_arguments : DartLineFrame → PumpSession → DecodeArguments
frame_arguments fr s = record {
  pump_address = some s.state.address;
  line_sequence = some fr.sequence;
  source_frame_raw_hex = some (hex fr.raw_frame);
  volume_decimals = none;
  amount_decimals = none;
  price_decimals = none;
}

-- `_decode_and_apply`; `none` is an exception of a decoder.
unfoldable pub decode_and_apply : DartLineFrame → PumpSession → Option PumpSession
unfolding apply_transactions
decode_and_apply fr s = elim (decode_data_payload fr.payload (frame_arguments fr s)) [
  | none ↦ none
  | some bundle ↦ some (apply_transactions bundle.transactions s)
]
