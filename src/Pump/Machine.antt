-- ===== src/Pump/Machine.antt =====
-- state_machine/machine.py. `apply` returns the result; the machine's own context afterwards is the
-- context of the result. Each early return of `apply` is a function of its own.
mod Call
pub mod Steps
pub mod Safety
pub mod Frames
pub mod Connection
mod Examples
pub use Call.*
use intelipump.Common.{
  true, none, [], or_keep, ℕ, ◌+◌, String, Bool, false, not, xor, decided, ◌&&◌, ◌||◌, Option, some,
  List, ◌∷◌, ◌++◌, str_eq, ltb, ◌==◌, if◌then◌else◌,
}
use intelipump.Pump.State.{
  fault_cleared, PumpState, disconnected, discovering, ready, nozzle_up, PumpEvent,
  communication_started, communication_lost, reset_observed, filling_started, filling_completed,
  maintenance_exited, unknown_observation, PumpState-discrete, PumpEvent-discrete,
}
use intelipump.Pump.Transitions.{lookup_transition, is_same_state_noop}
use intelipump.Pump.Context.{
  same_state_noop, info, TransitionSeverity, warning, error, ObservationRef, Warning, stale_ignored,
  identical_frame, unknown_preserved, implicit_authorize_rejected, duplicate_evidence_ignored,
  transition_invalid, PumpContext, Reason, stale_observation, duplicate_source_frame,
  duplicate_completion_evidence, unknown_observation_preserved, implicit_authorize_not_supported,
  invalid_transition, transition_applied, TransitionResult,
}

-- A result that keeps the machine's state.
unchanged :
    PumpContext
    → PumpContext
    → Input
    → Bool
    → Reason
    → TransitionSeverity
    → Bool
    → List Warning
    → TransitionResult
unchanged ctx new_ctx i accepted reason severity noop warnings = record {
  accepted = accepted;
  context = new_ctx;
  current_state = ctx.current_state;
  previous_state = ctx.previous_state;
  attempted_event = i.event;
  reason = reason;
  severity = severity;
  noop = noop;
  observation = i.observation;
  warnings = warnings;
}

warn : PumpContext → Warning → PumpContext
warn ctx w = record ctx { warnings = ctx.warnings ++ w ∷ [] }

abbrev at_or_zero : Option ℕ → ℕ
at_or_zero none = 0
at_or_zero (some t) = t

stale_warning : PumpContext → Input → Warning
stale_warning ctx i =
    stale_ignored i.event (at_or_zero i.observed_at) (at_or_zero ctx.last_observation_at)

pub apply_stale : PumpContext → Input → TransitionResult
unfolding unchanged warn stale_warning
apply_stale ctx i =
    unchanged ctx (warn ctx (stale_warning ctx i)) i false stale_observation warning false
      (stale_warning ctx i ∷ [])

-- The warned context, its last observation moved.
seen : PumpContext → Input → Warning → PumpContext
unfolding warn
seen ctx i w = record (warn ctx w) {
  last_observation_at = or_keep i.observed_at ctx.last_observation_at;
}

pub apply_identical : PumpContext → Input → TransitionResult
unfolding unchanged seen
apply_identical ctx i =
    unchanged ctx (seen ctx i identical_frame) i true duplicate_source_frame info true
      (identical_frame ∷ [])

abbrev key_text : Option String → String
key_text none = ""
key_text (some k) = k

pub apply_duplicate : PumpContext → Input → TransitionResult
unfolding unchanged seen
apply_duplicate ctx i =
    let w = duplicate_evidence_ignored (key_text i.completion_evidence_key) in
    unchanged ctx (seen ctx i w) i true duplicate_completion_evidence warning true (w ∷ [])

pub apply_unknown : PumpContext → Input → TransitionResult
unfolding unchanged seen
apply_unknown ctx i =
    let kept = record (seen ctx i unknown_preserved) {
      last_raw_wayne_status = or_keep i.raw_wayne_status ctx.last_raw_wayne_status;
      last_source_frame_hex = or_keep (truthy_hex (hex_of i.observation)) ctx.last_source_frame_hex;
      state_version =
          if differs i.raw_wayne_status ctx.last_raw_wayne_status
          then ctx.state_version + 1
          else ctx.state_version;
    } in
    unchanged ctx kept i true unknown_observation_preserved warning true (unknown_preserved ∷ [])

pub apply_implicit : PumpContext → Input → TransitionResult
unfolding unchanged warn
apply_implicit ctx i =
    unchanged ctx (warn ctx implicit_authorize_rejected) i false implicit_authorize_not_supported
      warning false (implicit_authorize_rejected ∷ [])

-- `meaningful` of `_apply_context_fields`, which `apply` calls with no evidence key.
is_meaningful : PumpContext → Input → Bool
is_meaningful ctx i =
    differs i.selected_nozzle ctx.selected_nozzle
    || text_differs i.active_transaction_id ctx.active_transaction_id
    || differs i.raw_wayne_status ctx.last_raw_wayne_status
    || flag_differs i.price_verified ctx.price_verified
    || differs i.fault_code ctx.fault_code

-- A field that differs is written; one that is equal, or absent, keeps its value.
apply_context_fields : PumpContext → Input → PumpContext
unfolding is_meaningful
apply_context_fields ctx i = record ctx {
  last_observation_at = or_keep i.observed_at ctx.last_observation_at;
  selected_nozzle =
      if differs i.selected_nozzle ctx.selected_nozzle
      then i.selected_nozzle
      else ctx.selected_nozzle;
  active_transaction_id =
      if text_differs i.active_transaction_id ctx.active_transaction_id
      then i.active_transaction_id
      else ctx.active_transaction_id;
  last_raw_wayne_status =
      if differs i.raw_wayne_status ctx.last_raw_wayne_status
      then i.raw_wayne_status
      else ctx.last_raw_wayne_status;
  price_verified =
      if flag_differs i.price_verified ctx.price_verified
      then or_flag i.price_verified ctx.price_verified
      else ctx.price_verified;
  fault_code = if differs i.fault_code ctx.fault_code then i.fault_code else ctx.fault_code;
  last_source_frame_hex = or_keep (truthy_hex (hex_of i.observation)) ctx.last_source_frame_hex;
  state_version = if is_meaningful ctx i then ctx.state_version + 1 else ctx.state_version;
}

-- `communication_healthy` after an event.
abbrev health : PumpEvent → Bool → Bool
health communication_lost old = false
health communication_started old = true
health _ old = old

pub apply_noop : PumpContext → Input → TransitionResult
unfolding unchanged apply_context_fields
apply_noop ctx i =
    let fields = apply_context_fields ctx i in
    let new_ctx = record fields {
      communication_healthy = health i.event fields.communication_healthy;
    } in
    unchanged ctx new_ctx i true same_state_noop info true []

pub apply_invalid : PumpContext → Input → TransitionResult
unfolding unchanged warn
apply_invalid ctx i =
    let w = transition_invalid ctx.current_state i.event in
    unchanged ctx (warn ctx w) i false invalid_transition error false (w ∷ [])

abbrev new_fault : PumpContext → Input → Option ℕ
new_fault ctx i =
    if is_event i.event fault_cleared then none else or_keep i.fault_code ctx.fault_code

abbrev new_keys : PumpEvent → Option String → List String → List String
new_keys filling_completed (some k) keys = add_key k keys
new_keys _ _ keys = keys

-- The targets and the events at which the active transaction is cleared.
clears_target : PumpState → Bool
clears_target PumpState.reset = true
clears_target ready = true
clears_target disconnected = true
clears_target discovering = true
clears_target _ = false

clears_event : PumpEvent → Bool
clears_event reset_observed = true
clears_event communication_lost = true
clears_event fault_cleared = true
clears_event maintenance_exited = true
clears_event _ = false

unfoldable pub apply_transition : PumpContext → Input → PumpState → TransitionResult
unfolding clears_target clears_event
apply_transition ctx i target =
    let new_ctx = record ctx {
      previous_state = some ctx.current_state;
      current_state = target;
      state_version = ctx.state_version + 1;
      last_transition_at = or_keep i.observed_at ctx.last_transition_at;
      last_observation_at = or_keep i.observed_at ctx.last_observation_at;
      communication_healthy = health i.event ctx.communication_healthy;
      selected_nozzle = or_keep i.selected_nozzle ctx.selected_nozzle;
      active_transaction_id =
          if clears_target target && clears_event i.event
          then none
          else or_keep i.active_transaction_id ctx.active_transaction_id;
      last_raw_wayne_status = or_keep i.raw_wayne_status ctx.last_raw_wayne_status;
      price_verified = or_flag i.price_verified ctx.price_verified;
      fault_code = new_fault ctx i;
      completed_evidence_keys =
          new_keys i.event i.completion_evidence_key ctx.completed_evidence_keys;
      last_source_frame_hex = or_keep (truthy_hex (hex_of i.observation)) ctx.last_source_frame_hex;
    } in
    record {
      accepted = true;
      context = new_ctx;
      current_state = target;
      previous_state = some ctx.current_state;
      attempted_event = i.event;
      reason = transition_applied;
      severity = info;
      noop = false;
      observation = i.observation;
      warnings = [];
    }

unfoldable pub apply_lookup : PumpContext → Input → Option PumpState → TransitionResult
apply_lookup ctx i none = apply_invalid ctx i
apply_lookup ctx i (some target) = apply_transition ctx i target

-- The machine: the first early return whose test holds, then the table.
unfoldable pub apply : PumpContext → Input → TransitionResult
apply ctx i =
    if is_before i.observed_at ctx.last_observation_at
    then apply_stale ctx i
    else if same_text (hex_of i.observation) ctx.last_source_frame_hex
    then apply_identical ctx i
    else if is_event i.event filling_completed
        && known_key i.completion_evidence_key ctx.completed_evidence_keys
    then apply_duplicate ctx i
    else if is_event i.event unknown_observation
    then apply_unknown ctx i
    else if is_state ctx.current_state nozzle_up
        && is_event i.event filling_started
        && not i.allow_implicit_authorize_to_filling
    then apply_implicit ctx i
    else if is_same_state_noop ctx.current_state i.event
    then apply_noop ctx i
    else apply_lookup ctx i (lookup_transition ctx.current_state i.event)

-- The context that the machine holds after a sequence of calls.
pub run : PumpContext → List Input → PumpContext
run ctx [] = ctx
run ctx (i ∷ is) = run (apply ctx i).context is

-- The machine's context is replaced whole, whatever it was.
replace_context : PumpContext → PumpContext → PumpContext
replace_context old given = given
