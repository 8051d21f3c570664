-- ===== src/Cloud/CommandIntake/Evaluate.antt =====
-- The first part of `handle_command`: what is wrong with a command, and what the pump's state makes of
-- it.
use intelipump.Pump.Machine.{has_key}
use intelipump.Pump.Guards.{
  not_a_number, evaluate_command_eligibility, CommandEligibilityResult, GuardWarning,
}
use intelipump.Pump.Context.{new_context, PumpContext}
use intelipump.Common.{
  str_eq, ℕ, zero, suc, ◌/◌, ◌%◌, String, Bool, true, false, not, ◌&&◌, ◌||◌, Option, none, some,
  List, [], ◌∷◌, map, ltb, leb, ◌==◌, if◌then◌else◌, is_some, get_or,
}
use intelipump.Cloud.CommandIntake.Types.{
  CloudCommandInbound, IntakeReason, wrong_station, wrong_environment, unsupported_schema_version,
  simulator_only_requires_lab, expired, duplicate_correlation_id, duplicate_persisted_command,
  unknown_command_type, pump_not_found, blocked, CloudCommandIntake, LoopView, PumpRecord,
  StateSnapshot, CommandRecord, CommandStore,
}
use intelipump.Pump.State.{
  disconnected, maintenance, faulted, suspended, filling_complete, filling, authorized, nozzle_up,
  ready, not_programmed, discovering, PumpState, PumpCommand, read_status, read_totals, set_price,
  authorize, stop, suspend, resume, preset_amount, preset_volume,
}
use intelipump.App.Fields.{upper_digits}
use Prim.Native.String.{◌++◌ as str_append}

-- The reasons whose tests hold, in order.
unfoldable pub flagged : List (Bool × IntakeReason) → List IntakeReason
flagged [] = []
flagged (f ∷ fs) = let rest = flagged fs in if f.0 then f.1 ∷ rest else rest

-- `expires <= now`
abbrev pub is_past : ℕ → Option ℕ → Bool
is_past now none = false
is_past now (some t) = leb t now

-- `commands.get`
abbrev pub persisted : String → List CommandRecord → Bool
persisted id [] = false
persisted id (c ∷ cs) = str_eq c.correlation_id id || persisted id cs

-- `PumpCommand(text)`; `none` is the ValueError.
unfoldable pub command_of : String → Option PumpCommand
command_of t =
    if str_eq t "READ_STATUS"
    then some read_status
    else if str_eq t "READ_TOTALS"
    then some read_totals
    else if str_eq t "SET_PRICE"
    then some set_price
    else if str_eq t "RESET"
    then some PumpCommand.reset
    else if str_eq t "AUTHORIZE"
    then some authorize
    else if str_eq t "STOP"
    then some stop
    else if str_eq t "SUSPEND"
    then some suspend
    else if str_eq t "RESUME"
    then some resume
    else if str_eq t "PRESET_AMOUNT"
    then some preset_amount
    else if str_eq t "PRESET_VOLUME"
    then some preset_volume
    else none

-- The tests that need no pump, each with its reason.
unfoldable pub checks :
    ℕ → CloudCommandInbound → CloudCommandIntake → CommandStore → List (Bool × IntakeReason)
unfolding command_of
checks now cmd intake store =
    (not (str_eq cmd.station_id intake.station_id), wrong_station)
    ∷ (not (str_eq cmd.environment_upper intake.environment), wrong_environment)
    ∷ (not (str_eq cmd.schema_version "1.0"), unsupported_schema_version)
    ∷ (not (str_eq intake.environment "LAB") && cmd.simulator_only, simulator_only_requires_lab)
    ∷ (is_past now cmd.expires_at, expired)
    ∷ (has_key cmd.correlation_id intake.seen, duplicate_correlation_id)
    ∷ (persisted cmd.correlation_id store.commands, duplicate_persisted_command)
    ∷ (not (is_some (command_of cmd.command_type)), unknown_command_type)
    ∷ []

unfoldable pub validation_reasons :
    ℕ → CloudCommandInbound → CloudCommandIntake → CommandStore → List IntakeReason
unfolding checks flagged
validation_reasons now cmd intake store = flagged (checks now cmd intake store)

-- `str(n)`, and the loop that makes it; `n + 1` digits are enough.
decimal_within : ℕ → ℕ → String
decimal_within zero n = ""
decimal_within (suc fuel) n =
    let tens = decimal_within fuel (n / 10) in
    let last = get_or upper_digits (n % 10) "" in if ltb n 10 then last else str_append tens last

pub decimal : ℕ → String
unfolding decimal_within
decimal n = decimal_within (suc n) n

-- The first pump that the text names: by its logical id, its id or its address.
pub find_pump : String → List PumpRecord → Option PumpRecord
unfolding decimal
find_pump text [] = none
find_pump text (p ∷ ps) =
    let other = find_pump text ps in
    if str_eq p.logical_pump_id text || str_eq p.id text || str_eq (decimal p.dart_address) text
    then some p
    else other

abbrev session_at : ℕ → List (ℕ × PumpContext) → Option PumpContext
session_at address [] = none
session_at address (e ∷ es) = if e.0 == address then some e.1 else session_at address es

-- `PumpState(text)`, or DISCONNECTED for a text that is none of them.
state_or_disconnected : String → PumpState
state_or_disconnected t =
    if str_eq t "DISCOVERING"
    then discovering
    else if str_eq t "NOT_PROGRAMMED"
    then not_programmed
    else if str_eq t "RESET"
    then PumpState.reset
    else if str_eq t "READY"
    then ready
    else if str_eq t "NOZZLE_UP"
    then nozzle_up
    else if str_eq t "AUTHORIZED"
    then authorized
    else if str_eq t "FILLING"
    then filling
    else if str_eq t "FILLING_COMPLETE"
    then filling_complete
    else if str_eq t "SUSPENDED"
    then suspended
    else if str_eq t "LIMIT_REACHED"
    then PumpState.limit_reached
    else if str_eq t "FAULTED"
    then faulted
    else if str_eq t "MAINTENANCE"
    then maintenance
    else disconnected

-- The context that the latest snapshot gives.
snapshot_context : PumpRecord → Option StateSnapshot → PumpContext
unfolding new_context state_or_disconnected
snapshot_context pump none = new_context pump.logical_pump_id pump.dart_address
snapshot_context pump (some snap) = record (new_context pump.logical_pump_id pump.dart_address) {
  current_state = state_or_disconnected snap.normalized_state;
  communication_healthy = snap.communication_healthy;
  state_version = snap.state_version;
}

-- The context of the loop's session, if there is one.
pub live_context : PumpRecord → Option LoopView → CommandStore → PumpContext
unfolding snapshot_context
live_context pump none store = snapshot_context pump (store.latest pump.id)
live_context pump (some loop) store = elim (session_at pump.dart_address loop.sessions) [
  | some context ↦ context
  | none ↦ snapshot_context pump (store.latest pump.id)
]

pub record Evaluation : Type 0 where
  pub pump_db_id : Option String
  pub context : Option PumpContext
  pub eligible : Bool
  pub current_state : Option PumpState
  pub warnings : List GuardWarning
  pub reasons : List IntakeReason

abbrev pub no_evaluation : List IntakeReason → Evaluation
no_evaluation reasons = record {
  pump_db_id = none;
  context = none;
  eligible = false;
  current_state = none;
  warnings = [];
  reasons = reasons;
}

-- `evaluate_command_eligibility` with both enable flags false and no preset value.
abbrev pub eligibility : PumpCommand → PumpContext → CommandEligibilityResult
eligibility command context =
    evaluate_command_eligibility {V = ℕ} (λ v. not_a_number) command context none false false

-- The evaluation of a command with nothing wrong so far.
unfoldable pub evaluate :
    CloudCommandInbound → PumpCommand → Option LoopView → CommandStore → Evaluation
unfolding find_pump live_context
evaluate cmd command loop store = elim (find_pump cmd.pump_id store.pumps) [
  | none ↦ no_evaluation (pump_not_found ∷ [])
  | some pump ↦
      let context = live_context pump loop store in
      let result = eligibility command context in
      record {
        pump_db_id = some pump.id;
        context = some context;
        eligible = result.eligible;
        current_state = some result.current_state;
        warnings = result.warnings;
        reasons = if result.eligible then [] else map blocked result.blocking_reasons;
      }
]

abbrev pub is_empty : {A : Type 0} → List A → Bool
is_empty [] = true
is_empty (x ∷ xs) = false

-- `if not reasons and command is not None`
unfoldable pub evaluation_of :
    List IntakeReason → CloudCommandInbound → Option LoopView → CommandStore → Evaluation
unfolding evaluate
evaluation_of reasons cmd loop store =
    if is_empty reasons
    then elim (command_of cmd.command_type) [
      | none ↦ no_evaluation reasons
      | some command ↦ evaluate cmd command loop store
    ]
    else no_evaluation reasons
