-- ===== src/Controller/Safety.antt =====
-- controller/safety.py, with OutboundDataItem of controller/session_models.py and ControllerMode of
-- core/config.py. The code reads only `environment.upper()`, so that is the field. A time is a number.
pub mod Gates
pub mod Examples
use intelipump.Common.{
  ℕ, String, Bool, true, false, not, ◌&&◌, ◌||◌, Option, List, [], ◌∷◌, ◌++◌, str_eq, leb,
  if◌then◌else◌, decided,
}
use intelipump.Pump.State.{PumpCommand, read_status, read_totals, is_non_idempotent}

pub data ControllerMode : Type 0 where
  listen_only bench_control field_control locked_out : ControllerMode

pub data IdempotencyClass : Type 0 where
  idempotent non_idempotent : IdempotencyClass

pub record OutboundDataItem : Type 0 where
  pub correlation_id : String
  pub address : ℕ
  pub application_payload : List ℕ
  pub created_at : ℕ
  pub expires_at : ℕ
  pub idempotency : IdempotencyClass
  pub max_retries : ℕ
  pub simulator_only : Bool
  pub command_type : PumpCommand
  pub sequence : Option ℕ
  pub attempts : ℕ

-- `is_expired(now)`
unfoldable pub is_expired : ℕ → OutboundDataItem → Bool
is_expired now item = leb item.expires_at now

pub data SafetyReason : Type 0 where
  controller_locked_out field_control_not_enabled : SafetyReason
  read_requests_must_be_simulator_only simulator_only_requires_lab : SafetyReason
  mode_blocks_reads mode_polling_not_permitted : ControllerMode → SafetyReason
  active_command_blocked : PumpCommand → SafetyReason
  active_command_missing_simulator_only listen_only_blocks_active : SafetyReason
  active_commands_enabled_is_false physical_enable_required : SafetyReason
  non_idempotent_command polling_requires_lab : SafetyReason

pub record SafetyDecision : Type 0 where
  pub allowed : Bool
  pub reasons : List SafetyReason

pub record ControllerSafetyContext : Type 0 where
  pub environment_upper : String
  pub mode : ControllerMode
  pub active_commands_enabled : Bool
  pub require_physical_control_enable : Bool
  pub physical_enable_present : Bool
  pub allow_virtual_polling : Bool
  pub allow_lab_simulator_commands : Bool

-- _READ_COMMANDS
abbrev pub is_read : PumpCommand → Bool
is_read read_status = true
is_read read_totals = true
is_read _ = false

-- `ctx.mode in {LISTEN_ONLY, BENCH_CONTROL}`
abbrev pub listens_or_bench : ControllerMode → Bool
listens_or_bench listen_only = true
listens_or_bench bench_control = true
listens_or_bench _ = false

abbrev is_listen_only : ControllerMode → Bool
is_listen_only listen_only = true
is_listen_only _ = false

abbrev pub is_lab : ControllerSafetyContext → Bool
is_lab ctx = str_eq ctx.environment_upper "LAB"

-- `if test: reasons.append(reason)`
abbrev reason_if : Bool → SafetyReason → List SafetyReason
reason_if true reason = reason ∷ []
reason_if false reason = []

abbrev no_reasons : List SafetyReason → Bool
no_reasons [] = true
no_reasons (r ∷ rs) = false

SafetyReason-discrete : Discrete SafetyReason
SafetyReason-discrete = hlevel

is_seen : SafetyReason → List SafetyReason → Bool
unfolding SafetyReason-discrete
is_seen r [] = false
is_seen r (s ∷ ss) = decided (SafetyReason-discrete r s) || is_seen r ss

-- `dict.fromkeys`: each reason at its first place.
first_places : List SafetyReason → List SafetyReason → List SafetyReason
unfolding is_seen
first_places seen [] = []
first_places seen (r ∷ rs) =
    let again = first_places seen rs in
    let first = r ∷ first_places (r ∷ seen) rs in if is_seen r seen then again else first

read_reasons : OutboundDataItem → ControllerSafetyContext → List SafetyReason
read_reasons item ctx =
    reason_if (not item.simulator_only) read_requests_must_be_simulator_only
    ++ (reason_if (not (is_lab ctx)) simulator_only_requires_lab
        ++ reason_if (not (listens_or_bench ctx.mode)) (mode_blocks_reads ctx.mode))

active_reasons : OutboundDataItem → ControllerSafetyContext → List SafetyReason
unfolding is_non_idempotent
active_reasons item ctx =
    active_command_blocked item.command_type
    ∷ (reason_if (not item.simulator_only) active_command_missing_simulator_only
        ++ (reason_if (not (is_lab ctx)) simulator_only_requires_lab
            ++ (reason_if (is_listen_only ctx.mode) listen_only_blocks_active
                ++ (reason_if (not ctx.active_commands_enabled) active_commands_enabled_is_false
                    ++ (reason_if
                          (ctx.require_physical_control_enable && not ctx.physical_enable_present)
                          physical_enable_required
                        ++ reason_if (is_non_idempotent item.command_type)
                            non_idempotent_command)))))

-- The part after the two modes that block everything.
evaluate_item : OutboundDataItem → ControllerSafetyContext → SafetyDecision
unfolding read_reasons active_reasons first_places
evaluate_item item ctx =
    if is_read item.command_type
    then record { allowed = no_reasons (read_reasons item ctx); reasons = read_reasons item ctx }
    else if ctx.allow_lab_simulator_commands
        && item.simulator_only
        && is_lab ctx
        && listens_or_bench ctx.mode
    then record { allowed = true; reasons = [] }
    else record { allowed = false; reasons = first_places [] (active_reasons item ctx) }

unfoldable pub evaluate_outbound_safety :
    OutboundDataItem → ControllerSafetyContext → SafetyDecision
unfolding evaluate_item
evaluate_outbound_safety item ctx = elim ctx.mode [
  | locked_out ↦ record { allowed = false; reasons = controller_locked_out ∷ [] }
  | field_control ↦ record { allowed = false; reasons = field_control_not_enabled ∷ [] }
  | _ ↦ evaluate_item item ctx
]

pub evaluate_polling_allowed : ControllerSafetyContext → SafetyDecision
evaluate_polling_allowed ctx = elim ctx.mode [
  | locked_out ↦ record { allowed = false; reasons = controller_locked_out ∷ [] }
  | _ ↦
      if not (is_lab ctx) && not ctx.allow_virtual_polling
      then record { allowed = false; reasons = polling_requires_lab ∷ [] }
      else if listens_or_bench ctx.mode && (ctx.allow_virtual_polling || is_lab ctx)
      then record { allowed = true; reasons = [] }
      else record { allowed = false; reasons = mode_polling_not_permitted ctx.mode ∷ [] }
]
