-- ===== src/Cloud/CommandIntake.antt =====
-- cloud/command_intake.py: what `handle_command` does with one command. The database and the broker are
-- lists of rows and a flag that says whether the client is connected; `now` is what the clock gives in
-- the call, and `item_id` what uuid4 gives.
mod Types
mod Evaluate
mod Dispatch
pub mod Safety
pub mod Once
mod Examples
use intelipump.Controller.Outbound.{enqueue}
use intelipump.Controller.Safety.{idempotent, non_idempotent, IdempotencyClass, OutboundDataItem}
use intelipump.Pump.State.{is_non_idempotent, PumpCommand}
use intelipump.Pump.Machine.{add_key}
use intelipump.Pump.Context.{PumpContext}
pub use Types.*
unfoldable pub use Evaluate.*
unfoldable pub use Dispatch.*
use intelipump.Cloud.CommandIntake.Types.{
  simulator_only_requires_lab, CloudCommandInbound, IntakeReason, wrong_station, expired,
  duplicate_correlation_id, duplicate_persisted_command, blocked, enqueue_failed, ExecutionStatus,
  evaluated_only, queued, rejected_command, CloudCommandIntake, LoopView, CommandRecord,
  CommandAudit, CommandStore, CommandResult,
}
use intelipump.Common.{
  ℕ, ◌+◌, String, Bool, true, false, not, ◌&&◌, ◌||◌, Option, none, some, List, [], ◌∷◌, ◌++◌,
  str_eq, if◌then◌else◌, or_keep,
}

abbrev pub any_reason : (IntakeReason → Bool) → List IntakeReason → Bool
any_reason p [] = false
any_reason p (r ∷ rs) = p r || any_reason p rs

-- The reasons of the stricter test.
abbrev pub is_rejecting : IntakeReason → Bool
is_rejecting simulator_only_requires_lab = false
is_rejecting (blocked b) = false
is_rejecting (enqueue_failed e) = false
is_rejecting _ = true

-- The reasons that `accepted` tests before it.
abbrev is_refusing : IntakeReason → Bool
is_refusing expired = true
is_refusing wrong_station = true
is_refusing duplicate_correlation_id = true
is_refusing duplicate_persisted_command = true
is_refusing _ = false

abbrev is_open : ExecutionStatus → Bool
is_open queued = true
is_open evaluated_only = true
is_open _ = false

pub accepted_before : Bool → Dispatched → Bool
accepted_before eligible d =
    is_empty d.reasons || eligible && is_open d.status && not (any_reason is_refusing d.reasons)

pub is_rejected : Dispatched → Bool
is_rejected d = any_reason is_rejecting d.reasons

abbrev pub result_status : Dispatched → ExecutionStatus
result_status d = if any_reason is_rejecting d.reasons then rejected_command else d.status

unfoldable pub result_of :
    CloudCommandInbound → CloudCommandIntake → Evaluation → Dispatched → CommandResult
unfolding accepted_before is_rejected
result_of cmd intake e d = record {
  command_id = cmd.command_id;
  correlation_id = cmd.correlation_id;
  accepted = not (is_rejected d) && accepted_before e.eligible d;
  executed = d.executed;
  execution_status = result_status d;
  blocking_reasons = d.reasons;
  warnings = e.warnings;
  current_pump_state = e.current_state;
  resulting_state = if d.executed then e.current_state else none;
  environment = intake.environment;
  simulated = intake.simulated || cmd.simulator_only;
}

abbrev command_class : Option PumpCommand → IdempotencyClass
command_class none = idempotent
command_class (some command) = class_of command

-- The row of the command, unless there is one, and the audit entry.
unfoldable pub record_command :
    CloudCommandInbound
    → CloudCommandIntake
    → Evaluation
    → CommandResult
    → CommandStore
    → CommandStore
record_command cmd intake e r store =
    let row : CommandRecord = record {
      correlation_id = cmd.correlation_id;
      station_id = intake.station_id;
      pump_id = e.pump_db_id;
      command_type = cmd.command_type;
      status = r.execution_status;
      idempotency_class = command_class (command_of cmd.command_type);
      simulator_only = cmd.simulator_only;
      expires_at = cmd.expires_at;
      accepted = r.accepted;
      executed = r.executed;
      blocking_reasons = r.blocking_reasons;
    } in
    let entry : CommandAudit = record {
      actor = (elim cmd.requested_by [
        | none ↦ "cloud"
        | some by ↦ if str_eq by "" then "cloud" else by
      ]);
      command_type = cmd.command_type;
      pump_id = e.pump_db_id;
      previous_state = e.current_state;
      resulting_state = or_keep r.resulting_state e.current_state;
      result = r.execution_status;
      correlation_id = cmd.correlation_id;
      blocking_reasons = r.blocking_reasons;
      executed = r.executed;
    } in
    record store {
      commands =
          if persisted cmd.correlation_id store.commands
          then store.commands
          else store.commands ++ row ∷ [];
      audit = store.audit ++ entry ∷ [];
    }

pub record Handled : Type 0 where
  pub intake : CloudCommandIntake
  pub loop : Option LoopView
  pub store : CommandStore
  pub result : CommandResult
  pub published : Option CommandResult

unfoldable pub handle_command :
    ℕ
    → String
    → Bool
    → CloudCommandInbound
    → CloudCommandIntake
    → Option LoopView
    → CommandStore
    → Handled
unfolding validation_reasons evaluation_of dispatch result_of record_command
handle_command now item_id is_connected cmd intake loop store =
    let reasons = validation_reasons now cmd intake store in
    let e = evaluation_of reasons cmd loop store in
    let d = dispatch now item_id cmd intake loop (command_of cmd.command_type) e in
    let r = result_of cmd intake e d in
    record {
      intake = record intake {
        seen = add_key cmd.correlation_id intake.seen;
        seq = intake.seq + 1;
      };
      loop = d.loop;
      store = record_command cmd intake e r store;
      result = r;
      published = if is_connected then some r else none;
    }
