-- ===== src/Cloud/CommandIntake/Dispatch.antt =====
-- The middle part of `handle_command`: the enqueue of a command in the laboratory.
use intelipump.Controller.Outbound.{enqueue}
use intelipump.Pump.Context.{PumpContext}
use intelipump.Controller.Safety.{idempotent, non_idempotent, IdempotencyClass, OutboundDataItem}
use intelipump.Common.{
  str_eq, ℕ, ◌+◌, String, Bool, true, false, ◌&&◌, ◌||◌, Option, none, some, List, [], ◌∷◌, ◌++◌,
  if◌then◌else◌, is_some, Result, ok, err,
}
use intelipump.Cloud.CommandIntake.Types.{
  evaluated_only, CloudCommandInbound, IntakeReason, enqueue_failed, ExecutionStatus, queued,
  failed_to_enqueue, CloudCommandIntake, LoopView,
}
use intelipump.Cloud.CommandIntake.Evaluate.{Evaluation, is_empty}
use intelipump.Simulator.Encoding.{EncodeError, encode_cd1_command}
use intelipump.Pump.State.{read_status, authorize, stop, PumpCommand, is_non_idempotent}

-- _CD1_MAP, with the wire code of the control command.
unfoldable pub cd1_code : PumpCommand → Option ℕ
cd1_code read_status = some 0x00
cd1_code PumpCommand.reset = some 0x05
cd1_code authorize = some 0x06
cd1_code stop = some 0x08
cd1_code _ = none

-- A code of `cd1_code` is a byte, and one byte of data fits a transaction.
abbrev pub bytes_of : Result EncodeError (List ℕ) → List ℕ
bytes_of (ok bytes) = bytes
bytes_of (err e) = []

-- `OutboundDataItem.create`, for 5,000 ms and two retries.
unfoldable pub create_item : ℕ → String → ℕ → PumpCommand → ℕ → IdempotencyClass → OutboundDataItem
unfolding encode_cd1_command
create_item now item_id address command code idempotency = record {
  correlation_id = item_id;
  address = address;
  application_payload = bytes_of (encode_cd1_command code);
  created_at = now;
  expires_at = now + 5000;
  idempotency = idempotency;
  max_retries = 2;
  simulator_only = true;
  command_type = command;
  sequence = none;
  attempts = 0;
}

-- The conditions of the laboratory that both branches test.
abbrev pub in_lab : CloudCommandInbound → CloudCommandIntake → Option LoopView → Bool
in_lab cmd intake none = false
in_lab cmd intake (some loop) =
    str_eq intake.environment "LAB" && cmd.simulator_only && intake.allow_lab && loop.is_virtual

pub record Dispatched : Type 0 where
  pub loop : Option LoopView
  pub reasons : List IntakeReason
  pub status : ExecutionStatus
  pub executed : Bool

abbrev pub evaluated : Option LoopView → List IntakeReason → Dispatched
evaluated loop reasons = record {
  loop = loop;
  reasons = reasons;
  status = evaluated_only;
  executed = false;
}

-- The enqueue under the safety context that allows laboratory commands, with its exceptions.
unfoldable pub try_enqueue : ℕ → OutboundDataItem → LoopView → List IntakeReason → Dispatched
try_enqueue now item loop reasons =
    elim (enqueue now item (record loop.safety { allow_lab_simulator_commands = true })
      loop.outbound) [
        | ok q ↦ record {
          loop = some (record loop { outbound = q });
          reasons = reasons;
          status = queued;
          executed = true;
        }
        | err e ↦ record {
          loop = some loop;
          reasons = reasons ++ enqueue_failed e ∷ [];
          status = failed_to_enqueue;
          executed = false;
        }
      ]

abbrev pub address_or_1 : Option PumpContext → ℕ
address_or_1 none = 1
address_or_1 (some context) = context.dart_address

abbrev pub class_of : PumpCommand → IdempotencyClass
class_of command = if is_non_idempotent command then non_idempotent else idempotent

-- Whether the command goes on to the queue, and the call that puts it there.
unfoldable pub dispatch :
    ℕ
    → String
    → CloudCommandInbound
    → CloudCommandIntake
    → Option LoopView
    → Option PumpCommand
    → Evaluation
    → Dispatched
unfolding try_enqueue create_item cd1_code
dispatch now item_id cmd intake none command e = evaluated none e.reasons
dispatch now item_id cmd intake (some loop) none e = evaluated (some loop) e.reasons
dispatch now item_id cmd intake (some loop) (some command) e = elim (cd1_code command) [
  | none ↦ evaluated (some loop) e.reasons
  | some code ↦
      if in_lab cmd intake (some loop)
        && is_empty e.reasons
        && (is_non_idempotent command || is_some e.context)
      then try_enqueue now
          (create_item now item_id (address_or_1 e.context) command code (class_of command)) loop
          e.reasons
      else evaluated (some loop) e.reasons
]
