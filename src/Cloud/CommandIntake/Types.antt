-- ===== src/Cloud/CommandIntake/Types.antt =====
-- The data of cloud/command_intake.py, with CloudCommandInbound of cloud/schemas.py. Of a command's
-- environment the code reads only the upper-case text, so that is the field; a time is a number, and the
-- payload of a command is its JSON text. The tables of the database are lists of rows.
use intelipump.Pump.Guards.{Blocking, GuardWarning}
use intelipump.Pump.Context.{PumpContext}
use intelipump.Pump.State.{PumpState}
use intelipump.Common.{ℕ, String, Bool, Option, List}
use intelipump.Controller.Safety.{IdempotencyClass, ControllerSafetyContext}
use intelipump.Controller.Outbound.{OutboundError, OutboundQueue}

pub record CloudCommandInbound : Type 0 where
  pub command_id : String
  pub correlation_id : String
  pub station_id : String
  pub pump_id : String
  pub command_type : String
  pub payload : String
  pub simulator_only : Bool
  pub created_at : ℕ
  pub expires_at : Option ℕ
  pub requested_by : Option String
  pub schema_version : String
  pub environment_upper : String

pub data IntakeReason : Type 0 where
  wrong_station wrong_environment unsupported_schema_version : IntakeReason
  simulator_only_requires_lab expired duplicate_correlation_id : IntakeReason
  duplicate_persisted_command unknown_command_type pump_not_found : IntakeReason
  blocked : Blocking → IntakeReason
  enqueue_failed : OutboundError → IntakeReason

pub data ExecutionStatus : Type 0 where
  not_executed evaluated_only queued failed_to_enqueue rejected_command : ExecutionStatus

-- The attributes of CloudCommandIntake.
pub record CloudCommandIntake : Type 0 where
  pub station_id : String
  pub environment : String
  pub simulated : Bool
  pub allow_lab : Bool
  pub seen : List String
  pub seq : ℕ

-- What the intake reads and changes of the controller loop: the contexts of its sessions by address, its
-- safety context, its outbound queue, and whether its transport is virtual.
pub record LoopView : Type 0 where
  pub sessions : List (ℕ × PumpContext)
  pub safety : ControllerSafetyContext
  pub outbound : OutboundQueue
  pub is_virtual : Bool

pub record PumpRecord : Type 0 where
  pub id : String
  pub logical_pump_id : String
  pub dart_address : ℕ

pub record StateSnapshot : Type 0 where
  pub normalized_state : String
  pub communication_healthy : Bool
  pub state_version : ℕ

pub record CommandRecord : Type 0 where
  pub correlation_id : String
  pub station_id : String
  pub pump_id : Option String
  pub command_type : String
  pub status : ExecutionStatus
  pub idempotency_class : IdempotencyClass
  pub simulator_only : Bool
  pub expires_at : Option ℕ
  pub accepted : Bool
  pub executed : Bool
  pub blocking_reasons : List IntakeReason

pub record CommandAudit : Type 0 where
  pub actor : String
  pub command_type : String
  pub pump_id : Option String
  pub previous_state : Option PumpState
  pub resulting_state : Option PumpState
  pub result : ExecutionStatus
  pub correlation_id : String
  pub blocking_reasons : List IntakeReason
  pub executed : Bool

-- The pumps of the station, the latest snapshot of a pump, the commands and the audit entries.
pub record CommandStore : Type 0 where
  pub pumps : List PumpRecord
  pub latest : String → Option StateSnapshot
  pub commands : List CommandRecord
  pub audit : List CommandAudit

-- The result that is returned, and published when the client is connected. `none` for a state is
-- "UNKNOWN" or None.
pub record CommandResult : Type 0 where
  pub command_id : String
  pub correlation_id : String
  pub accepted : Bool
  pub executed : Bool
  pub execution_status : ExecutionStatus
  pub blocking_reasons : List IntakeReason
  pub warnings : List GuardWarning
  pub current_pump_state : Option PumpState
  pub resulting_state : Option PumpState
  pub environment : String
  pub simulated : Bool
