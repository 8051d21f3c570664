-- ===== src/Controller/Events.antt =====
-- controller/session_events.py. A subscriber is a callback from outside: a number stands for the object
-- that was given, whose identity `is` compares, and another for what it calls. Two bound methods of one
-- instance are two objects with one target. `delivered` is what the targets were called with, in order. The time of an event is left out, and
-- a text is the constructor that stands for it, with the values that it quotes.
pub mod Delivery
mod Examples
use intelipump.Common.{
  ℕ, String, Bool, Option, List, [], ◌∷◌, ◌++◌, map, ◌==◌, if◌then◌else◌, decided,
}
use intelipump.App.Transaction.{MessageDirection, DecodeStatus, TransactionType, Scalar}
use intelipump.Line.Control.{ControlType}
use intelipump.Pump.State.{PumpState, PumpEvent}

pub data ControllerEventType : Type 0 where
  frame_sent frame_received frame_rejected poll_sent data_received : ControllerEventType
  eot_received ack_sent nak_received response_timeout pump_connected : ControllerEventType
  pump_disconnected state_changed application_transaction_decoded : ControllerEventType

unfoldable pub ControllerEventType-discrete : Discrete ControllerEventType
ControllerEventType-discrete = hlevel

abbrev is_type : ControllerEventType → ControllerEventType → Bool
is_type a b = decided (ControllerEventType-discrete a b)

-- The texts of `last_error`, some of which are the detail of an event too.
pub data SessionError : Type 0 where
  timed_out address_mismatch invalid_crc : SessionError
  unexpected_control : ControlType → SessionError
  nak_seq : ℕ → SessionError
  seq_mismatch : ℕ → ℕ → SessionError

pub data EventDetail : Type 0 where
  no_detail duplicate_data : EventDetail
  consecutive seq : ℕ → EventDetail
  control : ControlType → EventDetail
  rejected : SessionError → EventDetail
  transaction_type : TransactionType → EventDetail
  from_to : PumpState → PumpState → EventDetail

-- The payload of APPLICATION_TRANSACTION_DECODED, and that of STATE_CHANGED.
pub record TransactionNote : Type 0 where
  pub decode_status : DecodeStatus
  pub direction : MessageDirection
  pub transaction_type : TransactionType
  pub transaction_id : ℕ
  pub source_frame_ref : Option String
  pub raw_volume : Scalar
  pub volume_decimals : Scalar
  pub raw_amount : Scalar
  pub amount_decimals : Scalar
  pub raw_price : Scalar
  pub price_decimals : Scalar

pub record StateNote : Type 0 where
  pub event : PumpEvent
  pub previous_state : PumpState
  pub normalized_state : PumpState
  pub state_version : ℕ
  pub selected_nozzle : Option ℕ
  pub active_transaction_id : Option String
  pub communication_healthy : Bool
  pub raw_wayne_status : Option ℕ
  pub source_frame_ref : Option String
  pub completion_evidence_key : Option String

pub data EventPayload : Type 0 where
  no_payload : EventPayload
  raw_hex : String → EventPayload
  transaction_note : TransactionNote → EventPayload
  state_note : StateNote → EventPayload

pub record ControllerEvent : Type 0 where
  pub type : ControllerEventType
  pub address : Option ℕ
  pub detail : EventDetail
  pub payload : EventPayload

pub record EventSubscriber : Type 0 where
  pub identity : ℕ
  pub target : ℕ

pub record EventBus : Type 0 where
  pub events : List ControllerEvent
  pub subscribers : List EventSubscriber
  pub delivered : List (ℕ × ControllerEvent)

abbrev pub new_bus : EventBus
new_bus = record { events = []; subscribers = []; delivered = [] }

unfoldable pub add_subscriber : EventSubscriber → EventBus → EventBus
add_subscriber subscriber bus = record bus { subscribers = bus.subscribers ++ subscriber ∷ [] }

-- `[s for s in subscribers if s is not subscriber]`
abbrev pub without : EventSubscriber → List EventSubscriber → List EventSubscriber
without subscriber [] = []
without subscriber (s ∷ rest) =
    let others = without subscriber rest in
    if s.identity == subscriber.identity then others else s ∷ others

unfoldable pub remove_subscriber : EventSubscriber → EventBus → EventBus
remove_subscriber subscriber bus = record bus { subscribers = without subscriber bus.subscribers }

unfoldable pub publish : ControllerEvent → EventBus → EventBus
publish event bus = record bus {
  events = bus.events ++ event ∷ [];
  delivered = bus.delivered ++ map (λ subscriber. (subscriber.target, event)) bus.subscribers;
}

unfoldable pub clear : EventBus → EventBus
clear bus = record bus { events = [] }

abbrev typed : ControllerEventType → List ControllerEvent → List ControllerEvent
typed type [] = []
typed type (e ∷ es) = if is_type e.type type then e ∷ typed type es else typed type es

unfoldable pub of_type : ControllerEventType → EventBus → List ControllerEvent
of_type type bus = typed type bus.events
