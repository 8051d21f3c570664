-- ===== src/Controller/Session/Types.antt =====
-- The session models of controller/session_models.py, and the attributes of PumpSession. A time is a
-- number, and the set of completion keys a list.
use intelipump.Pump.Context.{PumpContext, new_context}
use intelipump.Simulator.Config.{SequencePolicy}
use intelipump.Controller.Events.{EventBus, SessionError}
use intelipump.Pump.State.{PumpState, disconnected}
use intelipump.Common.{ℕ, String, Bool, true, false, Option, none, List, []}

pub data CommunicationHealth : Type 0 where
  unknown_health healthy degraded disconnected_health : CommunicationHealth

-- `is` on the enumeration.
abbrev pub same_health : CommunicationHealth → CommunicationHealth → Bool
same_health unknown_health unknown_health = true
same_health healthy healthy = true
same_health degraded degraded = true
same_health disconnected_health disconnected_health = true
same_health _ _ = false

pub record PumpSessionStats : Type 0 where
  pub poll_count : ℕ
  pub eot_count : ℕ
  pub data_count : ℕ
  pub ack_sent_count : ℕ
  pub nak_count : ℕ
  pub timeout_count : ℕ
  pub crc_error_count : ℕ
  pub duplicate_count : ℕ
  pub sequence_error_count : ℕ
  pub retry_count : ℕ

pub record PumpSessionState : Type 0 where
  pub address : ℕ
  pub pump_id : String
  pub tx_sequence : ℕ
  pub expected_rx_sequence : ℕ
  pub last_accepted_rx_sequence : Option ℕ
  pub last_poll_at : Option ℕ
  pub last_response_at : Option ℕ
  pub communication : CommunicationHealth
  pub consecutive_timeouts : ℕ
  pub last_valid_frame : Option (List ℕ)
  pub last_raw_frame : Option (List ℕ)
  pub last_error : Option SessionError
  pub pending_ack_for_seq : Option ℕ
  pub last_state : PumpState
  pub stats : PumpSessionStats

pub record PumpSession : Type 0 where
  pub state : PumpSessionState
  pub events : EventBus
  pub sequence_policy : SequencePolicy
  pub machine : PumpContext
  pub applied_completion_keys : List String

abbrev no_stats : PumpSessionStats
no_stats = record {
  poll_count = 0;
  eot_count = 0;
  data_count = 0;
  ack_sent_count = 0;
  nak_count = 0;
  timeout_count = 0;
  crc_error_count = 0;
  duplicate_count = 0;
  sequence_error_count = 0;
  retry_count = 0;
}

-- `PumpSessionState(address, pump_id)`, all else by default.
abbrev new_state : ℕ → String → PumpSessionState
new_state address pump_id = record {
  address = address;
  pump_id = pump_id;
  tx_sequence = 0;
  expected_rx_sequence = 0;
  last_accepted_rx_sequence = none;
  last_poll_at = none;
  last_response_at = none;
  communication = unknown_health;
  consecutive_timeouts = 0;
  last_valid_frame = none;
  last_raw_frame = none;
  last_error = none;
  pending_ack_for_seq = none;
  last_state = disconnected;
  stats = no_stats;
}

-- `PumpSession.__init__`
unfoldable pub new_session : ℕ → String → EventBus → SequencePolicy → PumpSession
new_session address pump_id events policy = record {
  state = new_state address pump_id;
  events = events;
  sequence_policy = policy;
  machine = new_context pump_id address;
  applied_completion_keys = [];
}
