-- ===== src/Controller/Session/Data.antt =====
-- `_on_data` of controller/pump_session.py: what a data frame does, branch by branch. An operation
-- returns the session and what the code returns or raises.
use intelipump.Pump.State.{communication_started, disconnected}
use intelipump.Simulator.Config.{next_sequence}
use intelipump.Pump.Machine.{is_state}
use intelipump.Controller.Events.{
  no_payload, rejected, frame_rejected, invalid_crc, seq_mismatch, data_received, ack_sent,
  duplicate_data, seq,
}
use intelipump.Line.Constants.{LineError}
use intelipump.Line.Frame.{DartLineFrame, build_ack}
use intelipump.Controller.Session.Types.{healthy, PumpSession}
use intelipump.Controller.Session.Apply.{apply_sm, set_communication, tell, decode_and_apply}
use intelipump.Common.{
  some, ok, ℕ, ◌+◌, Bool, true, false, not, Option, none, List, ◌==◌, if◌then◌else◌, Result, err,
}

-- What ends a call with an exception.
pub data SessionFailure : Type 0 where
  line_error : LineError → SessionFailure
  decoder_raised : SessionFailure

-- The frame to send, if there is one.
abbrev pub Reply : Type 0
Reply = Result SessionFailure (Option (List ℕ))

-- `_apply_sm(COMMUNICATION_STARTED)` when the machine is disconnected.
unfoldable pub start_if_disconnected : PumpSession → PumpSession
unfolding apply_sm
start_if_disconnected s =
    if is_state s.machine.current_state disconnected then apply_sm communication_started s else s

abbrev pub count_bad_crc : PumpSession → PumpSession
count_bad_crc s =
    let st = s.state in
    record s {
      state = record st {
        last_error = some invalid_crc;
        stats = record st.stats { crc_error_count = st.stats.crc_error_count + 1 };
      };
    }

unfoldable pub on_bad_crc : PumpSession → PumpSession
unfolding tell
on_bad_crc s = tell frame_rejected (rejected invalid_crc) no_payload (count_bad_crc s)

abbrev pub count_ack : PumpSession → PumpSession
count_ack s =
    let st = s.state in
    record s {
      state = record st {
        stats = record st.stats { ack_sent_count = st.stats.ack_sent_count + 1 };
      };
    }

abbrev pub count_duplicate : PumpSession → PumpSession
count_duplicate s =
    let st = s.state in
    record s {
      state = record st {
        stats = record st.stats { duplicate_count = st.stats.duplicate_count + 1 };
      };
    }

unfoldable pub on_duplicate : DartLineFrame → PumpSession → PumpSession × Reply
unfolding tell
on_duplicate fr s = elim (build_ack s.state.address fr.sequence) [
  | err e ↦ (count_duplicate s, err (line_error e))
  | ok ack ↦
      (tell ack_sent duplicate_data no_payload (count_ack (count_duplicate s)), ok (some ack))
]

abbrev pub count_unexpected : DartLineFrame → PumpSession → PumpSession
count_unexpected fr s =
    let st = s.state in
    record s {
      state = record st {
        last_error = some (seq_mismatch st.expected_rx_sequence fr.sequence);
        stats = record st.stats { sequence_error_count = st.stats.sequence_error_count + 1 };
      };
    }

unfoldable pub on_unexpected : DartLineFrame → PumpSession → PumpSession
unfolding tell
on_unexpected fr s =
    let mismatch = seq_mismatch s.state.expected_rx_sequence fr.sequence in
    tell frame_rejected (rejected mismatch) no_payload (count_unexpected fr s)

abbrev pub accept_last : DartLineFrame → PumpSession → PumpSession
accept_last fr s = record s {
  state = record s.state { last_accepted_rx_sequence = some fr.sequence };
}

abbrev pub expect_next : DartLineFrame → ℕ → PumpSession → PumpSession
expect_next fr next s = record (accept_last fr s) {
  state = record (accept_last fr s).state { expected_rx_sequence = next };
}

-- The end of `_on_data` for a frame that was applied.
unfoldable pub acknowledge : DartLineFrame → PumpSession → PumpSession × Reply
unfolding tell
acknowledge fr s = elim (next_sequence fr.sequence s.sequence_policy) [
  | err e ↦ (accept_last fr s, err (line_error e))
  | ok next ↦ elim (build_ack s.state.address fr.sequence) [
    | err e ↦ (expect_next fr next s, err (line_error e))
    | ok wire ↦ (
      tell ack_sent (seq fr.sequence) no_payload
          (tell data_received (seq fr.sequence) no_payload (count_ack (expect_next fr next s))),
      ok (some wire),
    )
  ]
]

abbrev pub count_data : DartLineFrame → PumpSession → PumpSession
count_data fr s =
    let st = s.state in
    record s {
      state = record st {
        consecutive_timeouts = 0;
        last_valid_frame = some fr.raw_frame;
        stats = record st.stats { data_count = st.stats.data_count + 1 };
      };
    }

-- `_on_data` up to the decoding.
unfoldable pub hear_data : DartLineFrame → PumpSession → PumpSession
unfolding set_communication start_if_disconnected
hear_data fr s = start_if_disconnected (set_communication healthy (count_data fr s))

unfoldable pub on_accepted : DartLineFrame → PumpSession → PumpSession × Reply
unfolding hear_data decode_and_apply acknowledge
on_accepted fr s = elim (decode_and_apply fr (hear_data fr s)) [
  | none ↦ (hear_data fr s, err decoder_raised)
  | some applied ↦ acknowledge fr applied
]

-- `crc_valid is False`
abbrev pub crc_failed : DartLineFrame → Bool
crc_failed fr = elim fr.crc_valid [ some false ↦ true | _ ↦ false ]

-- The frame repeats the last one that was accepted.
abbrev pub repeats : DartLineFrame → PumpSession → Bool
repeats fr s = elim s.state.last_accepted_rx_sequence [
  | none ↦ false
  | some last ↦ fr.sequence == last
]

unfoldable pub on_data : DartLineFrame → PumpSession → PumpSession × Reply
unfolding on_bad_crc on_duplicate on_unexpected on_accepted
on_data fr s =
    if crc_failed fr
    then (on_bad_crc s, ok none)
    else if repeats fr s
    then on_duplicate fr s
    else if not (fr.sequence == s.state.expected_rx_sequence)
    then (on_unexpected fr s, ok none)
    else on_accepted fr s
