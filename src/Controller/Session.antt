-- ===== src/Controller/Session.antt =====
-- controller/pump_session.py: one pump's session. An operation returns the session and what the code
-- returns or raises; `now` is what `datetime.now(UTC)` gives for the time that is stored.
mod Types
mod Apply
mod Data
mod Cases
mod Parts
pub mod Acceptance
mod Log
pub mod Run
pub mod Sequence
pub mod Silence
mod Examples
use intelipump.Line.Control.{eot, data_block, nak}
use intelipump.App.Fields.{hex}
use intelipump.Pump.State.{communication_lost}
use intelipump.Line.Frame.{DartLineFrame, build_poll}
use intelipump.Line.Constants.{LineError}
use intelipump.Controller.Events.{
  raw_hex, seq, consecutive, no_payload, nak_received, control, response_timeout, poll_sent,
  address_mismatch, no_detail, frame_received, nak_seq, eot_received, timed_out, SessionError,
  unexpected_control,
}
unfoldable pub use Types.*
unfoldable pub use Apply.*
unfoldable pub use Data.*
use intelipump.Common.{
  leb, ℕ, ◌+◌, Bool, true, false, not, Option, none, List, ◌==◌, if◌then◌else◌, Result, err, some,
  ok,
}

abbrev pub count_poll : ℕ → PumpSession → PumpSession
count_poll now s =
    let st = s.state in
    record s {
      state = record st {
        last_poll_at = some now;
        stats = record st.stats { poll_count = st.stats.poll_count + 1 };
      };
    }

-- `build_poll`
unfoldable pub session_build_poll : ℕ → PumpSession → PumpSession × Result LineError (List ℕ)
unfolding tell
session_build_poll now s =
    (tell poll_sent no_detail no_payload (count_poll now s), build_poll s.state.address)

abbrev pub count_timeout : PumpSession → PumpSession
count_timeout s =
    let st = s.state in
    record s {
      state = record st {
        consecutive_timeouts = st.consecutive_timeouts + 1;
        last_error = some timed_out;
        stats = record st.stats { timeout_count = st.stats.timeout_count + 1 };
      };
    }

unfoldable pub on_timeout : ℕ → PumpSession → PumpSession
unfolding tell set_communication apply_sm
on_timeout max_consecutive s =
    let timeouts = s.state.consecutive_timeouts + 1 in
    let told : PumpSession =
      tell response_timeout (consecutive timeouts) no_payload (count_timeout s) in
    if leb max_consecutive timeouts
    then apply_sm communication_lost (set_communication disconnected_health told)
    else if leb 2 timeouts
    then set_communication degraded told
    else told

abbrev pub count_eot : PumpSession → PumpSession
count_eot s =
    let st = s.state in
    record s {
      state = record st {
        consecutive_timeouts = 0;
        last_valid_frame = st.last_raw_frame;
        stats = record st.stats { eot_count = st.stats.eot_count + 1 };
      };
    }

unfoldable pub on_eot : PumpSession → PumpSession
unfolding tell set_communication start_if_disconnected
on_eot s =
    tell eot_received no_detail no_payload
      (start_if_disconnected (set_communication healthy (count_eot s)))

abbrev pub count_nak : DartLineFrame → PumpSession → PumpSession
count_nak fr s =
    let st = s.state in
    record s {
      state = record st {
        last_error = some (nak_seq fr.sequence);
        stats = record st.stats {
          nak_count = st.stats.nak_count + 1;
          retry_count = st.stats.retry_count + 1;
        };
      };
    }

unfoldable pub on_nak : DartLineFrame → PumpSession → PumpSession
unfolding tell
on_nak fr s = tell nak_received (seq fr.sequence) no_payload (count_nak fr s)

abbrev pub note_frame : ℕ → DartLineFrame → PumpSession → PumpSession
note_frame now fr s = record s {
  state = record s.state { last_raw_frame = some fr.raw_frame; last_response_at = some now };
}

-- The record of a frame that came, of whatever kind.
unfoldable pub receive : ℕ → DartLineFrame → PumpSession → PumpSession
unfolding tell
receive now fr s =
    tell frame_received (control fr.control_type) (raw_hex (hex fr.raw_frame)) (note_frame now fr s)

abbrev with_error : SessionError → PumpSession → PumpSession
with_error e s = record s { state = record s.state { last_error = some e } }

unfoldable pub handle_response_frame : ℕ → DartLineFrame → PumpSession → PumpSession × Reply
unfolding receive on_eot on_data on_nak
handle_response_frame now fr s =
    let heard : PumpSession = receive now fr s in
    if not (fr.address == s.state.address)
    then (with_error address_mismatch heard, ok none)
    else elim fr.control_type [
      | eot ↦ (on_eot heard, ok none)
      | data_block ↦ on_data fr heard
      | nak ↦ (on_nak fr heard, ok none)
      | other ↦ (with_error (unexpected_control other) heard, ok none)
    ]
