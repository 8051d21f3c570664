-- ===== src/Controller/Session/Run.antt =====
-- Whole runs of a session: any sequence of polls, timeouts and responses.
use intelipump.Pump.State.{communication_lost}
use intelipump.App.Fields.{hex}
use intelipump.Controller.Session.Cases.{on_data_cases, handle_cases}
use intelipump.Controller.Events.{
  data_received, no_payload, seq, duplicate_data, ack_sent, frame_received, frame_rejected,
  eot_received, nak_received, response_timeout, invalid_crc, seq_mismatch, no_detail, consecutive,
  control, rejected, raw_hex, poll_sent,
}
use intelipump.Controller.Session.Apply.{apply_transactions, set_communication, tell}
use intelipump.Controller.Session.Parts.{applied}
use intelipump.Simulator.Config.{next_sequence}
use intelipump.Controller.Session.Log.{
  transactions-Follows, set_communication-Follows, tell-Follows, start-Follows, Follows,
  apply_sm-Follows,
}
use intelipump.Controller.Session.{
  on_nak, handle_response_frame, on_eot, receive, on_timeout, session_build_poll, count_timeout,
  count_eot, count_nak, note_frame, count_poll,
}
use intelipump.Line.Frame.{build_ack, DartLineFrame}
use intelipump.Controller.Session.Data.{
  count_data, on_unexpected, on_bad_crc, hear_data, on_duplicate, on_accepted, acknowledge,
  start_if_disconnected, count_bad_crc, count_ack, count_duplicate, count_unexpected, expect_next,
}
use intelipump.Common.{ℕ, refl, inl, inr, List, [], ◌∷◌, Result-cases, ◌+◌, leb, Bool-cases}
use intelipump.Controller.Session.Types.{healthy, degraded, disconnected_health, PumpSession}

pub data SessionCall : Type 0 where
  polled : ℕ → SessionCall
  timed_out_after : ℕ → SessionCall
  responded : ℕ → DartLineFrame → SessionCall

abbrev pub call : SessionCall → PumpSession → PumpSession
call (polled now) s = (session_build_poll now s).0
call (timed_out_after max_consecutive) s = on_timeout max_consecutive s
call (responded now fr) s = (handle_response_frame now fr s).0

abbrev pub calls : List SessionCall → PumpSession → PumpSession
calls [] s = s
calls (c ∷ cs) s = calls cs (call c s)

timeout-Follows :
    (max_consecutive : ℕ) (s : PumpSession) → Follows s → Follows (on_timeout max_consecutive s)
unfolding on_timeout
timeout-Follows max_consecutive s f =
    let n = s.state.consecutive_timeouts + 1 in
    let told : PumpSession = tell response_timeout (consecutive n) no_payload (count_timeout s) in
    let h : Follows told =
      tell-Follows response_timeout (consecutive n) no_payload (count_timeout s) refl f in
    elim (Bool-cases (leb max_consecutive n)) [
      | inl a ↦
          rw (on_timeout, a)
            (apply_sm-Follows communication_lost (set_communication disconnected_health told)
              (set_communication-Follows disconnected_health told h))
      | inr a ↦ elim (Bool-cases (leb 2 n)) [
        | inl b ↦ rw (on_timeout, a, b) (set_communication-Follows degraded told h)
        | inr b ↦ rw (on_timeout, a, b) h
      ]
    ]

eot-Follows : (s : PumpSession) → Follows s → Follows (on_eot s)
unfolding on_eot
eot-Follows s f =
    let linked : PumpSession = set_communication healthy (count_eot s) in
    tell-Follows eot_received no_detail no_payload (start_if_disconnected linked) refl
      (start-Follows linked (set_communication-Follows healthy (count_eot s) f))

acknowledge-Follows :
    (fr : DartLineFrame) (s : PumpSession) → Follows s → Follows (acknowledge fr s).0
unfolding acknowledge
acknowledge-Follows fr s f = elim (Result-cases (next_sequence fr.sequence s.sequence_policy)) [
  | inr (x, e) ↦ rw (acknowledge, e) f
  | inl (n, e) ↦ elim (Result-cases (build_ack s.state.address fr.sequence)) [
    | inr (x, g) ↦ rw (acknowledge, e, g) f
    | inl (wire, g) ↦
        rw (acknowledge, e, g)
          (tell-Follows ack_sent (seq fr.sequence) no_payload
            (tell data_received (seq fr.sequence) no_payload (count_ack (expect_next fr n s))) refl
            (tell-Follows data_received (seq fr.sequence) no_payload
              (count_ack (expect_next fr n s)) refl f))
  ]
]

accepted-Follows : (fr : DartLineFrame) (s : PumpSession) → Follows s → Follows (on_accepted fr s).0
unfolding on_accepted hear_data
accepted-Follows fr s f =
    let (txs, e) = applied fr (hear_data fr s) in
    let heard =
      start-Follows (set_communication healthy (count_data fr s))
        (set_communication-Follows healthy (count_data fr s) f) in
    rw (on_accepted, e)
      (acknowledge-Follows fr (apply_transactions txs (hear_data fr s))
        (transactions-Follows txs (hear_data fr s) heard))

duplicate-Follows :
    (fr : DartLineFrame) (s : PumpSession) → Follows s → Follows (on_duplicate fr s).0
unfolding on_duplicate
duplicate-Follows fr s f = elim (Result-cases (build_ack s.state.address fr.sequence)) [
  | inr (x, e) ↦ rw (on_duplicate, e) f
  | inl (wire, e) ↦
      rw (on_duplicate, e)
        (tell-Follows ack_sent duplicate_data no_payload (count_ack (count_duplicate s)) refl f)
]

response-Follows :
    (now : ℕ) (fr : DartLineFrame) (s : PumpSession)
    → Follows s
    → Follows (handle_response_frame now fr s).0
unfolding receive on_nak on_bad_crc on_unexpected
response-Follows now fr s f =
    let heard : Follows (receive now fr s) =
      tell-Follows frame_received (control fr.control_type) (raw_hex (hex fr.raw_frame))
        (note_frame now fr s) refl f in
    let r : PumpSession = receive now fr s in
    handle_cases (λ r. Follows r.0) now fr s (λ e. heard) (λ e. eot-Follows r heard)
      (λ e. tell-Follows nak_received (seq fr.sequence) no_payload (count_nak fr r) refl heard)
      (λ a e.
        on_data_cases (λ r. Follows r.0) fr (receive now fr s)
          (λ bad.
            tell-Follows frame_rejected (rejected invalid_crc) no_payload (count_bad_crc r) refl
              heard)
          (λ fine again. duplicate-Follows fr (receive now fr s) heard)
          (tell-Follows frame_rejected
            (rejected (seq_mismatch r.state.expected_rx_sequence fr.sequence)) no_payload
            (count_unexpected fr r) refl heard)
          (λ fine new next. accepted-Follows fr (receive now fr s) heard))

call-Follows : (c : SessionCall) (s : PumpSession) → Follows s → Follows (call c s)
unfolding session_build_poll
call-Follows (polled now) s f =
    tell-Follows poll_sent no_detail no_payload (count_poll now s) refl f
call-Follows (timed_out_after n) s f = timeout-Follows n s f
call-Follows (responded now fr) s f = response-Follows now fr s f

-- In every run of polls, timeouts and responses of whatever frames, a listener that folds the
-- STATE_CHANGED events of the session's address has the state of the machine, if it had it at the start.
pub calls-Follows : (cs : List SessionCall) (s : PumpSession) → Follows s → Follows (calls cs s)
calls-Follows [] s f = f
calls-Follows (c ∷ cs) s f = calls-Follows cs (call c s) (call-Follows c s f)
