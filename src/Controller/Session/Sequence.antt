-- ===== src/Controller/Session/Sequence.antt =====
-- The sequence numbers of a session over whole runs.
use intelipump.Pump.State.{communication_lost}
use intelipump.Line.Constants.{LineError}
use intelipump.Pump.Machine.{apply}
use intelipump.Controller.Session.Acceptance.{next_is_answered, unaccepted-Stands, accepts}
use intelipump.Simulator.Config.{next_sequence-fits, SequencePolicy, next_sequence}
use intelipump.Controller.Events.{EventBus, response_timeout, consecutive, no_payload}
use intelipump.Controller.Session.Apply.{tell, event_only, apply_sm, set_communication}
use intelipump.Controller.Session.Run.{timed_out_after, calls, polled, call, responded, SessionCall}
use intelipump.Controller.Session.Parts.{Link, link, link-take_result, link-set_communication}
use intelipump.Line.Frame.{DartLineFrame}
use intelipump.Controller.Session.{
  handle_response_frame, on_timeout, session_build_poll, count_timeout,
}
use intelipump.Common.{
  ℕ, ◌<◌, String, ◌≡◌, refl, sym, ◌≢◌, ◌⊎◌, inl, inr, none, some, List, [], ◌∷◌, subst, Bool-cases,
  All, ok, ◌+◌, ap, ◌∙◌, leb, err, Result,
}
use intelipump.Controller.Session.Types.{degraded, disconnected_health, PumpSession, new_session}

-- The frame's number has four bits.
abbrev pub Narrow : SessionCall → Type 0
Narrow (responded now fr) = fr.sequence < 16
Narrow _ = Unit {0}

-- The session expects the number that follows the last that it accepted, and that is another number.
abbrev pub InStep : Link → Type 0
InStep l =
    (l.address < 256)
    × ((l.last_accepted ≡ none)
        ⊎ ((n : ℕ) × (l.last_accepted ≡ some n)
            × (next_sequence n l.policy ≡ ok l.expected)
            × (l.expected ≢ n)))

ok_same : {m n : ℕ} → ◌≡◌ {A = Result LineError ℕ} (ok m) (ok n) → m ≡ n
ok_same {m} e = ap (λ r. elim r [ ok k ↦ k | err x ↦ m ]) e

response-InStep :
    (now : ℕ) (fr : DartLineFrame) (s : PumpSession)
    → fr.sequence < 16
    → InStep (link s)
    → InStep (link (handle_response_frame now fr s).0)
response-InStep now fr s small h = elim (Bool-cases (accepts fr s)) [
  | inr e ↦ elim (unaccepted-Stands now fr s e) [
    | inl (l, _) ↦ subst InStep (sym l) h
    | inr (_, (l, _)) ↦ subst InStep (sym l) h
  ]
  | inl e ↦
      let (n, follows, _, _, _, moved) = next_is_answered now fr s e small h.0 in
      let (m, g, _, other) = next_sequence-fits fr.sequence s.sequence_policy small in
      subst InStep (sym moved)
        (h.0, inr (fr.sequence, refl, follows, λ same. other (ok_same (sym g ∙ follows) ∙ same)))
]

timeout-link : (n : ℕ) (s : PumpSession) → link (on_timeout n s) ≡ link s
unfolding on_timeout tell apply_sm
timeout-link n s =
    let k = s.state.consecutive_timeouts + 1 in
    let told : PumpSession = tell response_timeout (consecutive k) no_payload (count_timeout s) in
    let lost : PumpSession = set_communication disconnected_health told in
    elim (Bool-cases (leb n k)) [
      | inl a ↦
          rw (on_timeout, a)
            ((link-take_result (apply lost.machine (event_only communication_lost))
                communication_lost none lost.applied_completion_keys lost).0
              ∙ (link-set_communication disconnected_health told).0)
      | inr a ↦ elim (Bool-cases (leb 2 k)) [
        | inl b ↦ rw (on_timeout, a, b) (link-set_communication degraded told).0
        | inr b ↦ rw (on_timeout, a, b) refl
      ]
    ]

call-InStep :
    (c : SessionCall) (s : PumpSession) → Narrow c → InStep (link s) → InStep (link (call c s))
unfolding session_build_poll tell
call-InStep (polled now) s small h = h
call-InStep (timed_out_after n) s small h = subst InStep (sym (timeout-link n s)) h
call-InStep (responded now fr) s small h = response-InStep now fr s small h

-- In every run from a new session of an address of one byte, whatever polls, timeouts and responses it
-- has, the number that is expected is the one that follows the last accepted number by the policy, and
-- it differs from it: no frame can both be a duplicate and be expected.
pub calls-InStep :
    (cs : List SessionCall) (address : ℕ) (pump_id : String) (bus : EventBus)
    (policy : SequencePolicy)
    → address < 256
    → All Narrow cs
    → InStep (link (calls cs (new_session address pump_id bus policy)))
unfolding new_session
calls-InStep cs address pump_id bus policy byte narrow =
    go cs (new_session address pump_id bus policy) narrow (byte, inl refl)
  where
    go :
        (rest : List SessionCall) (s : PumpSession)
        → All Narrow rest
        → InStep (link s)
        → InStep (link (calls rest s))
    go [] s n h = h
    go (c ∷ rest) s n h = go rest (call c s) n.1 (call-InStep c s n.0 h)
