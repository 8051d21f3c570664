-- ===== src/Controller/Session/Silence.antt =====
-- A pump that does not answer, and one that answers again.
use intelipump.Controller.Session.Data.{start_if_disconnected}
use intelipump.Pump.Machine.Connection.{lost_disconnects, started_discovers}
use intelipump.Controller.Session.Parts.{link-set_communication, link-take_result}
use intelipump.Line.Control.{eot}
use intelipump.Line.Frame.{DartLineFrame}
use intelipump.Controller.Events.{no_payload, consecutive, response_timeout}
use intelipump.Pump.State.{disconnected, discovering, communication_started}
use intelipump.Pump.State.{disconnected, PumpEvent, communication_lost}
use intelipump.Pump.Machine.{is_state, apply}
use intelipump.Controller.Session.{
  on_timeout, count_timeout, handle_response_frame, count_eot, on_eot, receive,
}
use intelipump.Pump.Context.{TransitionResult}
use intelipump.Controller.Session.Apply.{
  event_only, tell, publish_state_changed, set_communication, take_result, apply_sm,
}
use intelipump.Common.{
  ℕ, zero, suc, String, ◌≡◌, refl, inl, inr, Option, List, Bool-cases, ◌+◌, ◌≤◌, ap, ◌∙◌, true,
  false, none, arith, leb, if◌then◌else◌, ◌==◌, ok,
}
use intelipump.Controller.Session.Types.{
  healthy, degraded, disconnected_health, CommunicationHealth, PumpSession, unknown_health,
  same_health,
}

abbrev misses : PumpSession → ℕ
misses s = s.state.consecutive_timeouts

misses-take_result :
    (r : TransitionResult) (event : PumpEvent) (key : Option String) (keys : List String)
    (s : PumpSession)
    → (misses (take_result r event key keys s) ≡ misses s)
      × ((take_result r event key keys s).state.communication ≡ s.state.communication)
unfolding take_result publish_state_changed tell
misses-take_result r event key keys s =
    elim (Bool-cases (is_state s.machine.current_state r.context.current_state)) [
      | inl e ↦ rw (take_result, e) (refl, refl)
      | inr e ↦ rw (take_result, e) (refl, refl)
    ]

misses-set_communication :
    (wanted : CommunicationHealth) (s : PumpSession)
    → misses (set_communication wanted s) ≡ misses s
unfolding set_communication tell
misses-set_communication wanted s = elim (Bool-cases (same_health s.state.communication wanted)) [
  | inl e ↦ rw (set_communication, e) refl
  | inr e ↦ spoken wanted e
]
  where
    spoken :
        (h : CommunicationHealth)
        → same_health s.state.communication h ≡ false
        → misses (set_communication h s) ≡ misses s
    spoken unknown_health e = rw (set_communication, e) refl
    spoken healthy e = rw (set_communication, e) refl
    spoken degraded e = rw (set_communication, e) refl
    spoken disconnected_health e = rw (set_communication, e) refl

-- The session has given its pump up.
abbrev pub IsLost : PumpSession → Type 0
IsLost s = (s.state.communication ≡ disconnected_health) × (s.machine.current_state ≡ disconnected)

timeout-IsLost :
    (max_consecutive : ℕ) (s : PumpSession)
    → (misses (on_timeout max_consecutive s) ≡ misses s + 1)
      × (leb max_consecutive (misses s + 1) ≡ true → IsLost (on_timeout max_consecutive s))
unfolding on_timeout apply_sm tell
timeout-IsLost max_consecutive s =
    let n = misses s + 1 in
    let told : PumpSession = tell response_timeout (consecutive n) no_payload (count_timeout s) in
    let lost : PumpSession = set_communication disconnected_health told in
    let r = apply lost.machine (event_only communication_lost) in
    let (m, c) = misses-take_result r communication_lost none lost.applied_completion_keys lost in
    let (_, a, _) = link-take_result r communication_lost none lost.applied_completion_keys lost in
    let (_, _, _, h) = link-set_communication disconnected_health told in
    elim (Bool-cases (leb max_consecutive n)) [
      | inl e ↦
          rw (on_timeout, e)
            (
              m ∙ misses-set_communication disconnected_health told,
              λ _. (
                c ∙ h,
                ap (λ p. p.0.current_state) a
                    ∙ lost_disconnects lost.machine (event_only communication_lost) refl refl refl,
              ),
            )
      | inr e ↦ (
        elim (Bool-cases (leb 2 n)) [
          | inl b ↦ rw (on_timeout, e, b) (misses-set_communication degraded told)
          | inr b ↦ rw (on_timeout, e, b) refl
        ],
        λ t. absurd (ground (arith, e, t)),
      )
    ]

abbrev pub timeouts : ℕ → ℕ → PumpSession → PumpSession
timeouts zero max_consecutive s = s
timeouts (suc k) max_consecutive s = on_timeout max_consecutive (timeouts k max_consecutive s)

misses-timeouts :
    (k max_consecutive : ℕ) (s : PumpSession) → misses (timeouts k max_consecutive s) ≡ misses s + k
misses-timeouts zero max_consecutive s = omega arith
misses-timeouts (suc k) max_consecutive s =
    (timeout-IsLost max_consecutive (timeouts k max_consecutive s)).0
    ∙ ground (arith, misses-timeouts k max_consecutive s)

-- However the session and its machine stand, timeouts in a row, at least one and as many as the limit
-- with those counted before, leave the communication DISCONNECTED and the machine in DISCONNECTED.
pub silence_disconnects :
    (k max_consecutive : ℕ) (s : PumpSession)
    → max_consecutive ≤ s.state.consecutive_timeouts + suc k
    → IsLost (timeouts (suc k) max_consecutive s)
silence_disconnects k max_consecutive s h =
    (timeout-IsLost max_consecutive (timeouts k max_consecutive s)).1
      (ground (arith, h, misses-timeouts k max_consecutive s))

misses-start :
    (s : PumpSession)
    → (misses (start_if_disconnected s) ≡ misses s)
      × ((start_if_disconnected s).state.communication ≡ s.state.communication)
      × ((start_if_disconnected s).machine.current_state ≡ (
          if is_state s.machine.current_state disconnected
          then discovering
          else s.machine.current_state))
unfolding start_if_disconnected apply_sm
misses-start s =
    let r = apply s.machine (event_only communication_started) in
    let (m, c) = misses-take_result r communication_started none s.applied_completion_keys s in
    let (_, a, _) = link-take_result r communication_started none s.applied_completion_keys s in
    elim (Bool-cases (is_state s.machine.current_state disconnected)) [
      | inl e ↦
          let found =
            started_discovers s.machine (event_only communication_started) refl refl refl
              (ground (arith, e)) in
          rw (start_if_disconnected, e) (m, c, ap (λ p. p.0.current_state) a ∙ found)
      | inr e ↦ rw (start_if_disconnected, e) (refl, refl, refl)
    ]

eot_path :
    (now : ℕ) (fr : DartLineFrame) (s : PumpSession)
    → fr.address ≡ s.state.address
    → fr.control_type ≡ eot
    → handle_response_frame now fr s ≡ (on_eot (receive now fr s), ok none)
unfolding handle_response_frame
eot_path now fr s address type =
    let here : (fr.address == s.state.address) ≡ true = ground (arith, address) in
    simp (handle_response_frame, here, type) refl

-- An EOT of the pump, after whatever silence, makes the communication HEALTHY, forgets the timeouts and
-- brings a machine that was disconnected to DISCOVERING; a machine that was not stays as it is.
pub eot_reconnects :
    (now : ℕ) (fr : DartLineFrame) (s : PumpSession)
    → fr.address ≡ s.state.address
    → fr.control_type ≡ eot
    → ((handle_response_frame now fr s).0.state.communication ≡ healthy)
      × ((handle_response_frame now fr s).0.state.consecutive_timeouts ≡ 0)
      × ((handle_response_frame now fr s).0.machine.current_state ≡ (
          if is_state s.machine.current_state disconnected
          then discovering
          else s.machine.current_state))
unfolding receive on_eot tell
eot_reconnects now fr s address type =
    let counted : PumpSession = count_eot (receive now fr s) in
    let (_, a, _, h) = link-set_communication healthy counted in
    let (m, c, state) = misses-start (set_communication healthy counted) in
    let same = ap (λ p. p.0.current_state) a in
    rw (eot_path now fr s address type) (
      c ∙ h,
      m ∙ misses-set_communication healthy counted,
      state ∙ ap (λ x. if is_state x disconnected then discovering else x) same,
    )
