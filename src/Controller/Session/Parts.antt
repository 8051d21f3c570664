-- ===== src/Controller/Session/Parts.antt =====
-- What the parts of a session's operations leave alone.
use intelipump.App.Decoder.Payload.{decode_payload-Decodes}
use intelipump.Line.Frame.{DartLineFrame}
use intelipump.Pump.State.{communication_started, PumpEvent, disconnected}
use intelipump.App.Transaction.{ApplicationTransaction}
use intelipump.Pump.Wayne.{MappedWayneObservation, map_wayne_observation}
use intelipump.Pump.Machine.{apply, truthy_hex, known_key, is_state}
use intelipump.Simulator.Config.{SequencePolicy}
use intelipump.Pump.Context.{TransitionResult, PumpContext}
use intelipump.Controller.Session.Data.{start_if_disconnected}
use intelipump.Controller.Session.Apply.{
  keys_after, observation_input, event_only, publish_state_changed, tell, apply_sm,
  set_communication, apply_transactions, apply_observation, take_result, mapper_context,
  tell_decoded, frame_arguments, decode_and_apply,
}
use intelipump.Common.{
  ℕ, String, ◌≡◌, refl, sym, ap, ◌∙◌, inl, inr, false, Option, none, List, [], ◌∷◌, if◌then◌else◌,
  Bool-cases, some,
}
use intelipump.Controller.Session.Types.{
  unknown_health, healthy, degraded, disconnected_health, CommunicationHealth, same_health,
  PumpSession,
}

-- The line's part of a session: whom it talks to, and where the sequence stands.
pub record Link : Type 0 where
  pub address : ℕ
  pub expected : ℕ
  pub last_accepted : Option ℕ
  pub policy : SequencePolicy

abbrev pub link : PumpSession → Link
link s = record {
  address = s.state.address;
  expected = s.state.expected_rx_sequence;
  last_accepted = s.state.last_accepted_rx_sequence;
  policy = s.sequence_policy;
}

-- The application's part: the machine, and the completions that were applied.
abbrev pub app : PumpSession → PumpContext × List String
app s = (s.machine, s.applied_completion_keys)

pub link-take_result :
    (r : TransitionResult) (event : PumpEvent) (key : Option String) (keys : List String)
    (s : PumpSession)
    → (link (take_result r event key keys s) ≡ link s)
      × (app (take_result r event key keys s) ≡ (r.context, keys))
      × ((take_result r event key keys s).state.last_state ≡ r.context.current_state)
unfolding take_result publish_state_changed tell
link-take_result r event key keys s =
    elim (Bool-cases (is_state s.machine.current_state r.context.current_state)) [
      | inl e ↦ rw (take_result, e) (refl, refl, refl)
      | inr e ↦ rw (take_result, e) (refl, refl, refl)
    ]

pub link-set_communication :
    (wanted : CommunicationHealth) (s : PumpSession)
    → (link (set_communication wanted s) ≡ link s)
      × (app (set_communication wanted s) ≡ app s)
      × ((set_communication wanted s).state.last_state ≡ s.state.last_state)
      × ((set_communication wanted s).state.communication ≡ wanted)
unfolding set_communication tell
link-set_communication wanted s = elim (Bool-cases (same_health s.state.communication wanted)) [
  | inl e ↦ rw (set_communication, e) (refl, refl, refl, refl)
  | inr e ↦ spoken wanted e
]
  where
    spoken :
        (h : CommunicationHealth)
        → same_health s.state.communication h ≡ false
        → (link (set_communication h s) ≡ link s)
          × (app (set_communication h s) ≡ app s)
          × ((set_communication h s).state.last_state ≡ s.state.last_state)
          × ((set_communication h s).state.communication ≡ h)
    spoken unknown_health e = rw (set_communication, e) (refl, refl, refl, refl)
    spoken healthy e = rw (set_communication, e) (refl, refl, refl, refl)
    spoken degraded e = rw (set_communication, e) (refl, refl, refl, refl)
    spoken disconnected_health e = rw (set_communication, e) (refl, refl, refl, refl)

-- What COMMUNICATION_STARTED makes of a machine that is disconnected.
unfoldable pub started : PumpContext → PumpContext
started machine =
    if is_state machine.current_state disconnected
    then (apply machine (event_only communication_started)).context
    else machine

pub link-start :
    (s : PumpSession)
    → (link (start_if_disconnected s) ≡ link s)
      × (app (start_if_disconnected s) ≡ (started s.machine, s.applied_completion_keys))
      × (s.state.last_state ≡ s.machine.current_state
          → (start_if_disconnected s).state.last_state ≡ (started s.machine).current_state)
unfolding start_if_disconnected apply_sm started
link-start s = elim (Bool-cases (is_state s.machine.current_state disconnected)) [
  | inl e ↦
      let (l, a, m) =
        link-take_result (apply s.machine (event_only communication_started)) communication_started
          none s.applied_completion_keys s in
      rw (start_if_disconnected, started, e) (l, a, λ h. m)
  | inr e ↦ rw (start_if_disconnected, started, e) (refl, refl, λ h. h)
]

pub link-observation :
    (m : MappedWayneObservation) (s : PumpSession)
    → (link (apply_observation m s) ≡ link s)
      × (s.state.last_state ≡ s.machine.current_state
          → (apply_observation m s).state.last_state
            ≡ (apply_observation m s).machine.current_state)
unfolding apply_observation
link-observation m s =
    elim (Bool-cases (known_key (truthy_hex m.completion_evidence_key) s.applied_completion_keys)) [
      | inl e ↦ rw (apply_observation, e) (refl, λ h. h)
      | inr e ↦
          let (l, a, last) =
            link-take_result (apply s.machine (observation_input m)) m.event
              m.completion_evidence_key
              (keys_after (truthy_hex m.completion_evidence_key)
                (apply s.machine (observation_input m)) s.applied_completion_keys)
              s in
          rw (apply_observation, e) (l, λ h. last ∙ sym (ap (λ p. p.0.current_state) a))
    ]

pub link-transactions :
    (txs : List ApplicationTransaction) (s : PumpSession)
    → (link (apply_transactions txs s) ≡ link s)
      × (s.state.last_state ≡ s.machine.current_state
          → (apply_transactions txs s).state.last_state
            ≡ (apply_transactions txs s).machine.current_state)
unfolding apply_transactions tell_decoded tell
link-transactions [] s = (refl, λ h. h)
link-transactions (tx ∷ txs) s =
    let told : PumpSession = tell_decoded tx s in
    let m = map_wayne_observation tx (mapper_context tx told.machine) in
    let (l, same) = link-observation m told in
    let (ls, sames) = link-transactions txs (apply_observation m told) in
    (ls ∙ l, λ h. sames (same h))

-- Decoding raises nothing: the frame's transactions are applied.
pub applied :
    (fr : DartLineFrame) (s : PumpSession)
    → (txs : List ApplicationTransaction) × (decode_and_apply fr s
        ≡ some (apply_transactions txs s))
unfolding decode_and_apply
applied fr s =
    let (bundle, e, _, _, _) = decode_payload-Decodes fr.payload (frame_arguments fr s) in
    (bundle.transactions, rw (decode_and_apply, e) refl)
