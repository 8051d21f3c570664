-- ===== src/Controller/Session/Log.antt =====
-- What a listener on the bus learns of the machine's state.
use intelipump.Pump.Wayne.{map_wayne_observation, MappedWayneObservation}
use intelipump.Controller.Session.Data.{start_if_disconnected}
use intelipump.App.Transaction.{ApplicationTransaction}
use intelipump.Pump.Machine.{truthy_hex, known_key, is_state, apply}
use intelipump.Pump.Context.{TransitionResult}
use intelipump.Controller.Session.Apply.{
  publish_state_changed, tell, take_result, set_communication, change_note, event_only, apply_sm,
  observation_input, keys_after, apply_observation, mapper_context, tell_decoded,
  apply_transactions, note_of,
}
use intelipump.Pump.State.{PumpEvent, PumpState, disconnected, communication_started}
use intelipump.Common.{
  ℕ, String, ◌≡◌, refl, ◌∙◌, inl, inr, Bool, true, false, Option, none, some, List, [], ◌∷◌, ◌++◌,
  ◌==◌, if◌then◌else◌, Bool-cases, arith,
}
use intelipump.Controller.Session.Types.{
  unknown_health, healthy, degraded, disconnected_health, CommunicationHealth, same_health,
  PumpSession,
}
use intelipump.Controller.Events.{
  state_changed, state_note, ControllerEventType, EventDetail, EventPayload, ControllerEvent,
  publish, pump_connected, pump_disconnected, no_detail, no_payload,
  application_transaction_decoded, from_to, StateNote, transaction_note,
}

abbrev same_address : ℕ → Option ℕ → Bool
same_address address none = false
same_address address (some a) = a == address

-- The state that a listener to one address has after an event, and after a log of events.
abbrev pub follow : ℕ → PumpState → ControllerEvent → PumpState
follow address state e =
    if same_address address e.address
    then elim e.type [
      | state_changed ↦ elim e.payload [ state_note note ↦ note.normalized_state | _ ↦ state ]
      | _ ↦ state
    ]
    else state

abbrev pub shown : ℕ → PumpState → List ControllerEvent → PumpState
shown address state [] = state
shown address state (e ∷ es) = shown address (follow address state e) es

shown-snoc :
    (address : ℕ) (state : PumpState) (es : List ControllerEvent) (e : ControllerEvent)
    → shown address state (es ++ e ∷ []) ≡ follow address (shown address state es) e
shown-snoc address state [] e = refl
shown-snoc address state (x ∷ es) e = shown-snoc address (follow address state x) es e

-- The STATE_CHANGED events of the session's address, in order, lead from DISCONNECTED to the state of
-- the machine.
abbrev pub Follows : PumpSession → Type 0
Follows s = shown s.state.address disconnected s.events.events ≡ s.machine.current_state

abbrev is_change : ControllerEventType → Bool
is_change state_changed = true
is_change _ = false

if_same : {A : Type 0} (b : Bool) (x : A) → (if b then x else x) ≡ x
if_same true x = refl
if_same false x = refl

quiet :
    (address : ℕ) (state : PumpState) (e : ControllerEvent)
    → is_change e.type ≡ false
    → follow address state e ≡ state
quiet address state e h = ground (arith, h)

changes :
    (address : ℕ) (state : PumpState) (es : List ControllerEvent) (d : EventDetail)
    (note : StateNote)
    → shown address state (
        es
        ++ record {
          type = state_changed;
          address = some address;
          detail = d;
          payload = state_note note;
        }
          ∷ [])
      ≡ note.normalized_state
changes address state es d note =
    let said : ControllerEvent = record {
      type = state_changed;
      address = some address;
      detail = d;
      payload = state_note note;
    } in
    let same : (address == address) ≡ true = ground arith in
    shown-snoc address state es said ∙ rw same refl

pub tell-Follows :
    (type : ControllerEventType) (d : EventDetail) (p : EventPayload) (s : PumpSession)
    → is_change type ≡ false
    → Follows s
    → Follows (tell type d p s)
unfolding tell publish
tell-Follows type d p s h f =
    let said : ControllerEvent = record {
      type = type;
      address = some s.state.address;
      detail = d;
      payload = p;
    } in
    shown-snoc s.state.address disconnected s.events.events said
    ∙ quiet s.state.address (shown s.state.address disconnected s.events.events) said h
    ∙ f

pub take_result-Follows :
    (r : TransitionResult) (event : PumpEvent) (key : Option String) (keys : List String)
    (s : PumpSession)
    → Follows s
    → Follows (take_result r event key keys s)
unfolding take_result publish_state_changed tell publish
take_result-Follows r event key keys s f =
    elim (Bool-cases (is_state s.machine.current_state r.context.current_state)) [
      | inl e ↦ rw (take_result, e) (f ∙ ground (arith, e))
      | inr e ↦
          rw (take_result, e)
            (changes s.state.address disconnected s.events.events
              (from_to s.machine.current_state r.context.current_state)
              (change_note s.machine.current_state r.context.current_state event r.context key))
    ]

pub set_communication-Follows :
    (wanted : CommunicationHealth) (s : PumpSession)
    → Follows s
    → Follows (set_communication wanted s)
unfolding set_communication
set_communication-Follows wanted s f =
    elim (Bool-cases (same_health s.state.communication wanted)) [
      | inl e ↦ rw (set_communication, e) f
      | inr e ↦ spoken wanted e
    ]
  where
    spoken :
        (h : CommunicationHealth)
        → same_health s.state.communication h ≡ false
        → Follows (set_communication h s)
    spoken unknown_health e = rw (set_communication, e) f
    spoken healthy e =
        rw (set_communication, e)
          (tell-Follows pump_connected no_detail no_payload
            (record s { state = record s.state { communication = healthy } }) refl f)
    spoken degraded e = rw (set_communication, e) f
    spoken disconnected_health e =
        rw (set_communication, e)
          (tell-Follows pump_disconnected no_detail no_payload
            (record s { state = record s.state { communication = disconnected_health } }) refl f)

pub apply_sm-Follows :
    (event : PumpEvent) (s : PumpSession) → Follows s → Follows (apply_sm event s)
unfolding apply_sm
apply_sm-Follows event s f =
    take_result-Follows (apply s.machine (event_only event)) event none s.applied_completion_keys s
      f

pub start-Follows : (s : PumpSession) → Follows s → Follows (start_if_disconnected s)
unfolding start_if_disconnected
start-Follows s f = elim (Bool-cases (is_state s.machine.current_state disconnected)) [
  | inl e ↦ rw (start_if_disconnected, e) (apply_sm-Follows communication_started s f)
  | inr e ↦ rw (start_if_disconnected, e) f
]

observation-Follows :
    (m : MappedWayneObservation) (s : PumpSession) → Follows s → Follows (apply_observation m s)
unfolding apply_observation
observation-Follows m s f =
    elim (Bool-cases (known_key (truthy_hex m.completion_evidence_key) s.applied_completion_keys)) [
      | inl e ↦ rw (apply_observation, e) f
      | inr e ↦
          rw (apply_observation, e)
            (take_result-Follows (apply s.machine (observation_input m)) m.event
              m.completion_evidence_key
              (keys_after (truthy_hex m.completion_evidence_key)
                (apply s.machine (observation_input m)) s.applied_completion_keys)
              s f)
    ]

pub transactions-Follows :
    (txs : List ApplicationTransaction) (s : PumpSession)
    → Follows s
    → Follows (apply_transactions txs s)
unfolding apply_transactions tell_decoded
transactions-Follows [] s f = f
transactions-Follows (tx ∷ txs) s f =
    let told : PumpSession = tell_decoded tx s in
    let m = map_wayne_observation tx (mapper_context tx told.machine) in
    transactions-Follows txs (apply_observation m told) (
      observation-Follows m told (
        tell-Follows application_transaction_decoded
          (EventDetail.transaction_type tx.transaction_type) (transaction_note (note_of tx)) s refl
          f))
