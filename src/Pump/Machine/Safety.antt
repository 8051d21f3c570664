-- ===== src/Pump/Machine/Safety.antt =====
-- What holds over whole sequences of calls.
use intelipump.Common.{
  String, ◌≡◌, ◌≢◌, ◌⊎◌, true, false, not, ◌&&◌, Option, List, [], ◌∷◌, All, inl, inr, Bool, none,
  some, arith, eq_iff, Bool-cases, refl,
}
use intelipump.Pump.State.{
  PumpState, nozzle_up, authorized, filling, PumpEvent, authorization_confirmed, filling_started,
  communication_lost, reset_observed, filling_completed, fault_cleared, maintenance_exited,
}
use intelipump.Pump.Transitions.Reach.{is_dispensing, sale_needs}
use intelipump.Pump.Context.{PumpContext, transition_applied, TransitionResult}
use intelipump.Pump.Machine.{
  new_keys, apply_stale, apply_identical, apply_duplicate, apply_unknown, apply_implicit,
  apply_noop, apply_invalid, apply_transition, Input, is_event, is_state, has_key, apply, run,
  add_key, text_differs,
}
use intelipump.Pump.Machine.Steps.{apply_cases}

-- A call that neither confirms an authorization nor allows an implicit one.
abbrev pub IsUnauthorizing : Input → Type 0
IsUnauthorizing i =
    (i.event ≢ authorization_confirmed) × (i.allow_implicit_authorize_to_filling ≡ false)

no_way_in :
    (s t : PumpState) (e : PumpEvent) (allow : Bool)
    → (is_state s nozzle_up && is_event e filling_started && not allow) ≡ false
    → e ≢ authorization_confirmed
    → allow ≡ false
    → (is_dispensing t ≡ true
        → (s ≡ nozzle_up)
          × ((e ≡ authorization_confirmed) × (t ≡ authorized)
              ⊎ (e ≡ filling_started) × (t ≡ filling)))
    → is_dispensing t ≡ false
no_way_in s t e allow guarded other off needs = elim (Bool-cases (is_dispensing t)) [
  | inr h ↦ h
  | inl h ↦ ground (arith, needs h)
]

apply-no-sale :
    (ctx : PumpContext) (i : Input)
    → IsUnauthorizing i
    → is_dispensing ctx.current_state ≡ false
    → is_dispensing (apply ctx i).context.current_state ≡ false
unfolding apply_stale apply_identical apply_duplicate apply_unknown apply_implicit apply_noop
    apply_invalid apply_transition
apply-no-sale ctx i quiet h =
    apply_cases (λ r. is_dispensing r.context.current_state ≡ false) ctx i h h h h h (λ g. h)
      (λ e. h)
      λ t implicit c e.
        no_way_in ctx.current_state t i.event _ implicit quiet.0 quiet.1
          (sale_needs ctx.current_state t i.event e h)

-- From a state with no sale, no sequence of calls without a confirmed or implicit authorization
-- leads into a sale: the pump is never seen authorized, filling, suspended, at its limit or
-- complete.
pub run-no_sale :
    (ctx : PumpContext) (is : List Input)
    → All IsUnauthorizing is
    → is_dispensing ctx.current_state ≡ false
    → is_dispensing (run ctx is).current_state ≡ false
unfolding run
run-no_sale ctx [] quiet h = h
run-no_sale ctx (i ∷ is) quiet h =
    run-no_sale (apply ctx i).context is quiet.1 (apply-no-sale ctx i quiet.0 h)

has_key-new_keys :
    (e : PumpEvent) (new : Option String) (k : String) (keys : List String)
    → has_key k keys ≡ true
    → has_key k (new_keys e new keys) ≡ true
has_key-new_keys filling_completed none k keys h = h
has_key-new_keys filling_completed (some j) k keys h = ground arith
has_key-new_keys _ new k keys h = h

apply-keeps_key :
    (k : String) (ctx : PumpContext) (i : Input)
    → has_key k ctx.completed_evidence_keys ≡ true
    → has_key k (apply ctx i).context.completed_evidence_keys ≡ true
unfolding apply_stale apply_identical apply_duplicate apply_unknown apply_implicit apply_noop
    apply_invalid apply_transition
apply-keeps_key k ctx i h =
    apply_cases (λ r. has_key k r.context.completed_evidence_keys ≡ true) ctx i h h h h h (λ g. h)
      (λ e. h)
      λ t f c e. has_key-new_keys i.event i.completion_evidence_key k ctx.completed_evidence_keys h

-- A completed sale's key is never forgotten.
pub run-keeps_key :
    (k : String) (ctx : PumpContext) (is : List Input)
    → has_key k ctx.completed_evidence_keys ≡ true
    → has_key k (run ctx is).completed_evidence_keys ≡ true
unfolding run
run-keeps_key k ctx [] h = h
run-keeps_key k ctx (i ∷ is) h =
    run-keeps_key k (apply ctx i).context is (apply-keeps_key k ctx i h)

-- The observation that a sale with this key is complete.
abbrev pub Completes : String → Input → Type 0
Completes k i = (i.event ≡ filling_completed) × (i.completion_evidence_key ≡ some k)

apply-adds_key :
    (k : String) (ctx : PumpContext) (i : Input)
    → Completes k i
    → (apply ctx i).reason ≡ transition_applied
    → has_key k (apply ctx i).context.completed_evidence_keys ≡ true
unfolding apply_stale apply_identical apply_duplicate apply_unknown apply_implicit apply_noop
    apply_invalid apply_transition
apply-adds_key k ctx i done =
    apply_cases
      (λ r. r.reason ≡ transition_applied → has_key k r.context.completed_evidence_keys ≡ true) ctx
      i (λ h. cc) (λ h. cc) (λ h. cc) (λ h. cc) (λ h. cc) (λ g h. cc) (λ e h. cc)
      λ t f c e h. rw (done.0, done.1) (added k ctx.completed_evidence_keys)
  where
    added : (k : String) (keys : List String) → has_key k (add_key k keys) ≡ true
    added k keys = ground (arith, eq_iff k k)

known_not_applied :
    (k : String) (ctx : PumpContext) (i : Input)
    → Completes k i
    → has_key k ctx.completed_evidence_keys ≡ true
    → (apply ctx i).reason ≢ transition_applied
unfolding apply_stale apply_identical apply_duplicate apply_unknown apply_implicit apply_noop
    apply_invalid apply_transition
known_not_applied k ctx i done known =
    apply_cases (λ r. r.reason ≢ transition_applied) ctx i (λ h. cc) (λ h. cc) (λ h. cc) (λ h. cc)
      (λ h. cc) (λ g h. cc) (λ e h. cc) λ t f c e h. ground (arith, done.0, done.1)

-- A sale is completed at most once: after a call that applied the completion with a key, and any
-- calls after it, no completion with the same key is applied.
pub completed_once :
    (k : String) (ctx : PumpContext) (i j : Input) (between : List Input)
    → Completes k i
    → (apply ctx i).reason ≡ transition_applied
    → Completes k j
    → (apply (run (apply ctx i).context between) j).reason ≢ transition_applied
completed_once k ctx i j between first applied again =
    known_not_applied k (run (apply ctx i).context between) j again
      (run-keeps_key k (apply ctx i).context between (apply-adds_key k ctx i first applied))

abbrev Keeps : PumpContext → Input → TransitionResult → Type 0
Keeps ctx i r =
    (r.context.active_transaction_id ≡ ctx.active_transaction_id)
    ⊎ (r.context.active_transaction_id ≡ i.active_transaction_id) × (i.active_transaction_id ≢ none)
    ⊎ (r.context.active_transaction_id ≡ none)
      × ((i.event ≡ reset_observed)
          ⊎ (i.event ≡ communication_lost)
          ⊎ (i.event ≡ fault_cleared)
          ⊎ (i.event ≡ maintenance_exited))

noop-Keeps : (ctx : PumpContext) (i : Input) → Keeps ctx i (apply_noop ctx i)
unfolding apply_noop
noop-Keeps ctx i =
    elim (Bool-cases (text_differs i.active_transaction_id ctx.active_transaction_id)) [
      | inl d ↦ inr (inl (rw d, λ e. ground arith))
      | inr d ↦ inl (rw d)
    ]

transition-Keeps :
    (ctx : PumpContext) (i : Input) (t : PumpState) → Keeps ctx i (apply_transition ctx i t)
unfolding apply_transition
transition-Keeps ctx i t = ground arith

-- The active transaction is forgotten only by a reset, a lost connection, a cleared fault or the end
-- of maintenance; any other call keeps it or replaces it by the one that the call names.
pub apply-keeps_transaction :
    (ctx : PumpContext) (i : Input)
    → ((apply ctx i).context.active_transaction_id ≡ ctx.active_transaction_id)
      ⊎ ((apply ctx i).context.active_transaction_id ≡ i.active_transaction_id)
        × (i.active_transaction_id ≢ none)
      ⊎ ((apply ctx i).context.active_transaction_id ≡ none)
        × ((i.event ≡ reset_observed)
            ⊎ (i.event ≡ communication_lost)
            ⊎ (i.event ≡ fault_cleared)
            ⊎ (i.event ≡ maintenance_exited))
unfolding apply_stale apply_identical apply_duplicate apply_unknown apply_implicit apply_invalid
apply-keeps_transaction ctx i =
    apply_cases (Keeps ctx i) ctx i (inl refl) (inl refl) (inl refl) (inl refl) (inl refl)
      (λ g. noop-Keeps ctx i) (λ e. inl refl) λ t f c e. transition-Keeps ctx i t
