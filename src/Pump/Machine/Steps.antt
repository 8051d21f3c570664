-- ===== src/Pump/Machine/Steps.antt =====
-- What one call of the machine does: it follows the table or leaves the state alone.
use intelipump.Common.{
  ◌≡◌, ◌⊎◌, inl, inr, true, false, not, ◌&&◌, none, some, Bool-cases, Option-cases, ◌+◌, ◌≤◌, refl,
  ◌≢◌, [], ◌∷◌, ◌++◌, ℕ, Option, arith, or_keep, ◌==◌, ==_iff,
}
use intelipump.Pump.State.{
  PumpState, nozzle_up, filling_started, filling_completed, unknown_observation, authorized,
  authorization_confirmed, PumpState-discrete, PumpEvent-discrete,
}
use intelipump.Pump.Transitions.{lookup_transition, is_same_state_noop}
use intelipump.Pump.Context.{
  PumpContext, TransitionResult, Warning, implicit_authorize_rejected, transition_invalid,
  transition_applied,
}
use intelipump.Pump.Machine.{
  stale_warning, apply_stale, apply_identical, apply_duplicate, apply_unknown, apply_implicit,
  apply_noop, apply_invalid, apply_lookup, apply_transition, Input, is_event, is_state, is_before,
  hex_of, same_text, known_key, apply, differs,
}

-- A proof for every branch of `apply`, given the test that leads there.
pub apply_cases {ℓ} :
    (P : TransitionResult → Type ℓ) (ctx : PumpContext) (i : Input)
    → P (apply_stale ctx i)
    → P (apply_identical ctx i)
    → P (apply_duplicate ctx i)
    → P (apply_unknown ctx i)
    → P (apply_implicit ctx i)
    → (is_same_state_noop ctx.current_state i.event ≡ true → P (apply_noop ctx i))
    → (lookup_transition ctx.current_state i.event ≡ none → P (apply_invalid ctx i))
    → ((t : PumpState)
        → (is_state ctx.current_state nozzle_up
            && is_event i.event filling_started
            && not i.allow_implicit_authorize_to_filling)
          ≡ false
        → (is_event i.event filling_completed
            && known_key i.completion_evidence_key ctx.completed_evidence_keys)
          ≡ false
        → lookup_transition ctx.current_state i.event ≡ some t
        → P (apply_transition ctx i t))
    → P (apply ctx i)
unfolding apply
apply_cases P ctx i stale same dup unk imp noop inv step =
    elim (Bool-cases (is_before i.observed_at ctx.last_observation_at)) [
      | inl a ↦ rw a stale
      | inr a ↦ elim (Bool-cases (same_text (hex_of i.observation) ctx.last_source_frame_hex)) [
        | inl b ↦ rw (a, b) same
        | inr b ↦
            elim (Bool-cases (
              is_event i.event filling_completed
              && known_key i.completion_evidence_key ctx.completed_evidence_keys)) [
                | inl c ↦ rw (a, b, c) dup
                | inr c ↦ elim (Bool-cases (is_event i.event unknown_observation)) [
                  | inl d ↦ rw (a, b, c, d) unk
                  | inr d ↦
                      elim (Bool-cases (
                        is_state ctx.current_state nozzle_up
                        && is_event i.event filling_started
                        && not i.allow_implicit_authorize_to_filling)) [
                          | inl f ↦ rw (a, b, c, d, f) imp
                          | inr f ↦
                              elim (Bool-cases (is_same_state_noop ctx.current_state i.event)) [
                                | inl g ↦ rw (a, b, c, d, f, g) (noop g)
                                | inr g ↦
                                    rw (a, b, c, d, f, g)
                                      (looked
                                        (Option-cases (lookup_transition ctx.current_state i.event))
                                        f c)
                              ]
                        ]
                ]
              ]
      ]
    ]
  where
    looked :
        (lookup_transition ctx.current_state i.event ≡ none)
          ⊎ ((t : PumpState) × (lookup_transition ctx.current_state i.event ≡ some t))
        → (is_state ctx.current_state nozzle_up
            && is_event i.event filling_started
            && not i.allow_implicit_authorize_to_filling)
          ≡ false
        → (is_event i.event filling_completed
            && known_key i.completion_evidence_key ctx.completed_evidence_keys)
          ≡ false
        → P (apply_lookup ctx i (lookup_transition ctx.current_state i.event))
    looked (inl e) f c = rw e (unfold apply_lookup in inv e)
    looked (inr (t, e)) f c = rw e (unfold apply_lookup in step t f c e)

-- How a call leaves the pump's state, by what its result says.
abbrev pub FollowsTable : PumpContext → Input → TransitionResult → Type 0
FollowsTable ctx i r =
    ((r.reason ≡ transition_applied)
      × (r.accepted ≡ true)
      × (lookup_transition ctx.current_state i.event ≡ some r.context.current_state)
      × (r.context.previous_state ≡ some ctx.current_state)
      × (r.context.state_version ≡ ctx.state_version + 1))
    ⊎ ((r.reason ≢ transition_applied)
        × ((r.accepted ≡ false) ⊎ (r.noop ≡ true))
        × (r.context.current_state ≡ ctx.current_state)
        × (r.context.previous_state ≡ ctx.previous_state))

-- Every call applies the table's transition for the current state and the event, remembers the
-- state that it leaves and counts one version; or it is a no-op or a refusal, and keeps the current
-- and the previous state.
pub apply-FollowsTable : (ctx : PumpContext) (i : Input) → FollowsTable ctx i (apply ctx i)
unfolding apply_stale apply_identical apply_duplicate apply_unknown apply_implicit apply_noop
    apply_invalid apply_transition
apply-FollowsTable ctx i =
    apply_cases (FollowsTable ctx i) ctx i (inr ((λ e. cc), inl refl, refl, refl))
      (inr ((λ e. cc), inr refl, refl, refl)) (inr ((λ e. cc), inr refl, refl, refl))
      (inr ((λ e. cc), inr refl, refl, refl)) (inr ((λ e. cc), inl refl, refl, refl))
      (λ g. inr ((λ e. cc), inr refl, refl, refl)) (λ e. inr ((λ e. cc), inl refl, refl, refl))
      (λ t f c e. inl (refl, refl, e, refl, refl))

-- A refused call changes nothing but the warnings, to which it adds the one that it returns.
pub refused_only_warns :
    (ctx : PumpContext) (i : Input)
    → (apply ctx i).accepted ≡ false
    → (w : Warning) × ((apply ctx i).warnings ≡ w ∷ [])
      × ((apply ctx i).context ≡ record ctx { warnings = ctx.warnings ++ w ∷ [] })
unfolding apply_stale apply_identical apply_duplicate apply_unknown apply_implicit apply_noop
    apply_invalid apply_transition
refused_only_warns ctx i =
    apply_cases
      (λ r.
        r.accepted ≡ false
        → (w : Warning) × (r.warnings ≡ w ∷ [])
          × (r.context ≡ record ctx { warnings = ctx.warnings ++ w ∷ [] }))
      ctx i (λ h. (stale_warning ctx i, refl, refl)) (λ h. cc) (λ h. cc) (λ h. cc)
      (λ h. (implicit_authorize_rejected, refl, refl)) (λ g h. cc)
      (λ e h. (transition_invalid ctx.current_state i.event, refl, refl)) (λ t f c e h. cc)

-- Two contexts agree in what the version counts.
abbrev pub SameCounted : PumpContext → PumpContext → Type 0
SameCounted a b =
    (a.current_state ≡ b.current_state)
    × (a.selected_nozzle ≡ b.selected_nozzle)
    × (a.active_transaction_id ≡ b.active_transaction_id)
    × (a.last_raw_wayne_status ≡ b.last_raw_wayne_status)
    × (a.price_verified ≡ b.price_verified)
    × (a.fault_code ≡ b.fault_code)
    × (a.completed_evidence_keys ≡ b.completed_evidence_keys)

abbrev Versioned : PumpContext → TransitionResult → Type 0
Versioned ctx r =
    (ctx.state_version ≤ r.context.state_version)
    × (r.context.state_version ≤ ctx.state_version + 1)
    × (r.context.state_version ≡ ctx.state_version → SameCounted r.context ctx)

keep-differs : (new old : Option ℕ) → differs new old ≡ false → or_keep new old ≡ old
keep-differs none old h = refl
keep-differs (some n) none h = cc
keep-differs (some n) (some m) h = ground arith

unknown-Versioned : (ctx : PumpContext) (i : Input) → Versioned ctx (apply_unknown ctx i)
unfolding apply_unknown
unknown-Versioned ctx i = ground (arith, keep-differs i.raw_wayne_status ctx.last_raw_wayne_status)

noop-Versioned : (ctx : PumpContext) (i : Input) → Versioned ctx (apply_noop ctx i)
unfolding apply_noop
noop-Versioned ctx i = ground arith

each-Versioned : (ctx : PumpContext) (i : Input) → Versioned ctx (apply ctx i)
unfolding apply_stale apply_identical apply_duplicate apply_implicit apply_invalid apply_transition
each-Versioned ctx i =
    apply_cases (Versioned ctx) ctx i
      (omega arith, omega arith, λ e. (refl, refl, refl, refl, refl, refl, refl))
      (omega arith, omega arith, λ e. (refl, refl, refl, refl, refl, refl, refl))
      (omega arith, omega arith, λ e. (refl, refl, refl, refl, refl, refl, refl))
      (unknown-Versioned ctx i)
      (omega arith, omega arith, λ e. (refl, refl, refl, refl, refl, refl, refl))
      (λ g. noop-Versioned ctx i)
      (λ e. (omega arith, omega arith, λ h. (refl, refl, refl, refl, refl, refl, refl)))
      (λ t f c e. (omega arith, omega arith, λ h. absurd (omega arith)))

-- A call counts one version; or it leaves the version alone, and then the state, the nozzle, the
-- transaction, the raw status, the price flag, the fault and the completed keys too.
pub apply-Versioned :
    (ctx : PumpContext) (i : Input)
    → ((apply ctx i).context.state_version ≡ ctx.state_version + 1)
      ⊎ ((apply ctx i).context.state_version ≡ ctx.state_version)
        × SameCounted (apply ctx i).context ctx
apply-Versioned ctx i =
    let (low, high, kept) = each-Versioned ctx i in
    elim (Bool-cases ((apply ctx i).context.state_version == ctx.state_version)) [
      | inl h ↦ let same = (==_iff _ _).0 h in inr (same, kept same)
      | inr h ↦ inl (ground (arith, low, high, h))
    ]

-- An observation that is neither stale nor a replay.
abbrev pub IsFresh : PumpContext → Input → Type 0
IsFresh c i =
    (is_before i.observed_at c.last_observation_at ≡ false)
    × (same_text (hex_of i.observation) c.last_source_frame_hex ≡ false)

pub apply-confirmed :
    (c : PumpContext) (i : Input)
    → c.current_state ≡ nozzle_up
    → i.event ≡ authorization_confirmed
    → IsFresh c i
    → ((apply c i).accepted ≡ true)
      × ((apply c i).reason ≡ transition_applied)
      × ((apply c i).context.current_state ≡ authorized)
unfolding apply apply_lookup apply_transition lookup_transition is_same_state_noop
    PumpEvent-discrete PumpState-discrete
apply-confirmed c i up confirmed fresh = ground (arith, fresh.0, fresh.1)
