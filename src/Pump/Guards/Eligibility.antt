-- ===== src/Pump/Guards/Eligibility.antt =====
-- When a command is eligible.
use intelipump.Pump.Machine.Steps.{apply-confirmed, IsFresh}
use intelipump.Pump.Machine.{apply, Input}
use intelipump.Common.{
  ◌≡◌, refl, Bool, true, false, not, ◌&&◌, Option, none, some, List, [], ◌∷◌, arith, is_some, ◌∙◌,
  sym,
}
use intelipump.Pump.State.{
  nozzle_up, filling, suspended, PumpCommand, read_status, read_totals, set_price, authorize, stop,
  suspend, resume, preset_amount, preset_volume, authorized, authorization_confirmed,
}
use intelipump.Pump.Context.{PumpContext, transition_applied}
use intelipump.Pump.Guards.{
  dedup_from, blocking, Blocking, DecimalTest, positive, set_price_state, reset_eligible_state,
  preset_state, stop_state, in_state, is_in, evaluate_command_eligibility,
}

abbrev is_empty : List Blocking → Bool
is_empty [] = true
is_empty (r ∷ rs) = false

is_empty-dedup : (rs : List Blocking) → is_empty (dedup_from [] rs) ≡ is_empty rs
unfolding dedup_from
is_empty-dedup [] = refl
is_empty-dedup (r ∷ rs) = refl

is_in-dedup :
    (r : Blocking) (seen rs : List Blocking)
    → is_in r (dedup_from seen rs) ≡ (is_in r rs && not (is_in r seen))
unfolding dedup_from
is_in-dedup r seen [] = refl
is_in-dedup r seen (x ∷ rs) = ground (arith, is_in-dedup r seen rs, is_in-dedup r (x ∷ seen) rs)

-- No reason stands twice.
abbrev pub Distinct : List Blocking → Type 0
Distinct [] = Unit {0}
Distinct (r ∷ rs) = (is_in r rs ≡ false) × Distinct rs

dedup-Distinct : (seen rs : List Blocking) → Distinct (dedup_from seen rs)
unfolding dedup_from
dedup-Distinct seen [] = tt
dedup-Distinct seen (x ∷ rs) =
    ground
      (arith, dedup-Distinct seen rs, dedup-Distinct (x ∷ seen) rs, is_in-dedup x (x ∷ seen) rs)

module _ {V : Type 0} (test : V → DecimalTest) where
  abbrev pub is_positive : Option V → Bool
  is_positive none = false
  is_positive (some v) = elim (test v) [ positive ↦ true | _ ↦ false ]

  -- The conditions of each command, in one formula.
  abbrev pub permitted : PumpCommand → PumpContext → Option V → Bool
  permitted read_status c value = true
  permitted read_totals c value = c.communication_healthy
  permitted set_price c value =
      c.communication_healthy
      && set_price_state c.current_state
      && not (is_some c.active_transaction_id)
  permitted authorize c value =
      in_state c.current_state nozzle_up
      && is_some c.selected_nozzle
      && c.price_verified
      && c.communication_healthy
      && not (is_some c.active_transaction_id)
      && not (is_some c.fault_code)
  permitted stop c value = stop_state c.current_state && c.communication_healthy
  permitted suspend c value = in_state c.current_state filling && c.communication_healthy
  permitted resume c value = in_state c.current_state suspended && c.communication_healthy
  permitted PumpCommand.reset c value =
      reset_eligible_state c.current_state && c.communication_healthy
  permitted preset_amount c value =
      preset_state c.current_state
      && is_positive value
      && is_some c.selected_nozzle
      && c.price_verified
      && c.communication_healthy
  permitted preset_volume c value =
      preset_state c.current_state
      && is_positive value
      && is_some c.selected_nozzle
      && c.price_verified
      && c.communication_healthy

  no_reason :
      (command : PumpCommand) (c : PumpContext) (value : Option V)
      → is_empty (blocking test command c value) ≡ permitted command c value
  unfolding blocking
  no_reason read_status c value = refl
  no_reason read_totals c value = ground arith
  no_reason set_price c value = ground arith
  no_reason authorize c value = ground arith
  no_reason stop c value = ground arith
  no_reason suspend c value = ground arith
  no_reason resume c value = ground arith
  no_reason PumpCommand.reset c value = ground arith
  no_reason preset_amount c value = ground arith
  no_reason preset_volume c value = ground arith

  module _ (command : PumpCommand) (c : PumpContext) (value : Option V)
      (physical enabled : Bool) where
    -- A command that is not eligible has a reason.
    pub ineligible_has_reason :
        (evaluate_command_eligibility test command c value physical enabled).blocking_reasons ≡ []
        → (evaluate_command_eligibility test command c value physical enabled).eligible ≡ true
    unfolding evaluate_command_eligibility
    ineligible_has_reason e =
        let none_left : dedup_from [] (blocking test command c value) ≡ [] = e in
        rw (evaluate_command_eligibility, none_left) refl

    -- A command is eligible exactly when its conditions hold. The two enable flags do not decide it.
    pub eligible-eq-permitted :
        (evaluate_command_eligibility test command c value physical enabled).eligible
        ≡ permitted command c value
    unfolding evaluate_command_eligibility
    eligible-eq-permitted =
        same (dedup_from [] (blocking test command c value))
        ∙ is_empty-dedup (blocking test command c value)
        ∙ no_reason command c value
      where
        same : (rs : List Blocking) → (elim rs [ [] ↦ true | r ∷ rest ↦ false ]) ≡ is_empty rs
        same [] = refl
        same (r ∷ rs) = refl

    -- The reasons reported are those found, each once.
    pub reasons_exact :
        Distinct
          (evaluate_command_eligibility test command c value physical enabled).blocking_reasons
        × ((r : Blocking)
            → is_in r
                (evaluate_command_eligibility test command c value physical
                  enabled).blocking_reasons
              ≡ is_in r (blocking test command c value))
    unfolding evaluate_command_eligibility
    reasons_exact = (
      dedup-Distinct [] (blocking test command c value),
      λ r.
          is_in-dedup r [] (blocking test command c value)
          ∙ and_true (is_in r (blocking test command c value)),
    )
      where
        and_true : (b : Bool) → (b && true) ≡ b
        and_true true = refl
        and_true false = refl

  nozzle_is_up :
      (c : PumpContext) (value : Option V)
      → permitted authorize c value ≡ true
      → c.current_state ≡ nozzle_up
  nozzle_is_up c value h = ground arith

  -- Where AUTHORIZE is eligible, the pump is at NOZZLE_UP, and a confirmation that is fresh, neither stale
  -- nor a repeated frame, is accepted: the machine goes to AUTHORIZED.
  pub authorize_then_confirmed :
      (c : PumpContext) (i : Input) (value : Option V) (physical enabled : Bool)
      → (evaluate_command_eligibility test authorize c value physical enabled).eligible ≡ true
      → i.event ≡ authorization_confirmed
      → IsFresh c i
      → (apply c i).accepted ≡ true
        × ((apply c i).reason ≡ transition_applied)
        × (c.current_state ≡ nozzle_up)
        × ((apply c i).context.current_state ≡ authorized)
  authorize_then_confirmed c i value physical enabled h e fresh =
      let up =
        nozzle_is_up c value (sym (eligible-eq-permitted authorize c value physical enabled) ∙ h) in
      let (taken, why, next) = apply-confirmed c i up e fresh in (taken, why, up, next)
