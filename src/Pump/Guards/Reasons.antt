-- ===== src/Pump/Guards/Reasons.antt =====
-- The reasons of an evaluation, each with its own condition.
use intelipump.Common.{
  ◌∙◌, ◌≡◌, Bool, true, false, not, ◌&&◌, ◌||◌, Option, none, some, arith, is_some, decided,
}
use intelipump.Pump.State.{
  nozzle_up, filling, suspended, faulted, PumpCommand, read_status, set_price, authorize, stop,
  suspend, resume, preset_amount, preset_volume, PumpCommand-discrete, PumpState, read_totals,
}
use intelipump.Pump.Context.{PumpContext}
use intelipump.Pump.Guards.Eligibility.{permitted, Distinct, eligible-eq-permitted, reasons_exact}
use intelipump.Pump.Guards.{
  evaluate_command_eligibility, Blocking, communication_unhealthy, active_unresolved_transaction,
  not_eligible_for_set_price, not_explicitly_reset_eligible, active_or_completed_window,
  state_not_nozzle_up, selected_nozzle_unknown, price_not_verified, fault_present,
  not_eligible_for_stop, state_not_filling, state_not_suspended, reset_not_allowed_during_filling,
  preset_only_before_filling, preset_not_during_filling, preset_value_missing, preset_value_invalid,
  preset_value_not_positive, DecimalTest, not_a_number, positive, not_positive, set_price_state,
  reset_eligible_state, preset_state, stop_state, window_state, in_state, is_in, blocking,
}

abbrev pub is_preset : PumpCommand → Bool
is_preset preset_amount = true
is_preset preset_volume = true
is_preset _ = false

abbrev pub sells : PumpCommand → Bool
sells authorize = true
sells command = is_preset command

abbrev pub is_command : PumpCommand → PumpCommand → Bool
is_command a b = decided (PumpCommand-discrete a b)

module _ {V : Type 0} (test : V → DecimalTest) where
  abbrev pub value_tests : DecimalTest → Option V → Bool
  value_tests d none = false
  value_tests d (some v) = elim (test v) [
    | not_a_number ↦ (elim d [ not_a_number ↦ true | _ ↦ false ])
    | positive ↦ (elim d [ positive ↦ true | _ ↦ false ])
    | not_positive ↦ (elim d [ not_positive ↦ true | _ ↦ false ])
  ]

  -- When a reason stands against a command: the commands that it concerns, and its condition.
  abbrev pub stands : Blocking → PumpCommand → PumpContext → Option V → Bool
  stands communication_unhealthy k c value =
      not (is_command k read_status) && not c.communication_healthy
  stands active_unresolved_transaction k c value =
      (is_command k set_price || is_command k authorize) && is_some c.active_transaction_id
  stands (not_eligible_for_set_price s) k c value =
      is_command k set_price && in_state s c.current_state && not (set_price_state s)
  stands (not_explicitly_reset_eligible s) k c value =
      is_command k PumpCommand.reset
      && in_state s c.current_state
      && not (reset_eligible_state s)
      && not (in_state s filling)
  stands active_or_completed_window k c value =
      is_command k set_price && window_state c.current_state
  stands state_not_nozzle_up k c value =
      is_command k authorize && not (in_state c.current_state nozzle_up)
  stands selected_nozzle_unknown k c value = sells k && not (is_some c.selected_nozzle)
  stands price_not_verified k c value = sells k && not c.price_verified
  stands fault_present k c value =
      is_command k authorize && (is_some c.fault_code || in_state c.current_state faulted)
  stands not_eligible_for_stop k c value = is_command k stop && not (stop_state c.current_state)
  stands state_not_filling k c value =
      is_command k suspend && not (in_state c.current_state filling)
  stands state_not_suspended k c value =
      is_command k resume && not (in_state c.current_state suspended)
  stands reset_not_allowed_during_filling k c value =
      is_command k PumpCommand.reset && in_state c.current_state filling
  stands preset_only_before_filling k c value = is_preset k && not (preset_state c.current_state)
  stands preset_not_during_filling k c value = is_preset k && in_state c.current_state filling
  stands preset_value_missing k c value = is_preset k && not (is_some value)
  stands preset_value_invalid k c value = is_preset k && value_tests not_a_number value
  stands preset_value_not_positive k c value = is_preset k && value_tests not_positive value

  set_price_state_stands :
      (s : PumpState) (c : PumpContext) (value : Option V)
      → is_in (not_eligible_for_set_price s) (blocking test set_price c value)
        ≡ stands (not_eligible_for_set_price s) set_price c value
  unfolding blocking
  set_price_state_stands s c value = ground arith

  reset_state_stands :
      (s : PumpState) (c : PumpContext) (value : Option V)
      → is_in (not_explicitly_reset_eligible s) (blocking test PumpCommand.reset c value)
        ≡ stands (not_explicitly_reset_eligible s) PumpCommand.reset c value
  unfolding blocking
  reset_state_stands s c value = ground arith

  set_price_stands :
      (r : Blocking) (c : PumpContext) (value : Option V)
      → is_in r (blocking test set_price c value) ≡ stands r set_price c value
  unfolding blocking
  set_price_stands (not_eligible_for_set_price s) c value = set_price_state_stands s c value
  set_price_stands _ c value = ground arith

  reset-stands :
      (r : Blocking) (c : PumpContext) (value : Option V)
      → is_in r (blocking test PumpCommand.reset c value) ≡ stands r PumpCommand.reset c value
  unfolding blocking
  reset-stands (not_explicitly_reset_eligible s) c value = reset_state_stands s c value
  reset-stands _ c value = ground arith

  status_stands :
      (r : Blocking) (c : PumpContext) (value : Option V)
      → is_in r (blocking test read_status c value) ≡ stands r read_status c value
  unfolding blocking
  status_stands r c value = ground arith

  totals_stands :
      (r : Blocking) (c : PumpContext) (value : Option V)
      → is_in r (blocking test read_totals c value) ≡ stands r read_totals c value
  unfolding blocking
  totals_stands r c value = ground arith

  authorize_stands :
      (r : Blocking) (c : PumpContext) (value : Option V)
      → is_in r (blocking test authorize c value) ≡ stands r authorize c value
  unfolding blocking
  authorize_stands communication_unhealthy c value = ground arith
  authorize_stands _ c value = ground arith

  stop_stands :
      (r : Blocking) (c : PumpContext) (value : Option V)
      → is_in r (blocking test stop c value) ≡ stands r stop c value
  unfolding blocking
  stop_stands r c value = ground arith

  suspend_stands :
      (r : Blocking) (c : PumpContext) (value : Option V)
      → is_in r (blocking test suspend c value) ≡ stands r suspend c value
  unfolding blocking
  suspend_stands r c value = ground arith

  resume_stands :
      (r : Blocking) (c : PumpContext) (value : Option V)
      → is_in r (blocking test resume c value) ≡ stands r resume c value
  unfolding blocking
  resume_stands r c value = ground arith

  amount_stands :
      (r : Blocking) (c : PumpContext) (value : Option V)
      → is_in r (blocking test preset_amount c value) ≡ stands r preset_amount c value
  unfolding blocking PumpCommand-discrete
  amount_stands communication_unhealthy c value = ground arith
  amount_stands _ c value = ground arith

  volume_stands :
      (r : Blocking) (c : PumpContext) (value : Option V)
      → is_in r (blocking test preset_volume c value) ≡ stands r preset_volume c value
  unfolding blocking PumpCommand-discrete
  volume_stands communication_unhealthy c value = ground arith
  volume_stands _ c value = ground arith

  blocking-stands :
      (r : Blocking) (k : PumpCommand) (c : PumpContext) (value : Option V)
      → is_in r (blocking test k c value) ≡ stands r k c value
  blocking-stands r read_status c value = status_stands r c value
  blocking-stands r set_price c value = set_price_stands r c value
  blocking-stands r PumpCommand.reset c value = reset-stands r c value
  blocking-stands r read_totals c value = totals_stands r c value
  blocking-stands r authorize c value = authorize_stands r c value
  blocking-stands r stop c value = stop_stands r c value
  blocking-stands r suspend c value = suspend_stands r c value
  blocking-stands r resume c value = resume_stands r c value
  blocking-stands r preset_amount c value = amount_stands r c value
  blocking-stands r preset_volume c value = volume_stands r c value

  -- A command is eligible exactly when its conditions hold, and the evaluation explains itself: no
  -- reason is reported twice, and a reason is reported exactly when it concerns the command and its
  -- condition is met. The two enable flags decide none of this.
  pub eligibility_explained :
      (command : PumpCommand) (c : PumpContext) (value : Option V) (physical enabled : Bool)
      → ((evaluate_command_eligibility test command c value physical enabled).eligible
          ≡ permitted test command c value)
        × Distinct
            (evaluate_command_eligibility test command c value physical enabled).blocking_reasons
        × ((r : Blocking)
            → is_in r
                (evaluate_command_eligibility test command c value physical
                  enabled).blocking_reasons
              ≡ stands r command c value)
  eligibility_explained command c value physical enabled =
      let (distinct, found) = reasons_exact test command c value physical enabled in
      (
        eligible-eq-permitted test command c value physical enabled,
        distinct,
        λ r. found r ∙ blocking-stands r command c value,
      )
