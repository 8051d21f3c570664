-- ===== src/Pump/Guards.antt =====
-- state_machine/guards.py. `decimal.Decimal` is not part of the program: the comparison of a preset
-- value with zero is the parameter `test`, and a NaN, on whose comparison the code raises, is no
-- value of `V`. A blocking reason or a warning is a constructor for its text.
pub mod Eligibility
pub mod Reasons
mod Examples
use intelipump.Common.{
  [], ℕ, Bool, true, false, not, ◌&&◌, ◌||◌, Option, none, some, List, ◌∷◌, ◌++◌, if◌then◌else◌,
  is_some, decided,
}
use intelipump.Pump.State.{
  PumpState, disconnected, not_programmed, ready, nozzle_up, authorized, filling, filling_complete,
  suspended, faulted, maintenance, PumpCommand, read_status, read_totals, set_price, authorize,
  stop, suspend, resume, preset_amount, preset_volume, PumpState-discrete, PumpCommand-discrete,
}
use intelipump.Pump.Context.{PumpContext}

pub data Blocking : Type 0 where
  communication_unhealthy active_unresolved_transaction : Blocking
  not_eligible_for_set_price not_explicitly_reset_eligible : PumpState → Blocking
  active_or_completed_window state_not_nozzle_up selected_nozzle_unknown : Blocking
  price_not_verified fault_present not_eligible_for_stop state_not_filling : Blocking
  state_not_suspended reset_not_allowed_during_filling preset_only_before_filling : Blocking
  preset_not_during_filling preset_value_missing preset_value_invalid : Blocking
  preset_value_not_positive : Blocking

pub data GuardWarning : Type 0 where
  active_commands_disabled physical_enable_absent no_poll_transmitted : GuardWarning
  no_totals_transmitted authorize_eligibility_only : GuardWarning
  requires_active_enabled requires_physical : GuardWarning

pub record CommandEligibilityResult : Type 0 where
  pub eligible : Bool
  pub command : PumpCommand
  pub current_state : PumpState
  pub blocking_reasons : List Blocking
  pub warnings : List GuardWarning
  pub requires_physical_enable : Bool
  pub requires_active_commands_enabled : Bool

-- What `Decimal(str(value))` and its comparison with zero say.
pub data DecimalTest : Type 0 where
  not_a_number positive not_positive : DecimalTest

-- _ACTIVE_EXECUTION_COMMANDS
pub is_active : PumpCommand → Bool
is_active read_status = false
is_active read_totals = false
is_active _ = true

-- _SET_PRICE_STATES, _RESET_ELIGIBLE_STATES, _PRESET_STATES and _STOP_STATES
abbrev pub set_price_state : PumpState → Bool
set_price_state ready = true
set_price_state PumpState.reset = true
set_price_state not_programmed = true
set_price_state _ = false

abbrev pub reset_eligible_state : PumpState → Bool
reset_eligible_state disconnected = false
reset_eligible_state filling = false
reset_eligible_state suspended = false
reset_eligible_state maintenance = false
reset_eligible_state _ = true

abbrev pub preset_state : PumpState → Bool
preset_state ready = true
preset_state PumpState.reset = true
preset_state nozzle_up = true
preset_state authorized = true
preset_state _ = false

abbrev pub stop_state : PumpState → Bool
stop_state authorized = true
stop_state filling = true
stop_state suspended = true
stop_state _ = false

-- The states of the transaction window that SET_PRICE names.
abbrev pub window_state : PumpState → Bool
window_state filling = true
window_state authorized = true
window_state suspended = true
window_state filling_complete = true
window_state _ = false

abbrev pub in_state : PumpState → PumpState → Bool
in_state a b = decided (PumpState-discrete a b)

-- `if test: blocking.append(reason)`
abbrev pub block : Bool → Blocking → List Blocking
block true reason = reason ∷ []
block false reason = []

abbrev Blocking-discrete : Discrete Blocking
Blocking-discrete = hlevel

abbrev pub is_in : Blocking → List Blocking → Bool
is_in r [] = false
is_in r (x ∷ xs) = decided (Blocking-discrete r x) || is_in r xs

-- The loop that drops repeated reasons and keeps their order.
dedup_from : List Blocking → List Blocking → List Blocking
dedup_from seen [] = []
dedup_from seen (r ∷ rs) =
    let again = dedup_from seen rs in
    let first = r ∷ dedup_from (r ∷ seen) rs in if is_in r seen then again else first

module _ {V : Type 0} (test : V → DecimalTest) where
  preset_reasons : Option V → List Blocking
  preset_reasons none = preset_value_missing ∷ []
  preset_reasons (some v) = elim (test v) [
    | not_a_number ↦ preset_value_invalid ∷ []
    | positive ↦ []
    | not_positive ↦ preset_value_not_positive ∷ []
  ]

  preset_blocking : PumpContext → Option V → List Blocking
  unfolding preset_reasons
  preset_blocking c value =
      block (not (preset_state c.current_state)) preset_only_before_filling
      ++ (block (in_state c.current_state filling) preset_not_during_filling
          ++ (preset_reasons value
              ++ (block (not (is_some c.selected_nozzle)) selected_nozzle_unknown
                  ++ (block (not c.price_verified) price_not_verified
                      ++ block (not c.communication_healthy) communication_unhealthy))))

  -- The chain over the commands; READ_STATUS blocks nothing.
  pub blocking : PumpCommand → PumpContext → Option V → List Blocking
  unfolding preset_blocking
  blocking read_status c value = []
  blocking read_totals c value = block (not c.communication_healthy) communication_unhealthy
  blocking set_price c value =
      block (not c.communication_healthy) communication_unhealthy
      ++ (block (not (set_price_state c.current_state)) (not_eligible_for_set_price c.current_state)
          ++ (block (window_state c.current_state) active_or_completed_window
              ++ block (is_some c.active_transaction_id) active_unresolved_transaction))
  blocking authorize c value =
      block (not (in_state c.current_state nozzle_up)) state_not_nozzle_up
      ++ (block (not (is_some c.selected_nozzle)) selected_nozzle_unknown
          ++ (block (not c.price_verified) price_not_verified
              ++ (block (not c.communication_healthy) communication_unhealthy
                  ++ (block (is_some c.active_transaction_id) active_unresolved_transaction
                      ++ block (is_some c.fault_code || in_state c.current_state faulted)
                          fault_present))))
  blocking stop c value =
      block (not (stop_state c.current_state)) not_eligible_for_stop
      ++ block (not c.communication_healthy) communication_unhealthy
  blocking suspend c value =
      block (not (in_state c.current_state filling)) state_not_filling
      ++ block (not c.communication_healthy) communication_unhealthy
  blocking resume c value =
      block (not (in_state c.current_state suspended)) state_not_suspended
      ++ block (not c.communication_healthy) communication_unhealthy
  blocking PumpCommand.reset c value =
      (if in_state c.current_state filling
        then reset_not_allowed_during_filling ∷ []
        else block (not (reset_eligible_state c.current_state))
            (not_explicitly_reset_eligible c.current_state))
      ++ block (not c.communication_healthy) communication_unhealthy
  blocking preset_amount c value = preset_blocking c value
  blocking preset_volume c value = preset_blocking c value

  -- `if test: warnings.append(text)`
  abbrev caution : Bool → GuardWarning → List GuardWarning
  caution true w = w ∷ []
  caution false w = []

  guard_warnings : PumpCommand → Bool → Bool → List GuardWarning
  unfolding is_active
  guard_warnings read_status physical enabled = no_poll_transmitted ∷ []
  guard_warnings read_totals physical enabled = no_totals_transmitted ∷ []
  guard_warnings command physical enabled =
      caution (is_active command && not enabled) active_commands_disabled
      ++ (caution (is_active command && not physical) physical_enable_absent
          ++ (caution (decided (PumpCommand-discrete command authorize)) authorize_eligibility_only
              ++ (caution (is_active command) requires_active_enabled
                  ++ caution (is_active command) requires_physical)))

  pub evaluate_command_eligibility :
      PumpCommand → PumpContext → Option V → Bool → Bool → CommandEligibilityResult
  evaluate_command_eligibility command c value physical enabled =
      let unique = dedup_from [] (blocking command c value) in
      record {
        eligible = (elim unique [ [] ↦ true | r ∷ rs ↦ false ]);
        command = command;
        current_state = c.current_state;
        blocking_reasons = unique;
        warnings = guard_warnings command physical enabled;
        requires_physical_enable = is_active command;
        requires_active_commands_enabled = is_active command;
      }
