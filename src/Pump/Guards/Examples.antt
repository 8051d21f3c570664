-- ===== src/Pump/Guards/Examples.antt =====
-- Eligibility at concrete contexts; a preset value is a number, compared with zero.
use intelipump.Common.{ℕ, zero, suc, ◌≡◌, refl, true, false, none, some, []}
use intelipump.Pump.State.{
  nozzle_up, authorized, authorization_confirmed, authorize, preset_amount, PumpState-discrete,
}
use intelipump.Pump.Context.{PumpContext, transition_applied}
use intelipump.Pump.Machine.{Input, apply}
use intelipump.Pump.Guards.{
  Blocking, is_in, DecimalTest, positive, not_positive, evaluate_command_eligibility,
}
use intelipump.Pump.Guards.Eligibility.{
  permitted, Distinct, authorize_then_confirmed, eligible-eq-permitted,
}
use intelipump.Pump.Guards.Reasons.{stands, eligibility_explained}

abbrev number_test : ℕ → DecimalTest
number_test zero = not_positive
number_test (suc n) = positive

abbrev lifted : PumpContext
lifted = record {
  pump_id = "pump-1";
  dart_address = 0x51;
  current_state = nozzle_up;
  previous_state = none;
  selected_nozzle = some 1;
  active_transaction_id = none;
  last_observation_at = some 5;
  last_transition_at = none;
  last_raw_wayne_status = none;
  communication_healthy = true;
  price_verified = true;
  fault_code = none;
  warnings = [];
  state_version = 3;
  completed_evidence_keys = [];
  last_source_frame_hex = none;
}

abbrev confirmed : Input
confirmed = record {
  event = authorization_confirmed;
  observation = none;
  observed_at = some 7;
  selected_nozzle = none;
  active_transaction_id = none;
  raw_wayne_status = some 2;
  price_verified = none;
  fault_code = none;
  completion_evidence_key = none;
  allow_implicit_authorize_to_filling = false;
}

-- A preset of nothing.
eligibility_explained_example :
    ((evaluate_command_eligibility number_test preset_amount lifted (some 0) false false).eligible
      ≡ permitted number_test preset_amount lifted (some 0))
    × Distinct
        (evaluate_command_eligibility number_test preset_amount lifted
          (some 0)
          false
          false).blocking_reasons
    × ((r : Blocking)
        → is_in r
            (evaluate_command_eligibility number_test preset_amount lifted
              (some 0)
              false
              false).blocking_reasons
          ≡ stands number_test r preset_amount lifted (some 0))
eligibility_explained_example =
    eligibility_explained number_test preset_amount lifted (some 0) false false

authorize_then_confirmed_example :
    ((apply lifted confirmed).accepted ≡ true)
    × ((apply lifted confirmed).reason ≡ transition_applied)
    × (nozzle_up ≡ nozzle_up)
    × ((apply lifted confirmed).context.current_state ≡ authorized)
unfolding PumpState-discrete
authorize_then_confirmed_example =
    authorize_then_confirmed number_test lifted confirmed none false false
      (eligible-eq-permitted number_test authorize lifted none false false) refl (refl, refl)
