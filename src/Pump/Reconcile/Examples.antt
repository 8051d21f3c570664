-- ===== src/Pump/Reconcile/Examples.antt =====
-- A restart with concrete evidence.
use intelipump.Common.{ℕ, ◌≡◌, refl, true, false, none, some, [], ◌∷◌}
use intelipump.Pump.State.{filling, authorize}
use intelipump.Pump.Context.{PumpContext}
use intelipump.Pump.Reconcile.{LiveObservationSummary, reconcile_after_restart}
use intelipump.Pump.Reconcile.Evidence.{restart_blocks_sale}
use intelipump.Pump.Guards.{positive, evaluate_command_eligibility}

abbrev before : PumpContext
before = record {
  pump_id = "pump-1";
  dart_address = 0x51;
  current_state = filling;
  previous_state = none;
  selected_nozzle = some 2;
  active_transaction_id = some "t1";
  last_observation_at = some 5;
  last_transition_at = none;
  last_raw_wayne_status = some 4;
  communication_healthy = true;
  price_verified = true;
  fault_code = none;
  warnings = [];
  state_version = 3;
  completed_evidence_keys = [];
  last_source_frame_hex = none;
}

abbrev evidence : LiveObservationSummary
evidence = record {
  communication_healthy = true;
  wayne_status = some 1;
  normalized_hint = none;
  observed_at = some 9;
  selected_nozzle = some 0;
  raw_source_hex = none;
}

restart_blocks_sale_example :
    (evaluate_command_eligibility {V = ℕ}
      (λ v. positive)
      authorize
      (reconcile_after_restart before evidence none (authorize ∷ [])).context
      none
      true
      true).eligible
    ≡ false
restart_blocks_sale_example =
    restart_blocks_sale {V = ℕ} (λ v. positive) authorize none true true before evidence none
      (authorize ∷ []) refl
