-- ===== src/Pump/Machine/Examples.antt =====
-- The machine at concrete contexts and calls.
use intelipump.Common.{String, ◌≡◌, refl, ◌≢◌, ◌⊎◌, true, false, Option, none, some, [], ◌∷◌}
use intelipump.Pump.State.{
  ready, nozzle_up, filling, PumpEvent, communication_lost, reset_observed, ready_observed,
  nozzle_lifted, filling_started, filling_completed, fault_cleared, maintenance_entered,
  maintenance_exited, PumpState-discrete, PumpEvent-discrete, authorization_confirmed,
}
use intelipump.Pump.Transitions.{lookup_transition, is_same_state_noop}
use intelipump.Pump.Transitions.Reach.{is_dispensing}
use intelipump.Pump.Context.{PumpContext, transition_applied, duplicate_source_frame}
use intelipump.Pump.Machine.{apply_lookup, apply_transition, Input, apply, run}
use intelipump.Pump.Machine.Frames.{second_of_frame_ignored}
use intelipump.Pump.Machine.Steps.{FollowsTable, apply-FollowsTable, SameCounted, apply-Versioned}
use intelipump.Pump.Machine.Safety.{run-no_sale, completed_once, apply-keeps_transaction}

abbrev call : PumpEvent → Input
call e = record {
  event = e;
  observation = none;
  observed_at = some 7;
  selected_nozzle = none;
  active_transaction_id = none;
  raw_wayne_status = none;
  price_verified = none;
  fault_code = none;
  completion_evidence_key = none;
  allow_implicit_authorize_to_filling = false;
}

abbrev idle : PumpContext
idle = record {
  pump_id = "pump-1";
  dart_address = 0x51;
  current_state = ready;
  previous_state = none;
  selected_nozzle = none;
  active_transaction_id = none;
  last_observation_at = some 5;
  last_transition_at = none;
  last_raw_wayne_status = none;
  communication_healthy = true;
  price_verified = true;
  fault_code = none;
  warnings = [];
  state_version = 3;
  completed_evidence_keys = [];
  last_source_frame_hex = none;
}

abbrev lifted : PumpContext
lifted = record idle { current_state = nozzle_up; selected_nozzle = some 1 }

abbrev selling : PumpContext
selling = record idle { current_state = filling; active_transaction_id = some "t1" }

abbrev late : Input
late = record (call ready_observed) { observed_at = some 2 }

apply-FollowsTable_example :
    FollowsTable idle (call nozzle_lifted) (apply idle (call nozzle_lifted))
apply-FollowsTable_example = apply-FollowsTable idle (call nozzle_lifted)

apply-Versioned_example :
    ((apply idle (call ready_observed)).context.state_version ≡ 4)
    ⊎ ((apply idle (call ready_observed)).context.state_version ≡ 3)
      × SameCounted (apply idle (call ready_observed)).context idle
apply-Versioned_example = apply-Versioned idle (call ready_observed)

run-no_sale_example :
    is_dispensing (run lifted (call filling_started ∷ call maintenance_entered ∷ [])).current_state
    ≡ false
run-no_sale_example =
    run-no_sale lifted (call filling_started ∷ call maintenance_entered ∷ [])
      (((λ e. cc), refl), (((λ e. cc), refl), tt)) refl

abbrev complete : Input
complete = record (call filling_completed) { completion_evidence_key = some "k" }

completed_once_example :
    (apply (run (apply selling complete).context (call reset_observed ∷ [])) complete).reason
    ≢ transition_applied
unfolding apply apply_lookup apply_transition lookup_transition is_same_state_noop
    PumpState-discrete PumpEvent-discrete
completed_once_example =
    completed_once "k" selling complete complete (call reset_observed ∷ []) (refl, refl) refl
      (refl, refl)

apply-keeps_transaction_example :
    ((apply selling (call communication_lost)).context.active_transaction_id ≡ some "t1")
    ⊎ ((apply selling (call communication_lost)).context.active_transaction_id ≡ none)
      × (◌≢◌ {A = Option String} none none)
    ⊎ ((apply selling (call communication_lost)).context.active_transaction_id ≡ none)
      × ((communication_lost ≡ reset_observed)
          ⊎ (communication_lost ≡ communication_lost)
          ⊎ (communication_lost ≡ fault_cleared)
          ⊎ (communication_lost ≡ maintenance_exited))
apply-keeps_transaction_example = apply-keeps_transaction selling (call communication_lost)

-- A DC3 and a DC1 of one frame.
abbrev in_frame : PumpEvent → Input
in_frame e = record (call e) {
  observation = some (record {
    source_frame_raw_hex = some "51 31 03 04";
    transaction_id = none;
    transaction_type = none;
    raw_wayne_status = none;
    notes = [];
  });
}

lifted_applied : (apply idle (in_frame nozzle_lifted)).reason ≡ transition_applied
unfolding apply apply_lookup apply_transition lookup_transition is_same_state_noop
    PumpState-discrete PumpEvent-discrete
lifted_applied = refl

second_of_frame_ignored_example :
    ((apply (apply idle (in_frame nozzle_lifted)).context (in_frame authorization_confirmed)).reason
      ≡ duplicate_source_frame)
    × ((apply
          (apply idle (in_frame nozzle_lifted)).context
          (in_frame authorization_confirmed)).context.current_state
        ≡ (apply idle (in_frame nozzle_lifted)).context.current_state)
    × ((apply
          (apply idle (in_frame nozzle_lifted)).context
          (in_frame authorization_confirmed)).context.selected_nozzle
        ≡ (apply idle (in_frame nozzle_lifted)).context.selected_nozzle)
    × ((apply
          (apply idle (in_frame nozzle_lifted)).context
          (in_frame authorization_confirmed)).context.active_transaction_id
        ≡ (apply idle (in_frame nozzle_lifted)).context.active_transaction_id)
    × ((apply
          (apply idle (in_frame nozzle_lifted)).context
          (in_frame authorization_confirmed)).context.state_version
        ≡ (apply idle (in_frame nozzle_lifted)).context.state_version)
unfolding apply apply_lookup apply_transition lookup_transition is_same_state_noop
    PumpState-discrete PumpEvent-discrete
second_of_frame_ignored_example =
    second_of_frame_ignored "51 31 03 04" idle (in_frame nozzle_lifted)
      (in_frame authorization_confirmed) refl refl refl refl (λ e. cc) (λ e. cc) refl
