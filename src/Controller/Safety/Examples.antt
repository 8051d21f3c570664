-- ===== src/Controller/Safety/Examples.antt =====
-- The gates at concrete items.
use intelipump.Common.{ℕ, ◌≡◌, refl, true, false, none, [], ◌∷◌}
use intelipump.Pump.State.{PumpCommand, read_status, authorize}
use intelipump.Controller.Safety.{
  bench_control, idempotent, OutboundDataItem, active_command_blocked,
  active_commands_enabled_is_false, physical_enable_required, non_idempotent_command,
  ControllerSafetyContext, evaluate_outbound_safety,
}

abbrev pub lab : ControllerSafetyContext
lab = record {
  environment_upper = "LAB";
  mode = bench_control;
  active_commands_enabled = false;
  require_physical_control_enable = true;
  physical_enable_present = false;
  allow_virtual_polling = true;
  allow_lab_simulator_commands = false;
}

abbrev pub request : PumpCommand → ℕ → OutboundDataItem
request command address = record {
  correlation_id = "c1";
  address = address;
  application_payload = 0x01 ∷ 1 ∷ 0 ∷ [];
  created_at = 10;
  expires_at = 5010;
  idempotency = idempotent;
  max_retries = 2;
  simulator_only = true;
  command_type = command;
  sequence = none;
  attempts = 0;
}

read_allowed : (evaluate_outbound_safety (request read_status 1) lab).reasons ≡ []
unfolding evaluate_outbound_safety
read_allowed = refl

authorize_refused :
    (evaluate_outbound_safety (request authorize 1) lab).reasons
    ≡ active_command_blocked authorize
      ∷ active_commands_enabled_is_false
      ∷ physical_enable_required
      ∷ non_idempotent_command
      ∷ []
unfolding evaluate_outbound_safety
authorize_refused = refl
