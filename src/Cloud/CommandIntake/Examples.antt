-- ===== src/Cloud/CommandIntake/Examples.antt =====
-- A status request in the laboratory.
use intelipump.Cloud.CommandIntake.Safety.{executed_only_in_lab, IsQueued}
use intelipump.Cloud.CommandIntake.Once.{handled_once, IsRefused, Arrival, handle, handle_all}
use intelipump.Cloud.CommandIntake.Types.{
  CommandStore, LoopView, CloudCommandInbound, CloudCommandIntake,
}
use intelipump.Common.{◌≡◌, refl, ◌⊎◌, true, false, none, some, [], ◌∷◌, ℕ, String}
use intelipump.Cloud.CommandIntake.{Handled, handle_command}
use intelipump.Controller.Safety.{listen_only}

abbrev read_request : CloudCommandInbound
read_request = record {
  command_id = "cmd-1";
  correlation_id = "corr-1";
  station_id = "station-1";
  pump_id = "2";
  command_type = "READ_STATUS";
  payload = "{}";
  simulator_only = true;
  created_at = 1;
  expires_at = some 100;
  requested_by = none;
  schema_version = "1.0";
  environment_upper = "LAB";
}

abbrev lab_intake : CloudCommandIntake
lab_intake = record {
  station_id = "station-1";
  environment = "LAB";
  simulated = true;
  allow_lab = true;
  seen = [];
  seq = 0;
}

abbrev lab_loop : LoopView
lab_loop = record {
  sessions = [];
  safety = record {
    environment_upper = "LAB";
    mode = listen_only;
    active_commands_enabled = false;
    require_physical_control_enable = true;
    physical_enable_present = false;
    allow_virtual_polling = true;
    allow_lab_simulator_commands = false;
  };
  outbound = record { max_size = 32; items = [] };
  is_virtual = true;
}

abbrev one_pump : CommandStore
one_pump = record {
  pumps = record { id = "db-1"; logical_pump_id = "pump-2"; dart_address = 2 } ∷ [];
  latest = λ id. none;
  commands = [];
  audit = [];
}

abbrev first_time : Handled
first_time = handle_command 10 "item-1" true read_request lab_intake (some lab_loop) one_pump

executed_only_in_lab_example :
    ((first_time.result.executed ≡ false) × (first_time.loop ≡ some lab_loop))
    ⊎ ((first_time.result.executed ≡ true)
        × IsQueued 10 "item-1" true read_request lab_intake one_pump lab_loop first_time.loop)
executed_only_in_lab_example =
    executed_only_in_lab 10 "item-1" true read_request lab_intake one_pump lab_loop

-- The status request, and a request under another id between it and its repetition.
abbrev arrival : ℕ → String → Arrival
arrival now correlation_id = record {
  now = now;
  item_id = "item-1";
  is_connected = true;
  cmd = record read_request { correlation_id = correlation_id };
  loop = some lab_loop;
  store = one_pump;
}

handled_once_example : IsRefused (some lab_loop) (
    handle
      (handle_all (arrival 10 "corr-1" ∷ arrival 15 "corr-2" ∷ []) lab_intake)
      (arrival 20 "corr-1"))
handled_once_example =
    handled_once (arrival 10 "corr-1") (arrival 15 "corr-2" ∷ []) (arrival 20 "corr-1") lab_intake
      refl
