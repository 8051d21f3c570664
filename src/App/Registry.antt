-- ===== src/App/Registry.antt =====
-- application/registry.py: what the specification documents for each wire identifier.
use intelipump.Common.{ℕ, String, Option, none, some, List, [], ◌∷◌, ◌==◌, if◌then◌else◌}
use intelipump.App.Transaction.{
  MessageDirection, master_to_slave, slave_to_master, TransactionType, cd1_command,
  cd2_allowed_nozzles, cd3_preset_volume, cd5_price_update, cd101_request_totals, dc1_pump_status,
  dc2_filled_volume_amount, dc3_nozzle_status_price, dc5_alarm, dc101_total_counters,
}

pub record TransactionRegistration : Type 0 where
  pub wire_id : ℕ
  pub logical_type : TransactionType
  pub documented_direction : MessageDirection
  pub title : String
  pub spec_pages : String
  pub typical_data_length : Option ℕ

abbrev entry :
    ℕ → TransactionType → MessageDirection → String → String → Option ℕ → TransactionRegistration
entry id type direction title pages len = record {
  wire_id = id;
  logical_type = type;
  documented_direction = direction;
  title = title;
  spec_pages = pages;
  typical_data_length = len;
}

unfoldable pub registry : List TransactionRegistration
registry =
    entry 0x01 cd1_command master_to_slave "Command to pump" "13" (some 1)
    ∷ entry 0x01 dc1_pump_status slave_to_master "Pump status" "20" (some 1)
    ∷ entry 0x02 cd2_allowed_nozzles master_to_slave "Allowed nozzle numbers" "14" none
    ∷ entry 0x02 dc2_filled_volume_amount slave_to_master "Filled volume and amount" "20" (some 8)
    ∷ entry 0x03 cd3_preset_volume master_to_slave "Preset volume" "14" (some 4)
    ∷ entry 0x03 dc3_nozzle_status_price slave_to_master "Nozzle status and filling price" "21"
        (some 4)
    ∷ entry 0x05 cd5_price_update master_to_slave "Price update" "15" none
    ∷ entry 0x05 dc5_alarm slave_to_master "Alarm code" "22" (some 1)
    ∷ entry 0x65 cd101_request_totals master_to_slave "Request Total Counters" "19" (some 1)
    ∷ entry 0x65 dc101_total_counters slave_to_master "Total Counters" "25" (some 16)
    ∷ []

abbrev pub with_wire_id : ℕ → List TransactionRegistration → List TransactionRegistration
with_wire_id id [] = []
with_wire_id id (item ∷ items) =
    if item.wire_id == id then item ∷ with_wire_id id items else with_wire_id id items

unfoldable pub lookup_wire_id : ℕ → List TransactionRegistration
unfolding registry
lookup_wire_id id = with_wire_id id registry
