-- ===== src/Simulator/Encoding/Examples.antt =====
-- A nozzle of the virtual dispenser.
use intelipump.Simulator.Encoding.Received.{nozzle_event, dc3_received}
use intelipump.App.Decoder.Payload.{alone}
use intelipump.App.Transaction.{ApplicationTransaction}
use intelipump.Pump.State.{ready}
use intelipump.Common.{[], ◌∷◌, false, true, ok, ◌≡◌, none, some, ℕ, List, refl, arith}
use intelipump.Pump.Wayne.{map_wayne_observation, MapperContext}
use intelipump.App.Decoder.{decode_data_payload, DecodeArguments}
use intelipump.Simulator.Encoding.{encode_dc3_nozzle_price, tx, encode_dc5_alarm}

abbrev plain : DecodeArguments
plain = record {
  pump_address = none;
  line_sequence = none;
  source_frame_raw_hex = none;
  volume_decimals = some 3;
  amount_decimals = some 2;
  price_decimals = some 2;
}

abbrev as_dc3 : MapperContext
as_dc3 = record {
  current_state = some ready;
  previous_wayne_status = none;
  resolve_as_dc1 = false;
  resolve_as_cd1 = false;
  resolve_as_dc3 = true;
  resolve_as_cd3 = false;
  outstanding_request_was_cd1_status = false;
  bus_direction = none;
}

dc3_received_example :
    (bytes : List ℕ) × (encode_dc3_nozzle_price 1175 2 true ≡ ok bytes)
    × (heard : ApplicationTransaction) × (decode_data_payload bytes plain ≡ some (alone heard))
    × ((map_wayne_observation heard as_dc3).event ≡ nozzle_event true (some ready))
    × ((map_wayne_observation heard as_dc3).selected_nozzle ≡ some 2)
dc3_received_example = dc3_received plain as_dc3 1175 2 true (omega arith) (omega arith) refl refl

alarm_bytes : encode_dc5_alarm 0x1FF ≡ ok (0x05 ∷ 1 ∷ 0xFF ∷ [])
unfolding encode_dc5_alarm tx
alarm_bytes = refl
