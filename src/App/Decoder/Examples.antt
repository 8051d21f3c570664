-- ===== src/App/Decoder/Examples.antt =====
-- A concrete payload: a status of the pump and an alarm.
use intelipump.App.Splitter.{split_transactions}
use intelipump.App.Decoder.Payload.{decode_payload-Decodes, Decodes}
use intelipump.Common.{[], ◌∷◌, none, ◌≡◌, some, ℕ, List}
use intelipump.App.Decoder.{decode_data_payload, DecodeBundle, DecodeArguments}

abbrev plain : DecodeArguments
plain = record {
  pump_address = some 1;
  line_sequence = some 3;
  source_frame_raw_hex = none;
  volume_decimals = none;
  amount_decimals = none;
  price_decimals = none;
}

abbrev two_transactions : List ℕ
two_transactions = 0x01 ∷ 1 ∷ 2 ∷ 0x05 ∷ 1 ∷ 7 ∷ []

decode_payload-Decodes_example :
    (bundle : DecodeBundle) × (decode_data_payload two_transactions plain ≡ some bundle)
    × Decodes (split_transactions two_transactions).transactions bundle.transactions
    × (bundle.trailing_bytes ≡ (split_transactions two_transactions).trailing_bytes)
    × (bundle.warnings ≡ (split_transactions two_transactions).warnings)
decode_payload-Decodes_example = decode_payload-Decodes two_transactions plain
