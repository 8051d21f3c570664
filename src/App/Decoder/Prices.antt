-- ===== src/App/Decoder/Prices.antt =====
-- The decoders of application/decoder.py for prices, alarms and totals.
use intelipump.Common.{
  none, leb, [], ℕ, zero, suc, ◌+◌, ◌/◌, String, not, ◌&&◌, Option, some, List, ◌∷◌, if◌then◌else◌,
  is_some, take, drop, Result, ok, err, ◌>>=◌,
}
use intelipump.App.Bcd.{BcdError}
use intelipump.App.Fields.{ScaledBcdValue, decode_scaled_bcd, as_report_dict}
use intelipump.App.Splitter.{RawTransaction}
use intelipump.App.Transaction.{
  master_to_slave, slave_to_master, decoded, cd5_price_update, cd101_request_totals, dc5_alarm,
  dc101_total_counters, Scalar, int, scalar, dict, price_rows, Body, price_decimals_omitted,
  total_decimals_omitted, ApplicationTransaction, bcd_error,
}
use intelipump.App.Decoder.Bodies.{
  spec_ref, DecodeArguments, envelope, at_byte, malformed_bcd, warn_when,
}

-- The loop of `_decode_cd5` over steps of three bytes, the first for nozzle `nozzle`.
unfoldable pub price_chunks :
    ℕ → ℕ → List ℕ → Option ℕ → Result BcdError (List (ℕ × List (String × Scalar)))
price_chunks zero nozzle data' decimals = ok []
price_chunks (suc steps) nozzle data' decimals = do
  price ← decode_scaled_bcd (take 3 data') decimals
  rest ← price_chunks steps (nozzle + 1) (drop 3 data') decimals
  ok ((nozzle, as_report_dict price) ∷ rest)

unfoldable pub decode_cd5 : RawTransaction → DecodeArguments → ApplicationTransaction
unfolding envelope malformed_bcd
decode_cd5 raw args = elim (price_chunks ((raw.length' + 2) / 3) 1 raw.data' args.price_decimals) [
  | err e ↦ malformed_bcd raw args cd5_price_update master_to_slave [] e
  | ok rows ↦
      envelope raw args cd5_price_update master_to_slave decoded
        (some (("prices", price_rows rows) ∷ spec_ref "Pump Interface Rev 2.11, page 15, CD5" ∷ []))
        (warn_when (not (is_some args.price_decimals)) price_decimals_omitted)
]

unfoldable pub decode_dc5 : RawTransaction → DecodeArguments → Option ApplicationTransaction
unfolding envelope
decode_dc5 raw args = at_byte 0 raw.data' (λ alarm.
    envelope raw args dc5_alarm slave_to_master decoded
      (some (
        ("alarm_code", scalar (int alarm)) ∷ spec_ref "Pump Interface Rev 2.11, page 22, DC5" ∷ []))
      [])

unfoldable pub decode_cd101_request :
    RawTransaction → DecodeArguments → Option ApplicationTransaction
unfolding envelope
decode_cd101_request raw args = at_byte 0 raw.data' (λ select.
    envelope raw args cd101_request_totals master_to_slave decoded
      (some (
        ("counter_select", scalar (int select))
        ∷ spec_ref "Pump Interface Rev 2.11, page 19, CD101"
        ∷ []))
      [])

-- The three totals of five bytes each.
unfoldable pub total_fields :
    List ℕ → Option ℕ → Result BcdError (ScaledBcdValue × ScaledBcdValue × ScaledBcdValue)
total_fields data' decimals = do
  value ← decode_scaled_bcd (take 5 (drop 1 data')) decimals
  first ← decode_scaled_bcd (take 5 (drop 6 data')) decimals
  second ← decode_scaled_bcd (take 5 (drop 11 data')) decimals
  ok (value, first, second)

-- `decimals_for_value`
abbrev total_decimals : ℕ → DecodeArguments → Option ℕ
total_decimals coun args =
    if leb 0x01 coun && leb coun 0x09
    then args.volume_decimals
    else if leb 0x11 coun && leb coun 0x19
    then args.amount_decimals
    else none

-- `_maybe_decimal`
maybe_decimal : Option ℕ → List ℕ → List (String × Scalar)
maybe_decimal decimals raw = elim (decode_scaled_bcd raw decimals) [
  | ok v ↦ as_report_dict v
  | err e ↦ ("error", bcd_error e) ∷ []
]

unfoldable pub totals_body :
    ℕ → DecodeArguments → List ℕ → ScaledBcdValue × ScaledBcdValue × ScaledBcdValue → Body
unfolding maybe_decimal
totals_body coun args data' (value, first, second) =
    let d = total_decimals coun args in
    ("counter_select", scalar (int coun))
    ∷ ("total_value", dict (maybe_decimal d (take 5 (drop 1 data'))))
    ∷ ("total_meter1_or_nofill", dict (maybe_decimal d (take 5 (drop 6 data'))))
    ∷ ("total_meter2", dict (maybe_decimal d (take 5 (drop 11 data'))))
    ∷ (
      "raw_scaled",
      dict (
          ("total_value", int value.raw_scaled)
          ∷ ("total_meter1_or_nofill", int first.raw_scaled)
          ∷ ("total_meter2", int second.raw_scaled)
          ∷ []),
    )
    ∷ spec_ref "Pump Interface Rev 2.11, page 25, DC101"
    ∷ []

unfoldable pub decode_dc101 : RawTransaction → DecodeArguments → Option ApplicationTransaction
unfolding envelope malformed_bcd totals_body
decode_dc101 raw args = at_byte 0 raw.data' (λ coun. elim (total_fields raw.data' none) [
  | err e ↦ malformed_bcd raw args dc101_total_counters slave_to_master [] e
  | ok fields ↦
      envelope raw args dc101_total_counters slave_to_master decoded
        (some (totals_body coun args raw.data' fields))
        (warn_when (not (is_some (total_decimals coun args))) total_decimals_omitted)
])
