-- ===== src/App/Decoder/Bodies.antt =====
-- The decoders of application/decoder.py, one for each kind of transaction, with the descriptions of
-- application/status.py and the command names of application/constants.py. An IndexError of `data[i]`
-- is a `none`.
use intelipump.Common.{
  some, none, [], ℕ, zero, suc, bit_and, String, Bool, true, false, not, ◌||◌, Option, List, ◌∷◌,
  ◌++◌, ◌==◌, if◌then◌else◌, is_some, take, drop, Result, ok, err, ◌>>=◌,
}
use intelipump.App.Bcd.{BcdError}
use intelipump.App.Fields.{hex_upper, ScaledBcdValue, decode_scaled_bcd, as_report_dict}
use intelipump.App.Splitter.{RawTransaction}
use intelipump.App.Transaction.{
  MessageDirection, slave_to_master, unknown_direction, DecodeStatus, decoded, partial,
  unknown_decode, malformed, TransactionType, dc2_filled_volume_amount, dc3_nozzle_status_price,
  unknown_type, ambiguous_cd1_or_dc1, WaynePumpStatus, status_not_programmed, status_reset,
  status_authorized, status_filling, status_filling_completed, status_limit_reached,
  status_switched_off, status_suspended, wayne_status, Scalar, int, flag, text, null, Value, scalar,
  dict, Body, DecodeWarning, no_decoder, ambiguous_wire_01, interpreted_as_dc2,
  fill_decimals_omitted, interpreted_as_dc3, price_decimals_omitted, invalid_bcd_in,
  ApplicationTransaction,
}
use Prim.Native.String.{◌++◌ as str_append}

-- The keyword arguments that every decoder passes on.
pub record DecodeArguments : Type 0 where
  pub pump_address : Option ℕ
  pub line_sequence : Option ℕ
  pub source_frame_raw_hex : Option String
  pub volume_decimals : Option ℕ
  pub amount_decimals : Option ℕ
  pub price_decimals : Option ℕ

-- `_envelope`; no caller gives reserved fields.
unfoldable pub envelope :
    RawTransaction
    → DecodeArguments
    → TransactionType
    → MessageDirection
    → DecodeStatus
    → Option Body
    → List DecodeWarning
    → ApplicationTransaction
envelope raw args type direction status body warnings = record {
  transaction_id = raw.transaction_id;
  transaction_type = type;
  length' = raw.length';
  raw_payload = raw.data';
  raw_transaction = raw.raw;
  decoded_body = body;
  pump_address = args.pump_address;
  line_sequence = args.line_sequence;
  direction = direction;
  decode_status = status;
  warnings = warnings;
  source_frame_raw_hex = args.source_frame_raw_hex;
  offset = raw.offset;
  reserved_or_unknown_fields = [];
}

-- A value made from `data[i]`.
abbrev pub at_byte : {A : Type 0} → ℕ → List ℕ → (ℕ → A) → Option A
at_byte i [] f = none
at_byte zero (x ∷ xs) f = some (f x)
at_byte (suc i) (x ∷ xs) f = at_byte i xs f

unfoldable pub unknown : RawTransaction → DecodeArguments → ApplicationTransaction
unfolding envelope
unknown raw args =
    envelope raw args unknown_type unknown_direction unknown_decode none
      (no_decoder raw.transaction_id raw.length' ∷ [])

status_name : WaynePumpStatus → String
status_name status_not_programmed = "PUMP_NOT_PROGRAMMED"
status_name status_reset = "RESET"
status_name status_authorized = "AUTHORIZED"
status_name status_filling = "FILLING"
status_name status_filling_completed = "FILLING_COMPLETED"
status_name status_limit_reached = "MAX_AMOUNT_VOLUME_REACHED"
status_name status_switched_off = "SWITCHED_OFF"
status_name status_suspended = "SUSPENDED"

-- _STATUS_DESCRIPTIONS
status_description : WaynePumpStatus → String
status_description status_not_programmed = "PUMP NOT PROGRAMMED"
status_description status_reset = "RESET"
status_description status_authorized = "AUTHORIZED"
status_description status_filling = "FILLING"
status_description status_filling_completed = "FILLING COMPLETED"
status_description status_limit_reached = "MAX AMOUNT/VOLUME REACHED"
status_description status_switched_off = "SWITCHED OFF"
status_description status_suspended = "SUSPENDED"

-- `describe_wayne_status`, as the dictionary under `dc1_pump_status`.
unfoldable pub describe_wayne_status : ℕ → List (String × Scalar)
unfolding status_name status_description
describe_wayne_status code = elim (wayne_status code) [
  | some status ↦
      ("known", flag true)
      ∷ ("name", text (status_name status))
      ∷ ("description", text (status_description status))
      ∷ []
  | none ↦
      ("known", flag false)
      ∷ ("name", null)
      ∷ ("description", text (str_append "UNKNOWN_STATUS_0x" (hex_upper (code ∷ []))))
      ∷ []
]

-- `PumpControlCommand(code).name`; `none` is the ValueError.
command_name : ℕ → Option String
command_name code =
    if code == 0x00
    then some "RETURN_STATUS"
    else if code == 0x02
    then some "RETURN_PUMP_PARAMETERS"
    else if code == 0x03
    then some "RETURN_PUMP_IDENTITY"
    else if code == 0x04
    then some "RETURN_FILLING_INFORMATION"
    else if code == 0x05
    then some "RESET"
    else if code == 0x06
    then some "AUTHORIZE"
    else if code == 0x08
    then some "STOP"
    else if code == 0x0A
    then some "SWITCH_OFF"
    else if code == 0x0D
    then some "SUSPEND_FUELLING_POINT"
    else if code == 0x0E
    then some "RESUME_FUELLING_POINT"
    else if code == 0x0F
    then some "RETURN_PRICES_OF_ALL_CURRENT_GRADES"
    else none

abbrev name_scalar : Option String → Scalar
name_scalar none = null
name_scalar (some n) = text n

unfoldable pub ambiguous_body : ℕ → Body
unfolding describe_wayne_status command_name
ambiguous_body code =
    ("raw_code", scalar (int code))
    ∷ ("dc1_pump_status", dict (describe_wayne_status code))
    ∷ (
      "cd1_command",
      dict (
          ("known", flag (is_some (command_name code)))
          ∷ ("name", name_scalar (command_name code))
          ∷ ("dcc", int code)
          ∷ []),
    )
    ∷ []

unfoldable pub decode_ambiguous_01 :
    RawTransaction → DecodeArguments → Option ApplicationTransaction
unfolding envelope ambiguous_body
decode_ambiguous_01 raw args = at_byte 0 raw.data' (λ code.
    envelope raw args ambiguous_cd1_or_dc1 unknown_direction partial (some (ambiguous_body code))
      (ambiguous_wire_01 ∷ []))

unfoldable pub malformed_bcd :
    RawTransaction
    → DecodeArguments
    → TransactionType
    → MessageDirection
    → List DecodeWarning
    → BcdError
    → ApplicationTransaction
unfolding envelope
malformed_bcd raw args type direction warnings e =
    envelope raw args type direction malformed none (warnings ++ invalid_bcd_in type e ∷ [])

abbrev pub warn_when : Bool → DecodeWarning → List DecodeWarning
warn_when true w = w ∷ []
warn_when false w = []

abbrev pub spec_ref : String → String × Value
spec_ref page = ("spec_ref", scalar (text page))

-- VOL and AMO of four bytes each.
unfoldable pub fill_fields :
    List ℕ → DecodeArguments → Result BcdError (ScaledBcdValue × ScaledBcdValue)
fill_fields data' args = do
  volume ← decode_scaled_bcd (take 4 data') args.volume_decimals
  amount ← decode_scaled_bcd (take 4 (drop 4 data')) args.amount_decimals
  ok (volume, amount)

unfoldable pub decode_dc2 : RawTransaction → DecodeArguments → ApplicationTransaction
unfolding envelope malformed_bcd
decode_dc2 raw args = elim (fill_fields raw.data' args) [
  | err e ↦
      malformed_bcd raw args dc2_filled_volume_amount slave_to_master (interpreted_as_dc2 ∷ []) e
  | ok fields ↦
      envelope raw args dc2_filled_volume_amount slave_to_master decoded
        (some (
          ("volume", dict (as_report_dict fields.0))
          ∷ ("amount", dict (as_report_dict fields.1))
          ∷ spec_ref "Pump Interface Rev 2.11, page 20, DC2"
          ∷ []))
        (interpreted_as_dc2
          ∷ warn_when (not (is_some args.volume_decimals) || not (is_some args.amount_decimals))
              fill_decimals_omitted)
]

alternate_volume : List ℕ → List (String × Scalar)
alternate_volume data' = elim (decode_scaled_bcd data' none) [
  | ok v ↦ as_report_dict v
  | err e ↦ ("error", text "invalid BCD if interpreted as CD3 volume") ∷ []
]

unfoldable pub dc3_body : ScaledBcdValue → List ℕ → ℕ → Body
unfolding alternate_volume
dc3_body price data' nozio =
    ("price", dict (as_report_dict price))
    ∷ ("nozio_raw", scalar (int nozio))
    ∷ ("selected_logical_nozzle", scalar (int (bit_and nozio 0x0F)))
    ∷ ("nozzle_out", scalar (flag (not (bit_and nozio 0x10 == 0))))
    ∷ ("alternate_cd3_volume_view", dict (alternate_volume data'))
    ∷ spec_ref "Pump Interface Rev 2.11, page 21, DC3"
    ∷ []

unfoldable pub decode_dc3_preferred :
    RawTransaction → DecodeArguments → Option ApplicationTransaction
unfolding envelope malformed_bcd dc3_body
decode_dc3_preferred raw args = elim (decode_scaled_bcd (take 3 raw.data') args.price_decimals) [
  | err e ↦
      some
        (malformed_bcd raw args dc3_nozzle_status_price slave_to_master (interpreted_as_dc3 ∷ []) e)
  | ok price ↦ at_byte 3 raw.data' (λ nozio.
      envelope raw args dc3_nozzle_status_price slave_to_master partial
        (some (dc3_body price raw.data' nozio))
        (interpreted_as_dc3 ∷ warn_when (not (is_some args.price_decimals)) price_decimals_omitted))
]
