-- ===== src/App/Transaction.antt =====
-- The enumerations of application/constants.py and application/status.py, and the decoded transaction
-- of application/models.py. A decoded body is a Python dictionary: an association list, with the values
-- that the decoders put in.
use intelipump.App.Bcd.{BcdError}
use intelipump.Common.{
  none, some, ℕ, String, Bool, Option, List, [], ◌∷◌, str_eq, ◌==◌, if◌then◌else◌,
}

pub data MessageDirection : Type 0 where
  master_to_slave slave_to_master unknown_direction : MessageDirection

pub data DecodeStatus : Type 0 where
  decoded partial unknown_decode malformed : DecodeStatus

pub data TransactionType : Type 0 where
  cd1_command cd2_allowed_nozzles cd3_preset_volume cd4_preset_amount : TransactionType
  cd5_price_update cd14_suspend cd15_resume cd101_request_totals : TransactionType
  dc1_pump_status dc2_filled_volume_amount dc3_nozzle_status_price dc5_alarm : TransactionType
  dc7_pump_parameters dc9_pump_identity dc101_total_counters : TransactionType
  dc102_ifsf_standalone dc103_pump_unit_prices unknown_type ambiguous_cd1_or_dc1 : TransactionType

-- `.value` of the enumeration.
pub type_value : TransactionType → String
type_value cd1_command = "CD1_COMMAND"
type_value cd2_allowed_nozzles = "CD2_ALLOWED_NOZZLES"
type_value cd3_preset_volume = "CD3_PRESET_VOLUME"
type_value cd4_preset_amount = "CD4_PRESET_AMOUNT"
type_value cd5_price_update = "CD5_PRICE_UPDATE"
type_value cd14_suspend = "CD14_SUSPEND"
type_value cd15_resume = "CD15_RESUME"
type_value cd101_request_totals = "CD101_REQUEST_TOTALS"
type_value dc1_pump_status = "DC1_PUMP_STATUS"
type_value dc2_filled_volume_amount = "DC2_FILLED_VOLUME_AMOUNT"
type_value dc3_nozzle_status_price = "DC3_NOZZLE_STATUS_PRICE"
type_value dc5_alarm = "DC5_ALARM"
type_value dc7_pump_parameters = "DC7_PUMP_PARAMETERS"
type_value dc9_pump_identity = "DC9_PUMP_IDENTITY"
type_value dc101_total_counters = "DC101_TOTAL_COUNTERS"
type_value dc102_ifsf_standalone = "DC102_IFSF_STANDALONE"
type_value dc103_pump_unit_prices = "DC103_PUMP_UNIT_PRICES"
type_value unknown_type = "UNKNOWN"
type_value ambiguous_cd1_or_dc1 = "AMBIGUOUS_CD1_OR_DC1"

pub data WaynePumpStatus : Type 0 where
  status_not_programmed status_reset status_authorized status_filling : WaynePumpStatus
  status_filling_completed status_limit_reached status_switched_off : WaynePumpStatus
  status_suspended : WaynePumpStatus

-- `WaynePumpStatus(code)`; `none` is its ValueError.
unfoldable pub wayne_status : ℕ → Option WaynePumpStatus
wayne_status code =
    if code == 0
    then some status_not_programmed
    else if code == 1
    then some status_reset
    else if code == 2
    then some status_authorized
    else if code == 4
    then some status_filling
    else if code == 5
    then some status_filling_completed
    else if code == 6
    then some status_limit_reached
    else if code == 7
    then some status_switched_off
    else if code == 8
    then some status_suspended
    else none

-- `decimal_text n d` is the text of the number `n` with `d` decimals, and `bcd_error e` that of the
-- exception.
pub data Scalar : Type 0 where
  int : ℕ → Scalar
  flag : Bool → Scalar
  text : String → Scalar
  decimal_text : ℕ → ℕ → Scalar
  bcd_error : BcdError → Scalar
  null : Scalar

-- `price_rows` is a list of dictionaries of a `logical_nozzle` and a `price`.
pub data Value : Type 0 where
  scalar : Scalar → Value
  dict : List (String × Scalar) → Value
  price_rows : List (ℕ × List (String × Scalar)) → Value

abbrev pub Body : Type 0
Body = List (String × Value)

-- `d.get(key)`
abbrev pub lookup : {A : Type 0} → String → List (String × A) → Option A
lookup k [] = none
lookup k (e ∷ es) = if str_eq k e.0 then some e.1 else lookup k es

-- The number in a value for which `isinstance(value, int)` holds; a Boolean is one.
abbrev pub int_of_scalar : Option Scalar → Option ℕ
int_of_scalar (some (int n)) = some n
int_of_scalar (some (flag b)) = some (if b then 1 else 0)
int_of_scalar _ = none

abbrev pub int_of : Option Value → Option ℕ
int_of (some (scalar s)) = int_of_scalar (some s)
int_of _ = none

-- `isinstance(value, bool)`
abbrev pub flag_of : Option Value → Option Bool
flag_of (some (scalar (flag b))) = some b
flag_of _ = none

-- `tx.decoded_body or {}`
abbrev pub body_or_empty : Option Body → Body
body_or_empty none = []
body_or_empty (some b) = b

-- The texts of the decoders' warnings, with what they quote.
pub data DecodeWarning : Type 0 where
  no_decoder : ℕ → ℕ → DecodeWarning
  ambiguous_wire_01 interpreted_as_dc2 fill_decimals_omitted interpreted_as_dc3 : DecodeWarning
  price_decimals_omitted total_decimals_omitted : DecodeWarning
  invalid_bcd_in : TransactionType → BcdError → DecodeWarning

pub record ApplicationTransaction : Type 0 where
  pub transaction_id : ℕ
  pub transaction_type : TransactionType
  pub length' : ℕ
  pub raw_payload : List ℕ
  pub raw_transaction : List ℕ
  pub decoded_body : Option Body
  pub pump_address : Option ℕ
  pub line_sequence : Option ℕ
  pub direction : MessageDirection
  pub decode_status : DecodeStatus
  pub warnings : List DecodeWarning
  pub source_frame_raw_hex : Option String
  pub offset : ℕ
  pub reserved_or_unknown_fields : List (String × String)
