-- ===== src/App/Fields.antt =====
-- application/fields.py, with ScaledBcdValue of application/models.py. A Decimal is the scaled number
-- with its count of decimals.
use intelipump.Common.{
  [], ℕ, ◌/◌, ◌%◌, String, Option, none, some, List, ◌∷◌, get_or, Result, ok, ◌>>=◌,
}
use intelipump.App.Bcd.{BcdError, decode_packed_bcd}
use intelipump.App.Transaction.{Scalar, int, text, decimal_text, null}
use Prim.Native.String.{◌++◌ as str_append}

abbrev pub upper_digits : List String
upper_digits =
    "0" ∷ "1" ∷ "2" ∷ "3" ∷ "4" ∷ "5" ∷ "6" ∷ "7" ∷ "8" ∷ "9" ∷ "A" ∷ "B" ∷ "C" ∷ "D" ∷ "E" ∷ "F"
    ∷ []

abbrev lower_digits : List String
lower_digits =
    "0" ∷ "1" ∷ "2" ∷ "3" ∷ "4" ∷ "5" ∷ "6" ∷ "7" ∷ "8" ∷ "9" ∷ "a" ∷ "b" ∷ "c" ∷ "d" ∷ "e" ∷ "f"
    ∷ []

pub hex_byte : List String → ℕ → String
hex_byte digits byte = str_append (get_or digits (byte / 16) "") (get_or digits (byte % 16) "")

-- `bytes.hex(" ")`
pub hex_with : List String → List ℕ → String
unfolding hex_byte
hex_with digits [] = ""
hex_with digits (byte ∷ []) = hex_byte digits byte
hex_with digits (byte ∷ next ∷ rest) =
    str_append (hex_byte digits byte) (str_append " " (hex_with digits (next ∷ rest)))

unfoldable pub hex : List ℕ → String
unfolding hex_with
hex bytes = hex_with lower_digits bytes

-- `bytes.hex(" ").upper()`
unfoldable pub hex_upper : List ℕ → String
unfolding hex_with
hex_upper bytes = hex_with upper_digits bytes

pub record ScaledBcdValue : Type 0 where
  pub raw_bcd : List ℕ
  pub raw_scaled : ℕ
  pub decimals : Option ℕ

unfoldable pub decode_scaled_bcd : List ℕ → Option ℕ → Result BcdError ScaledBcdValue
decode_scaled_bcd raw decimals = do
  scaled ← decode_packed_bcd raw
  ok (record { raw_bcd = raw; raw_scaled = scaled; decimals = decimals })

-- The entries `decimals` and `value` of a report.
abbrev decimals_scalar : Option ℕ → Scalar
decimals_scalar none = null
decimals_scalar (some d) = int d

abbrev value_scalar : ℕ → Option ℕ → Scalar
value_scalar scaled none = null
value_scalar scaled (some d) = decimal_text scaled d

unfoldable pub as_report_dict : ScaledBcdValue → List (String × Scalar)
unfolding hex_upper
as_report_dict v =
    ("raw_bcd_hex", text (hex_upper v.raw_bcd))
    ∷ ("raw_scaled", int v.raw_scaled)
    ∷ ("decimals", decimals_scalar v.decimals)
    ∷ ("value", value_scalar v.raw_scaled v.decimals)
    ∷ []
