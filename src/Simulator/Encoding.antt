-- ===== src/Simulator/Encoding.antt =====
-- simulator/encoding.py: the transactions that the virtual dispenser sends. Data of more than 255 bytes
-- is a ValueError, and so is a number that does not fit its field.
pub mod Received
mod Examples
use intelipump.Common.{
  ℕ, ◌-◌, ◌%◌, ◌^◌, bit_and, bit_or, Bool, some, List, [], ◌∷◌, ◌++◌, ltb, if◌then◌else◌, length,
  take, replicate, Result, ok, err, ◌>>=◌, ◌>>◌,
}
use intelipump.App.Bcd.{BcdError, encode_packed_bcd}

pub data EncodeError : Type 0 where
  data_too_long byte_out_of_range : EncodeError
  bcd_refused : BcdError → EncodeError

-- `_tx`
pub tx : ℕ → List ℕ → Result EncodeError (List ℕ)
tx trans data' =
    if ltb 255 (length data') then err data_too_long else ok (trans ∷ length data' ∷ data')

abbrev pub packed : ℕ → ℕ → Result EncodeError (List ℕ)
packed value width = elim (encode_packed_bcd value (some width)) [
  | ok bytes ↦ ok bytes
  | err e ↦ err (bcd_refused e)
]

unfoldable pub encode_cd1_command : ℕ → Result EncodeError (List ℕ)
encode_cd1_command code = if ltb 255 code then err byte_out_of_range else tx 0x01 (code ∷ [])

unfoldable pub encode_dc1_status : ℕ → Result EncodeError (List ℕ)
encode_dc1_status status = tx 0x01 (status % 2 ^ 8 ∷ [])

unfoldable pub encode_dc2_volume_amount : ℕ → ℕ → Result EncodeError (List ℕ)
encode_dc2_volume_amount volume_raw amount_raw = do
  volume ← packed volume_raw 4
  amount ← packed amount_raw 4
  tx 0x02 (volume ++ amount)

-- NOZIO: the nozzle's number, and the bit of a nozzle that is out.
unfoldable pub nozio : ℕ → Bool → ℕ
nozio logical_nozzle out = bit_or (bit_and logical_nozzle 0x0F) (if out then 0x10 else 0x00)

unfoldable pub encode_dc3_nozzle_price : ℕ → ℕ → Bool → Result EncodeError (List ℕ)
unfolding nozio
encode_dc3_nozzle_price price_raw logical_nozzle out = do
  price ← packed price_raw 3
  tx 0x03 (price ++ nozio logical_nozzle out ∷ [])

encode_cd3_preset_volume : ℕ → Result EncodeError (List ℕ)
encode_cd3_preset_volume volume_raw = do volume ← packed volume_raw 4; tx 0x03 volume

encode_cd4_preset_amount : ℕ → Result EncodeError (List ℕ)
encode_cd4_preset_amount amount_raw = do amount ← packed amount_raw 4; tx 0x04 amount

-- The nozzle is implied by the place of the price.
encode_cd5_price_update : ℕ → ℕ → Result EncodeError (List ℕ)
encode_cd5_price_update logical_nozzle price_raw = do price ← packed price_raw 3; tx 0x05 price

unfoldable pub encode_dc5_alarm : ℕ → Result EncodeError (List ℕ)
encode_dc5_alarm alarm_code = tx 0x05 (alarm_code % 2 ^ 8 ∷ [])

encode_cd101_request_totals : ℕ → Result EncodeError (List ℕ)
encode_cd101_request_totals counter_select = tx 0x65 (counter_select % 2 ^ 8 ∷ [])

unfoldable pub encode_dc101_totals : ℕ → ℕ → ℕ → ℕ → Result EncodeError (List ℕ)
encode_dc101_totals counter_select total_value meter1 meter2 = do
  value ← packed total_value 5
  first ← packed meter1 5
  second ← packed meter2 5
  tx 0x65 (counter_select % 2 ^ 8 ∷ (value ++ (first ++ second)))

-- `identity[:16].ljust(8, b"\x00")`
unfoldable pub encode_dc9_identity : List ℕ → Result EncodeError (List ℕ)
encode_dc9_identity identity =
    let cut = take 16 identity in tx 0x09 (cut ++ replicate (8 - length cut) 0x00)
