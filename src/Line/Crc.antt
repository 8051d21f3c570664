-- ===== src/Line/Crc.antt =====
-- line/crc.py. Bytes and checksums are numbers; `x >> 1` is `x / 2`, and `& 0xFFFF` is `% 2 ^ 16`.
-- The dictionary of candidates is the function `get_crc_fn`.
use intelipump.Common.{
  ◌>>=◌, ◌>>◌, ℕ, zero, suc, ◌*◌, ◌/◌, ◌%◌, ◌^◌, bit_and, bit_or, bit_xor, ◌&&◌, List, [], ◌∷◌, leb,
  ◌==◌, if◌then◌else◌, Result, ok, guard,
}
use intelipump.Line.Constants.{LineError, crc_out_of_range, crc_bytes_out_of_range}
pub mod Laws
mod Examples

abbrev pub CrcFn : Type 0
CrcFn = List ℕ → ℕ

-- One turn of the inner loop of `_crc16_lsb_first`.
lsb_bit : ℕ → ℕ → ℕ
lsb_bit poly crc = (if crc % 2 == 1 then bit_xor (crc / 2) poly else crc / 2) % 2 ^ 16

-- One turn of the inner loop of `_crc16_msb_first`.
msb_bit : ℕ → ℕ → ℕ
msb_bit poly crc =
    if bit_and crc 0x8000 == 0 then crc * 2 % 2 ^ 16 else bit_xor (crc * 2) poly % 2 ^ 16

-- `for _ in range(n)` around a body.
abbrev repeat : ℕ → (ℕ → ℕ) → ℕ → ℕ
repeat zero f x = x
repeat (suc n) f x = repeat n f (f x)

pub lsb_byte : ℕ → ℕ → ℕ → ℕ
unfolding lsb_bit
lsb_byte poly crc byte = repeat 8 (lsb_bit poly) (bit_xor crc byte)

msb_byte : ℕ → ℕ → ℕ → ℕ
unfolding msb_bit
msb_byte poly crc byte = repeat 8 (msb_bit poly) (bit_xor crc (byte * 2 ^ 8))

pub lsb_bytes : ℕ → ℕ → List ℕ → ℕ
lsb_bytes poly crc [] = crc
lsb_bytes poly crc (byte ∷ rest) = lsb_bytes poly (lsb_byte poly crc byte) rest

msb_bytes : ℕ → ℕ → List ℕ → ℕ
msb_bytes poly crc [] = crc
msb_bytes poly crc (byte ∷ rest) = msb_bytes poly (msb_byte poly crc byte) rest

crc16_lsb_first : ℕ → ℕ → ℕ → CrcFn
unfolding lsb_byte lsb_bytes
crc16_lsb_first poly init xorout bytes = bit_xor (lsb_bytes poly init bytes) xorout

crc16_msb_first : ℕ → ℕ → ℕ → CrcFn
unfolding msb_byte msb_bytes
crc16_msb_first poly init xorout bytes = bit_xor (msb_bytes poly init bytes) xorout

unfoldable pub dart_crc16 : CrcFn
unfolding crc16_lsb_first
dart_crc16 = crc16_lsb_first 0xA001 0x0000 0x0000

crc16_ccitt_false : CrcFn
unfolding crc16_msb_first
crc16_ccitt_false = crc16_msb_first 0x1021 0x0000 0x0000

crc16_ccitt_false_xor_ffff : CrcFn
unfolding crc16_msb_first
crc16_ccitt_false_xor_ffff = crc16_msb_first 0x1021 0x0000 0xFFFF

crc16_ccitt_true : CrcFn
unfolding crc16_lsb_first
crc16_ccitt_true = crc16_lsb_first 0x8408 0x0000 0x0000

crc16_ccitt_true_xor_ffff : CrcFn
unfolding crc16_lsb_first
crc16_ccitt_true_xor_ffff = crc16_lsb_first 0x8408 0x0000 0xFFFF

pub data CrcCandidate : Type 0 where
  dart_ibm_ansi ccitt_false ccitt_false_xor_ffff ccitt_true ccitt_true_xor_ffff : CrcCandidate

unfoldable pub get_crc_fn : CrcCandidate → CrcFn
unfolding dart_crc16 crc16_ccitt_false crc16_ccitt_false_xor_ffff crc16_ccitt_true
    crc16_ccitt_true_xor_ffff
get_crc_fn dart_ibm_ansi = dart_crc16
get_crc_fn ccitt_false = crc16_ccitt_false
get_crc_fn ccitt_false_xor_ffff = crc16_ccitt_false_xor_ffff
get_crc_fn ccitt_true = crc16_ccitt_true
get_crc_fn ccitt_true_xor_ffff = crc16_ccitt_true_xor_ffff

abbrev pub default_crc_candidate : CrcCandidate
default_crc_candidate = dart_ibm_ansi

-- CRC-1 (low) then CRC-2 (high); `crc & 0xFF` and `(crc >> 8) & 0xFF`.
unfoldable pub crc_bytes_le : ℕ → Result LineError (List ℕ)
crc_bytes_le crc = do
  guard (leb crc 0xFFFF) crc_out_of_range
  ok (crc % 2 ^ 8 ∷ crc / 2 ^ 8 % 2 ^ 8 ∷ [])

unfoldable pub crc_from_le_bytes : ℕ → ℕ → Result LineError ℕ
crc_from_le_bytes crc1 crc2 = do
  guard (leb crc1 0xFF && leb crc2 0xFF) crc_bytes_out_of_range
  ok (bit_or crc1 (crc2 * 2 ^ 8))
