-- ===== src/App/Bcd.antt =====
-- application/bcd.py. A negative value or length, which the code refuses, is no value of ℕ; the
-- digits of the text `f"{value:d}"` are a list of numbers, the highest first.
pub mod Laws
mod Examples
use intelipump.Common.{
  ℕ, zero, suc, ◌+◌, ◌-◌, ◌*◌, ◌/◌, ◌%◌, ◌^◌, bit_and, bit_or, Bool, true, false, ◌||◌, Option,
  none, some, List, [], ◌∷◌, ◌++◌, ltb, ◌==◌, if◌then◌else◌, length, replicate, Result, ok, err,
}

pub data BcdError : Type 0 where
  empty_bcd : BcdError
  invalid_nibble : ℕ → BcdError
  does_not_fit : ℕ → ℕ → BcdError

-- The loop of `decode_packed_bcd`, from the value so far.
pub decode_from : ℕ → List ℕ → Result BcdError ℕ
decode_from value [] = ok value
decode_from value (byte ∷ rest) =
    let high = bit_and (byte / 2 ^ 4) 0x0F in
    let low = bit_and byte 0x0F in
    if ltb 9 high || ltb 9 low
    then err (invalid_nibble byte)
    else decode_from (value * 100 + high * 10 + low) rest

unfoldable pub decode_packed_bcd : List ℕ → Result BcdError ℕ
unfolding decode_from
decode_packed_bcd [] = err empty_bcd
decode_packed_bcd (byte ∷ rest) = decode_from 0 (byte ∷ rest)

-- The digits of `n`; a number below 10 is its own digit, and `fuel` counts the digits.
pub digits_within : ℕ → ℕ → List ℕ
digits_within zero n = []
digits_within (suc fuel) n =
    let rest = digits_within fuel (n / 10) in if ltb n 10 then n ∷ [] else rest ++ n % 10 ∷ []

-- More fuel than the number has digits.
pub decimal_digits : ℕ → List ℕ
unfolding digits_within
decimal_digits n = digits_within (suc n) n

-- `"0" + digits` where their count is odd.
pub pad_even : List ℕ → List ℕ
pad_even digits = if length digits % 2 == 1 then 0 ∷ digits else digits

-- Two digits per byte.
pub pack : List ℕ → List ℕ
pack (high ∷ low ∷ rest) = bit_or (high * 2 ^ 4) low ∷ pack rest
pack _ = []

unfoldable pub encode_packed_bcd : ℕ → Option ℕ → Result BcdError (List ℕ)
encode_packed_bcd value none =
    let raw = pack (pad_even (decimal_digits value)) in
    ok (if length raw == 0 then 0x00 ∷ [] else raw)
encode_packed_bcd value (some width) =
    let raw = pack (pad_even (decimal_digits value)) in
    if ltb width (length raw)
    then err (does_not_fit value width)
    else ok (replicate (width - length raw) 0x00 ++ raw)

unfoldable pub is_valid_packed_bcd : List ℕ → Bool
unfolding decode_packed_bcd
is_valid_packed_bcd data' = elim (decode_packed_bcd data') [ ok value ↦ true | err e ↦ false ]
