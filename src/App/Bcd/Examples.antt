-- ===== src/App/Bcd/Examples.antt =====
-- Packed decimal numbers on concrete values.
use intelipump.Common.{ℕ, ◌≡◌, refl, true, some, List, [], ◌∷◌, arith, length, ok, err}
use intelipump.App.Bcd.{
  invalid_nibble, decode_from, decode_packed_bcd, encode_packed_bcd, is_valid_packed_bcd,
}
use intelipump.App.Bcd.Laws.{encode_within}

valid_12 : is_valid_packed_bcd (0x12 ∷ 0x34 ∷ []) ≡ true
unfolding is_valid_packed_bcd decode_packed_bcd decode_from
valid_12 = refl

invalid_nibble_1a : decode_packed_bcd (0x12 ∷ 0x3A ∷ []) ≡ err (invalid_nibble 0x3A)
unfolding decode_packed_bcd decode_from
invalid_nibble_1a = refl

encode_within_example :
    (bytes : List ℕ) × (encode_packed_bcd 250 (some 3) ≡ ok bytes)
    × (length bytes ≡ 3)
    × (decode_packed_bcd bytes ≡ ok 250)
encode_within_example = encode_within 250 2 (omega arith)
