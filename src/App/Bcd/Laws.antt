-- ===== src/App/Bcd/Laws.antt =====
-- Encoding and decoding packed decimal numbers.
use intelipump.Common.{
  ℕ, zero, suc, ◌+◌, ◌*◌, ◌/◌, ◌%◌, ◌^◌, ◌<◌, bit_and, bit_or, ◌≡◌, refl, List, [], ◌∷◌, ◌++◌,
  arith, length, AllBelow, ok, ◌≤◌, ap, ◌∙◌, inl, inr, none, some, ltb, ◌==◌, ltb→lt, Bool-cases,
  replicate, length-append, All-append, ◌>>=◌, ◌-◌, sym, false, subst,
}
use intelipump.Common.Bits.{bit_or_nibbles, low_nibble}
use native.Mathlib.Nat.{pow-suc}
use intelipump.App.Bcd.{
  decode_from, digits_within, pack, decode_packed_bcd, decimal_digits, pad_even, encode_packed_bcd,
}

-- The number that digits spell, after the digits of `acc`.
abbrev spelled : ℕ → List ℕ → ℕ
spelled acc [] = acc
spelled acc (d ∷ ds) = spelled (acc * 10 + d) ds

spelled-snoc :
    (acc : ℕ) (ds : List ℕ) (d : ℕ) → spelled acc (ds ++ d ∷ []) ≡ spelled acc ds * 10 + d
spelled-snoc acc [] d = refl
spelled-snoc acc (x ∷ ds) d = spelled-snoc (acc * 10 + x) ds d

digits-spelled : (fuel n : ℕ) → n < fuel → spelled 0 (digits_within fuel n) ≡ n
unfolding digits_within
digits-spelled zero n h = absurd (omega arith)
digits-spelled (suc fuel) n h =
    ground
      (arith, digits-spelled fuel (n / 10), spelled-snoc 0 (digits_within fuel (n / 10)) (n % 10))

digits-AllBelow : (fuel n : ℕ) → AllBelow 10 (digits_within fuel n)
unfolding digits_within
digits-AllBelow zero n = tt
digits-AllBelow (suc fuel) n =
    let low : n % 10 < 10 = omega arith in
    let longer =
      All-append (λ d. d < 10) (digits_within fuel (n / 10)) (n % 10 ∷ [])
        (digits-AllBelow fuel (n / 10)) (low, tt) in
    elim (Bool-cases (ltb n 10)) [
      | inl small ↦ rw small (ltb→lt n 10 small, tt)
      | inr large ↦ rw large longer
    ]

packed_byte :
    (h l : ℕ)
    → h < 10
    → l < 10
    → (bit_and (bit_or (h * 16) l / 2 ^ 4) 0x0F ≡ h) × (bit_and (bit_or (h * 16) l) 0x0F ≡ l)
packed_byte h l p q = ground (arith, bit_or_nibbles h l, low_nibble h, low_nibble (h * 16 + l))

decode-pack :
    (v : ℕ) (ds : List ℕ)
    → AllBelow 10 ds
    → length ds % 2 ≡ 0
    → decode_from v (pack ds) ≡ ok (spelled v ds)
unfolding decode_from pack
decode-pack v [] b e = refl
decode-pack v (h ∷ []) b e = absurd (omega arith)
decode-pack v (h ∷ l ∷ ds) b e =
    let (p, q) = packed_byte h l b.0 b.1.0 in
    let joined : v * 100 + h * 10 + l ≡ (v * 10 + h) * 10 + l = omega arith in
    rw (p, q, joined) (ground (arith, decode-pack ((v * 10 + h) * 10 + l) ds, b.0, b.1.0, b.1.1))

pad_even-even : (ds : List ℕ) → length (pad_even ds) % 2 ≡ 0
unfolding pad_even
pad_even-even ds = ground arith

pad_even-spelled : (ds : List ℕ) → spelled 0 (pad_even ds) ≡ spelled 0 ds
unfolding pad_even
pad_even-spelled ds = ground arith

pad_even-AllBelow : (ds : List ℕ) → AllBelow 10 ds → AllBelow 10 (pad_even ds)
unfolding pad_even
pad_even-AllBelow ds b = elim (Bool-cases (length ds % 2 == 1)) [
  | inl odd ↦ rw odd (omega arith, b)
  | inr even ↦ rw even b
]

digits_within-cons : (fuel n : ℕ) → 0 < length (digits_within (suc fuel) n)
unfolding digits_within
digits_within-cons fuel n =
    ground (arith, length-append {0} (digits_within fuel (n / 10)) (n % 10 ∷ []))

-- The bytes that stand for a number before padding.
abbrev raw_of : ℕ → List ℕ
raw_of value = pack (pad_even (decimal_digits value))

decode-raw : (value : ℕ) → decode_from 0 (raw_of value) ≡ ok value
unfolding decimal_digits
decode-raw value =
    decode-pack 0 (pad_even (decimal_digits value))
      (pad_even-AllBelow (decimal_digits value) (digits-AllBelow (suc value) value))
      (pad_even-even (decimal_digits value))
    ∙ ap ok
        (pad_even-spelled (decimal_digits value) ∙ digits-spelled (suc value) value (omega arith))

decode-zeros :
    (k : ℕ) (bytes : List ℕ) → decode_from 0 (replicate k 0x00 ++ bytes) ≡ decode_from 0 bytes
unfolding decode_from
decode-zeros zero bytes = refl
decode-zeros (suc k) bytes = decode-zeros k bytes

length-pack : (ds : List ℕ) → length (pack ds) ≡ length ds / 2
unfolding pack
length-pack [] = refl
length-pack (h ∷ []) = omega arith
length-pack (h ∷ l ∷ ds) = ground (arith, length-pack ds)

length-pad_even : (ds : List ℕ) → length (pad_even ds) ≡ length ds + length ds % 2
unfolding pad_even
length-pad_even ds = ground arith

length-raw : (value : ℕ) → 1 ≤ length (raw_of value)
unfolding decimal_digits
length-raw value = omega (
  arith,
  length-pack (pad_even (decimal_digits value)),
  length-pad_even (decimal_digits value),
  digits_within-cons value value,
)

decode_packed-some :
    (bytes : List ℕ) → 1 ≤ length bytes → decode_packed_bcd bytes ≡ decode_from 0 bytes
unfolding decode_packed_bcd
decode_packed-some [] h = absurd (omega arith)
decode_packed-some (x ∷ bytes) h = refl

-- A number of at most `2 * width` digits has that few digits.
digits-fit : (k fuel n : ℕ) → n < 10 ^ suc k → length (digits_within fuel n) ≤ suc k
unfolding digits_within
digits-fit k zero n h = omega arith
digits-fit zero (suc fuel) n h = ground (arith, h)
digits-fit (suc k) (suc fuel) n h =
    let less : n / 10 < 10 ^ suc k = omega (arith, h, pow-suc 10 (suc k)) in
    ground (
      arith,
      digits-fit k fuel (n / 10) less,
      length-append {0} (digits_within fuel (n / 10)) (n % 10 ∷ []),
    )

length-replicate : (k x : ℕ) → length (replicate k x) ≡ k
length-replicate zero x = refl
length-replicate (suc k) x = omega (arith, length-replicate k x)

-- A number encoded at its own width decodes to itself.
pub decode-encode : (value : ℕ) → encode_packed_bcd value none >>= decode_packed_bcd ≡ ok value
unfolding encode_packed_bcd
decode-encode value =
    let some_bytes : (length (raw_of value) == 0) ≡ false = ground (arith, length-raw value) in
    rw some_bytes (decode_packed-some (raw_of value) (length-raw value) ∙ decode-raw value)

-- At a fixed width the result, where there is one, has that many bytes and decodes to the number.
decode-encode_width :
    (value width : ℕ) {bytes : List ℕ}
    → encode_packed_bcd value (some width) ≡ ok bytes
    → (length bytes ≡ width) × (decode_packed_bcd bytes ≡ ok value)
unfolding encode_packed_bcd
decode-encode_width value width {bytes} e =
    let fits : length (raw_of value) ≤ width = ground (arith, e) in
    let image : replicate (width - length (raw_of value)) 0x00 ++ raw_of value ≡ bytes =
      ground (arith, e) in
    let sized : length bytes ≡ width = omega (
      arith,
      fits,
      ap length image,
      length-append {0} (replicate (width - length (raw_of value)) 0x00) (raw_of value),
      length-replicate (width - length (raw_of value)) 0x00,
    ) in
    (
      sized,
      decode_packed-some bytes (omega (arith, sized, fits, length-raw value))
          ∙ ap (decode_from 0) (sym image)
          ∙ decode-zeros (width - length (raw_of value)) (raw_of value)
          ∙ decode-raw value,
    )

raw_fits : (value width : ℕ) → value < 10 ^ (2 * suc width) → length (raw_of value) ≤ suc width
unfolding decimal_digits
raw_fits value width h =
    let even : 2 * suc width ≡ suc (2 * width + 1) = omega arith in
    let small : value < 10 ^ suc (2 * width + 1) = subst (λ e. value < 10 ^ e) even h in
    omega (
      arith,
      digits-fit (2 * width + 1) (suc value) value small,
      length-pack (pad_even (decimal_digits value)),
      length-pad_even (decimal_digits value),
    )

encoded :
    (value width : ℕ)
    → value < 10 ^ (2 * suc width)
    → (bytes : List ℕ) × (encode_packed_bcd value (some (suc width)) ≡ ok bytes)
unfolding encode_packed_bcd
encoded value width h = (
  replicate (suc width - length (raw_of value)) 0x00 ++ raw_of value,
  ground (arith, raw_fits value width h),
)

-- A number of at most `2 * width` decimal digits, the width being positive, is encoded into exactly
-- `width` bytes, which decode to it.
pub encode_within :
    (value width : ℕ)
    → value < 10 ^ (2 * suc width)
    → (bytes : List ℕ) × (encode_packed_bcd value (some (suc width)) ≡ ok bytes)
      × (length bytes ≡ suc width)
      × (decode_packed_bcd bytes ≡ ok value)
encode_within value width h =
    let (bytes, e) = encoded value width h in
    let (sized, back) = decode-encode_width value (suc width) e in (bytes, e, sized, back)
