-- ===== src/Line/Crc/Laws.antt =====
-- What the checksum detects, and its two bytes.
use intelipump.Common.{
  ℕ, ◌/◌, ◌%◌, ◌^◌, ◌<◌, ◌≡◌, List, [], ◌∷◌, arith, ok, zero, suc, bit_xor, refl, sym, ◌∙◌, ◌≢◌,
  ◌++◌, AllBelow,
}
use intelipump.Common.Bits.{
  bit_or_disjoint, bit_xor_zero_left, bit_xor_comm, bit_xor_inj, bit_xor-lt-pow, pow-le-bit_xor,
}
use intelipump.Line.Crc.{
  crc_bytes_le, crc_from_le_bytes, lsb_bit, lsb_byte, lsb_bytes, repeat, dart_crc16,
}

lsb_bit-lt : (crc : ℕ) → crc < 2 ^ 16 → lsb_bit 0xA001 crc < 2 ^ 16
unfolding lsb_bit
lsb_bit-lt crc h = ground arith

-- The polynomial has its top bit set, so one turn of the register can be undone.
lsb_bit_inj : (a b : ℕ) → a < 2 ^ 16 → b < 2 ^ 16 → lsb_bit 0xA001 a ≡ lsb_bit 0xA001 b → a ≡ b
unfolding lsb_bit
lsb_bit_inj a b h k e = ground (
  arith,
  bit_xor-lt-pow 16 (a / 2) 0xA001,
  bit_xor-lt-pow 16 (b / 2) 0xA001,
  pow-le-bit_xor 15 (a / 2) 0xA001,
  pow-le-bit_xor 15 (b / 2) 0xA001,
  bit_xor_inj (a / 2) (b / 2) 0xA001,
)

module _ (f : ℕ → ℕ) (bound : (a : ℕ) → a < 2 ^ 16 → f a < 2 ^ 16) where
  repeat-lt : (n a : ℕ) → a < 2 ^ 16 → repeat n f a < 2 ^ 16
  repeat-lt zero a h = h
  repeat-lt (suc n) a h = repeat-lt n (f a) (bound a h)

  module _ (inj : (a b : ℕ) → a < 2 ^ 16 → b < 2 ^ 16 → f a ≡ f b → a ≡ b) where
    repeat_inj : (n a b : ℕ) → a < 2 ^ 16 → b < 2 ^ 16 → repeat n f a ≡ repeat n f b → a ≡ b
    repeat_inj zero a b h k e = e
    repeat_inj (suc n) a b h k e = inj a b h k (repeat_inj n (f a) (f b) (bound a h) (bound b k) e)

pub lsb_byte-lt : (crc x : ℕ) → crc < 2 ^ 16 → x < 256 → lsb_byte 0xA001 crc x < 2 ^ 16
unfolding lsb_byte
lsb_byte-lt crc x h k =
    repeat-lt (lsb_bit 0xA001) lsb_bit-lt 8 (bit_xor crc x)
      (bit_xor-lt-pow 16 crc x h (omega arith))

module _ (x : ℕ) (byte : x < 256) where
  -- The register after a byte determines the register before it.
  lsb_byte_inj :
      (a b : ℕ) → a < 2 ^ 16 → b < 2 ^ 16 → lsb_byte 0xA001 a x ≡ lsb_byte 0xA001 b x → a ≡ b
  unfolding lsb_byte
  lsb_byte_inj a b h k e = bit_xor_inj a b x (
      repeat_inj (lsb_bit 0xA001) lsb_bit-lt lsb_bit_inj 8 _ _
        (bit_xor-lt-pow 16 a x h (omega arith)) (bit_xor-lt-pow 16 b x k (omega arith)) e)

-- It determines the byte too, given the register before it.
lsb_byte_inj_byte :
    (crc x y : ℕ)
    → crc < 2 ^ 16
    → x < 256
    → y < 256
    → lsb_byte 0xA001 crc x ≡ lsb_byte 0xA001 crc y
    → x ≡ y
unfolding lsb_byte
lsb_byte_inj_byte crc x y h p q e =
    bit_xor_inj x y crc (bit_xor_comm x crc ∙ same ∙ bit_xor_comm crc y)
  where
    same : bit_xor crc x ≡ bit_xor crc y
    same =
        repeat_inj (lsb_bit 0xA001) lsb_bit-lt lsb_bit_inj 8 _ _
          (bit_xor-lt-pow 16 crc x h (omega arith)) (bit_xor-lt-pow 16 crc y h (omega arith)) e

lsb_bytes_inj :
    (a b : ℕ) (bytes : List ℕ)
    → AllBelow 256 bytes
    → a < 2 ^ 16
    → b < 2 ^ 16
    → lsb_bytes 0xA001 a bytes ≡ lsb_bytes 0xA001 b bytes
    → a ≡ b
unfolding lsb_bytes
lsb_bytes_inj a b [] all h k e = e
lsb_bytes_inj a b (x ∷ rest) all h k e = lsb_byte_inj x all.0 a b h k (
    lsb_bytes_inj (lsb_byte 0xA001 a x) (lsb_byte 0xA001 b x) rest all.1 (lsb_byte-lt a x h all.0)
      (lsb_byte-lt b x k all.0) e)

lsb_bytes-lt :
    (crc : ℕ) (bytes : List ℕ)
    → AllBelow 256 bytes
    → crc < 2 ^ 16
    → lsb_bytes 0xA001 crc bytes < 2 ^ 16
unfolding lsb_bytes
lsb_bytes-lt crc [] all h = h
lsb_bytes-lt crc (x ∷ rest) all h =
    lsb_bytes-lt (lsb_byte 0xA001 crc x) rest all.1 (lsb_byte-lt crc x h all.0)

lsb_bytes-append :
    (crc : ℕ) (xs ys : List ℕ)
    → lsb_bytes 0xA001 crc (xs ++ ys) ≡ lsb_bytes 0xA001 (lsb_bytes 0xA001 crc xs) ys
unfolding lsb_bytes
lsb_bytes-append crc [] ys = refl
lsb_bytes-append crc (x ∷ xs) ys = lsb_bytes-append (lsb_byte 0xA001 crc x) xs ys

bit_xor-zero : (a : ℕ) → bit_xor a 0 ≡ a
bit_xor-zero a = bit_xor_comm a 0 ∙ bit_xor_zero_left a

pub dart_crc16_lem : (bytes : List ℕ) → dart_crc16 bytes ≡ lsb_bytes 0xA001 0 bytes
unfolding dart_crc16
dart_crc16_lem bytes = bit_xor-zero _

-- The checksum of bytes is a 16-bit word.
pub dart_crc16-lt : (bytes : List ℕ) → AllBelow 256 bytes → dart_crc16 bytes < 2 ^ 16
dart_crc16-lt bytes all = rw dart_crc16_lem (lsb_bytes-lt 0 bytes all (omega arith))

-- Two messages that differ in exactly one byte, wherever it stands, have different checksums.
pub dart_crc16_detects_byte :
    (before after : List ℕ) (x y : ℕ)
    → AllBelow 256 before
    → AllBelow 256 after
    → x < 256
    → y < 256
    → x ≢ y
    → dart_crc16 (before ++ x ∷ after) ≢ dart_crc16 (before ++ y ∷ after)
unfolding lsb_bytes
dart_crc16_detects_byte before after x y pb pa px py differ e = differ (
    lsb_byte_inj_byte reg x y lt px py
      (lsb_bytes_inj _ _ after pa (lsb_byte-lt reg x lt px) (lsb_byte-lt reg y lt py) tails))
  where
    reg : ℕ
    reg = lsb_bytes 0xA001 0 before

    lt : reg < 2 ^ 16
    lt = lsb_bytes-lt 0 before pb (omega arith)

    tails :
        lsb_bytes 0xA001 (lsb_byte 0xA001 reg x) after
        ≡ lsb_bytes 0xA001 (lsb_byte 0xA001 reg y) after
    tails =
        sym (lsb_bytes-append 0 before (x ∷ after))
        ∙ sym (dart_crc16_lem (before ++ x ∷ after))
        ∙ e
        ∙ dart_crc16_lem (before ++ y ∷ after)
        ∙ lsb_bytes-append 0 before (y ∷ after)

-- The two bytes of a word are read back as the word.
pub crc_bytes_round_trip :
    (crc : ℕ) {pair : List ℕ}
    → crc_bytes_le crc ≡ ok pair
    → (pair ≡ crc % 256 ∷ crc / 256 % 256 ∷ [])
      × (crc_from_le_bytes (crc % 256) (crc / 256 % 256) ≡ ok crc)
unfolding crc_bytes_le crc_from_le_bytes
crc_bytes_round_trip crc e =
    (ground arith, ground (arith, bit_or_disjoint 8 (crc % 256) (crc / 256 % 256)))
