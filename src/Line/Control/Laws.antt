-- ===== src/Line/Control/Laws.antt =====
-- Composing and reading control bytes, and the order of block sequence numbers.
use intelipump.Common.{
  ℕ, zero, suc, ◌+◌, ◌%◌, ◌<◌, ◌≡◌, ◌≢◌, refl, Bool, true, false, ◌||◌, ◌==◌, Result, ok, err,
  ◌>>=◌, arith, ◌≤◌, ap, bit_or,
}
use intelipump.Common.Bits.{bit_or_nibbles, low_nibble, high_nibble, all_below, all_below_sound}
use intelipump.Line.Constants.{LineError, data_base, dle, sf, ack_base}
use intelipump.Line.Control.{
  ControlType, poll, data_block, iap, nak, eot, ack, ackpoll, unknown, is_unknown, classify_control,
  extract_sequence, compose_control, next_tx_sequence, control_type_base,
}

module _ (s : ℕ) {c : ℕ} where
  -- A byte that the code composes is read back as the family and the number that it was made from.
  pub compose_reads :
      (t : ControlType)
      → compose_control t s ≡ ok c
      → (c < 256) × (classify_control c ≡ ok t) × (extract_sequence c ≡ ok s)
  unfolding compose_control classify_control extract_sequence
  compose_reads poll e = ground (arith)
  compose_reads data_block e = ground (arith, bit_or_nibbles 3 s, low_nibble c, high_nibble c)
  compose_reads iap e = ground arith
  compose_reads nak e = ground (arith, bit_or_nibbles 5 s, low_nibble c, high_nibble c)
  compose_reads eot e = ground (arith, bit_or_nibbles 7 s, low_nibble c, high_nibble c)
  compose_reads ack e = ground (arith, bit_or_nibbles 12 s, low_nibble c, high_nibble c)
  compose_reads ackpoll e = ground (arith, bit_or_nibbles 14 s, low_nibble c, high_nibble c)
  compose_reads unknown e = ground arith

-- The control byte of a data block.
pub compose-data_block : (s : ℕ) → s ≤ 15 → compose_control data_block s ≡ ok (data_base + s)
unfolding compose_control
compose-data_block s h = ground (arith, bit_or_nibbles 3 s)

pub compose_data_bound : (s : ℕ) {c : ℕ} → compose_control data_block s ≡ ok c → s ≤ 15
unfolding compose_control
compose_data_bound s e = ground arith

compose_known : (t : ControlType) (s : ℕ) {c : ℕ} → compose_control t s ≡ ok c → t ≢ unknown
unfolding compose_control
compose_known t s e = ground arith

-- A byte of no family is not composed.
compose_misses :
    (t : ControlType) (s c b : ℕ)
    → compose_control t s ≡ ok c
    → classify_control b ≡ ok unknown
    → (c == b) ≡ false
compose_misses t s c b e p =
    ground
      (arith, compose_known t s e, (compose_reads s t e).1, ap classify_control {x = c} {y = b})

-- No composed byte needs an escape, or looks like one.
pub compose_plain :
    (t : ControlType) (s c : ℕ)
    → compose_control t s ≡ ok c
    → ((c == sf) ≡ false) × ((c == dle) ≡ false)
unfolding classify_control
compose_plain t s c e = (compose_misses t s c sf e refl, compose_misses t s c dle e refl)

-- Two families and two numbers never share a byte.
compose_injective :
    (t u : ControlType) (s r : ℕ) {c : ℕ}
    → compose_control t s ≡ ok c
    → compose_control u r ≡ ok c
    → (t ≡ u) × (s ≡ r)
compose_injective t u s r p q = same_source (compose_reads s t p) (compose_reads r u q)
  where
    same_source :
        {c : ℕ}
        → (c < 256) × (classify_control c ≡ ok t) × (extract_sequence c ≡ ok s)
        → (c < 256) × (classify_control c ≡ ok u) × (extract_sequence c ≡ ok r)
        → (t ≡ u) × (s ≡ r)
    same_source h k = ground (arith, h.1, h.2, k.1, k.2)

abbrev rebuilt : ℕ → Result LineError ℕ
rebuilt c = do t ← classify_control c; s ← extract_sequence c; compose_control t s

abbrev is_ok_of : ℕ → Result LineError ℕ → Bool
is_ok_of c (ok d) = c == d
is_ok_of c (err e) = false

abbrev classified_unknown : ℕ → Bool
classified_unknown c = elim (classify_control c) [ ok t ↦ is_unknown t | err e ↦ true ]

rebuild_table : all_below 256 (λ c. classified_unknown c || is_ok_of c (rebuilt c)) ≡ true
unfolding all_below classify_control extract_sequence compose_control
rebuild_table = refl

is_ok_of_lem : (c : ℕ) (r : Result LineError ℕ) → is_ok_of c r ≡ true → r ≡ ok c
is_ok_of_lem c (ok d) h = ground arith
is_ok_of_lem c (err e) h = cc

byte_of_class : {c : ℕ} {t : ControlType} → classify_control c ≡ ok t → c < 256
unfolding classify_control
byte_of_class p = ground arith

rebuild_row :
    (c : ℕ) {t : ControlType} {s : ℕ}
    → classify_control c ≡ ok t
    → extract_sequence c ≡ ok s
    → t ≢ unknown
    → (classified_unknown c || is_ok_of c (rebuilt c)) ≡ true
    → is_ok_of c (compose_control t s) ≡ true
rebuild_row c p q known row = ground arith

-- A byte of a known family is composed again from what is read off it.
pub compose-rebuilds :
    (c : ℕ) {t : ControlType} {s : ℕ}
    → classify_control c ≡ ok t
    → extract_sequence c ≡ ok s
    → t ≢ unknown
    → compose_control t s ≡ ok c
compose-rebuilds c {t} {s} p q known =
    is_ok_of_lem c _
      (rebuild_row c p q known (all_below_sound 256 _ c rebuild_table (byte_of_class p)))

-- The block number after `n` acknowledged blocks, from a restart.
pub sequence_after : ℕ → Result LineError ℕ
sequence_after zero = ok 0
sequence_after (suc n) = do s ← sequence_after n; next_tx_sequence s

-- After n + 1 blocks from a restart the block number is n % 15 + 1: the numbers run through 1 to 15,
-- and 0 never shows again.
pub sequence_after_lem : (n : ℕ) → sequence_after (suc n) ≡ ok (n % 15 + 1)
unfolding sequence_after next_tx_sequence
sequence_after_lem zero = refl
sequence_after_lem (suc n) = rw (sequence_after_lem n) (ground arith)

pub compose_ack :
    (sequence : ℕ) → sequence < 16 → compose_control ack sequence ≡ ok (bit_or ack_base sequence)
unfolding compose_control control_type_base
compose_ack sequence h = ground (arith, h)
