-- ===== src/Common/Bits.antt =====
-- Laws of `bit_and`, `bit_or` and `bit_xor` at variables, from their recursion on binary digits.
use Prim.Native.Nat.{
  ℕ, zero, suc, ◌+◌, ◌*◌, ◌/◌, ◌%◌, ◌^◌, ◌≤◌, ◌<◌, min, max, bit_and, bit_or, bit_xor, digits,
  differ, bit_and-bitwise, bit_or-bitwise, bit_xor-bitwise,
}
use mathlib.Core.Bool.{Bool, true, ◌&&◌}
use intelipump.Common.Tests.{◌==◌, ==_iff}
use native.Mathlib.Nat.{pow-suc}
use mathlib.Core.Path.{◌≡◌, refl, ap, sym, ◌∙◌}
use native.Mathlib.Omega.{arith}

module _ (pad : ℕ → ℕ) (on_digit : ℕ → ℕ → ℕ) where
  -- Any count of digits that covers the first number gives the same result.
  digits_enough :
      (a b k l : ℕ) → a ≤ k → a ≤ l → digits pad on_digit k a b ≡ digits pad on_digit l a b
  digits_enough zero b zero zero h i = refl
  digits_enough zero b zero (suc l) h i = refl
  digits_enough zero b (suc k) zero h i = refl
  digits_enough zero b (suc k) (suc l) h i = refl
  digits_enough (suc a) b zero l h i = absurd (omega arith)
  digits_enough (suc a) b (suc k) zero h i = absurd (omega arith)
  digits_enough (suc a) b (suc k) (suc l) h i =
      rw (digits_enough (suc a / 2) (b / 2) k l (omega arith) (omega arith)) refl

  -- The lowest digit, and the number without it.
  digits_split :
      (a b : ℕ)
      → digits pad on_digit (suc a) (suc a) b
        ≡ digits pad on_digit (suc a / 2) (suc a / 2) (b / 2) * 2 + on_digit (suc a % 2) (b % 2)
  digits_split a b =
      rw (digits_enough (suc a / 2) (b / 2) a (suc a / 2) (omega arith) (omega arith)) refl

-- One digit of an exclusive or.
differ_lem : (x y : ℕ) → x < 2 → y < 2 → differ x y ≡ (x + y) % 2
differ_lem zero y h k = omega arith
differ_lem (suc zero) zero h k = refl
differ_lem (suc zero) (suc zero) h k = refl
differ_lem (suc zero) (suc (suc y)) h k = absurd (omega arith)
differ_lem (suc (suc x)) y h k = absurd (omega arith)

pub bit_and_step : (a b : ℕ) → bit_and a b ≡ bit_and (a / 2) (b / 2) * 2 + min (a % 2) (b % 2)
bit_and_step zero b = rw (bit_and-bitwise 0 b, bit_and-bitwise 0 (b / 2)) (omega arith)
bit_and_step (suc a) b =
    rw (bit_and-bitwise (suc a) b, bit_and-bitwise (suc a / 2) (b / 2))
      (digits_split (λ y. 0) min a b)

pub bit_or_step : (a b : ℕ) → bit_or a b ≡ bit_or (a / 2) (b / 2) * 2 + max (a % 2) (b % 2)
bit_or_step zero b = rw (bit_or-bitwise 0 b, bit_or-bitwise 0 (b / 2)) (omega arith)
bit_or_step (suc a) b =
    rw (bit_or-bitwise (suc a) b, bit_or-bitwise (suc a / 2) (b / 2))
      (digits_split (λ y. y) max a b)

pub bit_xor_step : (a b : ℕ) → bit_xor a b ≡ bit_xor (a / 2) (b / 2) * 2 + (a % 2 + b % 2) % 2
bit_xor_step zero b = rw (bit_xor-bitwise 0 b, bit_xor-bitwise 0 (b / 2)) (omega arith)
bit_xor_step (suc a) b =
    rw (bit_xor-bitwise (suc a) b, bit_xor-bitwise (suc a / 2) (b / 2))
      (digits_split (λ y. y) differ a b
        ∙ ap (λ d. bit_xor_rest + d) (differ_lem (suc a % 2) (b % 2) (omega arith) (omega arith)))
  where
    bit_xor_rest : ℕ
    bit_xor_rest = digits (λ y. y) differ (suc a / 2) (suc a / 2) (b / 2) * 2

pub bit_xor_zero_left : (a : ℕ) → bit_xor 0 a ≡ a
bit_xor_zero_left a = bit_xor-bitwise 0 a

-- Induction with a bound `n` on the numbers stands for induction on their digits.
xor_comm_below : (n a b : ℕ) → a ≤ n → b ≤ n → bit_xor a b ≡ bit_xor b a
xor_comm_below zero zero zero p q = refl
xor_comm_below zero zero (suc b) p q = absurd (omega arith)
xor_comm_below zero (suc a) b p q = absurd (omega arith)
xor_comm_below (suc n) a b p q = omega (
  arith,
  bit_xor_step a b,
  bit_xor_step b a,
  xor_comm_below n (a / 2) (b / 2) (omega arith) (omega arith),
)

pub bit_xor_comm : (a b : ℕ) → bit_xor a b ≡ bit_xor b a
bit_xor_comm a b = xor_comm_below (a + b) a b (omega arith) (omega arith)

xor_cancel_below : (n a b : ℕ) → a ≤ n → b ≤ n → bit_xor (bit_xor a b) b ≡ a
xor_cancel_below zero zero zero p q = refl
xor_cancel_below zero zero (suc b) p q = absurd (omega arith)
xor_cancel_below zero (suc a) b p q = absurd (omega arith)
xor_cancel_below (suc n) a b p q =
    ap (λ x. bit_xor x b) (bit_xor_step a b)
    ∙ omega (
      arith,
      bit_xor_step (bit_xor (a / 2) (b / 2) * 2 + (a % 2 + b % 2) % 2) b,
      ap (λ x. bit_xor x (b / 2)) shifted,
      xor_cancel_below n (a / 2) (b / 2) (omega arith) (omega arith),
    )
  where
    shifted : (bit_xor (a / 2) (b / 2) * 2 + (a % 2 + b % 2) % 2) / 2 ≡ bit_xor (a / 2) (b / 2)
    shifted = omega arith

-- The same mask twice changes nothing.
pub bit_xor_cancel : (a b : ℕ) → bit_xor (bit_xor a b) b ≡ a
bit_xor_cancel a b = xor_cancel_below (a + b) a b (omega arith) (omega arith)

pub bit_xor_inj : (a b m : ℕ) → bit_xor a m ≡ bit_xor b m → a ≡ b
bit_xor_inj a b m e = sym (bit_xor_cancel a m) ∙ ap (λ x. bit_xor x m) e ∙ bit_xor_cancel b m

pub bit_xor-lt-pow : (k a b : ℕ) → a < 2 ^ k → b < 2 ^ k → bit_xor a b < 2 ^ k
bit_xor-lt-pow zero zero zero p q = p
bit_xor-lt-pow zero zero (suc b) p q = absurd (omega arith)
bit_xor-lt-pow zero (suc a) b p q = absurd (omega arith)
bit_xor-lt-pow (suc k) a b p q = omega (
  arith,
  pow-suc 2 k,
  bit_xor_step a b,
  bit_xor-lt-pow k (a / 2) (b / 2) (omega (arith, pow-suc 2 k)) (omega (arith, pow-suc 2 k)),
)

-- A top digit that only one number has stays.
pub pow-le-bit_xor : (k a b : ℕ) → a < 2 ^ k → 2 ^ k ≤ b → b < 2 ^ suc k → 2 ^ k ≤ bit_xor a b
pow-le-bit_xor zero zero zero p q r = absurd (omega arith)
pow-le-bit_xor zero zero (suc zero) p q r = omega (arith, bit_xor-bitwise 0 1)
pow-le-bit_xor zero zero (suc (suc b)) p q r = absurd (omega arith)
pow-le-bit_xor zero (suc a) b p q r = absurd (omega arith)
pow-le-bit_xor (suc k) a b p q r = omega (
  arith,
  pow-suc 2 k,
  bit_xor_step a b,
  pow-le-bit_xor k (a / 2) (b / 2) (omega (arith, pow-suc 2 k)) (omega (arith, pow-suc 2 k))
      (omega (arith, pow-suc 2 k, pow-suc 2 (suc k))),
)

-- Low digits under high ones: no digit meets another.
pub bit_or_disjoint : (k a b : ℕ) → a < 2 ^ k → bit_or a (b * 2 ^ k) ≡ a + b * 2 ^ k
bit_or_disjoint zero zero b p = omega (arith, bit_or-bitwise 0 (b * 1))
bit_or_disjoint zero (suc a) b p = absurd (omega arith)
bit_or_disjoint (suc k) a b p = rw doubled (
    omega (
      arith,
      bit_or_step a (b * 2 ^ k * 2),
      ap (bit_or (a / 2)) halved,
      bit_or_disjoint k (a / 2) b (omega (arith, pow-suc 2 k)),
    ))
  where
    doubled : b * 2 ^ suc k ≡ b * 2 ^ k * 2
    doubled = omega (arith, ap (λ t. b * t) (pow-suc 2 k))

    halved : b * 2 ^ k * 2 / 2 ≡ b * 2 ^ k
    halved = omega arith

-- Over a small range, check every value by evaluation.
unfoldable pub all_below : ℕ → (ℕ → Bool) → Bool
all_below zero test = true
all_below (suc k) test = all_below k test && test k

pub all_below_sound :
    (k : ℕ) (test : ℕ → Bool) (a : ℕ) → all_below k test ≡ true → a < k → test a ≡ true
unfolding all_below
all_below_sound zero test a h i = absurd (omega arith)
all_below_sound (suc k) test a h i = ground (arith, all_below_sound k test a)

-- The two halves of a byte.
low_nibble_table : all_below 256 (λ x. bit_and x 0x0F == x % 16) ≡ true
unfolding all_below
low_nibble_table = refl

pub low_nibble : (x : ℕ) → x < 256 → bit_and x 0x0F ≡ x % 16
low_nibble x h = (==_iff _ _).0 (all_below_sound 256 _ x low_nibble_table h)

high_nibble_table : all_below 256 (λ x. bit_and x 0xF0 == x / 16 * 16) ≡ true
unfolding all_below
high_nibble_table = refl

pub high_nibble : (x : ℕ) → x < 256 → bit_and x 0xF0 ≡ x / 16 * 16
high_nibble x h = (==_iff _ _).0 (all_below_sound 256 _ x high_nibble_table h)

-- A high nibble and a low one.
nibbles_table : all_below 16 (λ s. all_below 16 (λ h. bit_or (h * 16) s == h * 16 + s)) ≡ true
unfolding all_below
nibbles_table = refl

pub bit_or_nibbles : (h s : ℕ) → h < 16 → s < 16 → bit_or (h * 16) s ≡ h * 16 + s
bit_or_nibbles h s p q =
    (==_iff _ _).0 (all_below_sound 16 _ h (all_below_sound 16 _ s nibbles_table q) p)
