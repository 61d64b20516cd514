-- ===== src/Base/Bits.antt =====
-- The bitwise operators at variables: one binary digit at a time, then fields of a word.
use Prim.Native.Nat.{
  ℕ, zero, suc, ◌+◌, ◌*◌, ◌/◌, ◌%◌, ◌^◌, ◌≤◌, ◌<◌, min, max, bit_and, bit_or, digits,
  bit_and-bitwise, bit_or-bitwise,
}
use mathlib.Core.Path.{◌≡◌, refl, ap, ◌∙◌}
use mathlib.Core.Bool.{Bool, true, ◌&&◌}
use native.Mathlib.Nat.{pow-suc, le_refl}
use native.Mathlib.Omega.{arith}
use sprinter_rtl8019a.Base.Tests.{◌==◌}

-- Any fuel that covers the first number gives the same digits.
module _ (rest : ℕ → ℕ) (digit : ℕ → ℕ → ℕ) where
  digits_enough : (f g a b : ℕ) → a ≤ f → a ≤ g → digits rest digit f a b ≡ digits rest digit g a b
  digits_enough zero zero a b hf hg = refl
  digits_enough (suc f) zero zero b hf hg = refl
  digits_enough (suc f) zero (suc a) b hf hg = absurd (omega arith)
  digits_enough zero (suc g) zero b hf hg = refl
  digits_enough zero (suc g) (suc a) b hf hg = absurd (omega arith)
  digits_enough (suc f) (suc g) zero b hf hg = refl
  digits_enough (suc f) (suc g) (suc a) b hf hg =
      ap (λ d. d * 2 + digit (suc a % 2) (b % 2))
        (digits_enough f g (suc a / 2) (b / 2) (omega arith) (omega arith))

bit_and_step : (a b : ℕ) → bit_and a b ≡ bit_and (a / 2) (b / 2) * 2 + min (a % 2) (b % 2)
bit_and_step zero b = omega (arith, bit_and-bitwise 0 b, bit_and-bitwise 0 (b / 2))
bit_and_step (suc a) b = omega (
  arith,
  bit_and-bitwise (suc a) b,
  bit_and-bitwise (suc a / 2) (b / 2),
  digits_enough (λ _. zero) min a (suc a / 2) (suc a / 2) (b / 2) (omega arith) (omega arith),
)

pub bit_or_step : (a b : ℕ) → bit_or a b ≡ bit_or (a / 2) (b / 2) * 2 + max (a % 2) (b % 2)
bit_or_step zero b = omega (arith, bit_or-bitwise 0 b, bit_or-bitwise 0 (b / 2))
bit_or_step (suc a) b = omega (
  arith,
  bit_or-bitwise (suc a) b,
  bit_or-bitwise (suc a / 2) (b / 2),
  digits_enough (λ d. d) max a (suc a / 2) (suc a / 2) (b / 2) (omega arith) (omega arith),
)

-- Bit `k` of `x`, and the test `(x & (1 << k)) !== 0`.
abbrev bit_at : ℕ → ℕ → ℕ
bit_at x zero = x % 2
bit_at x (suc k) = bit_at (x / 2) k

abbrev pub has : ℕ → ℕ → Bool
has x k = bit_at x k == 1

bit_at-bit_and : (a b k : ℕ) → bit_at (bit_and a b) k ≡ min (bit_at a k) (bit_at b k)
bit_at-bit_and a b zero = omega (arith, bit_and_step a b)
bit_at-bit_and a b (suc k) = ap (λ h. bit_at h k) half ∙ bit_at-bit_and (a / 2) (b / 2) k
  where
    half : bit_and a b / 2 ≡ bit_and (a / 2) (b / 2)
    half = omega (arith, bit_and_step a b)

bit_at-bit_or : (a b k : ℕ) → bit_at (bit_or a b) k ≡ max (bit_at a k) (bit_at b k)
bit_at-bit_or a b zero = omega (arith, bit_or_step a b)
bit_at-bit_or a b (suc k) = ap (λ h. bit_at h k) half ∙ bit_at-bit_or (a / 2) (b / 2) k
  where
    half : bit_or a b / 2 ≡ bit_or (a / 2) (b / 2)
    half = omega (arith, bit_or_step a b)

bit_at-le-one : (x k : ℕ) → bit_at x k ≤ 1
bit_at-le-one x zero = omega arith
bit_at-le-one x (suc k) = bit_at-le-one (x / 2) k

-- A flag that `|=` sets is set; a masked one is set if the mask has it too.
pub has-bit_or_right : (a b k : ℕ) → has b k ≡ true → has (bit_or a b) k ≡ true
has-bit_or_right a b k h = ground (arith, bit_at-bit_or a b k, bit_at-le-one a k, bit_at-le-one b k)

pub has-bit_and : (a b k : ℕ) → has (bit_and a b) k ≡ has a k && has b k
has-bit_and a b k = ground (arith, bit_at-bit_and a b k, bit_at-le-one a k, bit_at-le-one b k)

bit_or_right_zero : (n a : ℕ) → a ≤ n → bit_or a 0 ≡ a
bit_or_right_zero zero a h = let e : a ≡ 0 = omega arith in rw e (omega (arith, bit_or-bitwise 0 0))
bit_or_right_zero (suc n) zero h = omega (arith, bit_or-bitwise 0 0)
bit_or_right_zero (suc n) (suc a) h =
    omega (arith, bit_or_step (suc a) 0, bit_or_right_zero n (suc a / 2) (omega arith))

-- `(q << k) | r`, where `r` fits the low `k` bits, is their sum.
pub bit_or_fields : (k q r : ℕ) → r < 2 ^ k → bit_or (q * 2 ^ k) r ≡ q * 2 ^ k + r
bit_or_fields zero q r h =
    let e : r ≡ 0 = omega arith in rw e (omega (arith, bit_or_right_zero (q * 2 ^ 0) (q * 2 ^ 0)))
bit_or_fields (suc k) q r h = omega (
  arith,
  bit_or_step (q * 2 ^ suc k) r,
  double,
  ap (λ (t : ℕ). bit_or t (r / 2)) half,
  bit_or_fields k q (r / 2) (omega (arith, pow-suc 2 k)),
)
  where
    double : q * 2 ^ suc k ≡ 2 * (q * 2 ^ k)
    double = omega (arith, ap (λ (t : ℕ). q * t) (pow-suc 2 k))

    half : q * 2 ^ suc k / 2 ≡ q * 2 ^ k
    half = omega (arith, double)

bit_and_right_zero : (n a : ℕ) → a ≤ n → bit_and a 0 ≡ 0
bit_and_right_zero zero a h =
    let e : a ≡ 0 = omega arith in rw e (omega (arith, bit_and-bitwise 0 0))
bit_and_right_zero (suc n) zero h = omega (arith, bit_and-bitwise 0 0)
bit_and_right_zero (suc n) (suc a) h =
    omega (arith, bit_and_step (suc a) 0, bit_and_right_zero n (suc a / 2) (omega arith))

-- A mask one digit at a time, given its half.
bit_and_even : (a b m : ℕ) → b ≡ 2 * m → bit_and a b ≡ bit_and (a / 2) m * 2
bit_and_even a b m e =
    let half : b / 2 ≡ m = omega arith in
    omega (arith, bit_and_step a b, ap (λ (t : ℕ). bit_and (a / 2) t) half)

bit_and_odd : (a b m : ℕ) → b ≡ 2 * m + 1 → bit_and a b ≡ bit_and (a / 2) m * 2 + a % 2
bit_and_odd a b m e =
    let half : b / 2 ≡ m = omega arith in
    omega (arith, bit_and_step a b, ap (λ (t : ℕ). bit_and (a / 2) t) half)

bit_and_low_byte : (x : ℕ) → bit_and x 0xff ≡ x % 256
bit_and_low_byte x = omega (
  arith,
  bit_and_right_zero _ (x / 2 / 2 / 2 / 2 / 2 / 2 / 2 / 2) (le_refl _),
  bit_and_odd x 0xff 0x7f refl,
  bit_and_odd (x / 2) 0x7f 0x3f refl,
  bit_and_odd (x / 2 / 2) 0x3f 0x1f refl,
  bit_and_odd (x / 2 / 2 / 2) 0x1f 0x0f refl,
  bit_and_odd (x / 2 / 2 / 2 / 2) 0x0f 0x07 refl,
  bit_and_odd (x / 2 / 2 / 2 / 2 / 2) 0x07 0x03 refl,
  bit_and_odd (x / 2 / 2 / 2 / 2 / 2 / 2) 0x03 0x01 refl,
  bit_and_odd (x / 2 / 2 / 2 / 2 / 2 / 2 / 2) 0x01 0x00 refl,
)

-- `w & 0xff00` keeps the high byte of a 16-bit word.
pub bit_and_high_byte : (w : ℕ) → bit_and w 0xff00 ≡ w / 256 % 256 * 256
bit_and_high_byte w = omega (
  arith,
  bit_and_low_byte (w / 2 / 2 / 2 / 2 / 2 / 2 / 2 / 2),
  bit_and_even w 0xff00 0x7f80 refl,
  bit_and_even (w / 2) 0x7f80 0x3fc0 refl,
  bit_and_even (w / 2 / 2) 0x3fc0 0x1fe0 refl,
  bit_and_even (w / 2 / 2 / 2) 0x1fe0 0x0ff0 refl,
  bit_and_even (w / 2 / 2 / 2 / 2) 0x0ff0 0x07f8 refl,
  bit_and_even (w / 2 / 2 / 2 / 2 / 2) 0x07f8 0x03fc refl,
  bit_and_even (w / 2 / 2 / 2 / 2 / 2 / 2) 0x03fc 0x01fe refl,
  bit_and_even (w / 2 / 2 / 2 / 2 / 2 / 2 / 2) 0x01fe 0x00ff refl,
)
