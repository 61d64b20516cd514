-- ===== src/Base/Words.antt =====
-- Machine words as native numbers: masks of low bits by `%`, shifts by `/` and `*`, and the two
-- ways in which the sources put a 16-bit word together.
use Prim.Native.Nat.{ℕ, zero, suc, ◌+◌, ◌*◌, ◌/◌, ◌%◌, ◌^◌, ◌≤◌, ◌<◌, max, bit_and, bit_or}
use mathlib.Core.Path.{◌≡◌, refl, ap, ◌∙◌}
use native.Mathlib.Omega.{arith}
use sprinter_rtl8019a.Base.Bits.{bit_or_step, bit_or_fields, bit_and_high_byte}

-- `x & 0xff`, `x & 0xffff`, `x >>> 0`
abbrev pub u8 : ℕ → ℕ
u8 x = x % 256

abbrev pub u16 : ℕ → ℕ
u16 x = x % 65536

abbrev pub u32 : ℕ → ℕ
u32 x = x % 2 ^ 32

-- `(x >> 8) & 0xff`
abbrev pub high_byte : ℕ → ℕ
high_byte x = x / 256 % 256

-- `(hi << 8) | lo`
pub word_of : ℕ → ℕ → ℕ
word_of hi lo = bit_or (hi * 256) lo

pub word_of_lem : (hi lo : ℕ) → lo < 256 → word_of hi lo ≡ hi * 256 + lo
unfolding word_of
word_of_lem hi lo h = bit_or_fields 8 hi lo h

-- `(w & 0xff00) | value`
unfoldable pub set_low : ℕ → ℕ → ℕ
set_low w value = bit_or (bit_and w 0xff00) value

-- `(w & 0x00ff) | (value << 8)`
unfoldable pub set_high : ℕ → ℕ → ℕ
set_high w value = bit_or (u8 w) (value * 256)

set_low_lem : (w value : ℕ) → value < 256 → set_low w value ≡ w / 256 % 256 * 256 + value
unfolding set_low
set_low_lem w value h =
    ap (λ (t : ℕ). bit_or t value) (bit_and_high_byte w) ∙ bit_or_fields 8 (w / 256 % 256) value h

bit_or_comm_below : (n a b : ℕ) → a ≤ n → b ≤ n → bit_or a b ≡ bit_or b a
bit_or_comm_below zero a b ha hb =
    let ea : a ≡ 0 = omega arith in let eb : b ≡ 0 = omega arith in rw (ea, eb)
bit_or_comm_below (suc n) zero zero ha hb = refl
bit_or_comm_below (suc n) zero (suc b) ha hb = omega (
  arith,
  bit_or_step 0 (suc b),
  bit_or_step (suc b) 0,
  bit_or_comm_below n (0 / 2) (suc b / 2) (omega arith) (omega arith),
)
bit_or_comm_below (suc n) (suc a) zero ha hb = omega (
  arith,
  bit_or_step 0 (suc a),
  bit_or_step (suc a) 0,
  bit_or_comm_below n (suc a / 2) (0 / 2) (omega arith) (omega arith),
)
bit_or_comm_below (suc n) (suc a) (suc b) ha hb = omega (
  arith,
  bit_or_step (suc a) (suc b),
  bit_or_step (suc b) (suc a),
  bit_or_comm_below n (suc a / 2) (suc b / 2) (omega arith) (omega arith),
)

bit_or_comm : (a b : ℕ) → bit_or a b ≡ bit_or b a
bit_or_comm a b = bit_or_comm_below (max a b) a b (omega arith) (omega arith)

set_high_lem : (w value : ℕ) → set_high w value ≡ value * 256 + w % 256
unfolding set_high
set_high_lem w value =
    bit_or_comm (w % 256) (value * 256) ∙ bit_or_fields 8 value (w % 256) (omega arith)

-- The two byte writes of a 16-bit register pair, the low one first, put the word together.
pub set_low-set_high :
    (w lo hi : ℕ) → lo < 256 → hi < 256 → set_high (set_low w lo) hi ≡ hi * 256 + lo
set_low-set_high w lo hi hl hh = omega (arith, set_high_lem (set_low w lo) hi, set_low_lem w lo hl)
