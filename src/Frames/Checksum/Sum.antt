-- ===== src/Frames/Checksum/Sum.antt =====
-- The end-around carry keeps the sum of the 16-bit words modulo 65535, and is 0 only for 0.
use sprinter_rtl8019a.Base.{
  ℕ, ◌+◌, ◌-◌, ◌*◌, ◌%◌, ◌≤◌, ◌<◌, ◌≡◌, ap, ◌∙◌, List, [], ◌∷◌, arith, ◌==◌, if◌then◌else◌, IsBytes,
  word_of, word_of_lem,
}
use sprinter_rtl8019a.Frames.Checksum.{carry, sum_words, checksum}

-- The sum of the big-endian words, without any carry; a missing last byte is 0.
unfoldable pub total : List ℕ → ℕ
total [] = 0
total (a ∷ []) = a * 256
total (a ∷ b ∷ bytes) = a * 256 + b + total bytes

-- A number above 0 as its representative from 1 to 65535.
abbrev pub ones_sum : ℕ → ℕ
ones_sum n = if n == 0 then 0 else (n - 1) % 65535 + 1

carry-eq : (n : ℕ) → n ≤ 131070 → carry n ≡ ones_sum n
unfolding carry
carry-eq n h = ground arith

ones_sum-add : (a b : ℕ) → ones_sum (ones_sum a + b) ≡ ones_sum (a + b)
ones_sum-add a b = ground arith

ones_sum-le : (n : ℕ) → ones_sum n ≤ 65535
ones_sum-le n = ground arith

-- One word more, carried.
carry-word :
    (sum a b : ℕ)
    → a < 256
    → b < 256
    → carry (ones_sum sum + word_of a b) ≡ ones_sum (sum + (a * 256 + b))
carry-word sum a b ha hb =
    ap (λ w. carry (ones_sum sum + w)) (word_of_lem a b hb)
    ∙ carry-eq (ones_sum sum + (a * 256 + b)) (omega (arith, ones_sum-le sum))
    ∙ ones_sum-add sum (a * 256 + b)

sum_words-eq :
    (bytes : List ℕ) (sum : ℕ)
    → IsBytes bytes
    → sum_words (ones_sum sum) bytes ≡ ones_sum (sum + total bytes)
unfolding sum_words total
sum_words-eq [] sum h = ap ones_sum (omega arith)
sum_words-eq (a ∷ []) sum h = carry-word sum a 0 h.0 (omega arith) ∙ ap ones_sum (omega arith)
sum_words-eq (a ∷ b ∷ bytes) sum h =
    ap (λ s. sum_words s bytes) (carry-word sum a b h.0 h.1.0)
    ∙ sum_words-eq bytes (sum + (a * 256 + b)) h.1.1
    ∙ ap ones_sum (omega arith)

-- The checksum of bytes is 0xffff less the ones' complement sum of their big-endian words, where a
-- missing last byte counts as 0: the representative of the plain total modulo 65535 from 1 to 65535,
-- and 0 only for a total of 0.
pub checksum-total :
    (bytes : List ℕ) → IsBytes bytes → checksum bytes ≡ 0xffff - ones_sum (total bytes)
unfolding checksum
checksum-total bytes h = ground (arith, sum_words-eq bytes 0 h, ones_sum-le (total bytes))
