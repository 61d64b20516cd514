-- ===== src/Frames/Checksum/Valid.antt =====
-- A receiver that sums a region with its checksum in place gets 0.
use sprinter_rtl8019a.Base.{
  ℕ, zero, suc, ◌+◌, ◌-◌, ◌*◌, ◌/◌, ◌%◌, ◌<◌, ◌≡◌, ap, ◌∙◌, List, [], ◌∷◌, arith, IsBytes, length,
  set, get_or, slice, take_of_le, length-set, get_or-set_ne, get_or-set_self, put, put-inside, ap₂,
  u8,
}
use sprinter_rtl8019a.Frames.Checksum.{checksum, put_checksum}
use sprinter_rtl8019a.Frames.Checksum.Sum.{total, checksum-total}

-- Two assignments inside an array.
put-put :
    (bytes : List ℕ) (field hi lo : ℕ)
    → field + 1 < length bytes
    → put 0 (put 0 bytes field hi) (field + 1) lo ≡ set (set bytes field hi) (suc field) lo
put-put bytes field hi lo inside =
    let next : field + 1 ≡ suc field = omega arith in
    ap₂ (λ r i. put 0 r i lo) (put-inside 0 bytes field hi (omega arith)) next
    ∙ put-inside 0 (set bytes field hi) (suc field) lo (omega (arith, length-set bytes field hi))

set-IsBytes : (bytes : List ℕ) (i v : ℕ) → IsBytes bytes → v < 256 → IsBytes (set bytes i v)
set-IsBytes [] i v h hv = tt
set-IsBytes (x ∷ bytes) zero v h hv = (hv, h.1)
set-IsBytes (x ∷ bytes) (suc i) v h hv = (h.0, set-IsBytes bytes i v h.1 hv)

-- At an even field the two bytes are a word of the sum.
total-set_word :
    (bytes : List ℕ) (field hi lo : ℕ)
    → field % 2 ≡ 0
    → field + 1 < length bytes
    → total (set (set bytes field hi) (suc field) lo)
        + (get_or bytes field 0 * 256 + get_or bytes (suc field) 0)
      ≡ total bytes + (hi * 256 + lo)
unfolding total
total-set_word [] field hi lo even inside = absurd (omega arith)
total-set_word (a ∷ []) field hi lo even inside = absurd (omega arith)
total-set_word (a ∷ b ∷ bytes) zero hi lo even inside = omega arith
total-set_word (a ∷ b ∷ bytes) (suc zero) hi lo even inside = absurd (omega arith)
total-set_word (a ∷ b ∷ bytes) (suc (suc field)) hi lo even inside =
    omega (arith, total-set_word bytes field hi lo (omega arith) (omega arith))

module _ (bytes : List ℕ) (field : ℕ) (good : IsBytes bytes) (even : field % 2 ≡ 0)
    (inside : field + 1 < length bytes) where
  cleared : List ℕ
  cleared = set (set bytes field 0) (suc field) 0

  cleared-IsBytes : IsBytes cleared
  unfolding cleared
  cleared-IsBytes =
      set-IsBytes (set bytes field 0) (suc field) 0 (set-IsBytes bytes field 0 good (omega arith))
        (omega arith)

  length-cleared : length cleared ≡ length bytes
  unfolding cleared
  length-cleared = length-set (set bytes field 0) (suc field) 0 ∙ length-set bytes field 0

  value : ℕ
  value = checksum cleared

  filled : List ℕ
  filled = set (set cleared field (value / 256)) (suc field) (u8 value)

  put_checksum-eq : put_checksum bytes 0 (length bytes) field ≡ filled
  unfolding put_checksum filled value cleared
  put_checksum-eq =
      let start : put 0 (put 0 bytes field 0) (field + 1) 0 ≡ cleared =
        put-put bytes field 0 0 inside in
      let whole : slice 0 (0 + length bytes) cleared ≡ cleared =
        take_of_le (0 + length bytes - 0) cleared (omega (arith, length-cleared)) in
      (rw (start, whole))
      ∙ put-put cleared field (checksum cleared / 256) (u8 (checksum cleared))
          (omega (arith, length-cleared))

  filled-IsBytes : IsBytes filled
  unfolding filled value
  filled-IsBytes =
      set-IsBytes (set cleared field (checksum cleared / 256)) (suc field) (u8 (checksum cleared))
        (set-IsBytes cleared field (checksum cleared / 256) cleared-IsBytes
          (omega (arith, checksum-total cleared cleared-IsBytes)))
        (omega arith)

  zero_field : (get_or cleared field 0 ≡ 0) × (get_or cleared (suc field) 0 ≡ 0)
  unfolding cleared
  zero_field = (
    get_or-set_ne (set bytes field 0) (suc field) field 0 0 (λ e. absurd (omega arith))
        ∙ get_or-set_self bytes field 0 0 (omega arith),
    get_or-set_self (set bytes field 0) (suc field) 0 0 (omega (arith, length-set bytes field 0)),
  )

  total-filled : total filled ≡ total cleared + value
  unfolding filled
  total-filled = omega (
    arith,
    total-set_word cleared field (value / 256) (u8 value) even (omega (arith, length-cleared)),
    zero_field,
  )

  checksum-filled : checksum filled ≡ 0
  unfolding value
  checksum-filled =
      checksum-total filled filled-IsBytes
      ∙ ground (arith, total-filled, checksum-total cleared cleared-IsBytes)

-- In an array of bytes with an even, inside field, `put_checksum` over the whole array keeps the
-- length, and a receiver that sums the result, the field included, gets 0.
pub put_checksum-valid :
    (bytes : List ℕ) (field : ℕ)
    → IsBytes bytes
    → field % 2 ≡ 0
    → field + 1 < length bytes
    → (checksum (put_checksum bytes 0 (length bytes) field) ≡ 0)
      × (length (put_checksum bytes 0 (length bytes) field) ≡ length bytes)
unfolding filled
put_checksum-valid bytes field good even inside =
    let e = put_checksum-eq bytes field good even inside in
    let c = length-cleared bytes field good even inside in
    (
      ap checksum e ∙ checksum-filled bytes field good even inside,
      ap length e ∙ length-set _ _ _ ∙ length-set _ _ _ ∙ c,
    )
