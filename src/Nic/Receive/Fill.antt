-- ===== src/Nic/Receive/Fill.antt =====
-- Writing bytes round the ring and reading them back, by address.
use sprinter_rtl8019a.Base.{
  ℕ, zero, suc, ◌+◌, ◌-◌, ◌*◌, ◌≤◌, ◌<◌, ◌≡◌, ◌≢◌, refl, ap₂, ◌∙◌, ◌⊎◌, List, [], ◌∷◌, ◌++◌, map,
  arith, leb, if◌then◌else◌, length, u8, IsBytes,
}
use sprinter_rtl8019a.Nic.Receive.{store, wrap_addr}

-- The ring between two pages of packet RAM.
pub record IsRing (pstart pstop : ℕ) : Type 0 where
  pub low : 0x40 ≤ pstart
  pub some_pages : pstart < pstop
  pub high : pstop ≤ 0x80

-- `n` bytes of the ring from `addr` on, as the remote DMA of a driver takes them out.
abbrev pub ring_read : (ℕ → ℕ) → ℕ → ℕ → ℕ → ℕ → List ℕ
ring_read ram pstart pstop addr zero = []
ring_read ram pstart pstop addr (suc n) =
    ram (addr - 0x4000) ∷ ring_read ram pstart pstop (wrap_addr pstart pstop (addr + 1)) n

-- The packet RAM after `bytes` are written from `addr` on, and the address behind them.
abbrev pub fill : (ℕ → ℕ) → ℕ → ℕ → ℕ → List ℕ → ℕ → ℕ
fill ram pstart pstop addr [] = ram
fill ram pstart pstop addr (b ∷ bs) =
    fill (store ram (addr - 0x4000) b) pstart pstop (wrap_addr pstart pstop (addr + 1)) bs

abbrev pub walk : ℕ → ℕ → ℕ → List ℕ → ℕ
walk pstart pstop addr [] = addr
walk pstart pstop addr (b ∷ bs) = walk pstart pstop (wrap_addr pstart pstop (addr + 1)) bs

-- Bytes from `addr` forward to `x`, round the ring.
abbrev distance : ℕ → ℕ → ℕ → ℕ → ℕ
distance pstart pstop addr x = if leb addr x then x - addr else x + (pstop - pstart) * 256 - addr

abbrev pub InRing : ℕ → ℕ → ℕ → Type 0
InRing pstart pstop addr = (pstart * 256 ≤ addr) × (addr < pstop * 256)

module _ {pstart pstop : ℕ} (ring : IsRing pstart pstop) where
  pub wrap_addr-InRing :
      (addr : ℕ)
      → InRing pstart pstop addr
      → InRing pstart pstop (wrap_addr pstart pstop (addr + 1))
  wrap_addr-InRing addr h = ground arith

  -- One step brings every other address one nearer.
  distance-step :
      (addr x : ℕ)
      → InRing pstart pstop addr
      → InRing pstart pstop x
      → addr ≢ x
      → distance pstart pstop addr x
        ≡ distance pstart pstop (wrap_addr pstart pstop (addr + 1)) x + 1
  distance-step addr x ha hx ne = ground arith

  distance_self :
      (addr : ℕ)
      → InRing pstart pstop addr
      → distance pstart pstop (wrap_addr pstart pstop (addr + 1)) addr + 1 ≡ (pstop - pstart) * 256
  distance_self addr ha = ground arith

  store_ne :
      (ram : ℕ → ℕ) (addr x b : ℕ)
      → InRing pstart pstop addr
      → 0x4000 ≤ x
      → addr ≢ x
      → store ram (addr - 0x4000) b (x - 0x4000) ≡ ram (x - 0x4000)
  store_ne ram addr x b ha hx ne = ground arith

  -- An address that the bytes do not reach keeps its byte.
  pub fill-miss :
      (bs : List ℕ) (ram : ℕ → ℕ) (addr x : ℕ)
      → InRing pstart pstop addr
      → InRing pstart pstop x
      → length bs ≤ distance pstart pstop addr x
      → fill ram pstart pstop addr bs (x - 0x4000) ≡ ram (x - 0x4000)
  fill-miss [] ram addr x ha hx far = refl
  fill-miss (b ∷ bs) ram addr x ha hx far =
      let ne : addr ≢ x = λ e. ground arith in
      fill-miss bs (store ram (addr - 0x4000) b) (wrap_addr pstart pstop (addr + 1)) x
        (wrap_addr-InRing addr ha) hx (omega (arith, distance-step addr x ha hx ne))
      ∙ store_ne ram addr x b ha (omega arith) ne

  -- No address outside the ring is written.
  pub fill-outside :
      (bs : List ℕ) (ram : ℕ → ℕ) (addr x : ℕ)
      → InRing pstart pstop addr
      → 0x4000 ≤ x
      → (x < pstart * 256) ⊎ (pstop * 256 ≤ x)
      → fill ram pstart pstop addr bs (x - 0x4000) ≡ ram (x - 0x4000)
  fill-outside [] ram addr x ha hx out = refl
  fill-outside (b ∷ bs) ram addr x ha hx out =
      fill-outside bs (store ram (addr - 0x4000) b) (wrap_addr pstart pstop (addr + 1)) x
        (wrap_addr-InRing addr ha) hx out
      ∙ store_ne ram addr x b ha hx (λ e. omega arith)

  -- What fits the ring is read back.
  pub ring_read-fill :
      (bs : List ℕ) (ram : ℕ → ℕ) (addr : ℕ)
      → InRing pstart pstop addr
      → length bs ≤ (pstop - pstart) * 256
      → ring_read (fill ram pstart pstop addr bs) pstart pstop addr (length bs) ≡ map u8 bs
  ring_read-fill [] ram addr ha fits = refl
  ring_read-fill (b ∷ bs) ram addr ha fits =
      ap₂ ◌∷◌
        (fill-miss bs (store ram (addr - 0x4000) b) (wrap_addr pstart pstop (addr + 1)) addr
            (wrap_addr-InRing addr ha) ha (omega (arith, distance_self addr ha))
          ∙ ground arith)
        (ring_read-fill bs (store ram (addr - 0x4000) b) (wrap_addr pstart pstop (addr + 1))
          (wrap_addr-InRing addr ha) (omega arith))

pub fill-append :
    (pstart pstop : ℕ) (xs ys : List ℕ) (ram : ℕ → ℕ) (addr : ℕ)
    → fill ram pstart pstop addr (xs ++ ys)
      ≡ fill (fill ram pstart pstop addr xs) pstart pstop (walk pstart pstop addr xs) ys
fill-append pstart pstop [] ys ram addr = refl
fill-append pstart pstop (x ∷ xs) ys ram addr = fill-append pstart pstop xs ys _ _

pub map-u8 : (xs : List ℕ) → IsBytes xs → map u8 xs ≡ xs
map-u8 [] h = refl
map-u8 (x ∷ xs) h = ap₂ ◌∷◌ (omega arith) (map-u8 xs h.1)
