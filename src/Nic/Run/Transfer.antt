-- ===== src/Nic/Run/Transfer.antt =====
-- Remote DMA over the bus: what a driver uploads to packet RAM it can download again.
use sprinter_rtl8019a.Base.{
  ℕ, zero, suc, ◌+◌, ◌-◌, ◌≤◌, ◌<◌, ◌≡◌, ◌≢◌, refl, ap, ap₂, ◌∙◌, true, false, List, [], ◌∷◌, ok,
  arith, length, u8, has, has-bit_or_right, IsBytes,
}
use sprinter_rtl8019a.Nic.Types.{Card, Env, reading, writing, isr_rdc}
use sprinter_rtl8019a.Nic.Receive.{store, ram_write_nic}
use sprinter_rtl8019a.Nic.Dma.{
  read_data, read_through, write_data, write_through, dma_advance, ram_read_nic, glitch_read,
  write_lost,
}
use sprinter_rtl8019a.Nic.Regs.{read_reg, write_reg, write_latched, count_cycle, on_bus}
use sprinter_rtl8019a.Nic.Run.Quiet.{IsQuiet, write_reg-quiet, read_data-quiet}

-- Packet RAM after the bytes are put there in order.
abbrev pub put_bytes : (ℕ → ℕ) → ℕ → List ℕ → ℕ → ℕ
put_bytes ram i [] = ram
put_bytes ram i (b ∷ bs) = put_bytes (store ram i (u8 b)) (i + 1) bs

-- `n` bytes of packet RAM in order.
abbrev pub get_bytes : (ℕ → ℕ) → ℕ → ℕ → List ℕ
get_bytes ram i zero = []
get_bytes ram i (suc n) = u8 (ram i) ∷ get_bytes ram (i + 1) n

put_bytes-before : (bs : List ℕ) (ram : ℕ → ℕ) (i j : ℕ) → j < i → put_bytes ram i bs j ≡ ram j
put_bytes-before [] ram i j h = refl
put_bytes-before (b ∷ bs) ram i j h =
    put_bytes-before bs (store ram i (u8 b)) (i + 1) j (omega arith) ∙ ground arith

pub get_bytes-put_bytes :
    (bs : List ℕ) (ram : ℕ → ℕ) (i : ℕ)
    → IsBytes bs
    → get_bytes (put_bytes ram i bs) i (length bs) ≡ bs
get_bytes-put_bytes [] ram i h = refl
get_bytes-put_bytes (b ∷ bs) ram i h =
    ap₂ ◌∷◌
      (ap u8 (put_bytes-before bs (store ram i (u8 b)) (i + 1) i (omega arith)) ∙ ground arith)
      (get_bytes-put_bytes bs (store ram i (u8 b)) (i + 1) h.1)

module _ {P T : Type 0} {env : Env P T} (q : IsQuiet env) where
  -- One byte goes through the port to packet RAM.
  pub record Moved (c c' : Card P T) (left : ℕ) (ram : ℕ → ℕ) : Type 0 where
    pub ram_is : c'.ram ≡ ram
    pub stepped : c'.crda ≡ c.crda + 1
    pub counted : c'.rbcr ≡ left
    same_cr : c'.cr ≡ c.cr
    pub same_direction : left ≢ 0 → c'.dma_direction ≡ c.dma_direction
    pub goes_on : left ≢ 0 → c'.dma_active ≡ true
    pub completes : left ≡ 0 → (c'.dma_active ≡ false) × (has c'.isr 6 ≡ true)

  dma_advance-Moved :
      (c : Card P T) (left : ℕ)
      → c.rbcr ≡ suc left
      → c.crda < 0x8000
      → c.dma_active ≡ true
      → Moved c (dma_advance c) left c.ram
  unfolding dma_advance
  dma_advance-Moved c left e h a = ground (arith, has-bit_or_right c.isr isr_rdc 6 refl)

  pub write_byte :
      (c : Card P T) (b left : ℕ)
      → c.dma_active ≡ true
      → c.dma_direction ≡ writing
      → c.rbcr ≡ suc left
      → 0x4000 ≤ c.crda
      → c.crda < 0x8000
      → (c' : Card P T) × (write_reg env c 0x10 b ≡ ok c')
        × Moved c c' left (store c.ram (c.crda - 0x4000) (u8 b))
  unfolding write_latched write_data write_through ram_write_nic count_cycle write_lost
  write_byte c b left active direction count low high = (
    dma_advance stored,
    equation,
    record {
      ram_is = m.ram_is ∙ ap (store c.ram (c.crda - 0x4000)) (omega arith);
      stepped = m.stepped;
      counted = m.counted;
      same_cr = m.same_cr;
      same_direction = m.same_direction;
      goes_on = m.goes_on;
      completes = m.completes;
    },
  )
    where
      arrived : Card P T
      arrived = on_bus (u8 b) (count_cycle c 0x10)

      stored : Card P T
      stored = record arrived { ram = store c.ram (c.crda - 0x4000) (u8 (u8 b)) }

      m : Moved stored (dma_advance stored) left stored.ram
      m = dma_advance-Moved stored left count high active

      equation : write_reg env c 0x10 b ≡ ok (dma_advance stored)
      equation = rw (write_reg-quiet q c 0x10 b, q.no_dma_drop) (ground arith)

  -- One byte comes back through the port.
  pub read_byte :
      (c : Card P T) (left : ℕ)
      → c.dma_active ≡ true
      → c.dma_direction ≡ reading
      → c.rbcr ≡ suc left
      → 0x4000 ≤ c.crda
      → c.crda < 0x8000
      → (c' : Card P T) × (read_reg env c 0x10 ≡ ok (u8 (c.ram (c.crda - 0x4000)), c'))
        × Moved c c' left c.ram
  unfolding read_data read_through ram_read_nic count_cycle glitch_read
  read_byte c left active direction count low high = (
    on_bus value (dma_advance arrived),
    equation,
    record {
      ram_is = m.ram_is;
      stepped = m.stepped;
      counted = m.counted;
      same_cr = m.same_cr;
      same_direction = m.same_direction;
      goes_on = m.goes_on;
      completes = m.completes;
    },
  )
    where
      value : ℕ
      value = u8 (c.ram (c.crda - 0x4000))

      arrived : Card P T
      arrived = count_cycle c 0x10

      m : Moved arrived (dma_advance arrived) left arrived.ram
      m = dma_advance-Moved arrived left count high active

      equation : read_reg env c 0x10 ≡ ok (value, on_bus value (dma_advance arrived))
      equation = rw (read_data-quiet q c, q.no_dma_glitch, q.no_corruption) (ground arith)
