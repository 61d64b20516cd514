-- ===== src/Nic/Run/Stages.antt =====
-- Each stage of a bus cycle keeps the command register and the remote DMA in order.
use sprinter_rtl8019a.Base.{ℕ, ◌≡◌, ◌∙◌, Bool, arith, none, some, ok, Option}
use sprinter_rtl8019a.Nic.Types.{
  Card, Env, Fault, stray_dma_read, stray_dma_write, RegWriteDrop, RegWriteFlip,
}
use sprinter_rtl8019a.Nic.Receive.{ram_write_nic}
use sprinter_rtl8019a.Nic.Dma.{
  read_data, read_through, write_data, write_through, dma_advance, ram_read_nic, stray_dma,
}
use sprinter_rtl8019a.Nic.Transmit.{}
use sprinter_rtl8019a.Nic.Control.{read_reset_port, write_reset_port}
use sprinter_rtl8019a.Nic.Faults.{
  poke, miss, miss_cycle, bus_missed, glitched, rx_glitched, write_dropped, flipped,
}
use sprinter_rtl8019a.Nic.Regs.{
  read_reg_raw, read_faults, write_latched, write_page0, write_page1, write_page3, count_cycle,
}
use sprinter_rtl8019a.Nic.Run.Settled.{IsSettled, HookKeeps, write_cr-IsSettled}

-- Two cards with the same command register and remote DMA.
abbrev pub SameDma : {P T : Type 0} → Card P T → Card P T → Type 0
SameDma c c' =
    (c'.cr ≡ c.cr) × (c'.dma_active ≡ c.dma_active) × (c'.dma_direction ≡ c.dma_direction)

module _ {P T : Type 0} where
  pub SameDma-IsSettled : (c c' : Card P T) → SameDma c c' → IsSettled c → IsSettled c'
  SameDma-IsSettled c c' same v = ground arith

  pub SameDma-trans : (a b c : Card P T) → SameDma a b → SameDma b c → SameDma a c
  SameDma-trans a b c p q = (q.0 ∙ p.0, q.1 ∙ p.1, q.2 ∙ p.2)

module _ {P T : Type 0} (env : Env P T) (hooked : HookKeeps env) where
  dma_advance-IsSettled : (c : Card P T) → IsSettled c → IsSettled (dma_advance c)
  unfolding dma_advance
  dma_advance-IsSettled c v = ground arith

  stray_dma-IsSettled :
      (c c' : Card P T) (f : Fault) → IsSettled c → stray_dma env f c ≡ ok c' → IsSettled c'
  unfolding stray_dma
  stray_dma-IsSettled c c' f v e = ground arith

  ram_read_nic-SameDma : (c : Card P T) (addr : ℕ) → SameDma c (ram_read_nic env c addr).1
  unfolding ram_read_nic
  ram_read_nic-SameDma c addr = ground arith

  ram_write_nic-SameDma : (c : Card P T) (addr b : ℕ) → SameDma c (ram_write_nic c addr b)
  unfolding ram_write_nic
  ram_write_nic-SameDma c addr b = ground arith

  read_through-SameDma : (c : Card P T) → SameDma c (read_through env c).1
  unfolding read_through
  read_through-SameDma c = ground (arith, ram_read_nic-SameDma c c.crda)

  write_through-SameDma : (c : Card P T) (value : ℕ) → SameDma c (write_through env c value)
  unfolding write_through ram_write_nic
  write_through-SameDma c value = ground arith

  read_data-IsSettled :
      (c c' : Card P T) (value : ℕ) → IsSettled c → read_data env c ≡ ok (value, c') → IsSettled c'
  unfolding read_data
  read_data-IsSettled c c' value v e = ground (
    arith,
    dma_advance-IsSettled (read_through env c).1
        (SameDma-IsSettled c (read_through env c).1 (read_through-SameDma c) v),
    stray_dma-IsSettled c c' stray_dma_read v,
  )

  write_data-IsSettled :
      (c c' : Card P T) (value : ℕ) → IsSettled c → write_data env c value ≡ ok c' → IsSettled c'
  unfolding write_data
  write_data-IsSettled c c' value v e = ground (
    arith,
    dma_advance-IsSettled (write_through env c value)
        (SameDma-IsSettled c (write_through env c value) (write_through-SameDma c value) v),
    stray_dma-IsSettled c c' stray_dma_write v,
  )

  pub bus_missed-SameDma :
      (c : Card P T) (is_write : Bool) → SameDma c (bus_missed env is_write c).1
  unfolding bus_missed miss miss_cycle poke
  bus_missed-SameDma c is_write = ground arith

  pub write_dropped-SameDma :
      (drop : Option RegWriteDrop) (c : Card P T) (offset value : ℕ)
      → SameDma c (write_dropped drop offset value c).1
  unfolding write_dropped
  write_dropped-SameDma none c offset value = ground arith
  write_dropped-SameDma (some drop) c offset value = ground arith

  pub flipped-SameDma :
      (flip : Option RegWriteFlip) (c : Card P T) (offset value : ℕ)
      → SameDma c (flipped flip offset value c).1
  unfolding flipped
  flipped-SameDma none c offset value = ground arith
  flipped-SameDma (some flip) c offset value = ground arith

  pub read_faults-SameDma :
      (c : Card P T) (offset previous raw : ℕ) → SameDma c (read_faults env offset previous raw c).1
  unfolding read_faults glitched rx_glitched
  read_faults-SameDma c offset previous raw = ground arith

  pub count_cycle-SameDma : (c : Card P T) (offset : ℕ) → SameDma c (count_cycle c offset)
  unfolding count_cycle
  count_cycle-SameDma c offset = ground arith

  write_page0-IsSettled :
      (c c' : Card P T) (offset value : ℕ)
      → IsSettled c
      → write_page0 c offset value ≡ ok c'
      → IsSettled c'
  unfolding write_page0
  write_page0-IsSettled c c' offset value v e = ground arith

  write_page1-IsSettled :
      (c c' : Card P T) (offset value : ℕ)
      → IsSettled c
      → write_page1 c offset value ≡ ok c'
      → IsSettled c'
  unfolding write_page1
  write_page1-IsSettled c c' offset value v e = ground arith

  write_page3-IsSettled :
      (c c' : Card P T) (offset value : ℕ)
      → IsSettled c
      → write_page3 c offset value ≡ ok c'
      → IsSettled c'
  unfolding write_page3
  write_page3-IsSettled c c' offset value v e = ground arith

  pub write_latched-IsSettled :
      (c c' : Card P T) (offset value : ℕ)
      → IsSettled c
      → write_latched env c offset value ≡ ok c'
      → IsSettled c'
  unfolding write_latched write_reset_port
  write_latched-IsSettled c c' offset value v e = ground (
    arith,
    write_cr-IsSettled env hooked c c' value v,
    write_data-IsSettled c c' value v,
    write_page0-IsSettled c c' offset value v,
    write_page1-IsSettled c c' offset value v,
    write_page3-IsSettled c c' offset value v,
  )

  pub read_reg_raw-IsSettled :
      (c c' : Card P T) (offset value : ℕ)
      → IsSettled c
      → read_reg_raw env c offset ≡ ok (value, c')
      → IsSettled c'
  unfolding read_reg_raw read_reset_port
  read_reg_raw-IsSettled c c' offset value v e = ground (arith, read_data-IsSettled c c' value v)
