-- ===== src/Nic/Dma.antt =====
-- tools/exe-harness/rtl8019-model.js, lines 271-321: the remote DMA data port.
use sprinter_rtl8019a.Base.{
  ℕ, ◌+◌, ◌-◌, ◌%◌, Bool, true, false, not, ◌&&◌, ◌||◌, Option, none, some, Result, ok, err, ltb,
  ◌==◌, if◌then◌else◌, is_some, length, get_or, bit_or, bit_xor, u8, u16,
}
use sprinter_rtl8019a.Nic.Types.{
  Card, Env, Direction, Fault, DmaReadGlitch, isr_rdc, idle, reading, writing, stray_dma_read,
  stray_dma_write,
}
use sprinter_rtl8019a.Nic.Receive.{ram_write_nic}

abbrev pub is_reading : Direction → Bool
is_reading reading = true
is_reading _ = false

abbrev pub is_writing : Direction → Bool
is_writing writing = true
is_writing _ = false

-- `value ^= rg.xor === undefined ? 0x01 : rg.xor`, on the `nth` read.
unfoldable pub glitch_read : Option DmaReadGlitch → ℕ → ℕ → ℕ
glitch_read none reads value = value
glitch_read (some g) reads value =
    if reads == g.nth then bit_xor value (elim (g.xor) [ none ↦ 0x01 | some x ↦ x ]) else value

-- `wd && ++this._dmaWrites === wd.nth`
unfoldable pub write_lost : Option ℕ → ℕ → Bool
write_lost none writes = false
write_lost (some nth) writes = writes == nth

-- A counter that only a configured fault advances.
abbrev pub count_if {ℓ} : {A : Type ℓ} → Option A → ℕ → ℕ
count_if none n = n
count_if (some a) n = n + 1

abbrev pub is_at : Option ℕ → ℕ → Bool
is_at none n = false
is_at (some m) n = n == m

module _ {P T : Type 0} where
  -- `_strayDma(what)`
  unfoldable pub stray_dma : Env P T → Fault → Card P T → Result Fault (Card P T)
  stray_dma env fault c =
      if not (is_some env.quirks.bus_miss) && not (is_some env.quirks.reg_write_drop)
      then err fault
      else ok (record c { stats = record (c.stats) { stray_dma = c.stats.stray_dma + 1 } })

  -- `ramReadNic(addr)`
  unfoldable pub ram_read_nic : Env P T → Card P T → ℕ → ℕ × Card P T
  ram_read_nic env c addr =
      if ltb addr 0x4000
      then (get_or env.prom (addr % length env.prom) 0, c)
      else if ltb addr 0x8000
      then (c.ram (addr - 0x4000), c)
      else (
        env.quirks.open_bus_value,
        record c { stats = record (c.stats) { oob_dma = c.stats.oob_dma + 1 } },
      )

  -- The tail that `readData` and `writeData` share: step the address, count down, complete.
  unfoldable pub dma_advance : Card P T → Card P T
  dma_advance c =
      let stepped = record c {
        dma_byte_index = c.dma_byte_index + 1;
        crda = u16 (c.crda + 1);
        rbcr = c.rbcr - 1;
      } in
      if c.rbcr - 1 == 0
      then record stepped { isr = bit_or c.isr isr_rdc; dma_active = false; dma_direction = idle }
      else stepped

  -- The byte under `crda`, with its injected corruptions.
  unfoldable pub read_through : Env P T → Card P T → ℕ × Card P T
  read_through env c =
      let (raw, c1) = ram_read_nic env c c.crda in
      let value =
        if is_at env.corrupt_dma_read_at c.dma_byte_index then bit_xor raw 0x01 else raw in
      let reads = count_if env.quirks.dma_read_glitch c1.bus.dma_reads in
      (
        glitch_read env.quirks.dma_read_glitch reads value,
        record c1 { bus = record (c1.bus) { dma_reads = reads } },
      )

  unfoldable pub read_data : Env P T → Card P T → Result Fault (ℕ × Card P T)
  read_data env c =
      if not c.dma_active || not (is_reading c.dma_direction) || c.rbcr == 0
      then elim (stray_dma env stray_dma_read c) [
        | ok c' ↦ ok (env.quirks.open_bus_value, c')
        | err f ↦ err f
      ]
      else (let (value, c') = read_through env c in ok (value, dma_advance c'))

  -- The byte goes to packet RAM, unless the write is the one that gets lost.
  unfoldable pub write_through : Env P T → Card P T → ℕ → Card P T
  write_through env c value =
      let writes = count_if env.quirks.dma_write_drop c.bus.dma_writes in
      let c1 = record c { bus = record (c.bus) { dma_writes = writes } } in
      if write_lost env.quirks.dma_write_drop writes
      then c1
      else ram_write_nic c1 c1.crda (u8 value)

  unfoldable pub write_data : Env P T → Card P T → ℕ → Result Fault (Card P T)
  write_data env c value =
      if not c.dma_active || not (is_writing c.dma_direction) || c.rbcr == 0
      then stray_dma env stray_dma_write c
      else ok (dma_advance (write_through env c value))
