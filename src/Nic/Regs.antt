-- ===== src/Nic/Regs.antt =====
-- tools/exe-harness/rtl8019-model.js, lines 343-489: reads and writes of the register file.
use sprinter_rtl8019a.Base.{
  ℕ, ◌+◌, ◌-◌, ◌/◌, ◌%◌, true, false, ◌&&◌, Result, ok, err, leb, ◌==◌, if◌then◌else◌, get_or, set,
  bit_and, has, u8, high_byte, set_low, set_high,
}
use sprinter_rtl8019a.Nic.Types.{
  Card, Env, Fault, unknown_read, unknown_write, word_transfer, illegal_page2_write,
  illegal_page3_write,
}
use sprinter_rtl8019a.Nic.Dma.{read_data, write_data}
use sprinter_rtl8019a.Nic.Control.{read_reset_port, write_reset_port, write_cr}
use sprinter_rtl8019a.Nic.Faults.{
  in_file, floating_read, bus_missed, glitched, rx_glitched, write_dropped, flipped,
}

-- `(this.cr >> 6) & 3`
abbrev pub page_of : ℕ → ℕ
page_of cr = cr / 64 % 4

module _ {P T : Type 0} where
  unfoldable pub read_page0 : Env P T → Card P T → ℕ → Result Fault ℕ
  read_page0 env c offset =
      if offset == 0x01
      then ok (u8 c.crda)
      else if offset == 0x02
      then ok (high_byte c.crda)
      else if offset == 0x03
      then ok c.bnry
      else if offset == 0x04
      then ok c.tsr
      else if offset == 0x05
      then ok c.ncr
      else if offset == 0x06
      then ok c.fifo
      else if offset == 0x07
      then ok c.isr
      else if offset == 0x08
      then ok (u8 c.crda)
      else if offset == 0x09
      then ok (high_byte c.crda)
      else if offset == 0x0a
      then ok env.id0
      else if offset == 0x0b
      then ok env.id1
      else if offset == 0x0c
      then ok c.rsr
      else if leb 0x0d offset && leb offset 0x0f
      then ok 0
      else err (unknown_read 0 offset)

  unfoldable pub read_page1 : Card P T → ℕ → Result Fault ℕ
  read_page1 c offset =
      if leb 0x01 offset && leb offset 0x06
      then ok (get_or c.par (offset - 1) 0)
      else if offset == 0x07
      then ok c.curr
      else if leb 0x08 offset && leb offset 0x0f
      then ok (get_or c.mar (offset - 8) 0)
      else err (unknown_read 1 offset)

  unfoldable pub read_page2 : Card P T → ℕ → ℕ
  read_page2 c offset =
      if offset == 0x01
      then c.pstart
      else if offset == 0x02
      then c.pstop
      else if offset == 0x04
      then c.tpsr_value
      else if offset == 0x0c
      then c.rcr_value
      else if offset == 0x0d
      then c.tcr_value
      else if offset == 0x0e
      then c.dcr_value
      else if offset == 0x0f
      then c.imr_value
      else 0xff

  unfoldable pub read_page3 : Env P T → Card P T → ℕ → ℕ
  read_page3 env c offset =
      if offset == 0x01
      then c.cr9346
      else if offset == 0x02
      then c.bpage
      else if offset == 0x03
      then env.config0
      else if offset == 0x04
      then env.config1
      else if offset == 0x05
      then env.config2
      else if offset == 0x06
      then env.config3
      else if offset == 0x08
      then c.csnsav
      else if offset == 0x0b
      then c.intr
      else if offset == 0x0d
      then env.config4
      else 0xff

  -- A read that leaves the card as it is.
  abbrev pub unchanged : Card P T → Result Fault ℕ → Result Fault (ℕ × Card P T)
  unchanged c (ok v) = ok (v, c)
  unchanged c (err f) = err f

  -- `_readRegRaw(offset)`
  unfoldable pub read_reg_raw : Env P T → Card P T → ℕ → Result Fault (ℕ × Card P T)
  read_reg_raw env c offset =
      if offset == 0x00
      then ok (c.cr, c)
      else if offset == 0x10
      then read_data env c
      else if offset == 0x1f
      then read_reset_port env c
      else if page_of c.cr == 0
      then unchanged c (read_page0 env c offset)
      else if page_of c.cr == 1
      then unchanged c (read_page1 c offset)
      else if page_of c.cr == 2
      then ok (read_page2 c offset, c)
      else ok (
        read_page3 env c offset,
        record c { stats = record (c.stats) { page3_reads = c.stats.page3_reads + 1 } },
      )

  unfoldable pub count_cycle : Card P T → ℕ → Card P T
  count_cycle c offset =
      if leb offset 0x0f
      then record c { stats = record (c.stats) { reg_cycles = c.stats.reg_cycles + 1 } }
      else record c { stats = record (c.stats) { data_cycles = c.stats.data_cycles + 1 } }

  abbrev pub on_bus : ℕ → Card P T → Card P T
  on_bus value c = record c { bus = record (c.bus) { last_bus = value } }

  -- What the faults of a bus cycle make of the value that the chip drives, lines 346-368.
  unfoldable pub read_faults : Env P T → ℕ → ℕ → ℕ → Card P T → ℕ × Card P T
  read_faults env offset previous raw c =
      let value = u8 raw in
      let page = page_of c.cr in
      let driven =
        if env.quirks.floating_bits && in_file offset
        then floating_read page offset previous value
        else value in
      let (v1, c1) = glitched env.quirks.reg_read_glitch page offset driven c in
      let (v2, c2) = rx_glitched env.quirks.rx_dma_glitch offset v1 c1 in (v2, on_bus v2 c2)

  -- The chip answers.
  unfoldable pub read_answered : Env P T → Card P T → ℕ → Result Fault (ℕ × Card P T)
  read_answered env c offset = elim (read_reg_raw env c offset) [
    | err f ↦ err f
    | ok (raw, c') ↦ ok (read_faults env offset c.bus.last_bus raw c')
  ]

  unfoldable pub read_reg : Env P T → Card P T → ℕ → Result Fault (ℕ × Card P T)
  read_reg env c offset =
      let c1 = count_cycle c offset in
      if leb offset 0x0f
      then (let (missed, c2) = bus_missed env false c1 in
          if missed then ok (c2.bus.last_bus, c2) else read_answered env c2 offset)
      else read_answered env c1 offset

  unfoldable pub write_page0 : Card P T → ℕ → ℕ → Result Fault (Card P T)
  write_page0 c offset value =
      if offset == 0x01
      then ok (record c { pstart = value })
      else if offset == 0x02
      then ok (record c { pstop = value })
      else if offset == 0x03
      then ok (record c { bnry = value })
      else if offset == 0x04
      then ok (record c { tpsr_value = value })
      else if offset == 0x05
      then ok (record c { tbcr = set_low c.tbcr value })
      else if offset == 0x06
      then ok (record c { tbcr = set_high c.tbcr value })
      else if offset == 0x07
      then ok (record c { isr = bit_and c.isr (0xff - u8 value) })
      else if offset == 0x08
      then ok (record c { rsar = set_low c.rsar value })
      else if offset == 0x09
      then ok (record c { rsar = set_high c.rsar value })
      else if offset == 0x0a
      then ok (record c { rbcr = set_low c.rbcr value })
      else if offset == 0x0b
      then ok (record c { rbcr = set_high c.rbcr value })
      else if offset == 0x0c
      then ok (record c { rcr_value = value })
      else if offset == 0x0d
      then ok (record c { tcr_value = value })
      else if offset == 0x0e
      then if has value 0 then err word_transfer else ok (record c { dcr_value = value })
      else if offset == 0x0f
      then ok (record c { imr_value = value })
      else err (unknown_write 0 offset)

  unfoldable pub write_page1 : Card P T → ℕ → ℕ → Result Fault (Card P T)
  write_page1 c offset value =
      if leb 0x01 offset && leb offset 0x06
      then ok (record c { par = set c.par (offset - 1) value })
      else if offset == 0x07
      then ok (record c { curr = value })
      else if leb 0x08 offset && leb offset 0x0f
      then ok (record c { mar = set c.mar (offset - 8) value })
      else err (unknown_write 1 offset)

  unfoldable pub write_page3 : Card P T → ℕ → ℕ → Result Fault (Card P T)
  write_page3 c offset value =
      if offset == 0x01
      then ok (record c { cr9346 = value })
      else if offset == 0x02
      then ok (record c { bpage = value })
      else err (illegal_page3_write offset)

  -- The write is latched, lines 452-488.
  unfoldable pub write_latched : Env P T → Card P T → ℕ → ℕ → Result Fault (Card P T)
  write_latched env c offset value =
      if offset == 0x00
      then write_cr env c value
      else if offset == 0x10
      then write_data env c value
      else if offset == 0x1f
      then ok (write_reset_port c)
      else if page_of c.cr == 0
      then write_page0 c offset value
      else if page_of c.cr == 1
      then write_page1 c offset value
      else if page_of c.cr == 2
      then err (illegal_page2_write offset)
      else write_page3 c offset value

  -- The chip takes part in the cycle.
  unfoldable pub write_taken : Env P T → Card P T → ℕ → ℕ → Result Fault (Card P T)
  write_taken env c offset byte =
      let (lost, c1) = write_dropped env.quirks.reg_write_drop offset byte c in
      if lost
      then ok c1
      else (let (value, c2) = flipped env.quirks.reg_write_flip offset byte c1 in
          write_latched env c2 offset value)

  unfoldable pub write_reg : Env P T → Card P T → ℕ → ℕ → Result Fault (Card P T)
  write_reg env c offset value =
      let byte = u8 value in
      let c1 = on_bus byte (count_cycle c offset) in
      if leb offset 0x0f
      then (let (missed, c2) = bus_missed env true c1 in
          if missed then ok c2 else write_taken env c2 offset byte)
      else write_taken env c1 offset byte
