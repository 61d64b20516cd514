-- ===== src/Nic/Faults.antt =====
-- tools/exe-harness/rtl8019-model.js, lines 328-369 and 431-451: what the injected bus faults do to a
-- register-file cycle. Each returns what the faults make of the cycle, and the card with its counters.
use sprinter_rtl8019a.Base.{
  ℕ, ◌+◌, ◌-◌, ◌/◌, ◌%◌, Bool, true, false, not, ◌&&◌, ◌||◌, Option, none, some, ltb, leb, ◌==◌,
  if◌then◌else◌, set, bit_and, bit_or, bit_xor,
}
use sprinter_rtl8019a.Nic.Types.{
  Card, Env, RegPoke, BusMiss, RegReadGlitch, RxDmaGlitch, RegWriteDrop, RegWriteFlip,
}

abbrev pub matches : Option ℕ → ℕ → Bool
matches none n = true
matches (some m) n = n == m

abbrev pub below_limit : ℕ → Option ℕ → Bool
below_limit n none = true
below_limit n (some limit) = ltb n limit

-- Offsets 0x01 to 0x0f.
abbrev pub in_file : ℕ → Bool
in_file offset = leb 0x01 offset && leb offset 0x0f

-- `p2[offset]`: the defined bits of the page-2 configuration read-back.
pub page2_mask : ℕ → Option ℕ
page2_mask offset =
    if offset == 0x0c
    then some 0x3f
    else if offset == 0x0d
    then some 0x1f
    else if offset == 0x0e || offset == 0x0f
    then some 0x7f
    else none

-- `quirks.floatingBits`, lines 349-354.
pub floating_read : ℕ → ℕ → ℕ → ℕ → ℕ
floating_read page offset previous value =
    if page == 2
    then elim (page2_mask offset) [
      | none ↦ value
      | some m ↦ bit_or (bit_and value m) (bit_and previous (0xff - m))
    ]
    else if page == 0 && (offset == 0x0a || offset == 0x0b)
    then previous
    else value

-- The qualifying conditions of a dropped write, lines 437-442.
pub drop_applies : RegWriteDrop → Bool → ℕ → ℕ → ℕ → Bool
drop_applies drop stopped dropped offset value =
    (not drop.running_only || not stopped)
    && (if drop.on_cr then offset == 0x00 else not (offset == 0x00))
    && (not drop.page_switch_only || value % 64 == 0x22)
    && matches drop.offset offset
    && matches drop.value value
    && below_limit dropped drop.limit

module _ {P T : Type 0} where
  unfoldable pub poke : Option RegPoke → Card P T → Card P T
  poke none c = c
  poke (some p) c = record c {
    bus = record (c.bus) { accesses = c.bus.accesses + 1 };
    par = if c.bus.accesses + 1 == p.after_accesses then set c.par p.index p.value else c.par;
  }

  -- The tail of `_busMissed`, once the cycle falls into a burst.
  unfoldable pub miss_cycle : BusMiss → Bool → Card P T → Bool × Card P T
  miss_cycle q is_write c = if is_write && not q.both then (false, c) else (
    true,
    record c { stats = record (c.stats) { missed_cycles = c.stats.missed_cycles + 1 } },
  )

  unfoldable pub miss : Option BusMiss → Bool → Card P T → Bool × Card P T
  miss none is_write c = (false, c)
  miss (some q) is_write c =
      if q.running_only && c.stopped
      then (false, c)
      else if ltb 0 c.bus.miss_left
      then miss_cycle q is_write
          (record c { bus = record (c.bus) { miss_left = c.bus.miss_left - 1 } })
      else (let c1 = record c { bus = record (c.bus) { miss_count = c.bus.miss_count + 1 } } in
          if (c.bus.miss_count + 1) % q.every_n == 0
          then miss_cycle q is_write
              (record c1 { bus = record (c1.bus) { miss_left = q.burst - 1 } })
          else (false, c1))

  -- `_busMissed(isWrite)`
  unfoldable pub bus_missed : Env P T → Bool → Card P T → Bool × Card P T
  bus_missed env is_write c = miss env.quirks.bus_miss is_write (poke env.quirks.reg_poke c)

  -- `regReadGlitch`, lines 355-359.
  unfoldable pub glitched : Option RegReadGlitch → ℕ → ℕ → ℕ → Card P T → ℕ × Card P T
  glitched none page offset value c = (value, c)
  glitched (some g) page offset value c =
      if page == g.page && in_file offset && matches g.offset offset
      then (
        if (c.bus.glitch_reads + 1) % g.every_n == 0 then bit_xor value g.xor else value,
        record c { bus = record (c.bus) { glitch_reads = c.bus.glitch_reads + 1 } },
      )
      else (value, c)

  -- `rxDmaGlitch`, lines 364-366; the countdown is armed only if the fault is configured.
  unfoldable pub rx_glitched : Option RxDmaGlitch → ℕ → ℕ → Card P T → ℕ × Card P T
  rx_glitched quirk offset value c =
      if ltb 0 c.bus.rx_glitch_in && in_file offset
      then (
        if c.bus.rx_glitch_in - 1 == 0
            then elim quirk [ none ↦ value | some g ↦ bit_xor value g.xor ]
            else value,
        record c { bus = record (c.bus) { rx_glitch_in = c.bus.rx_glitch_in - 1 } },
      )
      else (value, c)

  -- `regWriteDrop`, lines 436-448: is the write lost?
  unfoldable pub write_dropped : Option RegWriteDrop → ℕ → ℕ → Card P T → Bool × Card P T
  write_dropped none offset value c = (false, c)
  write_dropped (some drop) offset value c =
      if leb offset 0x0f && drop_applies drop c.stopped c.stats.dropped_writes offset value
      then if ltb 0 c.bus.drop_burst_left
        then (
          true,
          record c {
            bus = record (c.bus) { drop_burst_left = c.bus.drop_burst_left - 1 };
            stats = record (c.stats) { dropped_writes = c.stats.dropped_writes + 1 };
          },
        )
        else if (c.bus.drop_writes + 1) % drop.every_n == 0
        then (
          true,
          record c {
            bus = record (c.bus) {
              drop_writes = c.bus.drop_writes + 1;
              drop_burst_left = drop.burst - 1;
            };
            stats = record (c.stats) { dropped_writes = c.stats.dropped_writes + 1 };
          },
        )
        else (false, record c { bus = record (c.bus) { drop_writes = c.bus.drop_writes + 1 } })
      else (false, c)

  -- `regWriteFlip`, lines 449-451.
  unfoldable pub flipped : Option RegWriteFlip → ℕ → ℕ → Card P T → ℕ × Card P T
  flipped none offset value c = (value, c)
  flipped (some flip) offset value c =
      if offset == flip.offset && c.cr / 64 % 4 == flip.page
      then (
        if c.bus.flip_writes + 1 == flip.nth then bit_xor value flip.xor else value,
        record c { bus = record (c.bus) { flip_writes = c.bus.flip_writes + 1 } },
      )
      else (value, c)
