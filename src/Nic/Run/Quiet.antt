-- ===== src/Nic/Run/Quiet.antt =====
-- A bus without injected faults.
use sprinter_rtl8019a.Base.{ℕ, ◌≡◌, false, none, ok, err, u8, arith}
use sprinter_rtl8019a.Nic.Types.{Card, Env}
use sprinter_rtl8019a.Nic.Dma.{read_data}
use sprinter_rtl8019a.Nic.Faults.{
  poke, miss, bus_missed, glitched, rx_glitched, write_dropped, flipped,
}
use sprinter_rtl8019a.Nic.Regs.{
  read_reg, write_reg, read_answered, write_taken, write_latched, read_reg_raw, read_faults,
  count_cycle, on_bus,
}

-- No fault of the register file or of the data port is configured.
pub record IsQuiet {P T : Type 0} (env : Env P T) : Type 0 where
  pub no_floating : env.quirks.floating_bits ≡ false
  pub no_read_glitch : env.quirks.reg_read_glitch ≡ none
  pub no_rx_glitch : env.quirks.rx_dma_glitch ≡ none
  pub no_drop : env.quirks.reg_write_drop ≡ none
  pub no_miss : env.quirks.bus_miss ≡ none
  pub no_flip : env.quirks.reg_write_flip ≡ none
  pub no_poke : env.quirks.reg_poke ≡ none
  pub no_dma_glitch : env.quirks.dma_read_glitch ≡ none
  pub no_dma_drop : env.quirks.dma_write_drop ≡ none
  pub no_corruption : env.corrupt_dma_read_at ≡ none

module _ {P T : Type 0} {env : Env P T} (q : IsQuiet env) where
  pub write_reg-quiet :
      (c : Card P T) (offset value : ℕ)
      → write_reg env c offset value
        ≡ write_latched env (on_bus (u8 value) (count_cycle c offset)) offset (u8 value)
  unfolding write_reg write_taken bus_missed miss poke write_dropped flipped
  write_reg-quiet c offset value = rw (q.no_miss, q.no_poke, q.no_drop, q.no_flip) (ground arith)

  -- The data port is not part of the register file, so no countdown of a fault moves.
  pub read_data-quiet :
      (c : Card P T)
      → read_reg env c 0x10 ≡ (elim (read_data env (count_cycle c 0x10)) [
        | err f ↦ err f
        | ok (raw, c') ↦ ok (u8 raw, on_bus (u8 raw) c')
      ])
  unfolding read_reg read_answered read_reg_raw read_faults glitched rx_glitched
  read_data-quiet c = rw (q.no_floating, q.no_read_glitch, q.no_rx_glitch) (ground arith)
