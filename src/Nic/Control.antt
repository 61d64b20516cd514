-- ===== src/Nic/Control.antt =====
-- tools/exe-harness/rtl8019-model.js, lines 232-269: the reset port and the command register.
use sprinter_rtl8019a.Base.{
  ℕ, ◌+◌, ◌/◌, ◌%◌, true, false, ◌&&◌, ◌||◌, Result, ok, err, ◌==◌, if◌then◌else◌, bit_or, has, u8,
}
use sprinter_rtl8019a.Nic.Types.{
  Card, Env, Fault, reset_port_hang, isr_rst, isr_rdc, idle, reading, writing,
}
use sprinter_rtl8019a.Nic.Transmit.{do_transmit}

module _ {P T : Type 0} where
  unfoldable pub read_reset_port : Env P T → Card P T → Result Fault (ℕ × Card P T)
  read_reset_port env c =
      if env.quirks.hang_on_reset_port
      then err reset_port_hang
      else ok (0xff, record c { cr = 0x21; isr = bit_or c.isr isr_rst })

  -- A documented no-op.
  unfoldable pub write_reset_port : Card P T → Card P T
  write_reset_port c = c

  -- STP and STA.
  unfoldable pub stop_or_start : Env P T → Card P T → ℕ → Card P T
  stop_or_start env c value =
      if has value 0
      then record c {
        stats = record (c.stats) {
          stop_edges = if c.stopped then c.stats.stop_edges else c.stats.stop_edges + 1;
        };
        stopped = true;
        isr = if env.quirks.isr_rst_on_stop then bit_or c.isr isr_rst else c.isr;
      }
      else if has value 1 && c.stopped
      then record c { stopped = false; rx_halted = false }
      else c

  -- RD0-RD2: start a remote read or write, or abort it.
  unfoldable pub remote_command : Card P T → ℕ → Card P T
  remote_command c value =
      let rd_field = value / 8 % 8 in
      if rd_field == 1 || rd_field == 2
      then if c.rbcr == 0
        then record c {
          crda = if c.dma_active then c.crda else c.rsar;
          dma_byte_index = if c.dma_active then c.dma_byte_index else 0;
          dma_direction = idle;
          dma_active = false;
          isr = bit_or c.isr isr_rdc;
        }
        else record c {
          crda = if c.dma_active then c.crda else c.rsar;
          dma_byte_index = if c.dma_active then c.dma_byte_index else 0;
          dma_direction = if rd_field == 1 then reading else writing;
          dma_active = true;
        }
      else if rd_field == 4
      then record c { dma_active = false; dma_direction = idle }
      else c

  unfoldable pub write_cr : Env P T → Card P T → ℕ → Result Fault (Card P T)
  write_cr env c value =
      let byte = u8 value in
      let c' = remote_command (stop_or_start env (record c { cr = byte }) byte) byte in
      if has byte 2 then do_transmit env c' else ok c'
