-- ===== src/Nic/Transmit.antt =====
-- tools/exe-harness/rtl8019-model.js, lines 491-526: transmission, internal loopback included.
use sprinter_rtl8019a.Base.{
  ℕ, zero, suc, ◌+◌, ◌-◌, ◌*◌, Bool, true, false, not, ◌&&◌, ◌||◌, List, [], ◌∷◌, ◌++◌, none, some,
  Result, ok, err, ltb, leb, min, ◌==◌, if◌then◌else◌, bit_or, bit_and, has,
}
use sprinter_rtl8019a.Nic.Types.{
  Card, Env, Fault, TxError, never, always, attempts, post_status, isr_ptx, isr_txe, isr_cnt,
  pstop_below_tpsr,
}
use sprinter_rtl8019a.Nic.Receive.{deliver_frame}
use sprinter_rtl8019a.Nic.Clock.{push_pending, post_loopback_status}

-- `ram.slice(start, end)` counts a negative index from the end of the 16 KB: the index `a - b`.
unfoldable pub slice_index : ℕ → ℕ → ℕ
slice_index a b = if ltb a b then 0x4000 - (b - a) else min (a - b) 0x4000

unfoldable pub ram_slice : (ℕ → ℕ) → ℕ → ℕ → List ℕ
ram_slice ram start zero = []
ram_slice ram start (suc n) = ram start ∷ ram_slice ram (start + 1) n

abbrev pub includes : List ℕ → ℕ → Bool
includes [] n = false
includes (x ∷ xs) n = (x == n) || includes xs n

unfoldable pub should_fail : TxError → ℕ → Bool
should_fail never n = false
should_fail always n = true
should_fail (attempts ns) n = includes ns n

-- `cr &= ~0x04`, on a byte
unfoldable pub clear_txp : ℕ → ℕ
clear_txp cr = bit_and cr 0xfb

module _ {P T : Type 0} where
  unfoldable pub tx_frame : Card P T → List ℕ
  tx_frame c =
      let start = slice_index (c.tpsr_value * 256) 0x4000 in
      ram_slice c.ram start (slice_index (c.tpsr_value * 256 + c.tbcr) 0x4000 - start)

  unfoldable pub loopback_active : Card P T → Bool
  loopback_active c = (has c.tcr_value 1 || has c.tcr_value 2) && not (has c.dcr_value 3)

  -- The frame comes back on the card itself.
  unfoldable pub loop_back : Env P T → Card P T → List ℕ → Card P T
  loop_back env c frame =
      if env.quirks.loopback_to_ring
      then deliver_frame env c frame true
      else if env.quirks.loopback_silent
      then record c { isr = bit_or c.isr isr_cnt }
      else if env.quirks.loopback_status_delay_ms == 0
      then post_loopback_status c frame
      else push_pending c env.quirks.loopback_status_delay_ms (post_status frame)

  -- The frame leaves on the wire, and the peers answer it.
  unfoldable pub put_on_wire : Env P T → Card P T → List ℕ → Result Fault (Card P T)
  put_on_wire env c frame =
      let c1 = record c { transmitted = c.transmitted ++ (frame ∷ []) } in
      elim (env.on_transmit) [ none ↦ ok c1 | some hook ↦ hook frame c1 ]

  unfoldable pub finish_transmit : Result Fault (Card P T) → Result Fault (Card P T)
  finish_transmit (ok c) = ok (record c { cr = clear_txp c.cr })
  finish_transmit (err f) = err f

  unfoldable pub do_transmit : Env P T → Card P T → Result Fault (Card P T)
  do_transmit env c =
      let c1 = record c { tx_attempts = c.tx_attempts + 1 } in
      if leb c.pstop c.tpsr_value
      then err pstop_below_tpsr
      else if should_fail env.tx_error c1.tx_attempts
      then ok (record c1 { isr = bit_or c1.isr isr_txe; cr = clear_txp c1.cr })
      else (let frame = tx_frame c1 in
          let c2 = record c1 { isr = bit_or c1.isr isr_ptx; tsr = 0x01 } in
          finish_transmit
            (if loopback_active c1 then ok (loop_back env c2 frame) else put_on_wire env c2 frame))
