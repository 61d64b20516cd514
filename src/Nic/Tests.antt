-- ===== src/Nic/Tests.antt =====
-- Runs of the card of tools/exe-harness/rtl8019-model.js on concrete input.
use sprinter_rtl8019a.Base.{
  ℕ, zero, suc, ◌+◌, ◌-◌, ◌*◌, ◌<◌, ◌≡◌, refl, true, false, none, some, List, [], ◌∷◌, ◌++◌, ok,
  err, arith, replicate, inr, has, IsBytes, All,
}
use sprinter_rtl8019a.Nic.Types.{Card, Env, never, deliver}
use sprinter_rtl8019a.Nic.Prom.{Layout}
use sprinter_rtl8019a.Nic.Build.{Scenario, rtl8019as, default_quirks, new_env, new_card}
use sprinter_rtl8019a.Nic.Receive.{deliver_frame, pages_for, accepts, ring_gap, ring_offset}
use sprinter_rtl8019a.Nic.Receive.Fill.{ring_read}
use sprinter_rtl8019a.Nic.Receive.Store.{IsRingState}
use sprinter_rtl8019a.Nic.Receive.Deliver.{
  packet, gap_of, deliver_frame-stored, deliver_frame-keeps,
}
use sprinter_rtl8019a.Nic.Receive.Account.{
  SameControl, deliver_frame-SameControl, deliver_frame-accounted,
}
use sprinter_rtl8019a.Nic.Clock.{
  schedule, sort_due, ready, not_yet, perform_all, pump_scheduled, push_pending,
}
use sprinter_rtl8019a.Nic.Clock.Sort.{IsOrdered, at_time}
use sprinter_rtl8019a.Nic.Clock.Due.{pump_scheduled-frames}
use sprinter_rtl8019a.Nic.Transmit.{
  tx_frame, ram_slice, slice_index, should_fail, clear_txp, loopback_active, put_on_wire,
  finish_transmit, do_transmit,
}
use sprinter_rtl8019a.Nic.Control.{write_cr, stop_or_start, remote_command}
use sprinter_rtl8019a.Nic.Faults.{
  bus_missed, miss, poke, write_dropped, flipped, glitched, rx_glitched,
}
use sprinter_rtl8019a.Nic.Regs.{
  write_reg, write_taken, write_latched, write_page0, count_cycle, read_reg, read_answered,
  read_reg_raw, read_faults,
}
use sprinter_rtl8019a.Nic.Run.{Cycle, rd, wr, run}
use sprinter_rtl8019a.Nic.Run.Quiet.{IsQuiet}
use sprinter_rtl8019a.Nic.Run.Transfer.{put_bytes}
use sprinter_rtl8019a.Nic.Run.Upload.{upload, download, run-upload, run-upload-download}
use sprinter_rtl8019a.Nic.Run.Settled.{IsSettled, HookKeeps}
use sprinter_rtl8019a.Nic.Run.Invariant.{run-IsSettled}

abbrev plain : Scenario
plain = record {
  card_present = true;
  slot = 0;
  base = none;
  mac = none;
  variant = rtl8019as;
  quirks = default_quirks;
  prom_layout = Layout.doubled;
  prom_signature = none;
  cfg0 = none;
  cfg1 = none;
  cfg2 = none;
  cfg3 = none;
  cfg4 = none;
  poison = false;
  corrupt_dma_read_at = none;
  tx_error = never;
  rx_frames = [];
}

-- The peer sends every frame back a millisecond later.
abbrev env0 : Env Unit Unit
env0 = new_env plain (some (λ frame c. ok (schedule c 1 frame))) (λ t c. c)

abbrev card0 : Card Unit Unit
card0 = new_card plain tt

-- A ring of four pages, all but one free, and a receiver for broadcasts.
abbrev ready_card : Card Unit Unit
ready_card = record card0 {
  pstart = 0x46;
  pstop = 0x4a;
  curr = 0x49;
  bnry = 0x48;
  rcr_value = 0x04;
}

ready_card-IsRingState : IsRingState ready_card
unfolding new_card
ready_card-IsRingState = record {
  ring = record { low = omega arith; some_pages = omega arith; high = omega arith };
  curr_low = omega arith;
  curr_high = omega arith;
  bnry_low = omega arith;
  bnry_high = omega arith;
}

abbrev long_frame : List ℕ
long_frame = replicate 260 0xff

replicate-IsBytes : (n v : ℕ) → v < 256 → IsBytes (replicate n v)
replicate-IsBytes zero v h = tt
replicate-IsBytes (suc n) v h = (h, replicate-IsBytes n v h)

-- The packet wraps around the end of the ring.
deliver_frame-stored_example :
    let c' = deliver_frame env0 ready_card long_frame false in
    (ring_read c'.ram 0x46 0x4a (0x49 * 256) 264 ≡ packet long_frame c'.curr)
    × (has c'.isr 0 ≡ true)
    × (c'.rx_delivered ≡ 1)
    × (c'.bnry ≡ 0x48)
    × IsRingState c'
    × (gap_of c' + pages_for 264 ≡ gap_of ready_card)
unfolding new_card accepts ring_gap ring_offset
deliver_frame-stored_example =
    deliver_frame-stored env0 ready_card long_frame false ready_card-IsRingState
      (replicate-IsBytes 260 0xff (omega arith)) (inr (refl, refl, refl)) (omega arith)

-- The first byte of the page that is not free, at `bnry`.
deliver_frame-keeps_example :
    (deliver_frame env0 ready_card long_frame false).ram (0x4800 - 0x4000)
    ≡ ready_card.ram (0x4800 - 0x4000)
unfolding new_card
deliver_frame-keeps_example =
    deliver_frame-keeps env0 ready_card long_frame false 0x4800 ready_card-IsRingState
      (omega arith, inr (inr (omega arith, omega arith)))

deliver_frame-SameControl_example : SameControl card0 (deliver_frame env0 card0 long_frame false)
deliver_frame-SameControl_example = deliver_frame-SameControl env0 card0 long_frame false

deliver_frame-accounted_example :
    let c' = deliver_frame env0 ready_card long_frame false in
    c'.rx_delivered + c'.stats.filtered_rx + c'.stats.overflow_events
    ≡ ready_card.rx_delivered + ready_card.stats.filtered_rx + ready_card.stats.overflow_events + 1
deliver_frame-accounted_example = deliver_frame-accounted env0 ready_card long_frame false

-- Three frames, two of them due at once.
abbrev waiting_card : Card Unit Unit
waiting_card = record card0 {
  current_ms = 5;
  pending =
      record { at_ms = 5; action = deliver (1 ∷ []) }
      ∷ record { at_ms = 9; action = deliver (2 ∷ []) }
      ∷ record { at_ms = 3; action = deliver (3 ∷ []) }
      ∷ [];
}

pump_scheduled-frames_example :
    let order = sort_due (ready 5 waiting_card.pending) in
    let later = not_yet 5 waiting_card.pending in
    (pump_scheduled env0 waiting_card
      ≡ perform_all env0 (record waiting_card { pending = later }) order)
    × IsOrdered order
    × ((t : ℕ) → at_time t order ≡ at_time t (ready 5 waiting_card.pending))
    × ((pump_scheduled env0 waiting_card).pending ≡ later)
    × All (λ p. 5 < p.at_ms) later
pump_scheduled-frames_example = pump_scheduled-frames env0 waiting_card (tt, (tt, (tt, tt)))

env0-IsQuiet : IsQuiet env0
unfolding new_env
env0-IsQuiet = record {
  no_floating = refl;
  no_read_glitch = refl;
  no_rx_glitch = refl;
  no_drop = refl;
  no_miss = refl;
  no_flip = refl;
  no_poke = refl;
  no_dma_glitch = refl;
  no_dma_drop = refl;
  no_corruption = refl;
}

run-upload_example :
    (c' : Card Unit Unit) × (run env0 card0 (upload 0x4600 (7 ∷ 8 ∷ [])) ≡ ok ([], c'))
    × (c'.ram ≡ put_bytes card0.ram 0x600 (7 ∷ 8 ∷ []))
    × (c'.dma_active ≡ false)
    × (has c'.isr 6 ≡ true)
run-upload_example =
    run-upload env0-IsQuiet card0 0x4600 (7 ∷ 8 ∷ []) (λ e. absurd (omega arith)) (omega arith)
      (omega arith)

run-upload-download_example :
    (c' : Card Unit Unit) × (run env0 card0 (upload 0x4600 (7 ∷ 8 ∷ []) ++ download 0x4600 2)
      ≡ ok (7 ∷ 8 ∷ [], c'))
    × (c'.dma_active ≡ false)
    × (has c'.isr 6 ≡ true)
run-upload-download_example =
    run-upload-download env0-IsQuiet card0 0x4600 (7 ∷ 8 ∷ []) (omega arith, (omega arith, tt))
      (λ e. absurd (omega arith)) (omega arith) (omega arith)

env0-HookKeeps : HookKeeps env0
unfolding new_env schedule push_pending
env0-HookKeeps hook frame c c' o e = ground arith

card0-IsSettled : IsSettled card0
unfolding new_card
card0-IsSettled = record { txp_clear = refl; directed = refl }

-- A frame is transmitted: page 0, the ring from 0x46 to 0x80, TBCR 60, TPSR 0x40, TXP; then the command register is read.
abbrev send_cycles : List Cycle
send_cycles =
    wr 0 0x22 ∷ wr 1 0x46 ∷ wr 2 0x80 ∷ wr 5 60 ∷ wr 6 0 ∷ wr 4 0x40 ∷ wr 0 0x26 ∷ rd 0 ∷ []

abbrev sent_card : Card Unit Unit
sent_card = elim (run env0 card0 send_cycles) [ err f ↦ card0 | ok (values, c) ↦ c ]

run-IsSettled_example : IsSettled sent_card
unfolding new_env new_card run write_reg count_cycle write_taken bus_missed miss poke write_dropped
    flipped write_latched write_cr stop_or_start remote_command do_transmit tx_frame ram_slice
    slice_index should_fail clear_txp loopback_active put_on_wire finish_transmit schedule
    push_pending write_page0 read_reg read_answered read_reg_raw read_faults glitched rx_glitched
run-IsSettled_example =
    run-IsSettled env0 env0-HookKeeps send_cycles card0 sent_card (0x22 ∷ []) card0-IsSettled refl
