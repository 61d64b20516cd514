-- ===== src/Nic/Types.antt =====
-- tools/exe-harness/rtl8019-model.js, lines 6-199: the constants, the quirks that a scenario can
-- switch on, what is fixed when the card is built, and the state that its methods change.
-- `P` is the state of the protocol peers behind `onTransmit` (tools/exe-harness/net-builders.js), and
-- `T` is what a timer callback of theirs has captured.
use sprinter_rtl8019a.Base.{ℕ, Bool, Option, List, Result}

-- The interrupt status bits, by position.
abbrev pub bit_prx : ℕ
bit_prx = 0

abbrev pub bit_rdc : ℕ
bit_rdc = 6

abbrev pub isr_prx : ℕ
isr_prx = 0x01

abbrev pub isr_ptx : ℕ
isr_ptx = 0x02

abbrev pub isr_rxe : ℕ
isr_rxe = 0x04

abbrev pub isr_txe : ℕ
isr_txe = 0x08

abbrev pub isr_ovw : ℕ
isr_ovw = 0x10

abbrev pub isr_cnt : ℕ
isr_cnt = 0x20

abbrev pub isr_rdc : ℕ
isr_rdc = 0x40

abbrev pub isr_rst : ℕ
isr_rst = 0x80

-- The fault injections, one record for each object literal of `quirks`. Each `every_n` is above 0.
pub record RegReadGlitch : Type 0 where
  pub page : ℕ
  pub every_n : ℕ
  pub xor : ℕ
  pub offset : Option ℕ

pub record RxDmaGlitch : Type 0 where
  pub after_reads : ℕ
  pub xor : ℕ

-- `on_cr` is `target === 'cr'`.
pub record RegWriteDrop : Type 0 where
  pub on_cr : Bool
  pub every_n : ℕ
  pub running_only : Bool
  pub page_switch_only : Bool
  pub offset : Option ℕ
  pub value : Option ℕ
  pub limit : Option ℕ
  pub burst : ℕ

-- `both` is `kind === 'both'`.
pub record BusMiss : Type 0 where
  pub every_n : ℕ
  pub burst : ℕ
  pub both : Bool
  pub running_only : Bool

pub record RegWriteFlip : Type 0 where
  pub page : ℕ
  pub offset : ℕ
  pub nth : ℕ
  pub xor : ℕ

-- `index` is below 6.
pub record RegPoke : Type 0 where
  pub after_accesses : ℕ
  pub index : ℕ
  pub value : ℕ

pub record DmaReadGlitch : Type 0 where
  pub nth : ℕ
  pub xor : Option ℕ

pub record Quirks : Type 0 where
  pub loopback_to_ring : Bool
  pub isr_rst_on_stop : Bool
  pub open_bus_value : ℕ
  pub hang_on_reset_port : Bool
  pub floating_bits : Bool
  pub reg_read_glitch : Option RegReadGlitch
  pub rx_dma_glitch : Option RxDmaGlitch
  pub reg_write_drop : Option RegWriteDrop
  pub bus_miss : Option BusMiss
  pub reg_write_flip : Option RegWriteFlip
  pub reg_poke : Option RegPoke
  pub dma_read_glitch : Option DmaReadGlitch
  pub dma_write_drop : Option ℕ
  pub loopback_silent : Bool
  pub loopback_status_delay_ms : ℕ

-- `scenario.txError`: absent, `true`, or the list of its `attempts`.
pub data TxError : Type 0 where
  never : TxError
  always : TxError
  attempts : List ℕ → TxError

-- The throws of the model, with the offset that the message names.
pub data Fault : Type 0 where
  reset_port_hang : Fault
  stray_dma_read : Fault
  stray_dma_write : Fault
  unknown_read : ℕ → ℕ → Fault
  unknown_write : ℕ → ℕ → Fault
  word_transfer : Fault
  illegal_page2_write : ℕ → Fault
  illegal_page3_write : ℕ → Fault
  pstop_below_tpsr : Fault
  peer_fault : Fault

-- `this.dmaDirection`
pub data Direction : Type 0 where
  idle reading writing : Direction

-- An entry of `this.pending`: a frame to deliver, the status of a delayed loopback (`post` of
-- `doTransmit`, with the frame it closes over), or a timer of a peer.
pub data Action (T : Type 0) : Type 0 where
  deliver : List ℕ → Action T
  post_status : List ℕ → Action T
  timer : T → Action T

pub record Pending (T : Type 0) : Type 0 where
  pub at_ms : ℕ
  pub action : Action T

-- `this.stats`; the last three are created by their first increment.
pub record Stats : Type 0 where
  pub filtered_rx : ℕ
  pub oob_dma : ℕ
  pub overflow_events : ℕ
  pub stop_edges : ℕ
  pub page3_reads : ℕ
  pub reg_cycles : ℕ
  pub data_cycles : ℕ
  pub stray_dma : ℕ
  pub missed_cycles : ℕ
  pub dropped_writes : ℕ

-- `this.lastBus` and the counters behind the injected faults.
pub record Bus : Type 0 where
  pub last_bus : ℕ
  pub dma_reads : ℕ
  pub dma_writes : ℕ
  pub glitch_reads : ℕ
  pub rx_glitch_in : ℕ
  pub drop_writes : ℕ
  pub drop_burst_left : ℕ
  pub miss_count : ℕ
  pub miss_left : ℕ
  pub flip_writes : ℕ
  pub accesses : ℕ

-- The state of an `Rtl8019`. `ram` is indexed from 0, for the addresses from 0x4000 on.
pub record Card (P T : Type 0) : Type 0 where
  pub cr : ℕ
  pub isr : ℕ
  pub imr_value : ℕ
  pub dcr_value : ℕ
  pub tcr_value : ℕ
  pub rcr_value : ℕ
  pub pstart : ℕ
  pub pstop : ℕ
  pub bnry : ℕ
  pub tpsr_value : ℕ
  pub tbcr : ℕ
  pub rsar : ℕ
  pub rbcr : ℕ
  pub tsr : ℕ
  pub ncr : ℕ
  pub fifo : ℕ
  pub rsr : ℕ
  pub crda : ℕ
  pub par : List ℕ
  pub curr : ℕ
  pub mar : List ℕ
  pub cr9346 : ℕ
  pub bpage : ℕ
  pub csnsav : ℕ
  pub intr : ℕ
  pub dma_active : Bool
  pub dma_direction : Direction
  pub rx_halted : Bool
  pub stopped : Bool
  pub ram : ℕ → ℕ
  pub transmitted : List (List ℕ)
  pub tx_attempts : ℕ
  pub rx_delivered : ℕ
  pub stats : Stats
  pub dma_byte_index : ℕ
  pub bus : Bus
  pub current_ms : ℕ
  pub pending : List (Pending T)
  pub generated : List (List ℕ)
  pub peers : P

-- What the constructor fixes, and the two hooks: `onTransmit`, which harness.js sets, and the body
-- of a peer's timer callback.
pub record Env (P T : Type 0) : Type 0 where
  pub present : Bool
  pub slot : ℕ
  pub base : ℕ
  pub mac : List ℕ
  pub quirks : Quirks
  pub prom : List ℕ
  pub id0 : ℕ
  pub id1 : ℕ
  pub config0 : ℕ
  pub config1 : ℕ
  pub config2 : ℕ
  pub config3 : ℕ
  pub config4 : ℕ
  pub corrupt_dma_read_at : Option ℕ
  pub tx_error : TxError
  pub on_transmit : Option (List ℕ → Card P T → Result Fault (Card P T))
  pub fire : T → Card P T → Card P T
