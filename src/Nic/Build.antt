-- ===== src/Nic/Build.antt =====
-- tools/exe-harness/rtl8019-model.js, lines 42-199: the constructor.
use sprinter_rtl8019a.Base.{
  or_default, ℕ, Bool, true, false, Option, none, List, [], ◌∷◌, map, Result, ◌==◌, if◌then◌else◌,
  replicate,
}
use sprinter_rtl8019a.Nic.Types.{Card, Env, Quirks, TxError, Fault, deliver, idle, Stats, Bus}
use sprinter_rtl8019a.Nic.Prom.{Layout, build_prom}

pub data Variant : Type 0 where
  rtl8019as um9003 : Variant

-- The fields of a scenario that the card reads. An absent field that has a default is `none`.
pub record Scenario : Type 0 where
  pub card_present : Bool
  pub slot : ℕ
  pub base : Option ℕ
  pub mac : Option (List ℕ)
  pub variant : Variant
  pub quirks : Quirks
  pub prom_layout : Layout
  pub prom_signature : Option ℕ
  pub cfg0 : Option ℕ
  pub cfg1 : Option ℕ
  pub cfg2 : Option ℕ
  pub cfg3 : Option ℕ
  pub cfg4 : Option ℕ
  pub poison : Bool
  pub corrupt_dma_read_at : Option ℕ
  pub tx_error : TxError
  pub rx_frames : List (ℕ × List ℕ)

unfoldable pub default_mac : List ℕ
default_mac = 0x02 ∷ 0x80 ∷ 0x19 ∷ 0x11 ∷ 0x22 ∷ 0x33 ∷ []

abbrev pub id_of : Variant → ℕ × ℕ
id_of rtl8019as = (0x50, 0x70)
id_of um9003 = (0x20, 0x01)

-- The defaults of an empty `quirks`.
abbrev pub default_quirks : Quirks
default_quirks = record {
  loopback_to_ring = true;
  isr_rst_on_stop = false;
  open_bus_value = 0xff;
  hang_on_reset_port = false;
  floating_bits = false;
  reg_read_glitch = none;
  rx_dma_glitch = none;
  reg_write_drop = none;
  bus_miss = none;
  reg_write_flip = none;
  reg_poke = none;
  dma_read_glitch = none;
  dma_write_drop = none;
  loopback_silent = false;
  loopback_status_delay_ms = 0;
}

abbrev zero_stats : Stats
zero_stats = record {
  filtered_rx = 0;
  oob_dma = 0;
  overflow_events = 0;
  stop_edges = 0;
  page3_reads = 0;
  reg_cycles = 0;
  data_cycles = 0;
  stray_dma = 0;
  missed_cycles = 0;
  dropped_writes = 0;
}

abbrev first_bus : Bus
first_bus = record {
  last_bus = 0xff;
  dma_reads = 0;
  dma_writes = 0;
  glitch_reads = 0;
  rx_glitch_in = 0;
  drop_writes = 0;
  drop_burst_left = 0;
  miss_count = 0;
  miss_left = 0;
  flip_writes = 0;
  accesses = 0;
}

module _ {P T : Type 0} where
  unfoldable pub new_env :
      Scenario
      → Option (List ℕ → Card P T → Result Fault (Card P T))
      → (T → Card P T → Card P T)
      → Env P T
  unfolding default_mac
  new_env s on_transmit fire =
      let mac = or_default s.mac default_mac in
      record {
        present = s.card_present;
        slot = if s.slot == 0 then 0 else 1;
        base = or_default s.base 0x300;
        mac = mac;
        quirks = s.quirks;
        prom = build_prom mac s.prom_layout (or_default s.prom_signature 0x57);
        id0 = (id_of s.variant).0;
        id1 = (id_of s.variant).1;
        config0 = or_default s.cfg0 0x00;
        config1 = or_default s.cfg1 0x80;
        config2 = or_default s.cfg2 0x00;
        config3 = or_default s.cfg3 0x00;
        config4 = or_default s.cfg4 0x00;
        corrupt_dma_read_at = s.corrupt_dma_read_at;
        tx_error = s.tx_error;
        on_transmit = on_transmit;
        fire = fire;
      }

  unfoldable pub new_card : Scenario → P → Card P T
  unfolding default_mac
  new_card s peers = record {
    cr = 0x21;
    isr = 0;
    imr_value = 0;
    dcr_value = 0;
    tcr_value = 0;
    rcr_value = 0;
    pstart = 0;
    pstop = 0;
    bnry = 0;
    tpsr_value = 0;
    tbcr = 0;
    rsar = 0;
    rbcr = 0;
    tsr = 0;
    ncr = 0;
    fifo = 0;
    rsr = 0;
    crda = 0;
    par = or_default s.mac default_mac;
    curr = 0;
    mar = replicate 8 0;
    cr9346 = 0;
    bpage = 0;
    csnsav = 0;
    intr = 0;
    dma_active = false;
    dma_direction = idle;
    rx_halted = false;
    stopped = false;
    ram = λ _. if s.poison then 0xaa else 0;
    transmitted = [];
    tx_attempts = 0;
    rx_delivered = 0;
    stats = zero_stats;
    dma_byte_index = 0;
    bus = first_bus;
    current_ms = 0;
    pending = map (λ f. record { at_ms = f.0; action = deliver f.1 }) s.rx_frames;
    generated = [];
    peers = peers;
  }
