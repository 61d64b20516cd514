-- ===== src/Nic/Receive/Account.antt =====
-- What a delivered frame leaves alone, and how the counters account for it.
use sprinter_rtl8019a.Base.{ℕ, ◌+◌, ◌-◌, ◌*◌, ◌≡◌, Bool, List, [], ◌∷◌, arith, length}
use sprinter_rtl8019a.Nic.Types.{Card, Env}
use sprinter_rtl8019a.Nic.Receive.{
  wrap_addr, ram_write_nic, write_ring, rx_header, mark_stored, store_frame, deliver_frame,
  filtered, overflow, next_page_of, pages_for,
}

-- The command register, the remote DMA, the clock and the pending events are the same.
pub record SameControl {P T : Type 0} (c c' : Card P T) : Type 0 where
  pub cr : c'.cr ≡ c.cr
  pub dma_active : c'.dma_active ≡ c.dma_active
  pub dma_direction : c'.dma_direction ≡ c.dma_direction
  pub current_ms : c'.current_ms ≡ c.current_ms
  pub pending : c'.pending ≡ c.pending
  pub stopped : c'.stopped ≡ c.stopped

pub record SameCounters {P T : Type 0} (c c' : Card P T) : Type 0 where
  pub filtered_rx : c'.stats.filtered_rx ≡ c.stats.filtered_rx
  pub overflow_events : c'.stats.overflow_events ≡ c.stats.overflow_events
  pub rx_delivered : c'.rx_delivered ≡ c.rx_delivered

module _ {P T : Type 0} where
  ram_write_nic-same :
      (c : Card P T) (addr b : ℕ)
      → SameControl c (ram_write_nic c addr b) × SameCounters c (ram_write_nic c addr b)
  unfolding ram_write_nic
  ram_write_nic-same c addr b = ground arith

  write_ring-same :
      (bs : List ℕ) (c : Card P T) (addr : ℕ)
      → SameControl c (write_ring c addr bs).0 × SameCounters c (write_ring c addr bs).0
  unfolding write_ring
  write_ring-same [] c addr = ground arith
  write_ring-same (b ∷ bs) c addr = ground (
    arith,
    ram_write_nic-same c addr b,
    write_ring-same bs (ram_write_nic c addr b) (wrap_addr c.pstart c.pstop (addr + 1)),
  )

  store_frame-same :
      (env : Env P T) (c : Card P T) (frame : List ℕ) (loopback : Bool) (next_page : ℕ)
      → SameControl c (store_frame env c frame loopback next_page)
        × (let c' = store_frame env c frame loopback next_page in
            (c'.stats.filtered_rx ≡ c.stats.filtered_rx)
            × (c'.stats.overflow_events ≡ c.stats.overflow_events)
            × (c'.rx_delivered ≡ c.rx_delivered + 1))
  unfolding store_frame mark_stored
  store_frame-same env c frame loopback next_page = ground (
    arith,
    write_ring-same (rx_header frame next_page) c (c.curr * 256),
    write_ring-same frame (write_ring c (c.curr * 256) (rx_header frame next_page)).0
        (write_ring c (c.curr * 256) (rx_header frame next_page)).1,
  )

  -- A frame changes neither the command register nor the remote DMA, the clock and the events.
  pub deliver_frame-SameControl :
      (env : Env P T) (c : Card P T) (frame : List ℕ) (loopback : Bool)
      → SameControl c (deliver_frame env c frame loopback)
  unfolding deliver_frame filtered overflow
  deliver_frame-SameControl env c frame loopback = ground (
    arith,
    store_frame-same env c frame loopback
        (next_page_of c (c.pstop - c.pstart) (pages_for (length frame + 4))),
  )

  -- Every frame is accounted for once: it is stored, filtered or counted as an overflow.
  pub deliver_frame-accounted :
      (env : Env P T) (c : Card P T) (frame : List ℕ) (loopback : Bool)
      → let c' = deliver_frame env c frame loopback in
        c'.rx_delivered + c'.stats.filtered_rx + c'.stats.overflow_events
        ≡ c.rx_delivered + c.stats.filtered_rx + c.stats.overflow_events + 1
  unfolding deliver_frame filtered overflow
  deliver_frame-accounted env c frame loopback = ground (
    arith,
    store_frame-same env c frame loopback
        (next_page_of c (c.pstop - c.pstart) (pages_for (length frame + 4))),
  )
