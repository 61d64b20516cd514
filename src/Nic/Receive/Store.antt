-- ===== src/Nic/Receive/Store.antt =====
-- What `deliverFrame` leaves in packet RAM.
use sprinter_rtl8019a.Base.{
  ℕ, ◌+◌, ◌-◌, ◌*◌, ◌≤◌, ◌<◌, ◌≡◌, refl, sym, ap, ◌∙◌, Bool, List, [], ◌∷◌, ◌++◌, arith, bit_or,
}
use sprinter_rtl8019a.Nic.Types.{Card, Env, isr_prx}
use sprinter_rtl8019a.Nic.Receive.{
  store, wrap_addr, ram_write_nic, write_ring, rx_header, mark_stored, store_frame,
}
use sprinter_rtl8019a.Nic.Receive.Fill.{IsRing, InRing, fill, walk, wrap_addr-InRing, fill-append}

-- The ring registers make sense: `curr` and `bnry` are pages of a ring inside packet RAM.
pub record IsRingState {P T : Type 0} (c : Card P T) : Type 0 where
  pub ring : IsRing c.pstart c.pstop
  pub curr_low : c.pstart ≤ c.curr
  pub curr_high : c.curr < c.pstop
  pub bnry_low : c.pstart ≤ c.bnry
  pub bnry_high : c.bnry < c.pstop

walk-InRing :
    (bs : List ℕ) (pstart pstop addr : ℕ)
    → IsRing pstart pstop
    → InRing pstart pstop addr
    → InRing pstart pstop (walk pstart pstop addr bs)
walk-InRing [] pstart pstop addr ring ha = ha
walk-InRing (b ∷ bs) pstart pstop addr ring ha =
    walk-InRing bs pstart pstop _ ring (wrap_addr-InRing ring addr ha)

module _ {P T : Type 0} where
  -- Inside the ring the writes change nothing but the packet RAM.
  write_ring-eq :
      (bs : List ℕ) (c : Card P T) (addr : ℕ)
      → IsRing c.pstart c.pstop
      → InRing c.pstart c.pstop addr
      → write_ring c addr bs
        ≡ (record c { ram = fill c.ram c.pstart c.pstop addr bs }, walk c.pstart c.pstop addr bs)
  unfolding write_ring ram_write_nic
  write_ring-eq [] c addr ring ha = refl
  write_ring-eq (b ∷ bs) c addr ring ha =
      ap (λ d. write_ring d (wrap_addr c.pstart c.pstop (addr + 1)) bs) step
      ∙ write_ring-eq bs (record c { ram = store c.ram (addr - 0x4000) b })
          (wrap_addr c.pstart c.pstop (addr + 1)) ring (wrap_addr-InRing ring addr ha)
    where
      step : ram_write_nic c addr b ≡ record c { ram = store c.ram (addr - 0x4000) b }
      step = ground arith

  -- Everything that a stored frame changes, and the ring registers that it leaves.
  pub record Stored (c c' : Card P T) (frame : List ℕ) (next_page : ℕ) : Type 0 where
    pub ram :
        c'.ram ≡ fill c.ram c.pstart c.pstop (c.curr * 256) (rx_header frame next_page ++ frame)
    pub curr : c'.curr ≡ next_page
    pub pstart : c'.pstart ≡ c.pstart
    pub pstop : c'.pstop ≡ c.pstop
    pub bnry : c'.bnry ≡ c.bnry
    pub isr : c'.isr ≡ bit_or c.isr isr_prx
    pub rx_halted : c'.rx_halted ≡ c.rx_halted
    pub rx_delivered : c'.rx_delivered ≡ c.rx_delivered + 1

  Marked : Card P T → Card P T → ℕ → Type 0
  Marked c c' next_page =
      (c'.ram ≡ c.ram)
      × (c'.curr ≡ next_page)
      × (c'.pstart ≡ c.pstart)
      × (c'.pstop ≡ c.pstop)
      × (c'.bnry ≡ c.bnry)
      × (c'.isr ≡ bit_or c.isr isr_prx)
      × (c'.rx_halted ≡ c.rx_halted)
      × (c'.rx_delivered ≡ c.rx_delivered + 1)

  mark_stored-Marked :
      (env : Env P T) (loopback : Bool) (next_page : ℕ) (c : Card P T)
      → Marked c (mark_stored env loopback next_page c) next_page
  unfolding mark_stored Marked
  mark_stored-Marked env loopback next_page c = ground arith

  pub store_frame-Stored :
      (env : Env P T) (c : Card P T) (frame : List ℕ) (loopback : Bool) (next_page : ℕ)
      → IsRing c.pstart c.pstop
      → InRing c.pstart c.pstop (c.curr * 256)
      → Stored c (store_frame env c frame loopback next_page) frame next_page
  unfolding store_frame Marked
  store_frame-Stored env c frame loopback next_page ring ha =
      rw
        (
          write_ring-eq header c (c.curr * 256) ring ha,
          write_ring-eq frame (record c { ram = stored_header }) behind ring
              (walk-InRing header c.pstart c.pstop (c.curr * 256) ring ha),
        )
        (record {
          ram = m.0 ∙ sym (fill-append c.pstart c.pstop header frame c.ram (c.curr * 256));
          curr = m.1;
          pstart = m.2;
          pstop = m.3;
          bnry = m.4;
          isr = m.5;
          rx_halted = m.6;
          rx_delivered = m.7;
        })
    where
      header : List ℕ
      header = rx_header frame next_page

      stored_header : ℕ → ℕ
      stored_header = fill c.ram c.pstart c.pstop (c.curr * 256) header

      behind : ℕ
      behind = walk c.pstart c.pstop (c.curr * 256) header

      written : Card P T
      written = record c { ram = fill stored_header c.pstart c.pstop behind frame }

      m : Marked written (mark_stored env loopback next_page written) next_page
      m = mark_stored-Marked env loopback next_page written
