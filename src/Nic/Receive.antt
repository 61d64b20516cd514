-- ===== src/Nic/Receive.antt =====
-- tools/exe-harness/rtl8019-model.js, lines 316-326 and 528-579: packet RAM and the receive ring.
pub mod Fill
pub mod Pages
pub mod Store
pub mod Deliver
pub mod Account
use sprinter_rtl8019a.Base.{
  ℕ, zero, suc, ◌+◌, ◌-◌, ◌*◌, ◌/◌, ◌%◌, Bool, true, false, not, ◌&&◌, ◌||◌, List, [], ◌∷◌, ◌++◌,
  none, some, ltb, leb, ◌==◌, if◌then◌else◌, length, get_or, slice, equal, bit_or, has, u8,
  high_byte,
}
use sprinter_rtl8019a.Nic.Types.{Card, Env, isr_prx, isr_ovw}

-- A `Uint8Array` keeps the low byte of what is stored.
abbrev pub store : (ℕ → ℕ) → ℕ → ℕ → ℕ → ℕ
store ram i value j = if j == i then u8 value else ram j

-- `((page - from) % size + size) % size`, where `%` of a negative number is negative.
unfoldable pub ring_offset : ℕ → ℕ → ℕ → ℕ
ring_offset page from size =
    if leb from page then (page - from) % size else (size - (from - page) % size) % size

-- `dest.every((v) => v === 0xff)`
abbrev pub all_ones : List ℕ → Bool
all_ones [] = true
all_ones (v ∷ vs) = (v == 0xff) && all_ones vs

-- `a >= this.pstop * 256 ? this.pstart * 256 : a`
abbrev pub wrap_addr : ℕ → ℕ → ℕ → ℕ
wrap_addr pstart pstop a = if leb (pstop * 256) a then pstart * 256 else a

-- `Math.ceil(total / 256)`
abbrev pub pages_for : ℕ → ℕ
pages_for total = (total + 255) / 256

-- The header of a stored frame: status, next page, length with the CRC.
pub rx_header : List ℕ → ℕ → List ℕ
rx_header frame next_page =
    let dest = slice 0 6 frame in
    let total_len = length frame + 4 in
    bit_or 0x01 (if all_ones dest || has (get_or dest 0 0) 0 then 0x20 else 0x00)
    ∷ u8 next_page
    ∷ u8 total_len
    ∷ high_byte total_len
    ∷ []

module _ {P T : Type 0} where
  unfoldable pub ram_write_nic : Card P T → ℕ → ℕ → Card P T
  ram_write_nic c addr value =
      if leb 0x4000 addr && ltb addr 0x8000
      then record c { ram = store c.ram (addr - 0x4000) value }
      else record c { stats = record (c.stats) { oob_dma = c.stats.oob_dma + 1 } }

  -- `for (const byte of bytes) { this.ramWriteNic(addr, byte); addr = wrapAddr(addr + 1); }`
  pub write_ring : Card P T → ℕ → List ℕ → Card P T × ℕ
  write_ring c addr [] = (c, addr)
  write_ring c addr (byte ∷ bytes) =
      write_ring (ram_write_nic c addr byte) (wrap_addr c.pstart c.pstop (addr + 1)) bytes

  unfoldable pub accepts : Card P T → List ℕ → Bool
  accepts c frame =
      let dest = slice 0 6 frame in
      if has c.rcr_value 5
      then false
      else if all_ones dest
      then has c.rcr_value 2
      else if has (get_or dest 0 0) 0
      then has c.rcr_value 3 || has c.rcr_value 4
      else if has c.rcr_value 4
      then true
      else equal dest c.par

  pub filtered : Card P T → Card P T
  filtered c = record c { stats = record (c.stats) { filtered_rx = c.stats.filtered_rx + 1 } }

  -- The free pages between `curr` and `bnry`; none if they are equal.
  unfoldable pub ring_gap : Card P T → ℕ → ℕ
  ring_gap c size =
      ring_offset (ring_offset c.bnry c.pstart size) (ring_offset c.curr c.pstart size) size

  pub next_page_of : Card P T → ℕ → ℕ → ℕ
  next_page_of c size pages = c.pstart + (ring_offset c.curr c.pstart size + pages) % size

  -- Lines 575-578, once the bytes are in the ring.
  pub mark_stored : Env P T → Bool → ℕ → Card P T → Card P T
  mark_stored env loopback next_page c =
      let c1 = record c {
        curr = next_page;
        isr = bit_or c.isr isr_prx;
        rx_delivered = c.rx_delivered + 1;
      } in
      if loopback then c1 else elim (env.quirks.rx_dma_glitch) [
        | none ↦ c1
        | some g ↦ record c1 { bus = record (c1.bus) { rx_glitch_in = g.after_reads } }
      ]

  -- The frame goes into the ring at `curr`, behind its header.
  pub store_frame : Env P T → Card P T → List ℕ → Bool → ℕ → Card P T
  store_frame env c frame loopback next_page =
      let (c1, addr) = write_ring c (c.curr * 256) (rx_header frame next_page) in
      mark_stored env loopback next_page (write_ring c1 addr frame).0

  pub overflow : Card P T → Card P T
  overflow c = record c {
    isr = bit_or c.isr isr_ovw;
    rx_halted = true;
    stats = record (c.stats) { overflow_events = c.stats.overflow_events + 1 };
  }

  -- `deliverFrame(frame, { loopback })`
  pub deliver_frame : Env P T → Card P T → List ℕ → Bool → Card P T
  deliver_frame env c frame loopback =
      let size = c.pstop - c.pstart in
      let pages = pages_for (length frame + 4) in
      if not loopback && (c.rx_halted || has c.rcr_value 5 || not (accepts c frame))
      then filtered c
      else if leb c.pstop c.pstart
      then filtered c
      else if ltb (ring_gap c size) pages
      then overflow c
      else store_frame env c frame loopback (next_page_of c size pages)
