-- ===== src/Nic/Receive/Deliver.antt =====
-- What `deliverFrame` promises: what it stores, and what it never touches.
use mathlib.Core.Path.{subst}
use sprinter_rtl8019a.Base.{
  ℕ, ◌+◌, ◌-◌, ◌*◌, ◌/◌, ◌≤◌, ◌<◌, ◌≡◌, refl, ap, ◌∙◌, ◌⊎◌, inl, inr, Bool, true, false, List, [],
  ◌∷◌, ◌++◌, arith, ltb, if◌then◌else◌, length, length-append, IsBytes, bit_or, has,
  has-bit_or_right, All,
}
use sprinter_rtl8019a.Nic.Types.{Card, Env, isr_prx}
use sprinter_rtl8019a.Nic.Receive.{
  pages_for, rx_header, ring_gap, next_page_of, store_frame, deliver_frame, filtered, overflow,
  accepts,
}
use sprinter_rtl8019a.Nic.Receive.Fill.{
  InRing, ring_read, fill, fill-miss, fill-outside, ring_read-fill, map-u8,
}
use sprinter_rtl8019a.Nic.Receive.Pages.{page_distance, ring_offset-page_distance, next_page_eq}
use sprinter_rtl8019a.Nic.Receive.Store.{IsRingState, Stored, store_frame-Stored}

length-rx_header : (frame : List ℕ) (next_page : ℕ) → length (rx_header frame next_page) ≡ 4
unfolding rx_header
length-rx_header frame next_page = refl

rx_header-IsBytes : (frame : List ℕ) (next_page : ℕ) → IsBytes (rx_header frame next_page)
unfolding rx_header
rx_header-IsBytes frame next_page = (status _, (omega arith, (omega arith, (omega arith, tt))))
  where
    status : (b : Bool) → bit_or 0x01 (if b then 0x20 else 0x00) < 256
    status true = omega arith
    status false = omega arith

All-append {ℓ κ} :
    {A : Type ℓ} (P : A → Type κ) (xs ys : List A) → All P xs → All P ys → All P (xs ++ ys)
All-append P [] ys hx hy = hy
All-append P (x ∷ xs) ys hx hy = (hx.0, All-append P xs ys hx.1 hy)

pages_for-cover : (n : ℕ) → n ≤ pages_for n * 256
pages_for-cover n = omega arith

-- The bytes of a stored packet, header included.
abbrev pub packet : List ℕ → ℕ → List ℕ
packet frame next_page = rx_header frame next_page ++ frame

length-packet :
    (frame : List ℕ) (next_page : ℕ) → length (packet frame next_page) ≡ length frame + 4
length-packet frame next_page =
    omega (arith, length-append (rx_header frame next_page) frame, length-rx_header frame next_page)

module _ {P T : Type 0} where
  abbrev size_of : Card P T → ℕ
  size_of c = c.pstop - c.pstart

  abbrev pub gap_of : Card P T → ℕ
  gap_of c = ring_gap c (c.pstop - c.pstart)

  gap_of-eq :
      {c : Card P T} → IsRingState c → gap_of c ≡ page_distance c.pstart c.pstop c.curr c.bnry
  unfolding ring_gap
  gap_of-eq {c} v =
      ring_offset-page_distance c.pstart c.pstop c.curr c.bnry v.curr_low v.curr_high v.bnry_low
        v.bnry_high

  -- The card takes the frame: it comes from its own loopback, or the receiver runs and the filter
  -- lets it pass.
  abbrev Takes : Card P T → List ℕ → Bool → Type 0
  Takes c frame loopback =
      (loopback ≡ true)
      ⊎ (c.rx_halted ≡ false) × (has c.rcr_value 5 ≡ false) × (accepts c frame ≡ true)

  -- There is room for the header, the frame and the CRC.
  abbrev Fits : Card P T → List ℕ → Type 0
  Fits c frame = pages_for (length frame + 4) ≤ gap_of c

  abbrev next_of : Card P T → List ℕ → ℕ
  next_of c frame = next_page_of c (size_of c) (pages_for (length frame + 4))

  deliver_frame-store :
      (env : Env P T) (c : Card P T) (frame : List ℕ) (loopback : Bool)
      → IsRingState c
      → Takes c frame loopback
      → Fits c frame
      → deliver_frame env c frame loopback ≡ store_frame env c frame loopback (next_of c frame)
  unfolding deliver_frame
  deliver_frame-store env c frame loopback v (inl e) fits = rw e (ground arith)
  deliver_frame-store env c frame loopback v (inr (h, m, a)) fits = ground arith

  next_of-eq :
      {c : Card P T} (frame : List ℕ)
      → IsRingState c
      → Fits c frame
      → next_of c frame ≡ (
          if ltb (c.curr + pages_for (length frame + 4)) c.pstop
          then c.curr + pages_for (length frame + 4)
          else c.curr + pages_for (length frame + 4) - size_of c)
  unfolding next_page_of
  next_of-eq {c} frame v fits =
      next_page_eq c.pstart c.pstop c.curr (pages_for (length frame + 4)) v.curr_low v.curr_high
        (ground (arith, gap_of-eq v, v.ring, v.bnry_low, v.bnry_high, v.curr_low, v.curr_high))

  -- What a stored frame does to the ring registers and to the packet RAM.
  module _ {c c' : Card P T} (frame : List ℕ) (v : IsRingState c) (fits : Fits c frame)
      (s : Stored c c' frame (next_of c frame)) where
    gap_lt : gap_of c < size_of c
    gap_lt = ground (arith, gap_of-eq v, v.ring, v.bnry_low, v.bnry_high, v.curr_low, v.curr_high)

    Stored-IsRingState : IsRingState c'
    Stored-IsRingState = record {
      ring = rw (s.pstart, s.pstop) v.ring;
      curr_low = rw (s.pstart, s.curr) (ground (arith, next_of-eq frame v fits, v, gap_lt));
      curr_high = rw (s.pstop, s.curr) (ground (arith, next_of-eq frame v fits, v, gap_lt));
      bnry_low = rw (s.pstart, s.bnry) v.bnry_low;
      bnry_high = rw (s.pstop, s.bnry) v.bnry_high;
    }

    Stored-gap : gap_of c' + pages_for (length frame + 4) ≡ gap_of c
    Stored-gap =
        rw (gap_of-eq Stored-IsRingState, gap_of-eq v, s.pstart, s.pstop, s.bnry, s.curr)
          (ground (arith, next_of-eq frame v fits, gap_of-eq v, v, gap_lt))

    Stored-read :
        IsBytes frame
        → ring_read c'.ram c.pstart c.pstop (c.curr * 256) (length frame + 4)
          ≡ packet frame (next_of c frame)
    Stored-read bytes =
        subst
          (λ n. ring_read c'.ram c.pstart c.pstop (c.curr * 256) n ≡ packet frame (next_of c frame))
          (length-packet frame (next_of c frame))
          (rw s.ram (
            ring_read-fill v.ring (packet frame (next_of c frame)) c.ram (c.curr * 256)
              (omega (arith, v.curr_low, v.curr_high))
              (omega (
                arith,
                length-packet frame (next_of c frame),
                pages_for-cover (length frame + 4),
                gap_lt,
              ))
            ∙ map-u8 (packet frame (next_of c frame)) (
                All-append (λ x. x < 256) (rx_header frame (next_of c frame)) frame
                  (rx_header-IsBytes frame (next_of c frame)) bytes)))

  -- A frame that the card takes and has room for is stored whole: the ring holds, from the old `curr`
  -- on, the header that names the new `curr` and the frame's bytes; PRX is set; the ring registers
  -- stay well formed, `bnry` stays, and the free pages shrink by the pages of the packet.
  pub deliver_frame-stored :
      (env : Env P T) (c : Card P T) (frame : List ℕ) (loopback : Bool)
      → IsRingState c
      → IsBytes frame
      → Takes c frame loopback
      → Fits c frame
      → let c' = deliver_frame env c frame loopback in
        (ring_read c'.ram c.pstart c.pstop (c.curr * 256) (length frame + 4) ≡ packet frame c'.curr)
        × (has c'.isr 0 ≡ true)
        × (c'.rx_delivered ≡ c.rx_delivered + 1)
        × (c'.bnry ≡ c.bnry)
        × IsRingState c'
        × (gap_of c' + pages_for (length frame + 4) ≡ gap_of c)
  deliver_frame-stored env c frame loopback v bytes takes fits =
      rw (deliver_frame-store env c frame loopback v takes fits) (
        rw s.curr (Stored-read frame v fits s bytes),
        rw s.isr (has-bit_or_right c.isr isr_prx 0 refl),
        s.rx_delivered,
        s.bnry,
        Stored-IsRingState frame v fits s,
        Stored-gap frame v fits s,
      )
    where
      next : ℕ
      next = next_of c frame

      s : Stored c (store_frame env c frame loopback next) frame next
      s =
          store_frame-Stored env c frame loopback next v.ring
            (omega (arith, v.curr_low, v.curr_high))

  -- The address lies outside the ring, or on a page of it that is not among the free pages, which go
  -- from `curr` forward to the page in front of `bnry`: the unread packets, or any page of a full ring.
  abbrev IsKept : Card P T → ℕ → Type 0
  IsKept c x =
      (0x4000 ≤ x)
      × ((x < c.pstart * 256)
          ⊎ (c.pstop * 256 ≤ x)
          ⊎ (InRing c.pstart c.pstop x
              × (page_distance c.pstart c.pstop c.curr c.bnry
                  ≤ page_distance c.pstart c.pstop c.curr (x / 256))))

  store_frame-keeps :
      (env : Env P T) (c : Card P T) (frame : List ℕ) (loopback : Bool) (x : ℕ)
      → IsRingState c
      → Fits c frame
      → IsKept c x
      → (store_frame env c frame loopback (next_of c frame)).ram (x - 0x4000) ≡ c.ram (x - 0x4000)
  store_frame-keeps env c frame loopback x v fits (low, place) =
      ap (λ r. r (x - 0x4000)) s.ram ∙ kept place
    where
      at_curr : InRing c.pstart c.pstop (c.curr * 256)
      at_curr = omega (arith, v.curr_low, v.curr_high)

      s : Stored c (store_frame env c frame loopback (next_of c frame)) frame (next_of c frame)
      s = store_frame-Stored env c frame loopback (next_of c frame) v.ring at_curr

      bytes : List ℕ
      bytes = packet frame (next_of c frame)

      kept :
          (x < c.pstart * 256)
            ⊎ (c.pstop * 256 ≤ x)
            ⊎ (InRing c.pstart c.pstop x
                × (page_distance c.pstart c.pstop c.curr c.bnry
                    ≤ page_distance c.pstart c.pstop c.curr (x / 256)))
          → fill c.ram c.pstart c.pstop (c.curr * 256) bytes (x - 0x4000) ≡ c.ram (x - 0x4000)
      kept (inl below) = fill-outside v.ring bytes c.ram (c.curr * 256) x at_curr low (inl below)
      kept (inr (inl above)) =
          fill-outside v.ring bytes c.ram (c.curr * 256) x at_curr low (inr above)
      kept (inr (inr (inside, far))) =
          fill-miss v.ring bytes c.ram (c.curr * 256) x at_curr inside (
            ground (
              arith,
              v.curr_low,
              v.curr_high,
              gap_of-eq v,
              length-packet frame (next_of c frame),
              pages_for-cover (length frame + 4),
            ))

  -- Whatever arrives and whatever branch is taken, a byte of packet RAM outside the free pages of a
  -- well-formed ring keeps its value. Free are the pages from `curr` forward, as many as lie between
  -- `curr` and `bnry`; the pages of unread packets and those outside the ring are not.
  pub deliver_frame-keeps :
      (env : Env P T) (c : Card P T) (frame : List ℕ) (loopback : Bool) (x : ℕ)
      → IsRingState c
      → IsKept c x
      → (deliver_frame env c frame loopback).ram (x - 0x4000) ≡ c.ram (x - 0x4000)
  unfolding deliver_frame filtered overflow
  deliver_frame-keeps env c frame loopback x v kept =
      ground (arith, λ (fits : Fits c frame). store_frame-keeps env c frame loopback x v fits kept)
