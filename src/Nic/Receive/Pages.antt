-- ===== src/Nic/Receive/Pages.antt =====
-- Page arithmetic of the ring: `posOf`, the gap, and the page behind a stored frame.
use native.Mathlib.Nat.{mod-eq_of_lt, mod-eq-sub-mod}
use sprinter_rtl8019a.Base.{ℕ, ◌+◌, ◌-◌, ◌%◌, ◌≤◌, ◌<◌, ◌≡◌, arith, leb, ltb, if◌then◌else◌}
use sprinter_rtl8019a.Nic.Receive.{ring_offset}

-- Inside the ring an offset is a distance that goes round at most once.
ring_offset-eq :
    (from page size : ℕ)
    → from < size
    → page < size
    → ring_offset page from size ≡ (if leb from page then page - from else page + size - from)
unfolding ring_offset
ring_offset-eq from page size hf hp = ground (
  arith,
  mod-eq_of_lt {n = page - from} {m = size} (omega arith),
  mod-eq_of_lt {n = from - page} {m = size} (omega arith),
  mod-eq_of_lt {n = size - (from - page)} {m = size},
)

ring_offset-base :
    (pstart pstop page : ℕ)
    → pstart ≤ page
    → page < pstop
    → ring_offset page pstart (pstop - pstart) ≡ page - pstart
unfolding ring_offset
ring_offset-base pstart pstop page lo hi =
    ground (arith, mod-eq_of_lt {n = page - pstart} {m = pstop - pstart} (omega arith))

-- Pages from `curr` forward to `page`, round a ring of the pages `pstart` to `pstop`.
abbrev pub page_distance : ℕ → ℕ → ℕ → ℕ → ℕ
page_distance pstart pstop curr page =
    if leb curr page then page - curr else page + (pstop - pstart) - curr

pub ring_offset-page_distance :
    (pstart pstop curr page : ℕ)
    → pstart ≤ curr
    → curr < pstop
    → pstart ≤ page
    → page < pstop
    → ring_offset
        (ring_offset page pstart (pstop - pstart))
        (ring_offset curr pstart (pstop - pstart))
        (pstop - pstart)
      ≡ page_distance pstart pstop curr page
ring_offset-page_distance pstart pstop curr page cl ch pl ph =
    rw (ring_offset-base pstart pstop page pl ph, ring_offset-base pstart pstop curr cl ch)
      (ground (
        arith,
        ring_offset-eq (curr - pstart) (page - pstart) (pstop - pstart) (omega arith) (omega arith),
      ))

-- The page behind `pages` pages of the ring.
pub next_page_eq :
    (pstart pstop curr pages : ℕ)
    → pstart ≤ curr
    → curr < pstop
    → pages < pstop - pstart
    → pstart + (ring_offset curr pstart (pstop - pstart) + pages) % (pstop - pstart)
      ≡ (if ltb (curr + pages) pstop then curr + pages else curr + pages - (pstop - pstart))
next_page_eq pstart pstop curr pages cl ch hp = rw (ring_offset-base pstart pstop curr cl ch) (
    ground (
      arith,
      mod-eq_of_lt {n = curr - pstart + pages} {m = pstop - pstart},
      mod-eq-sub-mod {n = curr - pstart + pages} {m = pstop - pstart},
      mod-eq_of_lt {n = curr - pstart + pages - (pstop - pstart)} {m = pstop - pstart},
    ))
