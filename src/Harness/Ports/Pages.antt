-- ===== src/Harness/Ports/Pages.antt =====
-- The windows of tools/exe-harness/harness.js stay within its memory, and the gate to the ISA bus is
-- open only while the system has it.
use sprinter_rtl8019a.Base.{
  ℕ, zero, suc, ◌+◌, ◌-◌, ◌/◌, ◌%◌, ◌<◌, ◌≡◌, refl, sym, true, false, not, ◌||◌, ◌&&◌, List, [],
  ◌∷◌, arith, length, length-set, get_or, set, get_or-set_self, get_or-set_ne, Result, ok, err,
  Ensures, ok-Ensures, Bool-cases, inl, inr, leb, ◌==◌, u8, u16,
}
use sprinter_rtl8019a.Nic.Types.{Card, Fault}
use sprinter_rtl8019a.Nic.Regs.{read_reg, write_reg}
use sprinter_rtl8019a.Harness.Memory.{
  Machine, Setup, Cpu, lin, rd, wr, store_byte, after_read, after_write, note_closed, new_machine,
  open_read, open_write, closed_read, closed_write,
}
use sprinter_rtl8019a.Harness.Ports.{
  io_write, map_window, write_window3, write_system, write_isa, Step, reads, writes, outputs, Steps,
  none_left, then_step,
}

-- Four windows onto pages of the memory, and no open gate without the system's hold of the bus.
pub record IsMapped {P T : Type 0} (m : Machine P T) : Type 0 where
  pub windows : length m.win ≡ 4
  pub pages : (i : ℕ) → get_or m.win i 0 < 64
  pub gated : not m.isa_open || m.system_isa ≡ true

set-pages :
    (win : List ℕ) (index page i : ℕ)
    → length win ≡ 4
    → index < 4
    → page < 64
    → ((j : ℕ) → get_or win j 0 < 64)
    → get_or (set win index page) i 0 < 64
set-pages win index page i h hi hp old = elim (Bool-cases (index == i)) [
  | inl e ↦
      (let same : index ≡ i = ground arith in
        rw (sym same) (omega (arith, get_or-set_self win index page 0 (omega arith))))
  | inr e ↦ omega (arith, get_or-set_ne win index i page 0 (ground arith), old i)
]

first_pages : (i : ℕ) → get_or (0 ∷ 1 ∷ 2 ∷ 3 ∷ []) i 0 < 64
first_pages zero = omega arith
first_pages (suc zero) = omega arith
first_pages (suc (suc zero)) = omega arith
first_pages (suc (suc (suc zero))) = omega arith
first_pages (suc (suc (suc (suc i)))) = omega arith

module _ {P T : Type 0} where
  pub lin-inside : (m : Machine P T) (a : ℕ) → IsMapped m → lin m a < 0x100000
  unfolding lin
  lin-inside m a v = omega (arith, v.pages (a / 0x4000 % 4))

  map_window-IsMapped :
      (m : Machine P T) (index page : ℕ)
      → IsMapped m
      → index < 4
      → Ensures IsMapped (map_window m index page)
  unfolding map_window
  map_window-IsMapped m index page v h = elim (Bool-cases (leb 64 page)) [
    | inl e ↦ rw e tt
    | inr e ↦ rw e (record {
      windows = omega (arith, length-set m.win index page, v.windows);
      pages = λ i. set-pages m.win index page i v.windows h (ground arith) v.pages;
      gated = v.gated;
    })
  ]

  write_window3-IsMapped :
      (m : Machine P T) (value : ℕ) → IsMapped m → Ensures IsMapped (write_window3 m value)
  unfolding write_window3
  write_window3-IsMapped m value v =
      elim (Bool-cases (m.system_isa && ((value == 0xd4) || (value == 0xd6)))) [
        | inl e ↦ simp e (record { windows = v.windows; pages = v.pages; gated = v.gated })
        | inr e ↦ simp e (map_window-IsMapped m 3 value v (omega arith))
      ]

  write_system-IsMapped :
      (m : Machine P T) (value : ℕ) → IsMapped m → Ensures IsMapped (write_system m value)
  unfolding write_system
  write_system-IsMapped m value v = elim (Bool-cases (value == 0x11)) [
    | inl e ↦ simp e (record { windows = v.windows; pages = v.pages; gated = ground arith })
    | inr e ↦ simp e (elim (Bool-cases (value == 0x01)) [
      | inl d ↦ simp d (record { windows = v.windows; pages = v.pages; gated = refl })
      | inr d ↦ simp d tt
    ])
  ]

  write_isa-IsMapped :
      (m : Machine P T) (value : ℕ) → IsMapped m → Ensures IsMapped (write_isa m value)
  unfolding write_isa
  write_isa-IsMapped m value v = elim (Bool-cases (not m.system_isa || not (value == 0))) [
    | inl e ↦ simp e tt
    | inr e ↦ simp e (record { windows = v.windows; pages = v.pages; gated = ground arith })
  ]

  io_write-IsMapped :
      (m : Machine P T) (port value : ℕ) → IsMapped m → Ensures IsMapped (io_write m port value)
  unfolding io_write
  io_write-IsMapped m port value v = ground (
    arith,
    v,
    map_window-IsMapped m 0 (u8 value) v (omega arith),
    map_window-IsMapped m 1 (u8 value) v (omega arith),
    map_window-IsMapped m 2 (u8 value) v (omega arith),
    write_window3-IsMapped m (u8 value) v,
    write_system-IsMapped m (u8 value) v,
    write_isa-IsMapped m (u8 value) v,
  )

-- Accesses to memory and to the card leave the windows and the gate alone.
module _ {P T : Type 0} where
  after_read-IsMapped :
      (m : Machine P T) (r : Result Fault (ℕ × Card P T))
      → IsMapped m
      → Ensures (λ (x : ℕ × Machine P T). IsMapped (x.1)) (after_read m r)
  after_read-IsMapped m (err f) v = tt
  after_read-IsMapped m (ok (value, card)) v = record {
    windows = v.windows;
    pages = v.pages;
    gated = v.gated;
  }

  after_write-IsMapped :
      (m : Machine P T) (r : Result Fault (Card P T))
      → IsMapped m
      → Ensures IsMapped (after_write m r)
  after_write-IsMapped m (err f) v = tt
  after_write-IsMapped m (ok card) v = record {
    windows = v.windows;
    pages = v.pages;
    gated = v.gated;
  }

  rd-IsMapped :
      (u : Setup P T) (cpu : Cpu) (m : Machine P T) (a : ℕ)
      → IsMapped m
      → Ensures (λ (x : ℕ × Machine P T). IsMapped (x.1)) (rd u cpu m a)
  unfolding rd open_read closed_read
  rd-IsMapped u cpu m a v =
      let noted : IsMapped (note_closed cpu (u16 a) false m) = record {
        windows = v.windows;
        pages = v.pages;
        gated = v.gated;
      } in
      ground (
        arith,
        v,
        noted,
        after_read-IsMapped m (read_reg u.env m.card (u16 a - (0xc000 + u.env.base))) v,
      )

  wr-IsMapped :
      (u : Setup P T) (cpu : Cpu) (m : Machine P T) (a value : ℕ)
      → IsMapped m
      → Ensures IsMapped (wr u cpu m a value)
  unfolding wr open_write closed_write store_byte
  wr-IsMapped u cpu m a value v = ground (
    arith,
    v,
    after_write-IsMapped m (write_reg u.env m.card (u16 a - (0xc000 + u.env.base)) (u8 value)) v,
  )

  Step-IsMapped : (u : Setup P T) (m m' : Machine P T) → Step u m m' → IsMapped m → IsMapped m'
  Step-IsMapped u m m' (reads cpu a value e) v =
      ok-Ensures (λ (x : ℕ × Machine P T). IsMapped (x.1)) _ _ e (rd-IsMapped u cpu m a v)
  Step-IsMapped u m m' (writes cpu a value e) v =
      ok-Ensures IsMapped _ _ e (wr-IsMapped u cpu m a value v)
  Step-IsMapped u m m' (outputs port value e) v =
      ok-Ensures IsMapped _ _ e (io_write-IsMapped m port value v)

  Steps-IsMapped : (u : Setup P T) (m m' : Machine P T) → Steps u m m' → IsMapped m → IsMapped m'
  Steps-IsMapped u m m' none_left v = v
  Steps-IsMapped u m m' (then_step {n = n} s ss) v =
      Steps-IsMapped u n m' ss (Step-IsMapped u m n s v)

  -- Whatever the CPU does on its bus without a throw, from the machine that a run starts with: the
  -- windows stay four pages of the memory, every address leads to a byte inside the 1 MB, and the gate
  -- to the ISA bus is open only while the system has the bus.
  pub Steps-inside :
      (u : Setup P T) (fill : ℕ) (card : Card P T) (m : Machine P T)
      → Steps u (new_machine fill card) m
      → IsMapped m × ((a : ℕ) → lin m a < 0x100000)
  Steps-inside u fill card m ss =
      let v =
        Steps-IsMapped u (new_machine fill card) m ss
          (record { windows = refl; pages = first_pages; gated = refl }) in
      (v, λ a. lin-inside m a v)
