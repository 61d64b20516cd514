-- ===== src/Harness/Ports/Gate.antt =====
-- The way from the CPU's accesses to the card in tools/exe-harness/harness.js, lines 98-145.
use sprinter_rtl8019a.Base.{
  ℕ, ◌+◌, ◌-◌, ◌≤◌, ◌<◌, ◌≡◌, refl, ap, ◌∙◌, true, false, ◌&&◌, List, [], ◌∷◌, arith, All, Result,
  ok, err, leb, ltb, u8, u16,
}
use sprinter_rtl8019a.Nic.Types.{Card, Fault}
use sprinter_rtl8019a.Nic.Regs.{read_reg, write_reg}
use sprinter_rtl8019a.Nic.Run.{Cycle, with_value, run}
use sprinter_rtl8019a.Harness.Memory.{
  MachineFault, card_fault, Machine, Setup, Cpu, card_answers, after_read, after_write, open_read,
  open_write, rd, wr,
}

-- The cycles of a driver as accesses through the window, from the card's first address on.
abbrev with_read :
    {P T : Type 0}
    → ℕ
    → Result MachineFault (List ℕ × Machine P T)
    → Result MachineFault (List ℕ × Machine P T)
with_read value (err f) = err f
with_read value (ok (values, m)) = ok (value ∷ values, m)

abbrev pub IsOffset : Cycle → Type 0
IsOffset (Cycle.rd offset) = offset < 0x20
IsOffset (Cycle.wr offset value) = offset < 0x20

module _ {P T : Type 0} where
  -- The gate is open for the card's slot, and the CPU has its interrupts off.
  pub record IsOpen (u : Setup P T) (cpu : Cpu) (m : Machine P T) : Type 0 where
    pub opened : m.isa_open ≡ true
    pub selected : m.selected_slot ≡ u.env.slot
    pub present : u.env.present ≡ true
    pub quiet : cpu.iff1 ≡ false
    pub room : u.env.base + 0x20 ≤ 0x4000

  unfoldable pub access :
      Setup P T → Cpu → Machine P T → List Cycle → Result MachineFault (List ℕ × Machine P T)
  access u cpu m [] = ok ([], m)
  access u cpu m (Cycle.rd offset ∷ cycles) = elim (rd u cpu m (0xc000 + u.env.base + offset)) [
    | err f ↦ err f
    | ok (value, m') ↦ with_read value (access u cpu m' cycles)
  ]
  access u cpu m (Cycle.wr offset value ∷ cycles) =
      elim (wr u cpu m (0xc000 + u.env.base + offset) value) [
        | err f ↦ err f
        | ok m' ↦ access u cpu m' cycles
      ]

  -- What the card has made of them, in the machine.
  abbrev pub in_machine :
      Machine P T → Result Fault (List ℕ × Card P T) → Result MachineFault (List ℕ × Machine P T)
  in_machine m (err f) = err (card_fault f)
  in_machine m (ok (values, c)) = ok (values, record m { card = c })

  -- The access goes to the card's aperture, and the card answers.
  module _ (u : Setup P T) (cpu : Cpu) (m : Machine P T) (offset : ℕ) (v : IsOpen u cpu m)
      (h : offset < 0x20) where
    address : ℕ
    address = 0xc000 + u.env.base + offset

    whole : u16 address ≡ address
    unfolding address
    whole = omega (arith, v.room)

    through : leb 0xc000 address && m.isa_open ≡ true
    unfolding address
    through = ground (arith, v.opened)

    aimed : leb (0xc000 + u.env.base) address && ltb offset 0x20 ≡ true
    unfolding address
    aimed = ground arith

    answering : card_answers u m ≡ true
    answering = ground (arith, v.selected, v.present)

    offset_eq : address - (0xc000 + u.env.base) ≡ offset
    unfolding address
    offset_eq = omega arith

    rd-open : rd u cpu m address ≡ after_read m (read_reg u.env m.card offset)
    unfolding rd open_read
    rd-open = simp (whole, through, aimed, v.quiet, answering, offset_eq)

    wr-open :
        (value : ℕ)
        → wr u cpu m address value ≡ after_write m (write_reg u.env m.card offset (u8 value))
    unfolding wr open_write
    wr-open value = simp (whole, through, aimed, v.quiet, answering, offset_eq)

  -- A register takes the low byte of what is written, so that cutting it before makes no difference.
  write_reg-u8 :
      (u : Setup P T) (c : Card P T) (offset value : ℕ)
      → write_reg u.env c offset (u8 value) ≡ write_reg u.env c offset value
  unfolding write_reg
  write_reg-u8 u c offset value = let e : u8 (u8 value) ≡ u8 value = omega arith in simp e

  access-after_read :
      (u : Setup P T) (cpu : Cpu) (m : Machine P T) (cycles : List Cycle)
      (r : Result Fault (ℕ × Card P T))
      → ((c : Card P T)
          → access u cpu (record m { card = c }) cycles ≡ in_machine m (run u.env c cycles))
      → (elim (after_read m r) as (λ _. Result MachineFault (List ℕ × Machine P T)) [
        | err f ↦ err f
        | ok (value, m') ↦ with_read value (access u cpu m' cycles)
      ])
        ≡ in_machine m (elim r as (λ _. Result Fault (List ℕ × Card P T)) [
          | err f ↦ err f
          | ok (value, c) ↦ with_value value (run u.env c cycles)
        ])
  access-after_read u cpu m cycles (err f) later = refl
  access-after_read u cpu m cycles (ok (value, c)) later =
      ap (with_read value) (later c) ∙ valued (run u.env c cycles)
    where
      valued :
          (r : Result Fault (List ℕ × Card P T))
          → with_read value (in_machine m r) ≡ in_machine m (with_value value r)
      valued (err f) = refl
      valued (ok (values, d)) = refl

  access-after_write :
      (u : Setup P T) (cpu : Cpu) (m : Machine P T) (cycles : List Cycle)
      (r : Result Fault (Card P T))
      → ((c : Card P T)
          → access u cpu (record m { card = c }) cycles ≡ in_machine m (run u.env c cycles))
      → (elim (after_write m r) as (λ _. Result MachineFault (List ℕ × Machine P T)) [
        | err f ↦ err f
        | ok m' ↦ access u cpu m' cycles
      ])
        ≡ in_machine m (elim r as (λ _. Result Fault (List ℕ × Card P T)) [
          | err f ↦ err f
          | ok c ↦ run u.env c cycles
        ])
  access-after_write u cpu m cycles (err f) later = refl
  access-after_write u cpu m cycles (ok c) later = later c

  -- Through the open window, with the card's slot selected and the interrupts off, the accesses of the
  -- CPU to the card's addresses are exactly the cycles of the card: the same values, the same throw or
  -- the same card in the end, and nothing else of the machine changes.
  pub access-run :
      (u : Setup P T) (cpu : Cpu) (m : Machine P T) (cycles : List Cycle)
      → IsOpen u cpu m
      → All IsOffset cycles
      → access u cpu m cycles ≡ in_machine m (run u.env m.card cycles)
  unfolding access run address
  access-run u cpu m [] v h = refl
  access-run u cpu m (Cycle.rd offset ∷ cycles) v h =
      ap
        (λ (r : Result MachineFault (ℕ × Machine P T)).
          elim r as (λ _. Result MachineFault (List ℕ × Machine P T)) [
            | err f ↦ err f
            | ok (value, m') ↦ with_read value (access u cpu m' cycles)
          ])
        (rd-open u cpu m offset v (h.0))
      ∙ access-after_read u cpu m cycles (read_reg u.env m.card offset) λ c.
        access-run u cpu (record m { card = c }) cycles
          (record {
            opened = v.opened;
            selected = v.selected;
            present = v.present;
            quiet = v.quiet;
            room = v.room;
          })
          (h.1)
  access-run u cpu m (Cycle.wr offset value ∷ cycles) v h =
      ap
        (λ (r : Result MachineFault (Machine P T)).
          elim r as (λ _. Result MachineFault (List ℕ × Machine P T)) [
            | err f ↦ err f
            | ok m' ↦ access u cpu m' cycles
          ])
        (wr-open u cpu m offset v (h.0) value
          ∙ ap (after_write m) (write_reg-u8 u m.card offset value))
      ∙ access-after_write u cpu m cycles (write_reg u.env m.card offset value) λ c.
        access-run u cpu (record m { card = c }) cycles
          (record {
            opened = v.opened;
            selected = v.selected;
            present = v.present;
            quiet = v.quiet;
            room = v.room;
          })
          (h.1)
