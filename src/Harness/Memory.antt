-- ===== src/Harness/Memory.antt =====
-- tools/exe-harness/harness.js, lines 56-145 and 255-269: the paged memory, the ISA window to the
-- card, and the texts that the DSS calls read and write.
pub mod Strings
use sprinter_rtl8019a.Base.{
  ℕ, zero, suc, ◌+◌, ◌-◌, ◌*◌, ◌/◌, ◌%◌, Bool, true, false, not, ◌&&◌, ◌||◌, Option, none, some,
  List, [], ◌∷◌, ◌++◌, ltb, leb, ◌==◌, if◌then◌else◌, get_or, u8, u16, Result, ok, err,
}
use sprinter_rtl8019a.Nic.Types.{Card, Env, Fault}
use sprinter_rtl8019a.Nic.Regs.{read_reg, write_reg}

-- The throws: those of the card, and the harness's own with the numbers that their texts name.
pub data MachineFault : Type 0 where
  card_fault : Fault → MachineFault
  interrupts_enabled : MachineFault
  closed_window : ℕ → MachineFault
  unknown_io_read : ℕ → MachineFault
  unknown_io_write : ℕ → ℕ → MachineFault
  page_beyond : ℕ → ℕ → MachineFault
  unknown_system_value : ℕ → MachineFault
  isa_mapping : MachineFault
  unterminated_string : MachineFault
  invalid_exe_header : MachineFault
  unsupported_header_size : ℕ → MachineFault
  entry_mismatch : MachineFault
  image_too_large : MachineFault
  command_line_too_long : MachineFault
  unknown_block : ℕ → MachineFault
  page_past_block : ℕ → ℕ → MachineFault

-- An entry of `closedChipAccesses`.
pub record ClosedAccess : Type 0 where
  pub address : ℕ
  pub pc : ℕ
  pub is_write : Bool

-- What `cpu.getState()` tells of the CPU.
pub record Cpu : Type 0 where
  pub iff1 : Bool
  pub pc : ℕ

-- The variables of `runExe` that memory accesses and ports change. `mem` is indexed by the linear
-- address, below 0x100000.
pub record Machine (P T : Type 0) : Type 0 where
  pub mem : ℕ → ℕ
  pub win : List ℕ
  pub system_isa : Bool
  pub isa_open : Bool
  pub selected_slot : ℕ
  pub closed_accesses : List ClosedAccess
  pub card : Card P T

-- The machine that a run starts with, for a memory that is filled with `fill`.
abbrev pub new_machine : {P T : Type 0} → ℕ → Card P T → Machine P T
new_machine fill card = record {
  mem = λ i. fill;
  win = 0 ∷ 1 ∷ 2 ∷ 3 ∷ [];
  system_isa = false;
  isa_open = false;
  selected_slot = 0;
  closed_accesses = [];
  card = card;
}

-- What is fixed in a run: the card's environment, and `strictClosedChipAccess`.
pub record Setup (P T : Type 0) : Type 0 where
  pub env : Env P T
  pub strict : Bool

module _ {P T : Type 0} where
  unfoldable pub lin : Machine P T → ℕ → ℕ
  lin m a = get_or m.win (a / 0x4000 % 4) 0 * 0x4000 + a % 0x4000

  -- `inChipAperture`, and `off` inside of it.
  abbrev pub in_chip_aperture : Setup P T → ℕ → Bool
  in_chip_aperture u address =
      leb (0xc000 + u.env.base) address && ltb (address - (0xc000 + u.env.base)) 0x20

  abbrev pub card_answers : Setup P T → Machine P T → Bool
  card_answers u m = (m.selected_slot == u.env.slot) && u.env.present

  -- A byte of memory, whatever is mapped there.
  unfoldable pub store_byte : Machine P T → ℕ → ℕ → Machine P T
  store_byte m address value = record m { mem = λ i. if i == lin m address then value else m.mem i }

  -- Consecutive bytes of memory, without a look at the ISA window, as the loading stores them.
  unfoldable pub store_bytes : Machine P T → ℕ → List ℕ → Machine P T
  store_bytes m a [] = m
  store_bytes m a (b ∷ bytes) = store_bytes (store_byte m a b) (a + 1) bytes

  abbrev pub note_closed : Cpu → ℕ → Bool → Machine P T → Machine P T
  note_closed cpu address is_write m = record m {
    closed_accesses =
        m.closed_accesses ++ (record { address = address; pc = cpu.pc; is_write = is_write } ∷ []);
  }

  -- What the card has answered to a read, and to a write.
  abbrev pub after_read :
      Machine P T → Result Fault (ℕ × Card P T) → Result MachineFault (ℕ × Machine P T)
  after_read m (err f) = err (card_fault f)
  after_read m (ok (value, card)) = ok (value, record m { card = card })

  abbrev pub after_write : Machine P T → Result Fault (Card P T) → Result MachineFault (Machine P T)
  after_write m (err f) = err (card_fault f)
  after_write m (ok card) = ok (record m { card = card })

  unfoldable pub open_read :
      Setup P T → Cpu → Machine P T → ℕ → Result MachineFault (ℕ × Machine P T)
  open_read u cpu m address =
      if not (in_chip_aperture u address)
      then ok (u.env.quirks.open_bus_value, m)
      else if cpu.iff1
      then err interrupts_enabled
      else if card_answers u m
      then after_read m (read_reg u.env m.card (address - (0xc000 + u.env.base)))
      else ok (u.env.quirks.open_bus_value, m)

  unfoldable pub open_write :
      Setup P T → Cpu → Machine P T → ℕ → ℕ → Result MachineFault (Machine P T)
  open_write u cpu m address value =
      if not (in_chip_aperture u address)
      then ok m
      else if cpu.iff1
      then err interrupts_enabled
      else if card_answers u m
      then after_write m (write_reg u.env m.card (address - (0xc000 + u.env.base)) value)
      else ok m

  -- With the window closed, an access in the aperture is one to memory, and noted.
  unfoldable pub closed_read :
      Setup P T → Cpu → Machine P T → ℕ → Result MachineFault (ℕ × Machine P T)
  closed_read u cpu m address =
      let noted = note_closed cpu address false m in
      if leb 0xc000 address && in_chip_aperture u address
      then if u.strict then err (closed_window address) else ok (m.mem (lin m address), noted)
      else ok (m.mem (lin m address), m)

  unfoldable pub closed_write :
      Setup P T → Cpu → Machine P T → ℕ → ℕ → Result MachineFault (Machine P T)
  closed_write u cpu m address value =
      let noted = note_closed cpu address true m in
      if leb 0xc000 address && in_chip_aperture u address
      then if u.strict then err (closed_window address) else ok (store_byte noted address value)
      else ok (store_byte m address value)

  -- `rd(address)` and `wr(address, value)`
  unfoldable pub rd : Setup P T → Cpu → Machine P T → ℕ → Result MachineFault (ℕ × Machine P T)
  rd u cpu m a =
      let address = u16 a in
      if leb 0xc000 address && m.isa_open
      then open_read u cpu m address
      else closed_read u cpu m address

  unfoldable pub wr : Setup P T → Cpu → Machine P T → ℕ → ℕ → Result MachineFault (Machine P T)
  wr u cpu m a v =
      let address = u16 a in
      let value = u8 v in
      if leb 0xc000 address && m.isa_open
      then open_write u cpu m address value
      else closed_write u cpu m address value

  -- Consecutive writes, as `writeCstr` and the set-up of the command line make them.
  unfoldable pub write_bytes :
      Setup P T → Cpu → Machine P T → ℕ → List ℕ → Result MachineFault (Machine P T)
  write_bytes u cpu m address [] = ok m
  write_bytes u cpu m address (b ∷ bytes) = elim (wr u cpu m address b) [
    | err f ↦ err f
    | ok m' ↦ write_bytes u cpu m' (address + 1) bytes
  ]

  -- `writeCstr(address, value)`
  unfoldable pub write_cstr :
      Setup P T → Cpu → Machine P T → ℕ → List ℕ → Result MachineFault (Machine P T)
  write_cstr u cpu m address text = write_bytes u cpu m address (text ++ (0 ∷ []))

  abbrev pub add_code :
      ℕ → Result MachineFault (List ℕ × Machine P T) → Result MachineFault (List ℕ × Machine P T)
  add_code code (err f) = err f
  add_code code (ok (text, m)) = ok (code ∷ text, m)

  -- The rounds of `cstr` that are left; the bytes so far are put in front at the end.
  unfoldable pub cstr_rounds :
      ℕ → Setup P T → Cpu → Machine P T → ℕ → Result MachineFault (List ℕ × Machine P T)
  cstr_rounds zero u cpu m address = err unterminated_string
  cstr_rounds (suc rounds) u cpu m address = elim (rd u cpu m address) [
    | err f ↦ err f
    | ok (value, m') ↦
        if value == 0
        then ok ([], m')
        else add_code value (cstr_rounds rounds u cpu m' (address + 1))
  ]

  -- `cstr(address)`
  unfoldable pub cstr :
      Setup P T → Cpu → Machine P T → ℕ → Result MachineFault (List ℕ × Machine P T)
  cstr u cpu m address = cstr_rounds 0x4000 u cpu m address
