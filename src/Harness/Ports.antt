-- ===== src/Harness/Ports.antt =====
-- tools/exe-harness/harness.js, lines 159-218: the I/O ports of the memory windows and of the gate to
-- the ISA bus.
pub mod Pages
pub mod Gate
use sprinter_rtl8019a.Base.{
  ℕ, ◌+◌, ◌-◌, ◌/◌, ◌≡◌, Bool, true, false, not, ◌&&◌, ◌||◌, List, [], ◌∷◌, leb, ◌==◌,
  if◌then◌else◌, get_or, set, u8, u16, Result, ok, err,
}
use sprinter_rtl8019a.Harness.Memory.{
  MachineFault, unknown_io_read, unknown_io_write, page_beyond, unknown_system_value, isa_mapping,
  Machine, Setup, Cpu, rd, wr,
}

module _ {P T : Type 0} where
  -- The low byte of the port selects a window.
  unfoldable pub io_read : Machine P T → ℕ → Result MachineFault ℕ
  io_read m p =
      let port = u16 p in
      let low = u8 port in
      if low == 0x82
      then ok (u8 (get_or m.win 0 0))
      else if low == 0xa2
      then ok (u8 (get_or m.win 1 0))
      else if low == 0xc2
      then ok (u8 (get_or m.win 2 0))
      else if low == 0xe2
      then ok (u8 (get_or m.win 3 0))
      else err (unknown_io_read port)

  unfoldable pub map_window : Machine P T → ℕ → ℕ → Result MachineFault (Machine P T)
  map_window m index page =
      if leb 64 page
      then err (page_beyond index page)
      else ok (record m { win = set m.win index page })

  -- Port 0xe2 selects a slot of the ISA bus with 0xd4 or 0xd6 while the system has it, and a page of
  -- window 3 otherwise.
  unfoldable pub write_window3 : Machine P T → ℕ → Result MachineFault (Machine P T)
  write_window3 m value =
      if m.system_isa && ((value == 0xd4) || (value == 0xd6))
      then ok (record m { selected_slot = (value - 0xd4) / 2 })
      else map_window m 3 value

  unfoldable pub write_system : Machine P T → ℕ → Result MachineFault (Machine P T)
  write_system m value =
      if value == 0x11
      then ok (record m { system_isa = true })
      else if value == 0x01
      then ok (record m { system_isa = false; isa_open = false })
      else err (unknown_system_value value)

  unfoldable pub write_isa : Machine P T → ℕ → Result MachineFault (Machine P T)
  write_isa m value =
      if not m.system_isa || not (value == 0)
      then err isa_mapping
      else ok (record m { isa_open = true })

  -- Port 0x3c, the ROM overlay, has no effect.
  unfoldable pub io_write : Machine P T → ℕ → ℕ → Result MachineFault (Machine P T)
  io_write m p v =
      let port = u16 p in
      let value = u8 v in
      let low = u8 port in
      if low == 0x3c
      then ok m
      else if low == 0x82
      then map_window m 0 value
      else if low == 0xa2
      then map_window m 1 value
      else if low == 0xc2
      then map_window m 2 value
      else if low == 0xe2
      then write_window3 m value
      else if port == 0x1ffd
      then write_system m value
      else if port == 0x9fbd
      then write_isa m value
      else err (unknown_io_write port value)

-- What the CPU does on its bus, with its state at that moment; a read comes with its value.
pub data Step {P T : Type 0} (u : Setup P T) : Machine P T → Machine P T → Type 0 where
  reads :
      {m m' : Machine P T} (cpu : Cpu) (address value : ℕ)
      → rd u cpu m address ≡ ok (value, m')
      → Step u m m'
  writes :
      {m m' : Machine P T} (cpu : Cpu) (address value : ℕ)
      → wr u cpu m address value ≡ ok m'
      → Step u m m'
  outputs : {m m' : Machine P T} (port value : ℕ) → io_write m port value ≡ ok m' → Step u m m'

pub data Steps {P T : Type 0} (u : Setup P T) : Machine P T → Machine P T → Type 0 where
  none_left : {m : Machine P T} → Steps u m m
  then_step : {m n o : Machine P T} → Step u m n → Steps u n o → Steps u m o
