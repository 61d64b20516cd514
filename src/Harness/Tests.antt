-- ===== src/Harness/Tests.antt =====
-- The machine of tools/exe-harness/harness.js on concrete input.
use sprinter_rtl8019a.Base.{
  ℕ, ◌+◌, ◌<◌, ◌≤◌, ◌≡◌, refl, ◌⊎◌, inl, ◌≢◌, and_then, true, false, none, List, [], ◌∷◌, ◌++◌,
  arith, ok, codes, replicate, get_or,
}
use sprinter_rtl8019a.Nic.Types.{never}
use sprinter_rtl8019a.Nic.Build.{Scenario, rtl8019as, default_quirks, new_env, new_card}
use sprinter_rtl8019a.Nic.Prom.{Layout}
use sprinter_rtl8019a.Nic.Run.{Cycle, run}
use sprinter_rtl8019a.Harness.Memory.{
  Machine, Setup, Cpu, new_machine, lin, store_byte, write_cstr, cstr,
}
use sprinter_rtl8019a.Harness.Memory.Strings.{IsText, write_cstr-cstr}
use sprinter_rtl8019a.Harness.Loader.{load_of, parse_exe, load_image, set_command_line}
use sprinter_rtl8019a.Harness.Loader.Flat.{IsFlat}
use sprinter_rtl8019a.Harness.Loader.Image.{load_image-IsLoaded}
use sprinter_rtl8019a.Harness.Loader.CommandLine.{set_command_line-IsPassed}
use sprinter_rtl8019a.Harness.Blocks.{
  Blocks, no_blocks, find_block, remove_block, pages_from, block_page, new_id, get_mem, free_mem,
  set_win,
}
use sprinter_rtl8019a.Harness.Blocks.Separate.{
  Calls, at_start, then_got, then_freed, Calls-separate,
}
use sprinter_rtl8019a.Harness.Blocks.Windows.{set_win-separate}
use sprinter_rtl8019a.Harness.Ports.{
  io_write, write_window3, write_system, write_isa, outputs, none_left, then_step,
}
use sprinter_rtl8019a.Harness.Ports.Pages.{IsMapped, Steps-inside}
use sprinter_rtl8019a.Harness.Ports.Gate.{IsOpen, access, in_machine, access-run}

abbrev bare : Scenario
bare = record {
  card_present = true;
  slot = 1;
  base = none;
  mac = none;
  variant = rtl8019as;
  quirks = default_quirks;
  prom_layout = Layout.direct;
  prom_signature = none;
  cfg0 = none;
  cfg1 = none;
  cfg2 = none;
  cfg3 = none;
  cfg4 = none;
  poison = false;
  corrupt_dma_read_at = none;
  tx_error = never;
  rx_frames = [];
}

abbrev setup : Setup Unit Unit
setup = record { env = new_env bare none (λ t c. c); strict = true }

abbrev machine : Machine Unit Unit
machine = new_machine 0xaa (new_card bare tt)

abbrev cpu : Cpu
cpu = record { iff1 = false; pc = 0x4100 }

-- The system takes the ISA bus, selects the second slot and opens the window.
abbrev taken : Machine Unit Unit
taken = record machine { system_isa = true }

abbrev selected : Machine Unit Unit
selected = record taken { selected_slot = 1 }

abbrev opened : Machine Unit Unit
opened = record selected { isa_open = true }

Steps-inside_example : IsMapped opened × ((a : ℕ) → lin opened a < 0x100000)
unfolding io_write write_window3 write_system write_isa
Steps-inside_example = Steps-inside setup 0xaa (new_card bare tt) opened (
    then_step (outputs 0x1ffd 0x11 refl)
      (then_step (outputs 0xe2 0xd6 refl) (then_step (outputs 0x9fbd 0 refl) none_left)))

opened-IsOpen : IsOpen setup cpu opened
unfolding new_env
opened-IsOpen = record {
  opened = refl;
  selected = refl;
  present = refl;
  quiet = refl;
  room = omega arith;
}

-- The boundary register is written and read back.
abbrev two_cycles : List Cycle
two_cycles = Cycle.wr 3 0x46 ∷ Cycle.rd 3 ∷ []

access-run_example :
    access setup cpu opened two_cycles ≡ in_machine opened (run setup.env opened.card two_cycles)
access-run_example =
    access-run setup cpu opened two_cycles opened-IsOpen (omega arith, (omega arith, tt))

abbrev file_name : List ℕ
file_name = codes "CFG"

file_name-IsText : IsText file_name
unfolding IsText
file_name-IsText =
    ((omega arith, omega arith), ((omega arith, omega arith), ((omega arith, omega arith), tt)))

write_cstr-cstr_example :
    (m' : Machine Unit Unit) × (write_cstr setup cpu machine 0x8000 file_name ≡ ok m')
    × (cstr setup cpu m' 0x8000 ≡ ok (file_name, m'))
write_cstr-cstr_example =
    write_cstr-cstr setup cpu machine 0x8000 file_name (omega arith) (omega arith) file_name-IsText

-- A header of 128 bytes for a program of two bytes at 0x4100, with its stack below 0xbf00.
abbrev exe : List ℕ
exe =
    (0x45 ∷ 0x58 ∷ 0x45 ∷ 1 ∷ 128 ∷ 0 ∷ 0 ∷ 0 ∷ 0 ∷ 0 ∷ 0 ∷ 0 ∷ 0 ∷ 0 ∷ 0 ∷ 0 ∷ 0 ∷ 0x41 ∷ 0 ∷ 0x41
      ∷ 0 ∷ 0xbf ∷ [])
    ++ replicate 106 0
    ++ (0x3e ∷ 0xc9 ∷ [])

exe-parsed : parse_exe exe ≡ ok (load_of exe)
unfolding parse_exe
exe-parsed = refl

load_image-IsLoaded_example :
    (0x4080 + 128 ≡ 0x4100)
    × ((i : ℕ) → i < 130 → (load_image machine (load_of exe) exe).mem (0x4080 + i) ≡ get_or exe i 0)
    × ((x : ℕ) → (x < 0x4080) ⊎ (0x4102 ≤ x) → (load_image machine (load_of exe) exe).mem x ≡ 0xaa)
load_image-IsLoaded_example =
    load_image-IsLoaded 0xaa (new_card bare tt) exe (load_of exe) exe-parsed

machine-IsFlat : IsFlat machine
unfolding IsFlat
machine-IsFlat = refl

set_command_line-IsPassed_example :
    (m' : Machine Unit Unit) × (set_command_line setup cpu machine file_name file_name ≡ ok m')
    × (m'.mem 0x3f00 ≡ 3)
    × (cstr setup cpu m' 0x3f01 ≡ ok (file_name, m'))
    × (cstr setup cpu m' (0x3f00 + m'.mem 0x3f00 + 3) ≡ ok (file_name, m'))
set_command_line-IsPassed_example =
    set_command_line-IsPassed setup cpu machine file_name file_name machine-IsFlat (omega arith)
      (omega arith) file_name-IsText file_name-IsText

-- Blocks of two pages and of one, and a third one given back.
abbrev two_blocks : Blocks
two_blocks = get_mem false (get_mem false no_blocks 2) 1

abbrev third_freed : Blocks
third_freed = record (get_mem false two_blocks 3) {
  allocations = remove_block (get_mem false two_blocks 3).allocations 19;
}

third_freed-Calls : Calls false third_freed
unfolding get_mem free_mem find_block remove_block
third_freed-Calls = then_freed 19 refl (then_got 3 (then_got 1 (then_got 2 at_start)))

Calls-separate_example :
    ((x y i j p : ℕ)
      → block_page third_freed x i ≡ ok p
      → block_page third_freed y j ≡ ok p
      → (x ≡ y) × (i ≡ j))
    × ((x i p n k : ℕ)
        → block_page third_freed x i ≡ ok p
        → block_page (get_mem false third_freed n) (new_id false third_freed) k ≢ ok p)
Calls-separate_example = Calls-separate false third_freed third_freed-Calls

abbrev first_mapped : Machine Unit Unit
first_mapped = record machine { win = 0 ∷ 17 ∷ 2 ∷ 3 ∷ [] }

abbrev both_mapped : Machine Unit Unit
both_mapped = record machine { win = 0 ∷ 17 ∷ 2 ∷ 18 ∷ [] }

first-set_win : set_win machine third_freed 1 16 1 ≡ ok first_mapped
unfolding set_win block_page find_block get_mem remove_block pages_from and_then
first-set_win = refl

second-set_win : set_win first_mapped third_freed 3 18 0 ≡ ok both_mapped
unfolding set_win block_page find_block get_mem remove_block pages_from and_then
second-set_win = refl

set_win-separate_example :
    (store_byte both_mapped 0x4010 7).mem (lin both_mapped 0xc010)
    ≡ both_mapped.mem (lin both_mapped 0xc010)
set_win-separate_example =
    set_win-separate false third_freed machine first_mapped both_mapped 1 3 16 18 1 0 0x4010 0xc010
      7 third_freed-Calls refl (omega arith) (inl (omega arith)) first-set_win second-set_win refl
      refl
