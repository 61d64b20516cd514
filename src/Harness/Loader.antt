-- ===== src/Harness/Loader.antt =====
-- tools/exe-harness/harness.js, lines 36-55, 154 and 221-245: the header of an EXE file, the loading
-- of its image, and the command line that DSS leaves for it.
pub mod Flat
pub mod Image
pub mod Stages
pub mod CommandLine
use sprinter_rtl8019a.Base.{
  ℕ, zero, suc, ◌+◌, ◌-◌, ◌*◌, ◌%◌, Bool, not, ◌&&◌, ◌||◌, List, [], ◌∷◌, ◌++◌, length, replicate,
  ltb, leb, ◌==◌, if◌then◌else◌, get_or, Result, ok, err, and_then,
}
use sprinter_rtl8019a.Harness.Memory.{
  MachineFault, invalid_exe_header, unsupported_header_size, entry_mismatch, image_too_large,
  command_line_too_long, Machine, Setup, Cpu, store_bytes, wr, write_bytes,
}

-- `u16(buf, off)`
abbrev pub header_word : List ℕ → ℕ → ℕ
header_word exe off = get_or exe off 0 + 256 * get_or exe (off + 1) 0

-- `toString('ascii')` drops the highest bit of each byte.
abbrev pub has_signature : List ℕ → Bool
has_signature exe =
    (get_or exe 0 0 % 128 == 0x45)
    && (get_or exe 1 0 % 128 == 0x58)
    && (get_or exe 2 0 % 128 == 0x45)
    && (get_or exe 3 0 == 1)

-- What the header asks for.
pub record Load : Type 0 where
  pub header_size : ℕ
  pub entry : ℕ
  pub stack : ℕ
  pub loader_size : ℕ
  pub load_address : ℕ
  pub resident_length : ℕ

abbrev pub load_of : List ℕ → Load
load_of exe =
    let header = header_word exe 4 in
    let start = header_word exe 16 in
    let loader = header_word exe 8 in
    record {
      header_size = header;
      entry = start;
      stack = header_word exe 20;
      loader_size = loader;
      load_address = start - header;
      resident_length = if ltb 0 loader then header + loader else length exe;
    }

-- `entry - headerSize` may be negative in the source, which is a throw too.
unfoldable pub parse_exe : List ℕ → Result MachineFault Load
parse_exe exe =
    let l = load_of exe in
    if leb (length exe) 128 || not (has_signature exe)
    then err invalid_exe_header
    else if not ((l.header_size == 128) || (l.header_size == 256) || (l.header_size == 512))
    then err (unsupported_header_size l.header_size)
    else if not (l.entry == header_word exe 18)
    then err entry_mismatch
    else if ltb l.entry l.header_size || ltb 0x10000 (l.load_address + l.resident_length)
    then err image_too_large
    else ok l

-- The first bytes of the file; past its end a byte is undefined, which is stored as 0.
unfoldable pub resident : ℕ → List ℕ → List ℕ
resident zero exe = []
resident (suc n) [] = 0 ∷ resident n []
resident (suc n) (b ∷ exe) = b ∷ resident n exe

abbrev pub cmd_address : ℕ
cmd_address = 0x3f00

-- The path of the program with its zero byte; no path and an empty one are the same.
unfoldable pub psp_bytes : List ℕ → List ℕ
psp_bytes [] = []
psp_bytes (c ∷ path) = (c ∷ path) ++ (0 ∷ [])

module _ {P T : Type 0} where
  unfoldable pub load_image : Machine P T → Load → List ℕ → Machine P T
  load_image m l exe = store_bytes m l.load_address (resident l.resident_length exe)

  -- The buffer of the command line is cleared, and gets the length, the text, and the path.
  unfoldable pub set_command_line :
      Setup P T → Cpu → Machine P T → List ℕ → List ℕ → Result MachineFault (Machine P T)
  set_command_line u cpu m args path =
      let path_address = (cmd_address + length args + 3) % 0x10000 in
      if ltb 255 (length args)
      then err command_line_too_long
      else and_then (write_bytes u cpu m cmd_address (replicate 256 0)) (λ m1.
        and_then (wr u cpu m1 cmd_address (length args)) (λ m2.
          and_then (write_bytes u cpu m2 (cmd_address + 1) args)
            (λ m3. write_bytes u cpu m3 path_address (psp_bytes path))))
