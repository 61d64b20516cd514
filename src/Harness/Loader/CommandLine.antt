-- ===== src/Harness/Loader/CommandLine.antt =====
-- What a program finds of its command line, which lines 221-245 of tools/exe-harness/harness.js set
-- up.
use sprinter_rtl8019a.Base.{
  ℕ, ◌+◌, ◌<◌, ◌≡◌, ap, ◌∙◌, List, [], ◌∷◌, ◌++◌, arith, length, length-append, ok, get_or-append,
  get_or-behind,
}
use sprinter_rtl8019a.Harness.Memory.{Machine, Setup, Cpu, store_bytes, cstr}
use sprinter_rtl8019a.Harness.Memory.Strings.{IsText, HasText, cstr_rounds-HasText}
use sprinter_rtl8019a.Harness.Loader.{psp_bytes, set_command_line}
use sprinter_rtl8019a.Harness.Loader.Flat.{
  IsFlat, store_bytes-IsFlat, store_bytes-within, HasText-of_bytes,
}
use sprinter_rtl8019a.Harness.Loader.Stages.{
  with_args, with_path, set_command_line-steps, with_path-IsFlat, with_args-IsFlat, below_path,
  behind_args, at_length, within_args,
}

module _ {P T : Type 0} where
  args-HasText :
      (m : Machine P T) (args path : List ℕ)
      → IsFlat m
      → length args < 255
      → length path < 0x4000
      → HasText (with_path m args path) 0x3f01 args
  args-HasText m args path f h k =
      HasText-of_bytes (with_path m args path) 0x3f01 args (with_path-IsFlat m args path f)
        (omega arith)
        (λ i b.
          below_path m args path (0x3f01 + i) f (omega arith) k (omega arith)
          ∙ within_args m args i f h b)
        (let e : 0x3f01 + length args ≡ 0x3f00 + (length args + 1) = omega arith in
          below_path m args path (0x3f01 + length args) f (omega arith) k (omega arith)
          ∙ ap (with_args m args).mem e
          ∙ behind_args m args (length args + 1) f (omega arith) (omega arith))

  path-HasText :
      (m : Machine P T) (args path : List ℕ)
      → IsFlat m
      → length args < 253
      → length path < 0x4000
      → HasText (with_path m args path) (0x3f00 + length args + 3) path
  unfolding with_path psp_bytes store_bytes with_args
  path-HasText m args [] f h k =
      let e : 0x3f00 + length args + 3 + 0 ≡ 0x3f00 + (length args + 3) = omega arith in
      HasText-of_bytes (with_args m args) (0x3f00 + length args + 3) [] (with_args-IsFlat m args f)
        (omega arith) (λ i b. absurd (omega arith))
        (ap (with_args m args).mem e
          ∙ behind_args m args (length args + 3) f (omega arith) (omega arith))
  path-HasText m args (c ∷ path) f h k =
      let a = 0x3f00 + length args + 3 in
      let bytes = (c ∷ path) ++ (0 ∷ []) in
      let n : length bytes ≡ length (c ∷ path) + 1 = length-append (c ∷ path) (0 ∷ []) in
      let from : IsFlat (with_args m args) = with_args-IsFlat m args f in
      HasText-of_bytes (store_bytes (with_args m args) a bytes) a (c ∷ path)
        (store_bytes-IsFlat (with_args m args) a bytes from) (omega arith)
        (λ i b.
          store_bytes-within (with_args m args) a bytes i from (omega arith) (omega arith)
          ∙ get_or-append (c ∷ path) (0 ∷ []) i 0 b)
        (store_bytes-within (with_args m args) a bytes (length (c ∷ path)) from (omega arith)
            (omega arith)
          ∙ get_or-behind (c ∷ path) 0 0)

  cstr-HasText :
      (u : Setup P T) (cpu : Cpu) (m : Machine P T) (a : ℕ) (text : List ℕ)
      → HasText m a text
      → length text < 0x4000
      → a + length text < 0xc000
      → IsText text
      → cstr u cpu m a ≡ ok (text, m)
  unfolding cstr
  cstr-HasText u cpu m a text h n k t = cstr_rounds-HasText 0x4000 u cpu m a text h n k t

  -- With the windows as they are at the start, a command line of at most 252 characters and a path
  -- of less than 0x4000, both of codes from 1 to 255: the set-up ends without a throw, and then the
  -- byte at 0x3f00 is the length of the line, the zero-terminated string behind it is the line, and
  -- the one that starts 3 more than the length behind 0x3f00 is the path, empty if there is none.
  pub set_command_line-IsPassed :
      (u : Setup P T) (cpu : Cpu) (m : Machine P T) (args path : List ℕ)
      → IsFlat m
      → length args < 253
      → length path < 0x4000
      → IsText args
      → IsText path
      → (m' : Machine P T) × (set_command_line u cpu m args path ≡ ok m')
        × (m'.mem 0x3f00 ≡ length args)
        × (cstr u cpu m' 0x3f01 ≡ ok (args, m'))
        × (cstr u cpu m' (0x3f00 + m'.mem 0x3f00 + 3) ≡ ok (path, m'))
  set_command_line-IsPassed u cpu m args path f h k t s =
      let m' = with_path m args path in
      let n : m'.mem 0x3f00 ≡ length args =
        below_path m args path 0x3f00 f (omega arith) k (omega arith)
        ∙ at_length m args f (omega arith) in
      (
        m',
        set_command_line-steps u cpu m args path (omega arith) k t s,
        n,
        cstr-HasText u cpu m' 0x3f01 args (args-HasText m args path f (omega arith) k) (omega arith)
            (omega arith) t,
        ap (λ j. cstr u cpu m' (0x3f00 + j + 3)) n
            ∙ cstr-HasText u cpu m' (0x3f00 + length args + 3) path (path-HasText m args path f h k)
                k (omega arith) s,
      )
