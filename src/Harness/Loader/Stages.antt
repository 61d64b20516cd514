-- ===== src/Harness/Loader/Stages.antt =====
-- The steps in which lines 221-245 of tools/exe-harness/harness.js set up the command line.
use sprinter_rtl8019a.Base.{
  ℕ, zero, suc, ◌+◌, ◌%◌, ◌≤◌, ◌<◌, ◌≡◌, refl, ap, ◌∙◌, false, List, [], ◌∷◌, arith, All, length,
  length-append, replicate, ltb, get_or, ok, and_then-ok,
}
use sprinter_rtl8019a.Harness.Memory.{Machine, Setup, Cpu, store_byte, store_bytes}
use sprinter_rtl8019a.Harness.Memory.Strings.{IsText, terminated, wr-below, write_bytes-store_bytes}
use sprinter_rtl8019a.Harness.Loader.{psp_bytes, set_command_line}
use sprinter_rtl8019a.Harness.Loader.Flat.{
  IsFlat, store_byte-IsFlat, store_bytes-IsFlat, store_byte-here, store_byte-elsewhere,
  store_bytes-before, store_bytes-after, store_bytes-within,
}

abbrev zeros : ℕ → List ℕ
zeros n = replicate n 0

zeros-small : (n : ℕ) → All (λ b. b < 256) (zeros n)
zeros-small zero = tt
zeros-small (suc n) = (omega arith, zeros-small n)

length-zeros : (n : ℕ) → length (zeros n) ≡ n
length-zeros zero = refl
length-zeros (suc n) = ap suc (length-zeros n)

get_or-zeros : (n i : ℕ) → get_or (zeros n) i 0 ≡ 0
get_or-zeros zero i = refl
get_or-zeros (suc n) zero = refl
get_or-zeros (suc n) (suc i) = get_or-zeros n i

text-small : (text : List ℕ) → IsText text → All (λ b. b < 256) text
unfolding IsText
text-small [] t = tt
text-small (b ∷ text) t = (t.0.1, text-small text (t.1))

psp_bytes-small : (path : List ℕ) → IsText path → All (λ b. b < 256) (psp_bytes path)
unfolding psp_bytes
psp_bytes-small [] t = tt
psp_bytes-small (c ∷ path) t = terminated (c ∷ path) t

length-psp_bytes : (path : List ℕ) → length (psp_bytes path) ≤ length path + 1
unfolding psp_bytes
length-psp_bytes [] = omega arith
length-psp_bytes (c ∷ path) = omega (arith, length-append path (0 ∷ []))

module _ {P T : Type 0} where
  -- The four steps of the set-up.
  abbrev cleared : Machine P T → Machine P T
  cleared m = store_bytes m 0x3f00 (zeros 256)

  abbrev with_length : Machine P T → List ℕ → Machine P T
  with_length m args = store_byte (cleared m) 0x3f00 (length args)

  unfoldable pub with_args : Machine P T → List ℕ → Machine P T
  with_args m args = store_bytes (with_length m args) 0x3f01 args

  unfoldable pub with_path : Machine P T → List ℕ → List ℕ → Machine P T
  with_path m args path = store_bytes (with_args m args) (0x3f00 + length args + 3) (psp_bytes path)

  pub set_command_line-steps :
      (u : Setup P T) (cpu : Cpu) (m : Machine P T) (args path : List ℕ)
      → length args < 256
      → length path < 0x4000
      → IsText args
      → IsText path
      → set_command_line u cpu m args path ≡ ok (with_path m args path)
  unfolding set_command_line with_args with_path
  set_command_line-steps u cpu m args path h k t s =
      let allowed : ltb 255 (length args) ≡ false = ground arith in
      let at_path : (0x3f00 + length args + 3) % 0x10000 ≡ 0x3f00 + length args + 3 = omega arith in
      let n : length (zeros 256) ≡ 256 = length-zeros 256 in
      let few : length (psp_bytes path) ≤ length path + 1 = length-psp_bytes path in
      simp (allowed, at_path)
        (and_then-ok _ (cleared m) _
            (write_bytes-store_bytes u cpu m 0x3f00 (zeros 256) (omega arith) (zeros-small 256))
          ∙ and_then-ok _ (with_length m args) _
              (wr-below u cpu (cleared m) 0x3f00 (length args) (omega arith) h)
          ∙ and_then-ok _ (with_args m args) _ (
              write_bytes-store_bytes u cpu (with_length m args) 0x3f01 args (omega arith)
                (text-small args t))
          ∙ write_bytes-store_bytes u cpu (with_args m args) (0x3f00 + length args + 3)
              (psp_bytes path) (omega arith) (psp_bytes-small path s))

  pub with_path-IsFlat :
      (m : Machine P T) (args path : List ℕ) → IsFlat m → IsFlat (with_path m args path)
  unfolding with_path with_args
  with_path-IsFlat m args path f = store_bytes-IsFlat _ _ (psp_bytes path) (
      store_bytes-IsFlat _ _ args
        (store_byte-IsFlat _ _ (length args) (store_bytes-IsFlat m _ (zeros 256) f)))

  -- The states before the path are flat too.
  with_length-IsFlat : (m : Machine P T) (args : List ℕ) → IsFlat m → IsFlat (with_length m args)
  with_length-IsFlat m args f =
      store_byte-IsFlat _ _ (length args) (store_bytes-IsFlat m _ (zeros 256) f)

  pub with_args-IsFlat : (m : Machine P T) (args : List ℕ) → IsFlat m → IsFlat (with_args m args)
  unfolding with_args
  with_args-IsFlat m args f = store_bytes-IsFlat _ _ args (with_length-IsFlat m args f)

  -- In front of the path nothing changes any more.
  pub below_path :
      (m : Machine P T) (args path : List ℕ) (x : ℕ)
      → IsFlat m
      → length args < 256
      → length path < 0x4000
      → x < 0x3f00 + length args + 3
      → (with_path m args path).mem x ≡ (with_args m args).mem x
  unfolding with_path
  below_path m args path x f h k b =
      let few : length (psp_bytes path) ≤ length path + 1 = length-psp_bytes path in
      store_bytes-before (with_args m args) (0x3f00 + length args + 3) (psp_bytes path) x
        (with_args-IsFlat m args f) (omega arith) b

  -- Behind the text the buffer is as it was cleared.
  pub behind_args :
      (m : Machine P T) (args : List ℕ) (j : ℕ)
      → IsFlat m
      → length args + 1 ≤ j
      → j < 256
      → (with_args m args).mem (0x3f00 + j) ≡ 0
  unfolding with_args
  behind_args m args j f h k =
      let n : length (zeros 256) ≡ 256 = length-zeros 256 in
      store_bytes-after (with_length m args) 0x3f01 args (0x3f00 + j) (with_length-IsFlat m args f)
        (omega arith) (omega arith)
      ∙ store_byte-elsewhere (cleared m) 0x3f00 (length args) (0x3f00 + j)
          (store_bytes-IsFlat m _ (zeros 256) f) (omega arith) (omega arith)
      ∙ store_bytes-within m 0x3f00 (zeros 256) j f (omega arith) (omega arith)
      ∙ get_or-zeros 256 j

  pub at_length :
      (m : Machine P T) (args : List ℕ)
      → IsFlat m
      → length args < 256
      → (with_args m args).mem 0x3f00 ≡ length args
  unfolding with_args
  at_length m args f h =
      store_bytes-before (with_length m args) 0x3f01 args 0x3f00 (with_length-IsFlat m args f)
        (omega arith) (omega arith)
      ∙ store_byte-here (cleared m) 0x3f00 (length args) (store_bytes-IsFlat m _ (zeros 256) f)
          (omega arith)

  pub within_args :
      (m : Machine P T) (args : List ℕ) (i : ℕ)
      → IsFlat m
      → length args < 255
      → i < length args
      → (with_args m args).mem (0x3f01 + i) ≡ get_or args i 0
  unfolding with_args
  within_args m args i f h k =
      store_bytes-within (with_length m args) 0x3f01 args i (with_length-IsFlat m args f)
        (omega arith) k
