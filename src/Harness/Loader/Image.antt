-- ===== src/Harness/Loader/Image.antt =====
-- What the loading of an EXE file, lines 36-55 and 154 of tools/exe-harness/harness.js, leaves in
-- memory.
use sprinter_rtl8019a.Base.{
  ℕ, zero, suc, ◌+◌, ◌-◌, ◌≤◌, ◌<◌, ◌≡◌, refl, ap, ◌∙◌, ◌⊎◌, inl, inr, ◌||◌, List, [], ◌∷◌, arith,
  length, ltb, if◌then◌else◌, get_or, ok, err, Ensures, ok-Ensures, if-Ensures, Bool-cases,
}
use sprinter_rtl8019a.Nic.Types.{Card}
use sprinter_rtl8019a.Harness.Memory.{MachineFault, image_too_large, new_machine}
use sprinter_rtl8019a.Harness.Loader.{Load, load_of, parse_exe, resident, load_image}
use sprinter_rtl8019a.Harness.Loader.Flat.{
  IsFlat, store_bytes-before, store_bytes-after, store_bytes-within,
}

length-resident : (n : ℕ) (exe : List ℕ) → length (resident n exe) ≡ n
unfolding resident
length-resident zero exe = refl
length-resident (suc n) [] = ap suc (length-resident n [])
length-resident (suc n) (b ∷ exe) = ap suc (length-resident n exe)

get_or-resident :
    (n : ℕ) (exe : List ℕ) (i : ℕ) → i < n → get_or (resident n exe) i 0 ≡ get_or exe i 0
unfolding resident
get_or-resident zero exe i h = absurd (omega arith)
get_or-resident (suc n) [] zero h = refl
get_or-resident (suc n) [] (suc i) h = get_or-resident n [] i (omega arith)
get_or-resident (suc n) (b ∷ exe) zero h = refl
get_or-resident (suc n) (b ∷ exe) (suc i) h = get_or-resident n exe i (omega arith)

-- What the checks of the header ensure.
pub record Fits (exe : List ℕ) (l : Load) : Type 0 where
  pub starts : l.load_address + l.header_size ≡ l.entry
  pub ends : l.load_address + l.resident_length ≤ 0x10000

-- The last check of the four.
image-Fits :
    (exe : List ℕ) (l : Load) (f : MachineFault)
    → l.load_address ≡ l.entry - l.header_size
    → Ensures (Fits exe) (
        if ltb l.entry l.header_size || ltb 0x10000 (l.load_address + l.resident_length)
        then err f
        else ok l)
image-Fits exe l f a =
    elim (Bool-cases
      (ltb l.entry l.header_size || ltb 0x10000 (l.load_address + l.resident_length))) [
        | inl e ↦ simp e tt
        | inr e ↦ simp e (record { starts = ground arith; ends = ground arith })
      ]

pub parse_exe-Fits : (exe : List ℕ) (l : Load) → parse_exe exe ≡ ok l → Fits exe l
unfolding parse_exe
parse_exe-Fits exe l e =
    ok-Ensures (Fits exe) (parse_exe exe) l e
      (search (if-Ensures, image-Fits exe (load_of exe) image_too_large refl))

module _ {P T : Type 0} where
  new_machine-IsFlat : (fill : ℕ) (card : Card P T) → IsFlat (new_machine fill card)
  unfolding IsFlat
  new_machine-IsFlat fill card = refl

  -- If the header of an EXE file passes the checks, the code behind the header comes to its entry
  -- address, the resident part of the file lies in memory byte for byte from the load address on,
  -- with 0 past the end of the file, and every other byte of the first 64 KB keeps the value that the
  -- memory was filled with.
  pub load_image-IsLoaded :
      (fill : ℕ) (card : Card P T) (exe : List ℕ) (l : Load)
      → parse_exe exe ≡ ok l
      → (l.load_address + l.header_size ≡ l.entry)
        × ((i : ℕ)
            → i < l.resident_length
            → (load_image (new_machine fill card) l exe).mem (l.load_address + i) ≡ get_or exe i 0)
        × ((x : ℕ)
            → (x < l.load_address) ⊎ (l.load_address + l.resident_length ≤ x)
            → (load_image (new_machine fill card) l exe).mem x ≡ fill)
  unfolding load_image
  load_image-IsLoaded fill card exe l e =
      let m = new_machine fill card in
      let flat = new_machine-IsFlat fill card in
      let fits = parse_exe-Fits exe l e in
      let bytes = resident l.resident_length exe in
      let n : length bytes ≡ l.resident_length = length-resident l.resident_length exe in
      let room : l.load_address + length bytes ≤ 0x10000 = omega (arith, fits.ends) in
      (
        fits.starts,
        (λ i h.
            store_bytes-within m l.load_address bytes i flat room (omega arith)
            ∙ get_or-resident l.resident_length exe i h),
        (λ x h. elim h [
          | inl k ↦ store_bytes-before m l.load_address bytes x flat room k
          | inr k ↦ store_bytes-after m l.load_address bytes x flat room (omega arith)
        ]),
      )
