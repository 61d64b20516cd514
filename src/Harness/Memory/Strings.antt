-- ===== src/Harness/Memory/Strings.antt =====
-- The texts that tools/exe-harness/harness.js, lines 255-269, writes into memory and reads back.
use sprinter_rtl8019a.Base.{
  ℕ, zero, suc, ◌+◌, ◌/◌, ◌%◌, ◌≤◌, ◌<◌, ◌≡◌, refl, ap, ◌∙◌, true, false, List, [], ◌∷◌, ◌++◌,
  arith, All, length, length-append, Result, ok, err, leb, ◌==◌, if◌then◌else◌, u8, u16,
}
use sprinter_rtl8019a.Harness.Memory.{
  MachineFault, Machine, Setup, Cpu, lin, store_byte, store_bytes, closed_read, closed_write, rd,
  wr, write_bytes, write_cstr, add_code, cstr_rounds, cstr,
}

-- The codes of a text that a zero byte can end.
unfoldable pub IsText : List ℕ → Type 0
IsText text = All (λ b. (0 < b) × (b < 256)) text

pub terminated : (text : List ℕ) → IsText text → All (λ b. b < 256) (text ++ (0 ∷ []))
unfolding IsText
terminated [] t = (omega arith, tt)
terminated (b ∷ text) t = (t.0.1, terminated text (t.1))

module _ {P T : Type 0} where
  unfoldable pub HasText : Machine P T → ℕ → List ℕ → Type 0
  HasText m a [] = m.mem (lin m a) ≡ 0
  HasText m a (b ∷ text) = (m.mem (lin m a) ≡ b) × HasText m (a + 1) text

  pub rd-below :
      (u : Setup P T) (cpu : Cpu) (m : Machine P T) (a : ℕ)
      → a < 0xc000
      → rd u cpu m a ≡ ok (m.mem (lin m a), m)
  unfolding rd closed_read
  rd-below u cpu m a h =
      let e : u16 a ≡ a = omega arith in let f : leb 0xc000 a ≡ false = ground arith in simp (e, f)

  pub wr-below :
      (u : Setup P T) (cpu : Cpu) (m : Machine P T) (a v : ℕ)
      → a < 0xc000
      → v < 256
      → wr u cpu m a v ≡ ok (store_byte m a v)
  unfolding wr closed_write
  wr-below u cpu m a v h k =
      let e : u16 a ≡ a = omega arith in
      let d : u8 v ≡ v = omega arith in
      let f : leb 0xc000 a ≡ false = ground arith in simp (e, d, f)

  -- Within one window the linear addresses follow each other.
  lin-add : (m : Machine P T) (a j : ℕ) → a % 0x4000 + j < 0x4000 → lin m (a + j) ≡ lin m a + j
  unfolding lin
  lin-add m a j h =
      let e : (a + j) / 0x4000 ≡ a / 0x4000 = omega arith in
      let f : (a + j) % 0x4000 ≡ a % 0x4000 + j = omega arith in simp (e, f) (omega arith)

  pub lin-store_bytes :
      (m : Machine P T) (a : ℕ) (bytes : List ℕ) (x : ℕ) → lin (store_bytes m a bytes) x ≡ lin m x
  unfolding store_bytes lin store_byte
  lin-store_bytes m a [] x = refl
  lin-store_bytes m a (b ∷ bytes) x = lin-store_bytes (store_byte m a b) (a + 1) bytes x

  store_byte-below :
      (m : Machine P T) (a b x : ℕ) → x < lin m a → (store_byte m a b).mem x ≡ m.mem x
  unfolding store_byte
  store_byte-below m a b x h = let e : (x == lin m a) ≡ false = ground arith in simp e

  pub store_byte-at : (m : Machine P T) (a b : ℕ) → (store_byte m a b).mem (lin m a) ≡ b
  unfolding store_byte
  store_byte-at m a b = let e : (lin m a == lin m a) ≡ true = ground arith in simp e

  store_bytes-below :
      (m : Machine P T) (a : ℕ) (bytes : List ℕ) (x : ℕ)
      → x < lin m a
      → a % 0x4000 + length bytes ≤ 0x4000
      → (store_bytes m a bytes).mem x ≡ m.mem x
  unfolding store_bytes store_byte lin
  store_bytes-below m a [] x h k = refl
  store_bytes-below m a (b ∷ []) x h k = store_byte-below m a b x h
  store_bytes-below m a (b ∷ d ∷ bytes) x h k =
      store_bytes-below (store_byte m a b) (a + 1) (d ∷ bytes) x
        (omega (arith, h, lin-add m a 1 (omega (arith, k)))) (omega (arith, k))
      ∙ store_byte-below m a b x h

  pub write_bytes-store_bytes :
      (u : Setup P T) (cpu : Cpu) (m : Machine P T) (a : ℕ) (bytes : List ℕ)
      → a + length bytes ≤ 0xc000
      → All (λ b. b < 256) bytes
      → write_bytes u cpu m a bytes ≡ ok (store_bytes m a bytes)
  unfolding write_bytes store_bytes
  write_bytes-store_bytes u cpu m a [] h k = refl
  write_bytes-store_bytes u cpu m a (b ∷ bytes) h k =
      ap
        (λ (r : Result MachineFault (Machine P T)).
          elim r as (λ _. Result MachineFault (Machine P T)) [
            | err f ↦ err f
            | ok m' ↦ write_bytes u cpu m' (a + 1) bytes
          ])
        (wr-below u cpu m a b (omega arith) (k.0))
      ∙ write_bytes-store_bytes u cpu (store_byte m a b) (a + 1) bytes (omega arith) (k.1)

  after_rd :
      (rounds : ℕ) (u : Setup P T) (cpu : Cpu) (m : Machine P T) (a : ℕ)
      → a < 0xc000
      → cstr_rounds (suc rounds) u cpu m a ≡ (
          let value = m.mem (lin m a) in
          if value == 0 then ok ([], m) else add_code value (cstr_rounds rounds u cpu m (a + 1)))
  unfolding cstr_rounds
  after_rd rounds u cpu m a h =
      ap
        (λ (r : Result MachineFault (ℕ × Machine P T)).
          elim r as (λ _. Result MachineFault (List ℕ × Machine P T)) [
            | err f ↦ err f
            | ok (value, m') ↦
                if value == 0
                then ok ([], m')
                else add_code value (cstr_rounds rounds u cpu m' (a + 1))
          ])
        (rd-below u cpu m a h)

  pub cstr_rounds-HasText :
      (rounds : ℕ) (u : Setup P T) (cpu : Cpu) (m : Machine P T) (a : ℕ) (text : List ℕ)
      → HasText m a text
      → length text < rounds
      → a + length text < 0xc000
      → IsText text
      → cstr_rounds rounds u cpu m a ≡ ok (text, m)
  unfolding cstr_rounds HasText IsText
  cstr_rounds-HasText zero u cpu m a text h n k t = ground arith
  cstr_rounds-HasText (suc rounds) u cpu m a [] h n k t =
      let e : (m.mem (lin m a) == 0) ≡ true = ground arith in
      after_rd rounds u cpu m a (omega arith) ∙ simp e
  cstr_rounds-HasText (suc rounds) u cpu m a (b ∷ text) h n k t =
      let e : (m.mem (lin m a) == 0) ≡ false = ground (arith, h.0, t.0) in
      after_rd rounds u cpu m a (omega arith)
      ∙ simp e (
          ap (add_code (m.mem (lin m a))) (
            cstr_rounds-HasText rounds u cpu m (a + 1) text (h.1) (omega arith) (omega arith) (t.1))
          ∙ ap (λ c. ok (c ∷ text, m)) (h.0))

  store_bytes-HasText :
      (m : Machine P T) (a : ℕ) (text : List ℕ)
      → a % 0x4000 + length text < 0x4000
      → HasText (store_bytes m a (text ++ (0 ∷ []))) a text
  unfolding HasText store_bytes
  store_bytes-HasText m a [] h =
      ap (store_byte m a 0).mem (lin-store_bytes m a (0 ∷ []) a) ∙ store_byte-at m a 0
  store_bytes-HasText m a (b ∷ text) h =
      let rest = text ++ (0 ∷ []) in
      let m' = store_byte m a b in
      (
        ap (store_bytes m' (a + 1) rest).mem (lin-store_bytes m a (b ∷ rest) a)
            ∙ store_bytes-below m' (a + 1) rest (lin m a)
                (omega (arith, lin-add m' a 1 (omega arith), lin-store_bytes m a (b ∷ []) a))
                (omega (arith, length-append text (0 ∷ [])))
            ∙ store_byte-at m a b,
        store_bytes-HasText m' (a + 1) text (omega arith),
      )

  -- A text of codes that are not zero, written as a zero-terminated string below the ISA window and
  -- within one memory window, is read back whole.
  pub write_cstr-cstr :
      (u : Setup P T) (cpu : Cpu) (m : Machine P T) (a : ℕ) (text : List ℕ)
      → a % 0x4000 + length text < 0x4000
      → a + length text < 0xc000
      → IsText text
      → (m' : Machine P T) × (write_cstr u cpu m a text ≡ ok m') × (cstr u cpu m' a ≡ ok (text, m'))
  unfolding write_cstr cstr IsText
  write_cstr-cstr u cpu m a text h k t =
      let bytes = text ++ (0 ∷ []) in
      let m' = store_bytes m a bytes in
      (
        m',
        write_bytes-store_bytes u cpu m a bytes (omega (arith, length-append text (0 ∷ [])))
            (terminated text t),
        cstr_rounds-HasText 0x4000 u cpu m' a text (store_bytes-HasText m a text h) (omega arith) k
            t,
      )
