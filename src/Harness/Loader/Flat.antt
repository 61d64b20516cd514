-- ===== src/Harness/Loader/Flat.antt =====
-- The memory of tools/exe-harness/harness.js while the windows show the first four pages, as they do
-- when a program is loaded: an address of the CPU is its own linear address.
use sprinter_rtl8019a.Base.{
  ℕ, zero, suc, ◌+◌, ◌/◌, ◌%◌, ◌≤◌, ◌<◌, ◌≡◌, ◌≢◌, refl, sym, ap, ◌∙◌, true, false, List, [], ◌∷◌,
  arith, length, ◌==◌, get_or,
}
use sprinter_rtl8019a.Harness.Memory.{Machine, lin, store_byte, store_bytes}
use sprinter_rtl8019a.Harness.Memory.Strings.{HasText}

page_of_window : (q : ℕ) → q < 4 → get_or (0 ∷ 1 ∷ 2 ∷ 3 ∷ []) q 0 ≡ q
page_of_window zero h = refl
page_of_window (suc zero) h = refl
page_of_window (suc (suc zero)) h = refl
page_of_window (suc (suc (suc zero))) h = refl
page_of_window (suc (suc (suc (suc q)))) h = absurd (omega arith)

module _ {P T : Type 0} where
  unfoldable pub IsFlat : Machine P T → Type 0
  IsFlat m = m.win ≡ 0 ∷ 1 ∷ 2 ∷ 3 ∷ []

  pub lin-IsFlat : (m : Machine P T) (a : ℕ) → IsFlat m → a < 0x10000 → lin m a ≡ a
  unfolding lin IsFlat
  lin-IsFlat m a f h = rw f (omega (arith, page_of_window (a / 0x4000 % 4) (omega arith)))

  pub store_byte-IsFlat : (m : Machine P T) (a b : ℕ) → IsFlat m → IsFlat (store_byte m a b)
  unfolding IsFlat store_byte
  store_byte-IsFlat m a b f = f

  pub store_bytes-IsFlat :
      (m : Machine P T) (a : ℕ) (bytes : List ℕ) → IsFlat m → IsFlat (store_bytes m a bytes)
  unfolding store_bytes
  store_bytes-IsFlat m a [] f = f
  store_bytes-IsFlat m a (b ∷ bytes) f =
      store_bytes-IsFlat (store_byte m a b) (a + 1) bytes (store_byte-IsFlat m a b f)

  pub store_byte-here :
      (m : Machine P T) (a b : ℕ) → IsFlat m → a < 0x10000 → (store_byte m a b).mem a ≡ b
  unfolding store_byte
  store_byte-here m a b f h =
      let e : (a == lin m a) ≡ true = ground (arith, lin-IsFlat m a f h) in simp e

  pub store_byte-elsewhere :
      (m : Machine P T) (a b x : ℕ)
      → IsFlat m
      → a < 0x10000
      → x ≢ a
      → (store_byte m a b).mem x ≡ m.mem x
  unfolding store_byte
  store_byte-elsewhere m a b x f h n =
      let e : (x == lin m a) ≡ false = ground (arith, lin-IsFlat m a f h) in simp e

  pub store_bytes-before :
      (m : Machine P T) (a : ℕ) (bytes : List ℕ) (x : ℕ)
      → IsFlat m
      → a + length bytes ≤ 0x10000
      → x < a
      → (store_bytes m a bytes).mem x ≡ m.mem x
  unfolding store_bytes
  store_bytes-before m a [] x f h k = refl
  store_bytes-before m a (b ∷ bytes) x f h k =
      store_bytes-before (store_byte m a b) (a + 1) bytes x (store_byte-IsFlat m a b f)
        (omega arith) (omega arith)
      ∙ store_byte-elsewhere m a b x f (omega arith) (omega arith)

  pub store_bytes-after :
      (m : Machine P T) (a : ℕ) (bytes : List ℕ) (x : ℕ)
      → IsFlat m
      → a + length bytes ≤ 0x10000
      → a + length bytes ≤ x
      → (store_bytes m a bytes).mem x ≡ m.mem x
  unfolding store_bytes
  store_bytes-after m a [] x f h k = refl
  store_bytes-after m a (b ∷ bytes) x f h k =
      store_bytes-after (store_byte m a b) (a + 1) bytes x (store_byte-IsFlat m a b f) (omega arith)
        (omega arith)
      ∙ store_byte-elsewhere m a b x f (omega arith) (omega arith)

  pub store_bytes-within :
      (m : Machine P T) (a : ℕ) (bytes : List ℕ) (i : ℕ)
      → IsFlat m
      → a + length bytes ≤ 0x10000
      → i < length bytes
      → (store_bytes m a bytes).mem (a + i) ≡ get_or bytes i 0
  unfolding store_bytes
  store_bytes-within m a [] i f h k = absurd (omega arith)
  store_bytes-within m a (b ∷ bytes) zero f h k =
      let e : a + 0 ≡ a = omega arith in
      ap (store_bytes (store_byte m a b) (a + 1) bytes).mem e
      ∙ store_bytes-before (store_byte m a b) (a + 1) bytes a (store_byte-IsFlat m a b f)
          (omega arith) (omega arith)
      ∙ store_byte-here m a b f (omega arith)
  store_bytes-within m a (b ∷ bytes) (suc i) f h k =
      let e : a + suc i ≡ a + 1 + i = omega arith in
      ap (store_bytes (store_byte m a b) (a + 1) bytes).mem e
      ∙ store_bytes-within (store_byte m a b) (a + 1) bytes i (store_byte-IsFlat m a b f)
          (omega arith) (omega arith)

  -- A text is where its codes are, with a zero byte behind them.
  pub HasText-of_bytes :
      (m : Machine P T) (a : ℕ) (text : List ℕ)
      → IsFlat m
      → a + length text < 0x10000
      → ((i : ℕ) → i < length text → m.mem (a + i) ≡ get_or text i 0)
      → m.mem (a + length text) ≡ 0
      → HasText m a text
  unfolding HasText
  HasText-of_bytes m a [] f h codes end =
      let at_start : a + 0 ≡ a = omega arith in
      ap m.mem (lin-IsFlat m a f (omega arith)) ∙ ap m.mem (sym at_start) ∙ end
  HasText-of_bytes m a (c ∷ text) f h codes end =
      let e : a + 1 + length text ≡ a + suc (length text) = omega arith in
      let at_start : a + 0 ≡ a = omega arith in
      (
        ap m.mem (lin-IsFlat m a f (omega arith)) ∙ ap m.mem (sym at_start) ∙ codes 0 (omega arith),
        HasText-of_bytes m (a + 1) text f (omega arith)
            (λ i k.
              let d : a + 1 + i ≡ a + suc i = omega arith in
              ap m.mem d ∙ codes (suc i) (omega arith))
            (ap m.mem e ∙ end),
      )
