-- ===== src/Frames/Udp/Layout.antt =====
-- Addresses, taken apart into their bytes.
use sprinter_rtl8019a.Base.{ℕ, suc, ◌≡◌, refl, ap, ◌∙◌, List, [], ◌∷◌, arith, length}

uncons :
    (n : ℕ) (xs : List ℕ)
    → length xs ≡ suc n
    → (x : ℕ) × (ys : List ℕ) × (xs ≡ x ∷ ys) × (length ys ≡ n)
uncons n [] h = absurd (omega arith)
uncons n (x ∷ ys) h = (x, ys, refl, omega arith)

nil : (xs : List ℕ) → length xs ≡ 0 → xs ≡ []
nil [] h = refl
nil (x ∷ xs) h = absurd (omega arith)

-- An IPv4 address.
pub four : (xs : List ℕ) → length xs ≡ 4 → (a b c d : ℕ) × (xs ≡ a ∷ b ∷ c ∷ d ∷ [])
four xs h =
    let (a, r, ea, ha) = uncons 3 xs h in
    let (b, s, eb, hb) = uncons 2 r ha in
    let (c, t, ec, hc) = uncons 1 s hb in
    let (d, u, ed, hd) = uncons 0 t hc in
    (
      a,
      b,
      c,
      d,
      ea
          ∙ ap (λ l. a ∷ l)
              (eb ∙ ap (λ l. b ∷ l) (ec ∙ ap (λ l. c ∷ l) (ed ∙ ap (λ l. d ∷ l) (nil u hd)))),
    )

-- A MAC address.
pub six : (xs : List ℕ) → length xs ≡ 6 → (a b c d e f : ℕ) × (xs ≡ a ∷ b ∷ c ∷ d ∷ e ∷ f ∷ [])
six xs h =
    let (a, r, ea, ha) = uncons 5 xs h in
    let (b, s, eb, hb) = uncons 4 r ha in
    let (c, d, e, f, es) = four s hb in
    (a, b, c, d, e, f, ea ∙ ap (λ l. a ∷ l) (eb ∙ ap (λ l. b ∷ l) es))
