-- ===== src/Peers/Ftp/Lines.antt =====
-- The line ends that `respondFtp` looks for (tools/exe-harness/net-builders.js, lines 740-742), and
-- how the text that the lines arrive in may be cut.
use sprinter_rtl8019a.Base.{
  ℕ, zero, suc, ◌+◌, ◌≤◌, ◌<◌, ◌≡◌, refl, ap, sym, ◌∙◌, Bool, true, false, Option, none, some, List,
  [], ◌∷◌, ◌++◌, arith, length, length-append, crlf, starts_with, if◌then◌else◌, or_default, ◌⊎◌,
  inl, inr,
}
use sprinter_rtl8019a.Peers.Ftp.{split_line}

abbrev pub Split : Type 0
Split = Option (List ℕ × List ℕ)

-- A code in front of the line.
abbrev pub before_line : ℕ → Split → Split
before_line x rest = elim rest [ none ↦ none | some (line, left) ↦ some (x ∷ line, left) ]

-- The line ends here, or its first code is in front of the rest of it.
split-cases :
    (ends : Bool) (rest : Split) (x : ℕ) (ys line left : List ℕ)
    → (if ends then some ([], ys) else before_line x rest) ≡ some (line, left)
    → ((ends ≡ true) × ([] ≡ line) × (ys ≡ left))
      ⊎ ((ends ≡ false) × (l : List ℕ) × (rest ≡ some (l, left)) × (x ∷ l ≡ line))
split-cases true rest x ys line left e =
    let p = ap (λ (o : Split). or_default o ([], [])) e in
    inl (refl, ap (λ (q : List ℕ × List ℕ). q.0) p, ap (λ (q : List ℕ × List ℕ). q.1) p)
split-cases false none x ys line left e = ground arith
split-cases false (some (l, t)) x ys line left e =
    let p = ap (λ (o : Split). or_default o ([], [])) e in
    inr
      (refl, l, ap (λ (q : List ℕ × List ℕ). some (l, q.1)) p, ap (λ (q : List ℕ × List ℕ). q.0) p)

split_line-append :
    (a b line left : List ℕ)
    → split_line a ≡ some (line, left)
    → split_line (a ++ b) ≡ some (line, left ++ b)
split_line-append [] b line left e = ground arith
split_line-append (x ∷ []) b line left e = ground arith
split_line-append (x ∷ y ∷ ys) b line left e =
    elim (split-cases (starts_with crlf (x ∷ y ∷ ys)) (split_line (y ∷ ys)) x ys line left e) [
      | inl (ends, el, et) ↦ simp (ends, ← el, ← et) refl
      | inr (ends, l, er, el) ↦
          (let later = split_line-append (y ∷ ys) b l left er in
            simp (ends, ← el) (ap (before_line x) later))
    ]

pub length-split_line :
    (a line left : List ℕ) → split_line a ≡ some (line, left) → length left < length a
length-split_line [] line left e = ground arith
length-split_line (x ∷ []) line left e = ground arith
length-split_line (x ∷ y ∷ ys) line left e =
    elim (split-cases (starts_with crlf (x ∷ y ∷ ys)) (split_line (y ∷ ys)) x ys line left e) [
      | inl (ends, el, et) ↦ omega (arith, ap length et)
      | inr (ends, l, er, el) ↦ omega (arith, length-split_line (y ∷ ys) l left er)
    ]

-- The whole lines of a text, and what is left behind them; the text's length is fuel enough.
unfoldable pub lines : ℕ → List ℕ → List (List ℕ) × List ℕ
lines zero text = ([], text)
lines (suc fuel) text = elim (split_line text) [
  | none ↦ ([], text)
  | some (line, left) ↦ (let (more, end) = lines fuel left in (line ∷ more, end))
]

pub split-known :
    (o : Split) → (o ≡ none) ⊎ ((line : List ℕ) × (left : List ℕ) × (o ≡ some (line, left)))
split-known none = inl refl
split-known (some (line, left)) = inr (line, left, refl)

pub lines-none : (fuel : ℕ) (text : List ℕ) → split_line text ≡ none → lines fuel text ≡ ([], text)
unfolding lines
lines-none zero text e = refl
lines-none (suc fuel) text e =
    ap
      (λ (o : Split). elim o as (λ _. List (List ℕ) × List ℕ) [
        | none ↦ ([], text)
        | some (line, left) ↦ (let (more, end) = lines fuel left in (line ∷ more, end))
      ])
      e

pub lines-some :
    (fuel : ℕ) (text line left : List ℕ)
    → split_line text ≡ some (line, left)
    → lines (suc fuel) text ≡ (let (more, end) = lines fuel left in (line ∷ more, end))
unfolding lines
lines-some fuel text line left e =
    ap
      (λ (o : Split). elim o as (λ _. List (List ℕ) × List ℕ) [
        | none ↦ ([], text)
        | some (l, t) ↦ (let (more, end) = lines fuel t in (l ∷ more, end))
      ])
      e

pub lines-enough :
    (n m : ℕ) (text : List ℕ) → length text ≤ n → length text ≤ m → lines n text ≡ lines m text
lines-enough zero m [] h k = lines-none zero [] refl ∙ sym (lines-none m [] refl)
lines-enough (suc n) zero [] h k = lines-none (suc n) [] refl ∙ sym (lines-none zero [] refl)
lines-enough zero m (x ∷ xs) h k = ground arith
lines-enough (suc n) zero (x ∷ xs) h k = ground arith
lines-enough (suc n) (suc m) text h k = elim (split-known (split_line text)) [
  | inl e ↦ lines-none (suc n) text e ∙ sym (lines-none (suc m) text e)
  | inr (line, left, e) ↦
      (let shorter = length-split_line text line left e in
        lines-some n text line left e
        ∙ ap (λ (p : List (List ℕ) × List ℕ). (line ∷ p.0, p.1))
            (lines-enough n m left (omega (arith, shorter, h)) (omega (arith, shorter, k)))
        ∙ sym (lines-some m text line left e))
]

-- What is left of the first part goes in front of the second.
abbrev pub then_lines : ℕ → List ℕ → List (List ℕ) × List ℕ → List (List ℕ) × List ℕ
then_lines k b first = let second = lines k (first.1 ++ b) in (first.0 ++ second.0, second.1)

lines-append_none :
    (n m k : ℕ) (a b : List ℕ)
    → length a + length b ≤ m
    → length a + length b ≤ k
    → split_line a ≡ none
    → lines m (a ++ b) ≡ then_lines k b (lines n a)
lines-append_none n m k a b hm hk e =
    lines-enough m k (a ++ b) (omega (arith, length-append a b)) (omega (arith, length-append a b))
    ∙ ap (then_lines k b) (sym (lines-none n a e))

-- A text that comes in two parts has the same lines.
pub lines-append :
    (n m k : ℕ) (a b : List ℕ)
    → length a ≤ n
    → length a + length b ≤ m
    → length a + length b ≤ k
    → lines m (a ++ b) ≡ then_lines k b (lines n a)
lines-append zero m k [] b hn hm hk = lines-append_none zero m k [] b hm hk refl
lines-append zero m k (x ∷ xs) b hn hm hk = ground arith
lines-append (suc n) zero k [] b hn hm hk = lines-append_none (suc n) zero k [] b hm hk refl
lines-append (suc n) zero k (x ∷ xs) b hn hm hk = ground arith
lines-append (suc n) (suc m) k a b hn hm hk = elim (split-known (split_line a)) [
  | inl e ↦ lines-append_none (suc n) (suc m) k a b hm hk e
  | inr (line, left, e) ↦
      (let shorter = length-split_line a line left e in
        lines-some m (a ++ b) line (left ++ b) (split_line-append a b line left e)
        ∙ ap (λ (p : List (List ℕ) × List ℕ). (line ∷ p.0, p.1))
            (lines-append n m k left b (omega (arith, shorter, hn)) (omega (arith, shorter, hm))
              (omega (arith, shorter, hk)))
        ∙ ap (then_lines k b) (sym (lines-some n a line left e)))
]

pub length-lines : (fuel : ℕ) (text : List ℕ) → length ((lines fuel text).1) ≤ length text
unfolding lines
length-lines zero text = omega arith
length-lines (suc fuel) text = elim (split-known (split_line text)) [
  | inl e ↦
      omega
        (arith, ap (λ (p : List (List ℕ) × List ℕ). length (p.1)) (lines-none (suc fuel) text e))
  | inr (line, left, e) ↦ omega (
    arith,
    ap (λ (p : List (List ℕ) × List ℕ). length (p.1)) (lines-some fuel text line left e),
    length-split_line text line left e,
    length-lines fuel left,
  )
]
