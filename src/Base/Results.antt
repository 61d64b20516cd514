-- ===== src/Base/Results.antt =====
-- A computation that may throw: `E` tells the throws of a component apart.
use mathlib.Core.Path.{◌≡◌, ap, subst}
use mathlib.Core.Bool.{Bool, true, false}
use sprinter_rtl8019a.Base.Tests.{if◌then◌else◌}

pub data Result {ℓ} (E : Type 0) (A : Type ℓ) : Type ℓ where
  ok : A → Result E A
  err : E → Result E A

-- The first throw ends the run.
unfoldable pub and_then {ℓ κ} :
    {E : Type 0} {A : Type ℓ} {B : Type κ} → Result E A → (A → Result E B) → Result E B
and_then (ok a) k = k a
and_then (err e) k = err e

pub and_then-ok {ℓ κ} :
    {E : Type 0} {A : Type ℓ} {B : Type κ} (r : Result E A) (a : A) (k : A → Result E B)
    → r ≡ ok a
    → and_then r k ≡ k a
unfolding and_then
and_then-ok r a k e = ap (λ x. and_then x k) e

-- A property of the outcome, if there is one.
abbrev pub Ensures {ℓ} : {E : Type 0} {A : Type ℓ} → (A → Type 0) → Result E A → Type 0
Ensures Q (ok a) = Q a
Ensures Q (err e) = Unit

pub ok-Ensures {ℓ} :
    {E : Type 0} {A : Type ℓ} (Q : A → Type 0) (r : Result E A) (a : A)
    → r ≡ ok a
    → Ensures Q r
    → Q a
ok-Ensures Q r a e h = subst (Ensures Q) e h

pub if-Ensures {ℓ} :
    {E : Type 0} {A : Type ℓ} (Q : A → Type 0) (b : Bool) (x y : Result E A)
    → Ensures Q x
    → Ensures Q y
    → Ensures Q (if b then x else y)
if-Ensures Q true x y hx hy = hx
if-Ensures Q false x y hx hy = hy
