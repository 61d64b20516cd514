-- ===== src/Base/Texts.antt =====
-- Text as a list of codes: ASCII, or ISO 8859-1 where the sources say `latin1`.
use Prim.Native.Char.{code}
use Prim.Native.String.{String}
use Prim.Native.Nat.{ℕ, zero, suc, ◌+◌, ◌-◌, ◌/◌, ◌%◌}
use mathlib.Core.Bool.{Bool, true, false, ◌&&◌}
use mathlib.Core.List.{List, [], ◌∷◌}
use sprinter_rtl8019a.Base.Tests.{ltb, leb, ◌==◌, if◌then◌else◌}

abbrev pub codes : String → List ℕ
codes String.[] = []
codes (String.◌∷◌ c s) = code c ∷ codes s

abbrev pub upper : ℕ → ℕ
upper c = if leb 97 c && leb c 122 then c - 32 else c

abbrev pub lower : ℕ → ℕ
lower c = if leb 65 c && leb c 90 then c + 32 else c

-- `String(n)`; a number has at most `n + 1` digits.
abbrev pub decimal_digits : ℕ → ℕ → List ℕ → List ℕ
decimal_digits zero n digits = digits
decimal_digits (suc fuel) n digits =
    let more = (48 + n % 10) ∷ digits in
    let rest = decimal_digits fuel (n / 10) more in if ltb n 10 then more else rest

abbrev pub decimal : ℕ → List ℕ
decimal n = decimal_digits (suc n) n []

-- `text.startsWith(prefix)`
abbrev pub starts_with : List ℕ → List ℕ → Bool
starts_with [] text = true
starts_with (p ∷ ps) [] = false
starts_with (p ∷ ps) (c ∷ cs) = (p == c) && starts_with ps cs

abbrev pub crlf : List ℕ
crlf = 13 ∷ 10 ∷ []
