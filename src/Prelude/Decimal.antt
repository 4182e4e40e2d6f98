-- ===== src/Prelude/Decimal.antt =====
-- `str` and `int` of Python on integers, and `split` and `strip` of its texts. Texts are ASCII.
pub mod ReadBack
use Prim.Native.Nat.{ℕ, zero, suc, ◌+◌, ◌-◌, ◌*◌, ◌/◌, ◌%◌, ◌<◌, ◌≤◌}
use mathlib.Core.Path.{◌≡◌, refl, sym, ap, ◌∙◌, subst}
use mathlib.Core.Bool.{Bool, true, false, ◌&&◌, ◌||◌}
use mathlib.Core.Option.{Option, none, some}
use mathlib.Core.Logic.{◌≢◌, inl, inr}
use mathlib.Core.List.{List, [], ◌∷◌, ◌++◌, append_assoc}
use native.Mathlib.Omega.{arith}
use haven_e2e_messenger.Prelude.Tests.{ltb, leb, eqb, if◌then◌else◌, Bool-cases}
use haven_e2e_messenger.Prelude.Equality.{Str}
use haven_e2e_messenger.Prelude.Lists.{All}

-- `negsuc n` is -(n + 1).
pub data ℤ : Type 0 where
  pos : ℕ → ℤ
  negsuc : ℕ → ℤ

-- The digits of a number before a text. A turn gives a digit, so n + 1 turns are enough.
abbrev pub digits : ℕ → ℕ → Str → Str
digits zero n later = later
digits (suc fuel) n later =
    let rest = digits fuel (n / 10) ((48 + n % 10) ∷ later) in
    if ltb n 10 then (48 + n % 10) ∷ later else rest

-- `str(n)`
unfoldable pub decimal : ℕ → Str
decimal n = digits (suc n) n []

unfoldable pub is_white : ℕ → Bool
is_white c = eqb c 32 || leb 9 c && leb c 13 || leb 28 c && leb c 31

-- `lstrip()`
abbrev pub strip_left : Str → Str
strip_left [] = []
strip_left (c ∷ s) = let rest = strip_left s in if is_white c then rest else c ∷ s

-- A character before a text that is stripped on its right.
abbrev pub before_stripped : ℕ → Str → Str
before_stripped c [] = if is_white c then [] else c ∷ []
before_stripped c (d ∷ s) = c ∷ d ∷ s

-- `rstrip()`
abbrev pub strip_right : Str → Str
strip_right [] = []
strip_right (c ∷ s) = before_stripped c (strip_right s)

unfoldable pub strip : Str → Str
strip s = strip_right (strip_left s)

abbrev pub cons_first : ℕ → List Str → List Str
cons_first c [] = (c ∷ []) ∷ []
cons_first c (part ∷ parts) = (c ∷ part) ∷ parts

-- `split(separator)` at a separator of one character.
unfoldable pub split_at : ℕ → Str → List Str
split_at separator [] = [] ∷ []
split_at separator (c ∷ s) =
    let rest = split_at separator s in if eqb c separator then [] ∷ rest else cons_first c rest

-- The number read by now, and whether the last character was a digit.
abbrev pub read_digit : Option (ℕ × Bool) → ℕ → Option (ℕ × Bool)
read_digit none c = none
read_digit (some (n, after_digit)) c =
    if leb 48 c && leb c 57
    then some (n * 10 + (c - 48), true)
    else if eqb c 95 && after_digit
    then some (n, false)
    else none

abbrev pub read_digits : Option (ℕ × Bool) → Str → Option (ℕ × Bool)
read_digits state [] = state
read_digits state (c ∷ s) = read_digits (read_digit state c) s

abbrev pub whole : Option (ℕ × Bool) → Option ℕ
whole (some (n, true)) = some n
whole _ = none

abbrev pub negated : Option ℕ → Option ℤ
negated none = none
negated (some zero) = some (pos zero)
negated (some (suc n)) = some (negsuc n)

abbrev pub plain : Option ℕ → Option ℤ
plain none = none
plain (some n) = some (pos n)

abbrev pub signed : Str → Option ℤ
signed [] = none
signed (c ∷ s) =
    if eqb c 45
    then negated (whole (read_digits (some (0, false)) s))
    else if eqb c 43
    then plain (whole (read_digits (some (0, false)) s))
    else plain (whole (read_digits (some (0, false)) (c ∷ s)))

-- `int(s)`, on at most 4300 digits; none is ValueError.
unfoldable pub int : Str → Option ℤ
int s = signed (strip s)
