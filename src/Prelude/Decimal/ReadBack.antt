-- ===== src/Prelude/Decimal/ReadBack.antt =====
-- `int` reads what `str` wrote; what `strip` leaves and `split` cuts.
use Prim.Native.Nat.{ℕ, zero, suc, ◌+◌, ◌/◌, ◌%◌, ◌<◌, ◌≤◌}
use mathlib.Core.Path.{◌≡◌, refl, sym, ap, ◌∙◌, subst}
use mathlib.Core.Bool.{Bool, true, false}
use mathlib.Core.Option.{Option, some}
use mathlib.Core.Logic.{◌≢◌, inl, inr}
use mathlib.Core.List.{List, [], ◌∷◌, ◌++◌, append_assoc}
use native.Mathlib.Omega.{arith}
use haven_e2e_messenger.Prelude.Tests.{ltb, eqb, Bool-cases}
use haven_e2e_messenger.Prelude.Equality.{Str}
use haven_e2e_messenger.Prelude.Lists.{All}
use haven_e2e_messenger.Prelude.Decimal.{
  pos, digits, decimal, is_white, strip_left, before_stripped, strip_right, strip, cons_first,
  split_at, read_digits, whole, plain, signed, int,
}

digits-append : (fuel n : ℕ) (later : Str) → digits fuel n later ≡ digits fuel n [] ++ later
digits-append zero n later = refl
digits-append (suc fuel) n later = ground (
  arith,
  digits-append fuel (n / 10) ((48 + n % 10) ∷ later),
  digits-append fuel (n / 10) ((48 + n % 10) ∷ []),
  append_assoc (digits fuel (n / 10) []) ((48 + n % 10) ∷ []) later,
)

-- A number ends with its last digit.
decimal_ends : (n : ℕ) → (front : Str) × (decimal n ≡ front ++ ((48 + n % 10) ∷ []))
unfolding decimal
decimal_ends n = elim (Bool-cases (ltb n 10)) [
  | inl small ↦ ([], rw small refl)
  | inr large ↦ (digits n (n / 10) [], rw large (digits-append n (n / 10) ((48 + n % 10) ∷ [])))
]

read_digits-digits :
    (fuel n : ℕ) (later : Str)
    → n < fuel
    → read_digits (some (0, false)) (digits fuel n later) ≡ read_digits (some (n, true)) later
read_digits-digits zero n later h = absurd (omega arith)
read_digits-digits (suc fuel) n later h = elim (Bool-cases (ltb n 10)) [
  | inl small ↦
      rw small (ap (λ (state : Option (ℕ × Bool)). read_digits state later) (ground arith))
  | inr large ↦ rw large (
      read_digits-digits fuel (n / 10) ((48 + n % 10) ∷ later) (ground arith)
      ∙ ap (λ (state : Option (ℕ × Bool)). read_digits state later) (ground arith))
]

strip_right-last :
    (front : Str) (d : ℕ) → is_white d ≡ false → strip_right (front ++ (d ∷ [])) ≡ front ++ (d ∷ [])
strip_right-last [] d h = rw h refl
strip_right-last (c ∷ []) d h = rw h refl
strip_right-last (c ∷ e ∷ front) d h = ap (before_stripped c) (strip_right-last (e ∷ front) d h)

strip_left-first : (c : ℕ) (s : Str) → is_white c ≡ false → strip_left (c ∷ s) ≡ c ∷ s
strip_left-first c s h = rw h refl

-- A text that begins and ends with characters that are no white space is stripped of nothing.
strip-solid :
    (c : ℕ) (middle : Str) (d : ℕ)
    → is_white c ≡ false
    → is_white d ≡ false
    → strip (c ∷ middle ++ (d ∷ [])) ≡ c ∷ middle ++ (d ∷ [])
unfolding strip
strip-solid c middle d first last =
    ap strip_right (strip_left-first c (middle ++ (d ∷ [])) first)
    ∙ strip_right-last (c ∷ middle) d last

abbrev pub IsOther : ℕ → ℕ → Type 0
IsOther separator c = c ≢ separator

module _ (separator : ℕ) where
  pub split_at-whole : (s : Str) → All (IsOther separator) s → split_at separator s ≡ s ∷ []
  unfolding split_at
  split_at-whole [] v = refl
  split_at-whole (c ∷ s) (other, v) = ground (arith, split_at-whole s v)

  pub split_at-piece :
      (s rest : Str)
      → All (IsOther separator) s
      → split_at separator (s ++ (separator ∷ rest)) ≡ s ∷ split_at separator rest
  unfolding split_at
  split_at-piece [] rest v = ground arith
  split_at-piece (c ∷ s) rest (other, v) = ground (arith, split_at-piece s rest v)

  abbrev pub IsPieces : List Str → Type 0
  IsPieces = All (All (IsOther separator))

  cons_first-IsPieces :
      (c : ℕ) (parts : List Str) → c ≢ separator → IsPieces parts → IsPieces (cons_first c parts)
  cons_first-IsPieces c [] other v = ((other, tt), tt)
  cons_first-IsPieces c (part ∷ parts) other (here, later) = ((other, here), later)

  -- No piece has the separator in it.
  pub split_at-IsPieces : (s : Str) → IsPieces (split_at separator s)
  unfolding split_at
  split_at-IsPieces [] = (tt, tt)
  split_at-IsPieces (c ∷ s) = elim (Bool-cases (eqb c separator)) [
    | inl same ↦ rw same (tt, split_at-IsPieces s)
    | inr other ↦
        rw other (cons_first-IsPieces c (split_at separator s) (ground arith) (split_at-IsPieces s))
  ]

digits-All :
    (Good : ℕ → Type 0)
    → ((c : ℕ) → 48 ≤ c → c ≤ 57 → Good c)
    → (fuel n : ℕ) (later : Str) → All Good later
    → All Good (digits fuel n later)
digits-All Good digit zero n later v = v
digits-All Good digit (suc fuel) n later v = elim (Bool-cases (ltb n 10)) [
  | inl small ↦ rw small (digit (48 + n % 10) (omega arith) (omega arith), v)
  | inr large ↦ rw large (
      digits-All Good digit fuel (n / 10) ((48 + n % 10) ∷ later)
        (digit (48 + n % 10) (omega arith) (omega arith), v))
]

-- Every character of a printed number is a digit.
pub decimal-All :
    (Good : ℕ → Type 0) → ((c : ℕ) → 48 ≤ c → c ≤ 57 → Good c) → (n : ℕ) → All Good (decimal n)
unfolding decimal
decimal-All Good digit n = digits-All Good digit (suc n) n [] tt

signed-digit :
    (s : Str)
    → All (λ c. (48 ≤ c) × (c ≤ 57)) s
    → signed s ≡ plain (whole (read_digits (some (0, false)) s))
signed-digit [] v = refl
signed-digit (c ∷ s) ((low, high), v) = ground arith

digit-solid : (c : ℕ) → 48 ≤ c → c ≤ 57 → is_white c ≡ false
unfolding is_white
digit-solid c low high = ground arith

strip-dense :
    (front : Str) (d : ℕ)
    → All (λ c. is_white c ≡ false) (front ++ (d ∷ []))
    → strip (front ++ (d ∷ [])) ≡ front ++ (d ∷ [])
unfolding strip
strip-dense [] d (last, v) = rw last (rw last refl)
strip-dense (c ∷ front) d (first, v) = strip-solid c front d first (last_of front v)
  where
    last_of : (xs : Str) → All (λ c. is_white c ≡ false) (xs ++ (d ∷ [])) → is_white d ≡ false
    last_of [] (last, v) = last
    last_of (x ∷ xs) (here, v) = last_of xs v

strip-decimal : (n : ℕ) → strip (decimal n) ≡ decimal n
strip-decimal n =
    let (front, ends) = decimal_ends n in
    rw ends (
      strip-dense front (48 + n % 10)
        (subst (All (λ c. is_white c ≡ false)) ends (decimal-All _ digit-solid n)))

read_digits-decimal : (n : ℕ) → read_digits (some (0, false)) (decimal n) ≡ some (n, true)
unfolding decimal
read_digits-decimal n = read_digits-digits (suc n) n [] (omega arith)

-- `int` reads back what `str` wrote.
pub int-decimal : (n : ℕ) → int (decimal n) ≡ some (pos n)
unfolding int
int-decimal n = rw (strip-decimal n) (
    signed-digit (decimal n) (decimal-All _ (λ c low high. (low, high)) n)
    ∙ ap (λ state. plain (whole state)) (read_digits-decimal n))

-- A text that ends with a character that is no white space.
abbrev pub EndsSolid : Str → Type 0
EndsSolid s = (front : Str) × (d : ℕ) × (s ≡ front ++ (d ∷ [])) × (is_white d ≡ false)

pub append-EndsSolid : (xs s : Str) → EndsSolid s → EndsSolid (xs ++ s)
append-EndsSolid xs s (front, d, ends, solid) =
    (xs ++ front, d, ap (λ l. xs ++ l) ends ∙ sym (append_assoc xs front (d ∷ [])), solid)

pub decimal-EndsSolid : (n : ℕ) → EndsSolid (decimal n)
decimal-EndsSolid n =
    let (front, ends) = decimal_ends n in
    (front, 48 + n % 10, ends, digit-solid (48 + n % 10) (omega arith) (omega arith))

pub strip-EndsSolid : (c : ℕ) (s : Str) → is_white c ≡ false → EndsSolid s → strip (c ∷ s) ≡ c ∷ s
strip-EndsSolid c s first (front, d, ends, solid) = rw ends (strip-solid c front d first solid)
