-- ===== src/Prelude/Lists.antt =====
-- Lists measured by the native numbers, and predicates over lists.
use Prim.Native.Nat.{ℕ, zero, suc, ◌+◌, ◌≤◌}
use mathlib.Core.Path.{◌≡◌, refl, ap}
use mathlib.Core.Logic.{inl, inr}
use mathlib.Core.Bool.{Bool}
use mathlib.Core.List.{List, [], ◌∷◌, ◌++◌}
use native.Mathlib.Omega.{arith}
use haven_e2e_messenger.Prelude.Tests.{if◌then◌else◌, Bool-cases}

module _ {ℓ} {A : Type ℓ} where
  abbrev pub length : List A → ℕ
  length [] = 0
  length (x ∷ xs) = suc (length xs)

  abbrev pub take : ℕ → List A → List A
  take zero xs = []
  take (suc n) [] = []
  take (suc n) (x ∷ xs) = x ∷ take n xs

  abbrev pub drop : ℕ → List A → List A
  drop zero xs = xs
  drop (suc n) [] = []
  drop (suc n) (x ∷ xs) = drop n xs

  -- A list comprehension with a test.
  abbrev pub keep : (A → Bool) → List A → List A
  keep p [] = []
  keep p (x ∷ xs) = let rest = keep p xs in if p x then x ∷ rest else rest

  pub length-append : (xs ys : List A) → length (xs ++ ys) ≡ length xs + length ys
  length-append [] ys = omega arith
  length-append (x ∷ xs) ys = omega (arith, length-append xs ys)

  pub take-append : (xs ys : List A) → take (length xs) (xs ++ ys) ≡ xs
  take-append [] ys = refl
  take-append (x ∷ xs) ys = ap (λ l. x ∷ l) (take-append xs ys)

  pub drop-append : (xs ys : List A) → drop (length xs) (xs ++ ys) ≡ ys
  drop-append [] ys = refl
  drop-append (x ∷ xs) ys = drop-append xs ys

  -- A cut within the first of two lists, and one beyond it.
  pub take_within : (n : ℕ) (xs ys : List A) → n ≤ length xs → take n (xs ++ ys) ≡ take n xs
  take_within zero xs ys h = refl
  take_within (suc n) [] ys h = absurd (omega arith)
  take_within (suc n) (x ∷ xs) ys h = ap (λ l. x ∷ l) (take_within n xs ys (omega arith))

  pub drop_within : (n : ℕ) (xs ys : List A) → n ≤ length xs → drop n (xs ++ ys) ≡ drop n xs ++ ys
  drop_within zero xs ys h = refl
  drop_within (suc n) [] ys h = absurd (omega arith)
  drop_within (suc n) (x ∷ xs) ys h = drop_within n xs ys (omega arith)

  pub take_beyond :
      (n k : ℕ) (xs ys : List A) → n ≡ length xs + k → take n (xs ++ ys) ≡ xs ++ take k ys
  take_beyond n k [] ys h = ap (λ i. take i ys) (omega arith)
  take_beyond zero k (x ∷ xs) ys h = absurd (omega arith)
  take_beyond (suc n) k (x ∷ xs) ys h = ap (λ l. x ∷ l) (take_beyond n k xs ys (omega arith))

  pub drop_beyond : (n k : ℕ) (xs ys : List A) → n ≡ length xs + k → drop n (xs ++ ys) ≡ drop k ys
  drop_beyond n k [] ys h = ap (λ i. drop i ys) (omega arith)
  drop_beyond zero k (x ∷ xs) ys h = absurd (omega arith)
  drop_beyond (suc n) k (x ∷ xs) ys h = drop_beyond n k xs ys (omega arith)

  pub length-take : (n : ℕ) (xs : List A) → n ≤ length xs → length (take n xs) ≡ n
  length-take zero xs h = refl
  length-take (suc n) [] h = absurd (omega arith)
  length-take (suc n) (x ∷ xs) h = ap suc (length-take n xs (omega arith))

  pub length-drop : (n : ℕ) (xs : List A) → n ≤ length xs → length (drop n xs) + n ≡ length xs
  length-drop zero xs h = omega arith
  length-drop (suc n) [] h = absurd (omega arith)
  length-drop (suc n) (x ∷ xs) h = omega (arith, length-drop n xs (omega arith))

-- `ORDER BY`, by insertion before the first item that does not come earlier.
module _ {ℓ} {A : Type ℓ} (before : A → A → Bool) where
  abbrev pub place : A → List A → List A
  place a [] = a ∷ []
  place a (b ∷ rows) = let rest = place a rows in if before a b then a ∷ b ∷ rows else b ∷ rest

  abbrev pub order_by : List A → List A
  order_by [] = []
  order_by (a ∷ rows) = place a (order_by rows)

module _ {ℓ κ} {A : Type ℓ} (Good : A → Type κ) where
  abbrev pub All : List A → Type κ
  All [] = Unit
  All (a ∷ rest) = Good a × All rest

  pub All-append : (front back : List A) → All front → All back → All (front ++ back)
  All-append [] back none_there all_back = all_back
  All-append (a ∷ front) back (good, all_front) all_back =
      (good, All-append front back all_front all_back)

  pub All-take : (n : ℕ) (rows : List A) → All rows → All (take n rows)
  All-take zero rows h = tt
  All-take (suc n) [] h = tt
  All-take (suc n) (a ∷ rows) (good, h) = (good, All-take n rows h)

  pub All-place :
      (before : A → A → Bool) (a : A) (rows : List A)
      → Good a
      → All rows
      → All (place before a rows)
  All-place before a [] good h = (good, tt)
  All-place before a (b ∷ rows) good (fine, h) = elim (Bool-cases (before a b)) [
    | inl first ↦ rw first (good, (fine, h))
    | inr later ↦ rw later (fine, All-place before a rows good h)
  ]

  pub All-order_by : (before : A → A → Bool) (rows : List A) → All rows → All (order_by before rows)
  All-order_by before [] h = tt
  All-order_by before (a ∷ rows) (good, h) =
      All-place before a (order_by before rows) good (All-order_by before rows h)
