-- ===== src/Crypto/Handshake/SafetyNumber.antt =====
-- The safety number of haven/crypto.py: the same on both sides, and of fixed shape.
use haven_e2e_messenger.Prelude.{
  ◌≡◌, ◌≤◌, ◌<◌, refl, Bytes, ℕ, zero, suc, true, false, List, [], ◌∷◌, arith, length, take, All,
  All-append, inl, inr, ◌⊎◌, ◌+◌, ◌*◌, ◌/◌, ◌%◌,
}
use haven_e2e_messenger.Crypto.Primitives.{Primitives}
use haven_e2e_messenger.Crypto.Keys.{
  bytes_leb, sorted, five_digits, number_groups, join_spaces, fingerprint, from_big_endian,
  join_bytes,
}

pub bytes_leb_total : (a b : Bytes) → bytes_leb a b ≡ false → bytes_leb b a ≡ true
unfolding bytes_leb
bytes_leb_total [] b h = cc
bytes_leb_total (x ∷ a) [] h = refl
bytes_leb_total (x ∷ a) (y ∷ b) h = ground (arith, bytes_leb_total a b)

pub bytes_leb_antisymm : (a b : Bytes) → bytes_leb a b ≡ true → bytes_leb b a ≡ true → a ≡ b
unfolding bytes_leb
bytes_leb_antisymm [] [] h k = refl
bytes_leb_antisymm [] (y ∷ b) h k = cc
bytes_leb_antisymm (x ∷ a) [] h k = cc
bytes_leb_antisymm (x ∷ a) (y ∷ b) h k = ground (arith, bytes_leb_antisymm a b)

sorted_pair : (a b : Bytes) → sorted (a ∷ b ∷ []) ≡ sorted (b ∷ a ∷ [])
unfolding sorted
sorted_pair a b = ground (arith, bytes_leb_total a b, bytes_leb_antisymm a b)

-- The safety number of two keys does not depend on which of them is one's own.
pub fingerprint_comm :
    (P : Primitives) (a b : Bytes) → fingerprint P (a ∷ b ∷ []) ≡ fingerprint P (b ∷ a ∷ [])
unfolding fingerprint
fingerprint_comm P a b = rw (sorted_pair a b)

abbrev pub IsDigitOrSpace : ℕ → Type 0
IsDigitOrSpace c = ((48 ≤ c) × (c ≤ 57)) ⊎ (c ≡ 32)

five_digits-IsDigitOrSpace : (n : ℕ) → n < 100000 → All IsDigitOrSpace (five_digits n)
unfolding five_digits
five_digits-IsDigitOrSpace n h = (
  inl (omega arith),
  (inl (omega arith), (inl (omega arith), (inl (omega arith), (inl (omega arith), tt)))),
)

join_spaces-IsDigitOrSpace :
    (rounds n : ℕ) → All IsDigitOrSpace (join_spaces (number_groups rounds n))
unfolding join_spaces number_groups
join_spaces-IsDigitOrSpace zero n = tt
join_spaces-IsDigitOrSpace (suc zero) n = five_digits-IsDigitOrSpace (n % 100000) (omega arith)
join_spaces-IsDigitOrSpace (suc (suc rounds)) n =
    let tail = join_spaces (number_groups (suc rounds) (n / 100000)) in
    All-append IsDigitOrSpace (five_digits (n % 100000)) (32 ∷ tail)
      (five_digits-IsDigitOrSpace (n % 100000) (omega arith))
      (inr refl, join_spaces-IsDigitOrSpace (suc rounds) (n / 100000))

length-join_spaces :
    (rounds n : ℕ) → length (join_spaces (number_groups (suc rounds) n)) ≡ 5 + 6 * rounds
unfolding join_spaces number_groups five_digits
length-join_spaces zero n = refl
length-join_spaces (suc rounds) n = omega (arith, length-join_spaces rounds (n / 100000))

-- A safety number is six groups of five digits with a space between them, whatever the keys are:
-- 35 characters, each of them a digit or a space.
pub fingerprint_shape :
    (P : Primitives) (keys : List Bytes)
    → (length (fingerprint P keys) ≡ 35) × All IsDigitOrSpace (fingerprint P keys)
unfolding fingerprint
fingerprint_shape P keys =
    let numeric = from_big_endian 0 (take 30 (P.sha256 (join_bytes (sorted keys)))) in
    (length-join_spaces 5 numeric, join_spaces-IsDigitOrSpace 6 numeric)
