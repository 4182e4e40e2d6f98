-- ===== src/Crypto/Hex.antt =====
-- `bytes.hex()` and `bytes.fromhex`, by which haven writes keys and ciphertexts into its JSON frames.
use haven_e2e_messenger.Prelude.{
  Bytes, Str, ℕ, ◌+◌, ◌*◌, ◌/◌, ◌%◌, ◌-◌, ◌<◌, ◌≡◌, refl, ap, Bool, true, false, ◌&&◌, ◌||◌, Option,
  some, none, [], ◌∷◌, ltb, leb, eqb, All, arith, if◌then◌else◌,
}

-- The digits of `bytes.hex()`, the 16 low values to 0-9a-f.
unfoldable pub hex_digit : ℕ → ℕ
hex_digit d = if ltb d 10 then 48 + d else 87 + d

unfoldable pub hex : Bytes → Str
unfolding hex_digit
hex [] = []
hex (b ∷ bs) = hex_digit (b / 16) ∷ hex_digit (b % 16) ∷ hex bs

-- A hex digit of either case.
unfoldable pub hex_value : ℕ → Option ℕ
hex_value c =
    if leb 48 c && leb c 57
    then some (c - 48)
    else if leb 97 c && leb c 102
    then some (c - 87)
    else if leb 65 c && leb c 70
    then some (c - 55)
    else none

unfoldable pub is_space : ℕ → Bool
is_space c = eqb c 32 || leb 9 c && leb c 13

unfoldable pub hex_pair : Option ℕ → Option ℕ → Option Bytes → Option Bytes
hex_pair (some hi) (some lo) (some rest) = some ((hi * 16 + lo) ∷ rest)
hex_pair hi lo rest = none

-- `bytes.fromhex`, which raises ValueError for `none`: white space may stand before a pair.
unfoldable pub fromhex : Str → Option Bytes
fromhex [] = some []
fromhex (c ∷ []) = if is_space c then some [] else none
fromhex (c ∷ d ∷ s) = elim (is_space c) [
  | true ↦ fromhex (d ∷ s)
  | false ↦ hex_pair (hex_value c) (hex_value d) (fromhex s)
]

abbrev pub IsByte : ℕ → Type 0
IsByte b = b < 256

hex_value-hex_digit : (d : ℕ) → d < 16 → hex_value (hex_digit d) ≡ some d
unfolding hex_value hex_digit
hex_value-hex_digit d h = ground arith

is_space-hex_digit : (d : ℕ) → is_space (hex_digit d) ≡ false
unfolding is_space hex_digit
is_space-hex_digit d = ground arith

fromhex-cons :
    (c d : ℕ) (s : Str)
    → is_space c ≡ false
    → fromhex (c ∷ d ∷ s) ≡ hex_pair (hex_value c) (hex_value d) (fromhex s)
unfolding fromhex
fromhex-cons c d s h = rw (h, fromhex)

-- `bytes.fromhex` reads back what `.hex()` wrote.
pub fromhex-hex : (bs : Bytes) → All IsByte bs → fromhex (hex bs) ≡ some bs
unfolding hex
fromhex-hex [] h = unfold fromhex in refl
fromhex-hex (b ∷ bs) (byte, rest) =
    rw
      (fromhex-cons (hex_digit (b / 16)) (hex_digit (b % 16)) (hex bs)
        (is_space-hex_digit (b / 16)))
      (rw (hex_value-hex_digit (b / 16) (omega arith)) (
        rw (hex_value-hex_digit (b % 16) (omega arith)) (
          rw (fromhex-hex bs rest)
            (unfold hex_pair in (ap (λ (n : ℕ). some (n ∷ bs)) (omega arith))))))
