-- ===== src/Identity/Cards/WellFormed.antt =====
-- What `parse_contact_card` of haven/identity.py gives on any text.
use haven_e2e_messenger.Prelude.{
  ◌≡◌, refl, ℕ, ◌<◌, Str, Bytes, Bool, true, false, Option, none, some, List, [], ◌∷◌, length, eqb,
  ◌==◌, bytes_eq, if◌then◌else◌, All, arith, Bool-cases, inl, inr, Option-cases,
}
use haven_e2e_messenger.Prelude.Decimal.{ℤ, strip, split_at, int}
use haven_e2e_messenger.Prelude.Decimal.ReadBack.{IsPieces, split_at-IsPieces}
use haven_e2e_messenger.Prelude.Errors.{Result, ok, err, or_raise, invalid_contact_card, ◌>>=◌}
use haven_e2e_messenger.Crypto.Hex.{fromhex, hex_value, hex_pair, is_space, IsByte}
use haven_e2e_messenger.Identity.Cards.{
  contact_card_prefix, Card, card_key, card_of_parts, parse_contact_card,
}
use haven_e2e_messenger.Identity.Cards.RoundTrip.{HasNoColon, HostHasNoColon}

abbrev IsDigit : Option ℕ → Type 0
IsDigit none = Unit
IsDigit (some d) = d < 16

abbrev AreBytes : Option Bytes → Type 0
AreBytes none = Unit
AreBytes (some bs) = All IsByte bs

hex_value-IsDigit : (c : ℕ) → IsDigit (hex_value c)
unfolding hex_value
hex_value-IsDigit c = ground arith

hex_pair-AreBytes :
    (hi lo : Option ℕ) (rest : Option Bytes)
    → IsDigit hi
    → IsDigit lo
    → AreBytes rest
    → AreBytes (hex_pair hi lo rest)
unfolding hex_pair
hex_pair-AreBytes none lo rest h l v = tt
hex_pair-AreBytes (some hi) none rest h l v = tt
hex_pair-AreBytes (some hi) (some lo) none h l v = tt
hex_pair-AreBytes (some hi) (some lo) (some bs) h l v = (omega arith, v)

fromhex-AreBytes : (s : Str) → AreBytes (fromhex s)
unfolding fromhex
fromhex-AreBytes [] = tt
fromhex-AreBytes (c ∷ []) = elim (Bool-cases (is_space c)) [
  | inl white ↦ rw (white, AreBytes) tt
  | inr other ↦ rw (other, AreBytes) tt
]
fromhex-AreBytes (c ∷ d ∷ s) = elim (Bool-cases (is_space c)) [
  | inl white ↦ rw (white, AreBytes) (fromhex-AreBytes (d ∷ s))
  | inr other ↦
      rw (other, AreBytes)
        (hex_pair-AreBytes (hex_value c) (hex_value d) (fromhex s) (hex_value-IsDigit c)
          (hex_value-IsDigit d) (fromhex-AreBytes s))
]

abbrev pub IsKey : Bytes → Type 0
IsKey key = (length key ≡ 32) × All IsByte key

-- Both of the relay's fields are given, or neither.
abbrev pub GoTogether : Option Str → Option ℤ → Type 0
GoTogether none none = Unit
GoTogether (some host) (some port) = Unit
GoTogether _ _ = ⊥

abbrev pub IsCard : Card → Type 0
IsCard card =
    HasNoColon card.username
    × IsKey card.identity_pub
    × HostHasNoColon card.relay_host
    × GoTogether card.relay_host card.relay_port

-- A result that satisfies the predicate, or the refusal of the card.
abbrev pub IsOrRefused : {A : Type 0} → (A → Type 0) → Result A → Type 0
IsOrRefused Good (ok a) = Good a
IsOrRefused Good (err e) = e ≡ invalid_contact_card

sized-IsKey :
    (is_ours is_long : Bool) (key : Bytes)
    → eqb (length key) 32 ≡ is_long
    → All IsByte key
    → IsOrRefused IsKey (
        if is_ours
        then (if is_long then ok key else err invalid_contact_card)
        else err invalid_contact_card)
sized-IsKey true true key long bytes = (ground arith, bytes)
sized-IsKey true false key long bytes = refl
sized-IsKey false is_long key long bytes = refl

card_key-IsKey : (prefix pub_hex : Str) → IsOrRefused IsKey (card_key prefix pub_hex)
card_key-IsKey prefix pub_hex = with_key (fromhex pub_hex) (fromhex-AreBytes pub_hex)
  where
    with_key :
        (found : Option Bytes)
        → AreBytes found
        → IsOrRefused IsKey (
            or_raise found invalid_contact_card >>= λ key.
            if prefix == contact_card_prefix
            then (if eqb (length key) 32 then ok key else err invalid_contact_card)
            else err invalid_contact_card)
    with_key none v = refl
    with_key (some key) v =
        sized-IsKey (prefix == contact_card_prefix) (eqb (length key) 32) key refl v

bind-IsCard :
    {A : Type 0} (Good : A → Type 0) (r : Result A) (next : A → Result Card)
    → IsOrRefused Good r
    → ((a : A) → Good a → IsOrRefused IsCard (next a))
    → IsOrRefused IsCard (r >>= next)
bind-IsCard Good (ok a) next good step = step a good
bind-IsCard Good (err e) next refused step = refused

parsed_port :
    (port_text : Str)
    → IsOrRefused (λ (port : ℤ). Unit) (or_raise (int port_text) invalid_contact_card)
parsed_port port_text = elim (Option-cases (int port_text)) [
  | inl none_there ↦ rw (none_there, IsOrRefused) refl
  | inr (port, there) ↦ rw (there, IsOrRefused) tt
]

card_of_parts-IsCard :
    (parts : List Str) → IsPieces 58 parts → IsOrRefused IsCard (card_of_parts parts)
card_of_parts-IsCard [] v = refl
card_of_parts-IsCard (a ∷ []) v = refl
card_of_parts-IsCard (a ∷ b ∷ []) v = refl
card_of_parts-IsCard (prefix ∷ username ∷ pub_hex ∷ []) (p, (u, v)) =
    bind-IsCard IsKey (card_key prefix pub_hex) _ (card_key-IsKey prefix pub_hex)
      (λ key good. (u, good, tt, tt))
card_of_parts-IsCard (a ∷ b ∷ c ∷ d ∷ []) v = refl
card_of_parts-IsCard (prefix ∷ username ∷ pub_hex ∷ host ∷ port_text ∷ []) (p, (u, (k, (h, v)))) =
    bind-IsCard IsKey (card_key prefix pub_hex) _ (card_key-IsKey prefix pub_hex) (λ key good.
      bind-IsCard (λ (port : ℤ). Unit) (or_raise (int port_text) invalid_contact_card) _
        (parsed_port port_text) (λ port done. (u, good, h, tt)))
card_of_parts-IsCard (a ∷ b ∷ c ∷ d ∷ e ∷ f ∷ more) v = refl

-- Whatever text is pasted as a contact card, it is refused as an invalid card and by no other exception,
-- or what is read is well-formed: a key of exactly 32 bytes, a username and a host without a colon, and
-- a host and a port only together.
pub parse_contact_card-IsCard : (card : Str) → IsOrRefused IsCard (parse_contact_card card)
unfolding parse_contact_card
parse_contact_card-IsCard card =
    card_of_parts-IsCard (split_at 58 (strip card)) (split_at-IsPieces 58 (strip card))
