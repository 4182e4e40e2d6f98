-- ===== src/Identity/Cards.antt =====
-- Contact cards of haven/identity.py.
pub mod RoundTrip
pub mod WellFormed
use haven_e2e_messenger.Prelude.{
  ℕ, zero, suc, Str, Bytes, text, Bool, true, false, Option, none, some, List, [], ◌∷◌, ◌++◌,
  length, eqb, ◌==◌, bytes_eq, if◌then◌else◌,
}
use haven_e2e_messenger.Prelude.Decimal.{ℤ, decimal, strip, split_at, int}
use haven_e2e_messenger.Prelude.Errors.{Result, ok, err, or_raise, invalid_contact_card, ◌>>=◌}
use haven_e2e_messenger.Crypto.Hex.{hex, fromhex}

abbrev pub contact_card_prefix : Str
contact_card_prefix = text "haven1"

-- `f":{relay_host}:{relay_port}"`, where both are given.
abbrev pub relay_part : Option Str → Option ℕ → Str
relay_part (some (c ∷ host)) (some (suc port)) = 58 ∷ (c ∷ host) ++ (58 ∷ decimal (suc port))
relay_part _ _ = []

-- `make_contact_card`, of a username and a public key.
unfoldable pub make_contact_card : Str → Bytes → Option Str → Option ℕ → Str
make_contact_card username public_bytes relay_host relay_port =
    contact_card_prefix
    ++ (58 ∷ username ++ (58 ∷ hex public_bytes ++ relay_part relay_host relay_port))

-- What a card says; a card without a relay has none in both last fields.
pub record Card : Type 0 where
  pub username : Str
  pub identity_pub : Bytes
  pub relay_host : Option Str
  pub relay_port : Option ℤ

abbrev pub card_key : Str → Str → Result Bytes
card_key prefix pub_hex = do
  key ← or_raise (fromhex pub_hex) invalid_contact_card
  if (prefix == contact_card_prefix)
      then (if eqb (length key) 32 then ok key else err invalid_contact_card)
      else err invalid_contact_card

abbrev pub card_of_parts : List Str → Result Card
card_of_parts (prefix ∷ username ∷ pub_hex ∷ []) = do
  key ← card_key prefix pub_hex
  ok (record { username = username; identity_pub = key; relay_host = none; relay_port = none })
card_of_parts (prefix ∷ username ∷ pub_hex ∷ host ∷ port_text ∷ []) = do
  key ← card_key prefix pub_hex
  port ← or_raise (int port_text) invalid_contact_card
  ok (record {
    username = username;
    identity_pub = key;
    relay_host = some host;
    relay_port = some port;
  })
card_of_parts _ = err invalid_contact_card

-- `parse_contact_card`
unfoldable pub parse_contact_card : Str → Result Card
parse_contact_card card = card_of_parts (split_at 58 (strip card))
