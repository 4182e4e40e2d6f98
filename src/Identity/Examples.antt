-- ===== src/Identity/Examples.antt =====
-- An account of haven/identity.py on a toy disk.
use haven_e2e_messenger.Prelude.{some, All}
use haven_e2e_messenger.Prelude.Errors.{invalid_contact_card}
use haven_e2e_messenger.Prelude.Decimal.{decimal, strip, split_at, is_white}
use haven_e2e_messenger.Crypto.Hex.{hex, hex_digit, IsByte}
use haven_e2e_messenger.Identity.Cards.{make_contact_card, parse_contact_card}
use haven_e2e_messenger.Identity.Cards.WellFormed.{IsOrRefused, IsCard, parse_contact_card-IsCard}
use haven_e2e_messenger.Prelude.{◌≡◌, refl, ℕ, Str, Bytes, text, [], ◌∷◌, ◌++◌, bytes_eq, arith}
use haven_e2e_messenger.Prelude.Errors.{Result, ok, err, value_error}
use haven_e2e_messenger.Prelude.Dict.{lookup}
use haven_e2e_messenger.Crypto.Toy.{toy, toy-SealOpens}
use haven_e2e_messenger.Crypto.Keys.{from_private_bytes}
use haven_e2e_messenger.Accounts.Names.{lower, lower_char}
use haven_e2e_messenger.Identity.Phrase.{normalize_phrase, split, join, generate_recovery_phrase}
use haven_e2e_messenger.Identity.Local.{
  FileTools, LoadsBack, Disk, LocalAccount, Drawn, create_account, sign_in,
  reset_password_with_recovery,
}
use haven_e2e_messenger.Identity.Unlock.{account_is_unlocked}

abbrev read_toy : Bytes → Result (Str × ℕ)
read_toy [] = err value_error
read_toy (created_at ∷ private_key) = ok (private_key, created_at)

abbrev tools : FileTools
tools = record {
  derive_key = λ secret salt. secret ++ salt;
  utf8 = λ s. s;
  dumps = λ private_key created_at. created_at ∷ private_key;
  loads = read_toy;
}

tools-LoadsBack : LoadsBack tools
tools-LoadsBack private_key created_at = refl

abbrev drawn : Drawn
drawn = record { salt = text "0123456789abcdef"; nonce = text "0123456789ab" }

abbrev blank : Disk
blank = record { identity_enc = []; recovery_enc = [] }

same_phrase : normalize_phrase (text "  Zoo   able") ≡ normalize_phrase (text "zoo able")
unfolding normalize_phrase split join lower lower_char is_white
same_phrase = refl

generated :
    generate_recovery_phrase (text "able" ∷ text "zoo" ∷ []) ((8, 1) ∷ (0, 0) ∷ [])
    ≡ text "zoo able"
unfolding generate_recovery_phrase join
generated = refl

account_is_unlocked_example :
    let account : LocalAccount = record {
      username = text "ann";
      identity = from_private_bytes toy (5 ∷ []);
      created_at = 3;
    } in
    let (made, d1) =
      create_account toy tools drawn drawn
        (5 ∷ [])
        3
        (text "zoo able")
        (text "ann")
        (text "pw")
        blank in
    let (reset, d2) =
      reset_password_with_recovery toy tools drawn
        (text "ann")
        (text "  Zoo   able")
        (text "new")
        d1 in
    (made ≡ ok (account, text "zoo able"))
    × (sign_in toy tools (text "ann") (text "pw") d1 ≡ ok account)
    × (reset ≡ ok account)
    × (sign_in toy tools (text "ann") (text "new") d2 ≡ ok account)
    × (d2.recovery_enc ≡ d1.recovery_enc)
unfolding lookup
account_is_unlocked_example =
    account_is_unlocked toy toy-SealOpens tools tools-LoadsBack drawn drawn drawn (5 ∷ []) 3
      (text "zoo able") (text "  Zoo   able") (text "ann") (text "pw") (text "new") blank
      (refl, refl) (refl, refl) (refl, refl) (omega arith, tt) refl same_phrase

abbrev card_bytes : Bytes
card_bytes =
    1 ∷ 2 ∷ 3 ∷ 4 ∷ 5 ∷ 6 ∷ 7 ∷ 8 ∷ 9 ∷ 10 ∷ 11 ∷ 12 ∷ 13 ∷ 14 ∷ 15 ∷ 16 ∷ 17 ∷ 18 ∷ 19 ∷ 20 ∷ 21
    ∷ 22 ∷ 23 ∷ 24 ∷ 25 ∷ 26 ∷ 27 ∷ 28 ∷ 29 ∷ 30 ∷ 31 ∷ 255 ∷ []

abbrev card_text : Str
card_text =
    text "haven1:ann:0102030405060708090a0b0c0d0e0f101112131415161718191a1b1c1d1e1fff:b.org:8443"

card_is_made :
    make_contact_card (text "ann") card_bytes (some (text "b.org")) (some 8443) ≡ card_text
unfolding make_contact_card hex hex_digit decimal
card_is_made = refl

card_bytes-are : All IsByte card_bytes
card_bytes-are = ground arith

-- The card of a relay with an IPv6 address is refused.
ipv6_card_is_refused :
    parse_contact_card
      (make_contact_card (text "ann") card_bytes (some (text "fe80::1")) (some 8443))
    ≡ err invalid_contact_card
unfolding make_contact_card parse_contact_card hex hex_digit decimal strip split_at is_white
ipv6_card_is_refused = refl

parse_contact_card-IsCard_example : IsOrRefused IsCard (parse_contact_card card_text)
parse_contact_card-IsCard_example = parse_contact_card-IsCard card_text
