-- ===== src/Identity/Cards/RoundTrip.antt =====
-- Contact cards of haven/identity.py: what is read from them.
use haven_e2e_messenger.Prelude.{
  ◌≡◌, refl, ap, ◌∙◌, ℕ, zero, suc, ◌%◌, ◌/◌, ◌<◌, ◌≤◌, Str, Bytes, text, false, Option, none, some,
  [], ◌∷◌, ◌++◌, length, bytes_eq, ==_refl, All, arith, append-nil,
}
use haven_e2e_messenger.Prelude.Decimal.{ℤ, pos, decimal, strip, split_at, is_white}
use haven_e2e_messenger.Prelude.Decimal.ReadBack.{
  IsOther, EndsSolid, append-EndsSolid, decimal-EndsSolid, strip-EndsSolid, split_at-whole,
  split_at-piece, decimal-All, int-decimal,
}
use haven_e2e_messenger.Prelude.Errors.{ok}
use haven_e2e_messenger.Crypto.Hex.{hex, hex_digit, IsByte, fromhex-hex}
use haven_e2e_messenger.Identity.Cards.{
  contact_card_prefix, make_contact_card, card_key, parse_contact_card,
}

-- A text without a colon.
abbrev pub HasNoColon : Str → Type 0
HasNoColon = All (IsOther 58)

hex_digit-IsOther : (d : ℕ) → IsOther 58 (hex_digit d)
unfolding hex_digit
hex_digit-IsOther d = ground arith

hex-HasNoColon : (bs : Bytes) → HasNoColon (hex bs)
unfolding hex
hex-HasNoColon [] = tt
hex-HasNoColon (b ∷ bs) =
    (hex_digit-IsOther (b / 16), (hex_digit-IsOther (b % 16), hex-HasNoColon bs))

hex_digit-solid : (d : ℕ) → d < 16 → is_white (hex_digit d) ≡ false
unfolding hex_digit is_white
hex_digit-solid d small = ground arith

hex-EndsSolid : (b : ℕ) (bs : Bytes) → All IsByte (b ∷ bs) → EndsSolid (hex (b ∷ bs))
unfolding hex
hex-EndsSolid b [] (byte, v) =
    (hex_digit (b / 16) ∷ [], hex_digit (b % 16), refl, hex_digit-solid (b % 16) (omega arith))
hex-EndsSolid b (c ∷ bs) (byte, v) =
    append-EndsSolid (hex_digit (b / 16) ∷ hex_digit (b % 16) ∷ []) (hex (c ∷ bs))
      (hex-EndsSolid c bs v)

-- A card without an address, and one with it, each before `parse_contact_card` has looked at its parts.
card_parts :
    (username : Str) (key rest : Str)
    → HasNoColon username
    → EndsSolid (key ++ rest)
    → split_at 58 (strip (contact_card_prefix ++ (58 ∷ username ++ (58 ∷ key ++ rest))))
      ≡ contact_card_prefix ∷ username ∷ split_at 58 (key ++ rest)
unfolding is_white
card_parts username key rest plain ends =
    rw
      (strip-EndsSolid 104 (text "aven1" ++ (58 ∷ username ++ (58 ∷ key ++ rest))) refl (
        append-EndsSolid (text "aven1:") (username ++ (58 ∷ key ++ rest)) (
          append-EndsSolid username (58 ∷ key ++ rest)
            (append-EndsSolid (58 ∷ []) (key ++ rest) ends))))
      (split_at-piece 58 contact_card_prefix (username ++ (58 ∷ key ++ rest)) (ground arith)
        ∙ ap (λ parts. contact_card_prefix ∷ parts)
            (split_at-piece 58 username (key ++ rest) plain))

card_key-hex :
    (key : Bytes)
    → All IsByte key
    → length key ≡ 32
    → card_key contact_card_prefix (hex key) ≡ ok key
card_key-hex key bytes size =
    rw (fromhex-hex key bytes) (ground (arith, ==_refl contact_card_prefix))

-- A relay is on a card only with both its host and its port, neither empty nor zero.
abbrev pub relay_on_card : Option Str → Option ℕ → Option Str × Option ℤ
relay_on_card (some (c ∷ host)) (some (suc port)) = (some (c ∷ host), some (pos (suc port)))
relay_on_card _ _ = (none, none)

abbrev pub HostHasNoColon : Option Str → Type 0
HostHasNoColon none = Unit
HostHasNoColon (some host) = HasNoColon host

digit-IsOther : (c : ℕ) → 48 ≤ c → c ≤ 57 → IsOther 58 c
digit-IsOther c low high = ground arith

plain_card :
    (username : Str) (b : ℕ) (bs : Bytes)
    → HasNoColon username
    → All IsByte (b ∷ bs)
    → length (b ∷ bs) ≡ 32
    → parse_contact_card (contact_card_prefix ++ (58 ∷ username ++ (58 ∷ hex (b ∷ bs) ++ [])))
      ≡ ok (record {
        username = username;
        identity_pub = b ∷ bs;
        relay_host = none;
        relay_port = none;
      })
unfolding parse_contact_card
plain_card username b bs plain bytes size =
    rw
      (card_parts username (hex (b ∷ bs)) [] plain
        (rw (append-nil (hex (b ∷ bs))) (hex-EndsSolid b bs bytes)))
      (rw (append-nil (hex (b ∷ bs))) (
        rw (split_at-whole 58 (hex (b ∷ bs)) (hex-HasNoColon (b ∷ bs)))
          (rw (card_key-hex (b ∷ bs) bytes size) refl)))

relay_card :
    (username host : Str) (port : ℕ) (key : Bytes)
    → HasNoColon username
    → HasNoColon host
    → All IsByte key
    → length key ≡ 32
    → parse_contact_card (
        contact_card_prefix
        ++ (58 ∷ username ++ (58 ∷ hex key ++ (58 ∷ host ++ (58 ∷ decimal port)))))
      ≡ ok (record {
        username = username;
        identity_pub = key;
        relay_host = some host;
        relay_port = some (pos port);
      })
unfolding parse_contact_card
relay_card username host port key plain plain_host bytes size =
    rw
      (card_parts username (hex key) (58 ∷ host ++ (58 ∷ decimal port)) plain (
        append-EndsSolid (hex key) (58 ∷ host ++ (58 ∷ decimal port)) (
          append-EndsSolid (58 ∷ host) (58 ∷ decimal port)
            (append-EndsSolid (58 ∷ []) (decimal port) (decimal-EndsSolid port)))))
      (rw (split_at-piece 58 (hex key) (host ++ (58 ∷ decimal port)) (hex-HasNoColon key)) (
        rw (split_at-piece 58 host (decimal port) plain_host) (
          rw (split_at-whole 58 (decimal port) (decimal-All _ digit-IsOther port))
            (rw (card_key-hex key bytes size) (rw (int-decimal port) refl)))))

-- A contact card is read back as it was made: the username, the key and, if it names a relay, the
-- relay's host and port. Conditions: neither the username nor the host has a colon in it, and the key
-- is 32 bytes.
pub parse_contact_card-make_contact_card :
    (username : Str) (key : Bytes) (host : Option Str) (port : Option ℕ)
    → HasNoColon username
    → HostHasNoColon host
    → All IsByte key
    → length key ≡ 32
    → parse_contact_card (make_contact_card username key host port)
      ≡ ok (record {
        username = username;
        identity_pub = key;
        relay_host = (relay_on_card host port).0;
        relay_port = (relay_on_card host port).1;
      })
unfolding make_contact_card
parse_contact_card-make_contact_card username [] host port plain plain_host bytes size =
    absurd (omega arith)
parse_contact_card-make_contact_card username (b ∷ bs) none port plain plain_host bytes size =
    plain_card username b bs plain bytes size
parse_contact_card-make_contact_card username (b ∷ bs) (some []) port plain plain_host bytes size =
    plain_card username b bs plain bytes size
parse_contact_card-make_contact_card username (b ∷ bs) (some (c ∷ host)) none plain plain_host bytes
      size =
    plain_card username b bs plain bytes size
parse_contact_card-make_contact_card username (b ∷ bs) (some (c ∷ host)) (some zero) plain
      plain_host bytes size =
    plain_card username b bs plain bytes size
parse_contact_card-make_contact_card username (b ∷ bs) (some (c ∷ host)) (some (suc port)) plain
      plain_host bytes size =
    relay_card username (c ∷ host) (suc port) (b ∷ bs) plain plain_host bytes size
