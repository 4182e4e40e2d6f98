-- ===== src/Desktop/Contacts/Reached.antt =====
-- From a contact card to a connection over its relay, across haven/identity.py, haven/config.py and
-- haven/gui.py.
use haven_e2e_messenger.Prelude.{
  ◌≡◌, ◌⊎◌, refl, ℕ, suc, Str, Bytes, Bool, true, Option, some, [], ◌∷◌, length, All, bytes_eq,
  arith, Bool-cases, inl, inr,
}
use haven_e2e_messenger.Prelude.Errors.{ok}
use haven_e2e_messenger.Prelude.Decimal.{pos}
use haven_e2e_messenger.Prelude.Dict.{Dict, lookup, insert, has_key, lookup-insert_same}
use haven_e2e_messenger.Crypto.Hex.{hex, IsByte}
use haven_e2e_messenger.Identity.Cards.{make_contact_card, parse_contact_card}
use haven_e2e_messenger.Identity.Cards.RoundTrip.{HasNoColon, parse_contact_card-make_contact_card}
use haven_e2e_messenger.Settings.{relay_key, list_relays}
use haven_e2e_messenger.Settings.Relays.{IsMigratable, adds, lists, relays_are_a_dict}
use haven_e2e_messenger.Desktop.Routes.{over_relay, attempt_connect, route_of}
use haven_e2e_messenger.Desktop.Contacts.{
  Contacts, relay_name, ask_relay, card_meta, add_contact_by_card,
}

-- A contact with a key and a relay that is connected is reached over that relay.
route_by_relay :
    (username : Str) (b : ℕ) (bs : Bytes) (c : ℕ) (host : Str) (port : ℕ) (relays : Dict Str Bool)
    → lookup (relay_key (c ∷ host) port) relays ≡ some true
    → route_of (card_meta username (b ∷ bs) (some (relay_key (c ∷ host) port))) relays
      ≡ over_relay (hex (b ∷ bs)) (relay_key (c ∷ host) port)
unfolding relay_key hex
route_by_relay username b bs c host port relays up = rw up refl

-- The relay is taken, if it is known already or the user agrees, and is in the settings then.
IsTaken : Str → Option Str × Contacts → Type 0
IsTaken key (relay, s) = (relay ≡ some key) × (has_key key (list_relays s.settings).0 ≡ true)

has_key-insert :
    {V : Type 0} (key : Str) (v : V) (d : Dict Str V) → has_key key (insert key v d) ≡ true
has_key-insert key v d = rw (lookup-insert_same key v d, has_key) refl

ask_relay-IsTaken :
    (agreed : Bool) (username : Str) (c : ℕ) (host : Str) (port : ℕ) (s : Contacts)
    → IsMigratable s.settings
    → (agreed ≡ true)
      ⊎ (has_key (relay_key (c ∷ host) (suc port)) (list_relays s.settings).0 ≡ true)
    → IsTaken
        (relay_key (c ∷ host) (suc port))
        (ask_relay agreed username (some (c ∷ host)) (some (suc port)) s)
unfolding IsTaken
ask_relay-IsTaken agreed username c host port s fresh wanted =
    let key = relay_key (c ∷ host) (suc port) in
    let (relays, file) = list_relays s.settings in
    elim (Bool-cases (has_key key (list_relays s.settings).0)) [
      | inl known ↦
          let (kept, _) = relays_are_a_dict (lists ∷ []) s.settings fresh in
          rw known (refl, rw kept known)
      | inr unknown ↦
          let (kept, _) =
            relays_are_a_dict (lists ∷ adds (relay_name username) (c ∷ host) (suc port) ∷ [])
              s.settings fresh in
          let yes_ : agreed ≡ true = elim wanted [
            | inl said ↦ said
            | inr known ↦ absurd (ground arith)
          ] in
          rw unknown (rw yes_ (refl, rw kept (has_key-insert key _ (list_relays s.settings).0)))
    ]

-- A contact card brings two people together over its relay. The card that an account makes with a relay
-- is read back, and who adds the contact so read is then led to the contact's key over that relay, and
-- has the relay among the settings. Conditions: neither the username nor the host has a colon in it; the
-- key is 32 bytes; the relay was configured, or the user agrees to add it; its client is connected; and
-- an address of the old kind in the settings is not yet among the relays.
pub card_leads_over_relay :
    (username : Str) (b : ℕ) (bs : Bytes) (c : ℕ) (host : Str) (port : ℕ) (agreed : Bool) (fp : Str)
    (relays : Dict Str Bool) (s : Contacts)
    → HasNoColon username
    → HasNoColon (c ∷ host)
    → All IsByte (b ∷ bs)
    → length (b ∷ bs) ≡ 32
    → IsMigratable s.settings
    → (agreed ≡ true)
      ⊎ (has_key (relay_key (c ∷ host) (suc port)) (list_relays s.settings).0 ≡ true)
    → lookup (relay_key (c ∷ host) (suc port)) relays ≡ some true
    → let key = relay_key (c ∷ host) (suc port) in
      let s' =
        add_contact_by_card agreed fp username (b ∷ bs) (some (c ∷ host)) (some (suc port)) s in
      (parse_contact_card (make_contact_card username (b ∷ bs) (some (c ∷ host)) (some (suc port)))
        ≡ ok (record {
          username = username;
          identity_pub = b ∷ bs;
          relay_host = some (c ∷ host);
          relay_port = some (pos (suc port));
        }))
      × (attempt_connect fp s'.peer_meta relays ≡ over_relay (hex (b ∷ bs)) key)
      × (has_key key (list_relays s'.settings).0 ≡ true)
unfolding add_contact_by_card attempt_connect IsTaken
card_leads_over_relay username b bs c host port agreed fp relays s plain plain_host bytes size fresh
      wanted up =
    let (relay, s') = ask_relay agreed username (some (c ∷ host)) (some (suc port)) s in
    let (taken, listed) = ask_relay-IsTaken agreed username c host port s fresh wanted in
    let meta = card_meta username (b ∷ bs) relay in
    (
      parse_contact_card-make_contact_card username (b ∷ bs) (some (c ∷ host)) (some (suc port))
          plain plain_host bytes size,
      rw (lookup-insert_same fp meta s'.peer_meta)
          (rw taken (route_by_relay username b bs c host (suc port) relays up)),
      listed,
    )
