-- ===== src/Desktop/Contacts.antt =====
-- Adding a contact from haven/gui.py: `_add_contact_by_card` once the card was read. The port is not
-- negative, and the call of the store is a log.
pub mod Reached
use haven_e2e_messenger.Prelude.{
  ℕ, zero, suc, Str, Bytes, text, Bool, true, false, Option, none, some, List, [], ◌∷◌, ◌++◌,
  bytes_eq, if◌then◌else◌,
}
use haven_e2e_messenger.Prelude.Dict.{Dict, lookup, insert, has_key}
use haven_e2e_messenger.Crypto.Hex.{hex}
use haven_e2e_messenger.Settings.{ConfigFile, relay_key, list_relays, add_relay}
use haven_e2e_messenger.Desktop.Routes.{Meta, relay_of}

-- A call of `store.upsert_contact`.
pub record Upsert : Type 0 where
  pub fp : Str
  pub username : Str
  pub identity_pub : Bytes
  pub relay_host : Option Str
  pub relay_port : Option ℕ

-- The settings, the table of contacts, the relay clients that were started, and the calls of the store.
pub record Contacts : Type 0 where
  pub settings : ConfigFile
  pub peer_meta : Dict Str Meta
  pub started : List Str
  pub upserts : List Upsert

abbrev pub relay_name : Str → Str
relay_name username = username ++ text "'s relay"

abbrev pub start_relay : Str → Contacts → Contacts
start_relay key s = record s { started = s.started ++ (key ∷ []) }

-- What becomes of the relay of a card: `known` says whether it is configured, `agreed` what the user
-- answers to the question whether to add it.
abbrev pub take_relay : Bool → Bool → Str → Str → ℕ → Contacts → Option Str × Contacts
take_relay true agreed username host port s = (some (relay_key host port), s)
take_relay false true username host port s = (
  some (relay_key host port),
  start_relay (relay_key host port)
      (record s { settings = (add_relay (relay_name username) host port s.settings).1 }),
)
take_relay false false username host port s = (none, s)

abbrev pub ask_relay : Bool → Str → Option Str → Option ℕ → Contacts → Option Str × Contacts
ask_relay agreed username (some (c ∷ host)) (some (suc port)) s =
    let (relays, file) = list_relays s.settings in
    take_relay (has_key (relay_key (c ∷ host) (suc port)) relays) agreed username (c ∷ host)
      (suc port) (record s { settings = file })
ask_relay agreed username _ _ s = (none, s)

abbrev pub card_meta : Str → Bytes → Option Str → Meta
card_meta username key relay = record {
  username = username;
  host = some [];
  tcp_port = some zero;
  verified = false;
  online = false;
  identity_pub = some (hex key);
  relay_key_ = relay;
}

abbrev pub enter_card : Str → Str → Bytes → Option Str → Option ℕ → Option Str × Contacts → Contacts
enter_card fp username key host port (relay, s) = record s {
  upserts =
      s.upserts
      ++ (record {
        fp = fp;
        username = username;
        identity_pub = key;
        relay_host = host;
        relay_port = port;
      }
          ∷ []);
  peer_meta = insert fp (card_meta username key relay) s.peer_meta;
}

-- `_add_contact_by_card`, with the fingerprint of the contact's key.
unfoldable pub add_contact_by_card :
    Bool → Str → Str → Bytes → Option Str → Option ℕ → Contacts → Contacts
add_contact_by_card agreed fp username key host port s =
    enter_card fp username key host port (ask_relay agreed username host port s)
