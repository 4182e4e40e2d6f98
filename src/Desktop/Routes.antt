-- ===== src/Desktop/Routes.antt =====
-- How haven/gui.py looks for a way to a contact: `peer_meta`, `_refresh_contacts`, `_refresh_peer_list`,
-- `_resolve_route` and the choice of `_attempt_connect`.
pub mod Choice
use haven_e2e_messenger.Prelude.{
  ℕ, zero, suc, Str, Bool, true, false, Option, none, some, List, [], ◌∷◌, ◌==◌, bytes_eq,
  if◌then◌else◌,
}
use haven_e2e_messenger.Prelude.Errors.{Result, ok, err}
use haven_e2e_messenger.Prelude.Exec.{Exec, skip, ◌>>◌}
use haven_e2e_messenger.Prelude.Dict.{Dict, lookup, insert}
use haven_e2e_messenger.Discovery.{Peer}
use haven_e2e_messenger.Settings.{relay_key}

-- An entry of `peer_meta`; what it lacks or holds as None is none.
pub record Meta : Type 0 where
  pub username : Str
  pub host : Option Str
  pub tcp_port : Option ℕ
  pub verified : Bool
  pub online : Bool
  pub identity_pub : Option Str
  pub relay_key_ : Option Str

-- A row of `list_contacts`, its identity in hexadecimal.
pub record ContactRow : Type 0 where
  pub fingerprint_ : Str
  pub username : Str
  pub identity_hex : Str
  pub host : Option Str
  pub port : Option ℕ
  pub verified : Bool
  pub relay_host : Option Str
  pub relay_port : Option ℕ

abbrev pub relay_of : Option Str → Option ℕ → Option Str
relay_of (some (c ∷ host)) (some (suc port)) = some (relay_key (c ∷ host) (suc port))
relay_of _ _ = none

abbrev pub meta_of_row : ContactRow → Meta
meta_of_row row = record {
  username = row.username;
  host = row.host;
  tcp_port = row.port;
  verified = row.verified;
  online = false;
  identity_pub = some row.identity_hex;
  relay_key_ = relay_of row.relay_host row.relay_port;
}

-- `_refresh_contacts`
unfoldable pub refresh_contacts : List ContactRow → Dict Str Meta → Dict Str Meta
refresh_contacts [] metas = metas
refresh_contacts (row ∷ rows) metas =
    refresh_contacts rows (insert row.fingerprint_ (meta_of_row row) metas)

-- `existing.get("verified", False)`
abbrev pub was_verified : Option Meta → Bool
was_verified none = false
was_verified (some meta) = meta.verified

abbrev pub meta_of_peer : Option Meta → Peer → Meta
meta_of_peer existing p = record {
  username = p.username;
  host = some p.host;
  tcp_port = some p.tcp_port;
  verified = was_verified existing;
  online = true;
  identity_pub = some p.identity_pub;
  relay_key_ = none;
}

abbrev pub enter : Result Str → Peer → Exec (Dict Str Meta) (Unit {0})
enter (err e) p metas = (err e, metas)
enter (ok fp) p metas = (ok tt, insert fp (meta_of_peer (lookup fp metas) p) metas)

-- `_refresh_peer_list`, with the fingerprint of an identity in hexadecimal, which raises ValueError
-- where it is no hexadecimal. An exception also ends the repetition, for the next call is set last.
unfoldable pub refresh_peer_list : (Str → Result Str) → List Peer → Exec (Dict Str Meta) (Unit {0})
refresh_peer_list fingerprint_of [] = skip
refresh_peer_list fingerprint_of (p ∷ peers) =
    enter (fingerprint_of p.identity_pub) p >> refresh_peer_list fingerprint_of peers

-- The host, the port and the relay of a contact.
abbrev pub Found : Type 0
Found = Option Str × Option ℕ × Option Str

abbrev pub has_identity : Str → Option Str → Bool
has_identity identity_pub_hex none = false
has_identity identity_pub_hex (some key) = key == identity_pub_hex

-- `_resolve_route`
unfoldable pub resolve_route : Str → Dict Str Meta → Option Found
resolve_route identity_pub_hex [] = none
resolve_route identity_pub_hex ((fp, meta) ∷ metas) =
    let rest = resolve_route identity_pub_hex metas in
    if has_identity identity_pub_hex meta.identity_pub
    then some (meta.host, meta.tcp_port, meta.relay_key_)
    else rest

-- What `_attempt_connect` does: a thread that connects directly, a handshake over a relay, or one of its
-- three messages.
pub data Route : Type 0 where
  direct : Str → ℕ → Route
  over_relay : Str → Str → Route
  relay_not_configured : Str → Route
  no_relay_assigned : Route
  no_route : Route

abbrev pub by_relay_state : Str → Str → Option Bool → Route
by_relay_state identity_pub key none = relay_not_configured key
by_relay_state identity_pub key (some true) = over_relay identity_pub key
by_relay_state identity_pub key (some false) = no_route

-- The choice without a direct address. A relay stands with whether its client is connected.
abbrev pub relayed : Option Str → Option Str → Dict Str Bool → Route
relayed (some (i ∷ identity_pub)) (some (k ∷ key)) relays =
    by_relay_state (i ∷ identity_pub) (k ∷ key) (lookup (k ∷ key) relays)
relayed (some (i ∷ identity_pub)) _ (relay ∷ relays) = no_relay_assigned
relayed _ _ relays = no_route

abbrev pub route_of : Meta → Dict Str Bool → Route
route_of meta relays = elim meta.host [
  | none ↦ relayed meta.identity_pub meta.relay_key_ relays
  | some [] ↦ relayed meta.identity_pub meta.relay_key_ relays
  | some (c ∷ host) ↦ elim meta.tcp_port [
    | none ↦ relayed meta.identity_pub meta.relay_key_ relays
    | some zero ↦ relayed meta.identity_pub meta.relay_key_ relays
    | some (suc port) ↦ direct (c ∷ host) (suc port)
  ]
]

abbrev pub route_if : Option Meta → Dict Str Bool → Route
route_if none relays = no_route
route_if (some meta) relays = route_of meta relays

-- The choice of `_attempt_connect`.
unfoldable pub attempt_connect : Str → Dict Str Meta → Dict Str Bool → Route
attempt_connect fp metas relays = route_if (lookup fp metas) relays
