-- ===== src/Storage/Contacts.antt =====
-- The contacts of haven/storage.py.
use haven_e2e_messenger.Prelude.{
  ℕ, Str, Bytes, Bool, false, Option, none, some, List, [], ◌∷◌, ◌==◌, bytes_eq, if◌then◌else◌, eqb,
  order_by,
}
use haven_e2e_messenger.Prelude.Dict.{Dict, lookup, insert}
use haven_e2e_messenger.Crypto.Keys.{bytes_leb}
use haven_e2e_messenger.Storage.Tables.{Contact, Tables}

-- `CASE WHEN excluded.host != '' THEN excluded.host ELSE contacts.host END`; a NULL is not unequal.
abbrev pub host_or : Option Str → Option Str → Option Str
host_or none old = old
host_or (some []) old = old
host_or (some (c ∷ host)) old = some (c ∷ host)

abbrev pub port_or : Option ℕ → Option ℕ → Option ℕ
port_or none old = old
port_or (some port) old = if eqb port 0 then old else some port

-- `CASE WHEN excluded.x IS NOT NULL THEN excluded.x ELSE contacts.x END`
abbrev pub new_or : {A : Type 0} → Option A → Option A → Option A
new_or none old = old
new_or (some new) old = some new

abbrev pub merged : Contact → Option Contact → Contact
merged new none = new
merged new (some old) = record old {
  username = new.username;
  host = host_or new.host old.host;
  port = port_or new.port old.port;
  relay_host = new_or new.relay_host old.relay_host;
  relay_port = new_or new.relay_port old.relay_port;
}

-- `upsert_contact`, on the columns but `verified`, at the time `now`.
unfoldable pub upsert_contact :
    ℕ → Str → Str → Bytes → Option Str → Option ℕ → Option Str → Option ℕ → Tables → Tables
upsert_contact now fingerprint username identity_pub host port relay_host relay_port t =
    let new : Contact = record {
      username = username;
      identity_pub = identity_pub;
      host = host;
      port = port;
      relay_host = relay_host;
      relay_port = relay_port;
      verified = false;
      added_at = now;
    } in
    record t {
      contacts = insert fingerprint (merged new (lookup fingerprint t.contacts)) t.contacts;
    }

-- `UPDATE contacts SET … WHERE fingerprint=?`
abbrev update_contact : Str → (Contact → Contact) → Dict Str Contact → Dict Str Contact
update_contact fingerprint f [] = []
update_contact fingerprint f ((fp, c) ∷ rows) =
    (if fp == fingerprint then (fp, f c) else (fp, c)) ∷ update_contact fingerprint f rows

-- `set_verified`
unfoldable pub set_verified : Str → Bool → Tables → Tables
set_verified fingerprint verified t = record t {
  contacts = update_contact fingerprint (λ c. record c { verified = verified }) t.contacts;
}

-- `set_contact_relay`
unfoldable pub set_contact_relay : Str → Option Str → Option ℕ → Tables → Tables
set_contact_relay fingerprint relay_host relay_port t = record t {
  contacts =
      update_contact fingerprint
        (λ c. record c { relay_host = relay_host; relay_port = relay_port }) t.contacts;
}

-- `get_contact`
unfoldable pub get_contact : Str → Tables → Option Contact
get_contact fingerprint t = lookup fingerprint t.contacts

abbrev by_username : Str × Contact → Str × Contact → Bool
by_username (_, a) (_, b) = bytes_leb a.username b.username

-- `list_contacts`
unfoldable pub list_contacts : Tables → List (Str × Contact)
list_contacts t = order_by by_username t.contacts
