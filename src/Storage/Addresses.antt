-- ===== src/Storage/Addresses.antt =====
-- What reporting a contact again leaves alone in haven/storage.py.
use haven_e2e_messenger.Prelude.{
  ◌≡◌, ◌≢◌, refl, ℕ, [], ◌∷◌, ◌∙◌, ap, eqb, Bool-cases, Str, Bytes, false, Option, none, some, ◌==◌,
  bytes_eq, ◌⊎◌, inl, inr,
}
use haven_e2e_messenger.Prelude.Dict.{lookup, lookup-insert, lookup-insert_same}
use haven_e2e_messenger.Storage.Tables.{Contact, Tables}
use haven_e2e_messenger.Storage.Contacts.{
  upsert_contact, get_contact, host_or, port_or, new_or, merged,
}

-- A merged address is the old one, or the new one and known.
abbrev KeepsOrReplaces : {A : Type 0} → Option A → Option A → Option A → Type 0
KeepsOrReplaces result new old = (result ≡ old) ⊎ ((result ≡ new) × (result ≢ none))

host_or_lem : (new old : Option Str) → KeepsOrReplaces (host_or new old) new old
host_or_lem none old = inl refl
host_or_lem (some []) old = inl refl
host_or_lem (some (c ∷ host)) old = inr (refl, λ h. cc)

port_or_lem : (new old : Option ℕ) → KeepsOrReplaces (port_or new old) new old
port_or_lem none old = inl refl
port_or_lem (some port) old = elim (Bool-cases (eqb port 0)) [
  | inl unset ↦ rw unset (inl refl)
  | inr other ↦ rw other (inr (refl, λ h. cc))
]

new_or_lem : {A : Type 0} (new old : Option A) → KeepsOrReplaces (new_or new old) new old
new_or_lem none old = inl refl
new_or_lem (some new) old = inr (refl, λ h. cc)

-- Reporting a known contact again renames it and keeps its verification, its identity key and the time
-- it was added; an address of it that is known is replaced by another at most, never forgotten. Other
-- contacts stay as they are.
pub upsert_keeps_verification :
    (now : ℕ) (fingerprint other username : Str) (identity_pub : Bytes) (host : Option Str)
    (port : Option ℕ) (relay_host : Option Str) (relay_port : Option ℕ) (old : Contact) (t : Tables)
    → get_contact fingerprint t ≡ some old
    → let t' =
        upsert_contact now fingerprint username identity_pub host port relay_host relay_port t in
      ((c : Contact) × (get_contact fingerprint t' ≡ some c)
        × (c.username ≡ username)
        × (c.verified ≡ old.verified)
        × (c.identity_pub ≡ old.identity_pub)
        × (c.added_at ≡ old.added_at)
        × ((c.host ≡ old.host) ⊎ ((c.host ≡ host) × (c.host ≢ none)))
        × ((c.port ≡ old.port) ⊎ ((c.port ≡ port) × (c.port ≢ none)))
        × ((c.relay_host ≡ old.relay_host) ⊎ ((c.relay_host ≡ relay_host) × (c.relay_host ≢ none))))
      × ((other == fingerprint) ≡ false → get_contact other t' ≡ get_contact other t)
unfolding upsert_contact get_contact
upsert_keeps_verification now fingerprint other username identity_pub host port relay_host
      relay_port old t there =
    let new : Contact = record {
      username = username;
      identity_pub = identity_pub;
      host = host;
      port = port;
      relay_host = relay_host;
      relay_port = relay_port;
      verified = false;
      added_at = now;
    } in
    (
      (
        merged new (some old),
        lookup-insert_same fingerprint (merged new (lookup fingerprint t.contacts)) t.contacts
            ∙ ap (λ c. some (merged new c)) there,
        refl,
        refl,
        refl,
        refl,
        host_or_lem host old.host,
        port_or_lem port old.port,
        new_or_lem relay_host old.relay_host,
      ),
      λ different.
          lookup-insert other fingerprint (merged new (lookup fingerprint t.contacts)) t.contacts
          ∙ rw different refl,
    )
