-- ===== src/Backup.antt =====
-- haven/backup.py: `export_backup`, `restore_backup` and `apply_restored_bundle`.
pub mod RoundTrip
mod Examples
use haven_e2e_messenger.Prelude.{
  ℕ, suc, Str, Bytes, text, Bool, true, false, Option, none, some, List, [], ◌∷◌, ◌++◌, map, take,
  drop, ◌==◌, bytes_eq, if◌then◌else◌,
}
use haven_e2e_messenger.Prelude.Errors.{
  Exn, Result, ok, err, or_raise, value_error, attribute_error, restore_failed, ◌>>=◌,
}
use haven_e2e_messenger.Prelude.Dict.{Dict, insert}
use haven_e2e_messenger.Crypto.Primitives.{Primitives}
use haven_e2e_messenger.Crypto.Hex.{hex, fromhex}
use haven_e2e_messenger.Crypto.Keys.{KeyPair, from_private_bytes}
use haven_e2e_messenger.Crypto.AtRest.{CtrMode, encrypt_deniable, decrypt_deniable}
use haven_e2e_messenger.Identity.Phrase.{normalize_phrase}
use haven_e2e_messenger.Identity.Local.{FileTools, Disk, LocalAccount, Drawn, write_unlock_blob}
use haven_e2e_messenger.Storage.Tables.{
  Contact, Direction, MessageRow, Tables, StoreTools, open_row, raise_first, save_message,
}
use haven_e2e_messenger.Storage.Contacts.{upsert_contact, set_verified}

-- An item of the bundle's "contacts", and one of its "messages".
pub record BackupContact : Type 0 where
  pub fingerprint : Str
  pub username : Str
  pub identity_pub : Str
  pub host : Option Str
  pub port : Option ℕ
  pub verified : Bool
  pub added_at : ℕ

pub record BackupMessage : Type 0 where
  pub fingerprint : Str
  pub direction : Direction
  pub kind : Str
  pub body : Str
  pub ts : ℕ

-- The bundle, but for its "magic".
pub record Bundle : Type 0 where
  pub username : Str
  pub identity_private_key : Str
  pub created_at : ℕ
  pub contacts : List BackupContact
  pub messages : List BackupMessage

abbrev pub magic : Str
magic = text "HAVEN-BACKUP-V1"

-- What `json.loads` gives: an object with its "magic", if it has one, or another value.
pub data Parsed : Type 0 where
  object : Option Str → Bundle → Parsed
  not_a_dict : Parsed

-- JSON of a bundle, and reading it: UnicodeDecodeError and JSONDecodeError are ValueErrors.
pub record BundleTools : Type 0 where
  pub dumps : Str → Bundle → Bytes
  pub loads : Bytes → Result Parsed

-- The account's two unlock files, and its database.
pub record Home : Type 0 where
  pub disk : Disk
  pub tables : Tables

abbrev pub export_contact : Str × Contact → BackupContact
export_contact (fingerprint, c) = record {
  fingerprint = fingerprint;
  username = c.username;
  identity_pub = hex c.identity_pub;
  host = c.host;
  port = c.port;
  verified = c.verified;
  added_at = c.added_at;
}

abbrev pub as_restore_failed : Result Parsed → Result Parsed
as_restore_failed (err value_error) = err restore_failed
as_restore_failed r = r

abbrev pub is_magic : Option Str → Bool
is_magic none = false
is_magic (some m) = m == magic

abbrev pub checked : Parsed → Result Bundle
checked (object m bundle) = if is_magic m then ok bundle else err restore_failed
checked not_a_dict = err attribute_error

module _ (P : Primitives) (M : CtrMode) (F : FileTools) (T : StoreTools) (B : BundleTools) where
  abbrev pub export_message : KeyPair → MessageRow → Result BackupMessage
  export_message identity row = do
    plain ← open_row P identity T row.fingerprint row.encrypted_body
    body ← T.from_utf8 plain
    ok (record {
      fingerprint = row.fingerprint;
      direction = row.direction;
      kind = row.kind;
      body = body;
      ts = row.timestamp;
    })

  -- `export_backup`: the bytes of the file, on the salt and the IV.
  unfoldable pub export_backup : Bytes → Bytes → LocalAccount → Str → Tables → Result Bytes
  export_backup salt iv account password t = do
    messages ← raise_first (export_message account.identity) t.messages
    let bundle : Bundle = record {
      username = account.username;
      identity_private_key = hex account.identity.private_key;
      created_at = account.created_at;
      contacts = map export_contact t.contacts;
      messages = messages;
    }
    let plaintext = B.dumps magic bundle
    ok (salt ++ encrypt_deniable M iv (F.derive_key password salt) plaintext)

  -- `restore_backup`, on the bytes of the file.
  unfoldable pub restore_backup : Bytes → Str → Result Bundle
  restore_backup raw password = do
    let key = F.derive_key password (take 16 raw)
    parsed ← as_restore_failed (B.loads (decrypt_deniable M key (drop 16 raw)))
    checked parsed

  abbrev pub verify_if : Bool → Str → Tables → Tables
  verify_if true fingerprint t = set_verified fingerprint true t
  verify_if false fingerprint t = t

  abbrev pub restore_contacts : ℕ → List BackupContact → Tables → Result Tables
  restore_contacts now [] t = ok t
  restore_contacts now (c ∷ contacts) t = do
    identity_pub ← or_raise (fromhex c.identity_pub) value_error
    restore_contacts now contacts (
        verify_if c.verified c.fingerprint
          (upsert_contact now c.fingerprint c.username identity_pub c.host c.port none none t))

  -- The i-th message is sealed on the i-th nonce, at the i-th time.
  abbrev pub restore_messages :
      (ℕ → Bytes) → (ℕ → ℕ) → ℕ → KeyPair → List BackupMessage → Tables → Tables
  restore_messages nonce now i identity [] t = t
  restore_messages nonce now i identity (m ∷ messages) t =
      restore_messages nonce now (suc i) identity messages
        (save_message P identity T (nonce i) (now i) m.fingerprint m.direction m.body m.kind t)

  -- `apply_restored_bundle`, on the recovery phrase that it generates. The first time is that of the
  -- contacts.
  unfoldable pub apply_restored_bundle :
      Drawn
      → Drawn
      → (ℕ → Bytes)
      → (ℕ → ℕ)
      → Str
      → Bundle
      → Str
      → Home
      → Result (LocalAccount × Str × Home)
  apply_restored_bundle drawn recovery_drawn nonce now phrase bundle new_password home = do
    private_key ← or_raise (fromhex bundle.identity_private_key) value_error
    let identity = from_private_bytes P private_key
    let write = λ (d : Drawn) (secret : Str).
        write_unlock_blob P F d secret bundle.username identity bundle.created_at
    let disk : Disk = record {
      identity_enc = insert bundle.username (write drawn new_password) home.disk.identity_enc;
      recovery_enc =
          insert bundle.username (write recovery_drawn (normalize_phrase phrase))
            home.disk.recovery_enc;
    }
    let account : LocalAccount = record {
      username = bundle.username;
      identity = identity;
      created_at = bundle.created_at;
    }
    tables ← restore_contacts (now 0) bundle.contacts home.tables
    ok (
      account,
      phrase,
      record { disk = disk; tables = restore_messages nonce now 0 identity bundle.messages tables },
    )
