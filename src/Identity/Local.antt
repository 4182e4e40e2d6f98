-- ===== src/Identity/Local.antt =====
-- The unlock files of haven/identity.py.
use haven_e2e_messenger.Prelude.{◌≡◌, ℕ, Str, Bytes, ◌++◌, bytes_eq, take, drop, if◌then◌else◌}
use haven_e2e_messenger.Prelude.Errors.{
  Exn, Result, ok, err, or_raise, value_error, invalid_tag, wrong_password, account_exists,
  no_such_account, invalid_recovery_phrase, ◌>>=◌,
}
use haven_e2e_messenger.Prelude.Exec.{Exec}
use haven_e2e_messenger.Prelude.Dict.{Dict, lookup, insert, has_key}
use haven_e2e_messenger.Crypto.Primitives.{Primitives}
use haven_e2e_messenger.Crypto.Hex.{hex, fromhex}
use haven_e2e_messenger.Crypto.Keys.{KeyPair, from_private_bytes}
use haven_e2e_messenger.Crypto.AtRest.{encrypt_authenticated, decrypt_authenticated}
use haven_e2e_messenger.Identity.Phrase.{normalize_phrase}

-- What the files are made with besides: scrypt, UTF-8, and the JSON of private key and creation time.
pub record FileTools : Type 0 where
  -- `derive_key_from_password(secret, salt)`
  pub derive_key : Str → Bytes → Bytes
  pub utf8 : Str → Bytes
  pub dumps : Str → ℕ → Bytes
  -- Parsing, and reading the two fields.
  pub loads : Bytes → Result (Str × ℕ)

-- JSON reads back what it wrote.
abbrev pub LoadsBack : FileTools → Type 0
LoadsBack T =
    (private_key : Str) (created_at : ℕ)
    → T.loads (T.dumps private_key created_at) ≡ ok (private_key, created_at)

-- The files identity.enc and recovery.enc, by the account directory that they stand in.
pub record Disk : Type 0 where
  pub identity_enc : Dict Str Bytes
  pub recovery_enc : Dict Str Bytes

-- `Account`, without the directory, which its username names.
pub record LocalAccount : Type 0 where
  pub username : Str
  pub identity : KeyPair
  pub created_at : ℕ

-- What one call of `_write_unlock_blob` draws: 16 bytes and 12 bytes.
pub record Drawn : Type 0 where
  pub salt : Bytes
  pub nonce : Bytes

-- An InvalidTag becomes the exception that the caller knows.
abbrev pub retag : {A : Type 0} → Exn → Result A → Result A
retag e (ok a) = ok a
retag e (err invalid_tag) = err e
retag e (err other) = err other

module _ (P : Primitives) (T : FileTools) where
  -- `_write_unlock_blob`: the bytes that it writes.
  unfoldable pub write_unlock_blob : Drawn → Str → Str → KeyPair → ℕ → Bytes
  write_unlock_blob drawn secret username identity created_at =
      drawn.salt
      ++ encrypt_authenticated P drawn.nonce (T.derive_key secret drawn.salt)
          (T.dumps (hex identity.private_key) created_at) (T.utf8 username)

  -- `_read_unlock_blob`, on the bytes of the file.
  unfoldable pub read_unlock_blob : Bytes → Str → Str → Result (Str × ℕ)
  read_unlock_blob raw secret username = do
    payload ←
        decrypt_authenticated P (T.derive_key secret (take 16 raw)) (drop 16 raw) (T.utf8 username)
    T.loads payload

  -- `KeyPair.from_private_bytes(bytes.fromhex(data["private_key"]))`, and the account around it.
  abbrev pub account_of : Str → Str × ℕ → Result LocalAccount
  account_of username (private_hex, created_at) = do
    raw ← or_raise (fromhex private_hex) value_error
    ok (record {
      username = username;
      identity = from_private_bytes P raw;
      created_at = created_at;
    })

  -- `create_account`, on the private key, the time and the phrase that it generates.
  unfoldable pub create_account :
      Drawn → Drawn → Bytes → ℕ → Str → Str → Str → Exec Disk (LocalAccount × Str)
  create_account drawn recovery_drawn private_key now phrase username password d =
      let identity = from_private_bytes P private_key in
      if has_key username d.identity_enc then (err account_exists, d) else (
        ok (record { username = username; identity = identity; created_at = now }, phrase),
        record d {
          identity_enc =
              insert username (write_unlock_blob drawn password username identity now)
                d.identity_enc;
          recovery_enc =
              insert username
                (write_unlock_blob recovery_drawn (normalize_phrase phrase) username identity now)
                d.recovery_enc;
        },
      )

  -- `sign_in`, which only reads.
  unfoldable pub sign_in : Str → Str → Disk → Result LocalAccount
  sign_in username password d = do
    raw ← or_raise (lookup username d.identity_enc) no_such_account
    data_ ← retag wrong_password (read_unlock_blob raw password username)
    account_of username data_

  abbrev pub write_identity : Drawn → Str → Str → Result LocalAccount → Exec Disk LocalAccount
  write_identity drawn new_password username (err e) d = (err e, d)
  write_identity drawn new_password username (ok account) d = (
    ok account,
    record d {
      identity_enc =
          insert username
            (write_unlock_blob drawn new_password username account.identity account.created_at)
            d.identity_enc;
    },
  )

  -- What the recovery file opens to.
  abbrev pub unlock_recovery : Str → Str → Disk → Result LocalAccount
  unlock_recovery username recovery_phrase d = do
    raw ← or_raise (lookup username d.recovery_enc) no_such_account
    data_ ←
        retag invalid_recovery_phrase
          (read_unlock_blob raw (normalize_phrase recovery_phrase) username)
    account_of username data_

  -- `reset_password_with_recovery`
  unfoldable pub reset_password_with_recovery : Drawn → Str → Str → Str → Exec Disk LocalAccount
  reset_password_with_recovery drawn username recovery_phrase new_password d =
      write_identity drawn new_password username (unlock_recovery username recovery_phrase d) d
