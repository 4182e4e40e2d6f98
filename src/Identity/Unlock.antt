-- ===== src/Identity/Unlock.antt =====
-- Password and recovery phrase open the same identity in haven/identity.py.
use haven_e2e_messenger.Prelude.{◌≡◌, refl, ℕ, Str, Bytes, false, some, bytes_eq, length, All}
use haven_e2e_messenger.Prelude.Errors.{ok}
use haven_e2e_messenger.Prelude.Dict.{lookup, insert, has_key, lookup-insert_same}
use haven_e2e_messenger.Crypto.Primitives.{Primitives, SealOpens}
use haven_e2e_messenger.Crypto.Hex.{hex, fromhex-hex, IsByte}
use haven_e2e_messenger.Crypto.Keys.{KeyPair, from_private_bytes}
use haven_e2e_messenger.Crypto.AtRest.{encrypt_authenticated}
use haven_e2e_messenger.Crypto.AtRest.Opening.{take-prefix, drop-prefix, decrypt-encrypt}
use haven_e2e_messenger.Identity.Phrase.{normalize_phrase}
use haven_e2e_messenger.Identity.Local.{
  FileTools, LoadsBack, Disk, LocalAccount, Drawn, write_unlock_blob, read_unlock_blob,
  create_account, sign_in, reset_password_with_recovery,
}

-- os.urandom(16) and os.urandom(12) give as many bytes as they are asked for.
abbrev pub IsDrawn : Drawn → Type 0
IsDrawn d = (length d.salt ≡ 16) × (length d.nonce ≡ 12)

module _ (P : Primitives) (opens : SealOpens P) where
  module _ (T : FileTools) (back : LoadsBack T) where
    -- Reading with the secret that it was written with gives what was written.
    read-write :
        (drawn : Drawn) (secret username : Str) (identity : KeyPair) (created_at : ℕ)
        → IsDrawn drawn
        → read_unlock_blob P T
            (write_unlock_blob P T drawn secret username identity created_at)
            secret
            username
          ≡ ok (hex identity.private_key, created_at)
    unfolding read_unlock_blob write_unlock_blob
    read-write drawn secret username identity created_at (salt_16, nonce_12) =
        let plain = T.dumps (hex identity.private_key) created_at in
        let blob =
          encrypt_authenticated P drawn.nonce (T.derive_key secret drawn.salt) plain
            (T.utf8 username) in
        rw (take-prefix 16 drawn.salt blob salt_16) (
          rw (drop-prefix 16 drawn.salt blob salt_16) (
            rw
              (decrypt-encrypt P opens drawn.nonce (T.derive_key secret drawn.salt) plain
                (T.utf8 username) nonce_12)
              (back (hex identity.private_key) created_at)))

    -- A file that was written with a secret signs in with that secret.
    pub sign_in-written :
        (drawn : Drawn) (password username : Str) (raw : Bytes) (created_at : ℕ) (d : Disk)
        → IsDrawn drawn
        → All IsByte raw
        → lookup username d.identity_enc
          ≡ some
              (write_unlock_blob P T drawn password username (from_private_bytes P raw) created_at)
        → sign_in P T username password d
          ≡ ok (record {
            username = username;
            identity = from_private_bytes P raw;
            created_at = created_at;
          })
    unfolding sign_in from_private_bytes
    sign_in-written drawn password username raw created_at d is_drawn raw_bytes there = rw there (
        rw (read-write drawn password username (from_private_bytes P raw) created_at is_drawn)
          (rw (fromhex-hex raw raw_bytes) refl))

    abbrev account : Str → Bytes → ℕ → LocalAccount
    account username raw created_at = record {
      username = username;
      identity = from_private_bytes P raw;
      created_at = created_at;
    }

    -- The disk with a new password for the identity.
    abbrev rewritten : Drawn → Str → Str → Bytes → ℕ → Disk → Disk
    rewritten drawn password username raw created_at d = record d {
      identity_enc =
          insert username
            (write_unlock_blob P T drawn password username (from_private_bytes P raw) created_at)
            d.identity_enc;
    }

    reset-written :
        (drawn new_drawn : Drawn) (phrase typed username new_password : Str) (raw : Bytes)
        (created_at : ℕ) (d : Disk)
        → IsDrawn drawn
        → All IsByte raw
        → normalize_phrase typed ≡ normalize_phrase phrase
        → lookup username d.recovery_enc
          ≡ some (
              write_unlock_blob P T drawn
                (normalize_phrase phrase)
                username
                (from_private_bytes P raw)
                created_at)
        → reset_password_with_recovery P T new_drawn username typed new_password d ≡ (
          ok (account username raw created_at),
          rewritten new_drawn new_password username raw created_at d,
        )
    unfolding reset_password_with_recovery from_private_bytes
    reset-written drawn new_drawn phrase typed username new_password raw created_at d is_drawn
          raw_bytes same there =
        rw there (
          rw same (
            rw
              (read-write drawn (normalize_phrase phrase) username (from_private_bytes P raw)
                created_at is_drawn)
              (rw (fromhex-hex raw raw_bytes) refl)))

    abbrev created : Drawn → Drawn → Bytes → ℕ → Str → Str → Str → Disk → Disk
    created drawn recovery_drawn private_key now phrase username password d =
        record (rewritten drawn password username private_key now d) {
          recovery_enc =
              insert username
                (write_unlock_blob P T recovery_drawn (normalize_phrase phrase) username
                  (from_private_bytes P private_key) now)
                d.recovery_enc;
        }

    create_account-free :
        (drawn recovery_drawn : Drawn) (private_key : Bytes) (now : ℕ)
        (phrase username password : Str) (d : Disk)
        → has_key username d.identity_enc ≡ false
        → create_account P T drawn recovery_drawn private_key now phrase username password d ≡ (
          ok (account username private_key now, phrase),
          created drawn recovery_drawn private_key now phrase username password d,
        )
    unfolding create_account
    create_account-free drawn recovery_drawn private_key now phrase username password d free =
        rw free refl

    -- After an account was created, the password signs in to it, and so does a new password once it was
    -- set with the recovery phrase, however that phrase is spaced and cased: each time it is the account
    -- with the identity and the time of its creation. Conditions: what was sealed opens, JSON reads back
    -- what it wrote, the private key consists of bytes, and salts and nonces have their lengths.
    pub account_is_unlocked :
        (drawn recovery_drawn new_drawn : Drawn) (private_key : Bytes) (now : ℕ)
        (phrase typed username password new_password : Str) (d : Disk)
        → IsDrawn drawn
        → IsDrawn recovery_drawn
        → IsDrawn new_drawn
        → All IsByte private_key
        → has_key username d.identity_enc ≡ false
        → normalize_phrase typed ≡ normalize_phrase phrase
        → let account : LocalAccount = record {
          username = username;
          identity = from_private_bytes P private_key;
          created_at = now;
        } in
          let (made, d1) =
            create_account P T drawn recovery_drawn private_key now phrase username password d in
          let (reset, d2) =
            reset_password_with_recovery P T new_drawn username typed new_password d1 in
          (made ≡ ok (account, phrase))
          × (sign_in P T username password d1 ≡ ok account)
          × (reset ≡ ok account)
          × (sign_in P T username new_password d2 ≡ ok account)
          × (d2.recovery_enc ≡ d1.recovery_enc)
    account_is_unlocked drawn recovery_drawn new_drawn private_key now phrase typed username
          password new_password d is_drawn is_recovery_drawn is_new_drawn key_bytes free same =
        let d1 = created drawn recovery_drawn private_key now phrase username password d in
        let d2 = rewritten new_drawn new_password username private_key now d1 in
        let identity = from_private_bytes P private_key in
        let first =
          lookup-insert_same username (write_unlock_blob P T drawn password username identity now)
            d.identity_enc in
        let stored =
          lookup-insert_same username
            (write_unlock_blob P T recovery_drawn (normalize_phrase phrase) username identity now)
            d.recovery_enc in
        let second =
          lookup-insert_same username
            (write_unlock_blob P T new_drawn new_password username identity now) d1.identity_enc in
        rw
          (create_account-free drawn recovery_drawn private_key now phrase username password d free)
          (rw
            (reset-written recovery_drawn new_drawn phrase typed username new_password private_key
              now d1 is_recovery_drawn key_bytes same stored)
            (
              refl,
              sign_in-written drawn password username private_key now d1 is_drawn key_bytes first,
              refl,
              sign_in-written new_drawn new_password username private_key now d2 is_new_drawn
                  key_bytes second,
              refl,
            ))
