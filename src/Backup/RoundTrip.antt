-- ===== src/Backup/RoundTrip.antt =====
-- A backup of haven/backup.py brings the account and its conversations to another device.
use haven_e2e_messenger.Prelude.{
  ◌≡◌, refl, sym, ap, ◌∙◌, ℕ, suc, Str, Bytes, Bool, true, false, none, some, List, [], ◌∷◌, ◌++◌,
  map, take, drop, length, All, bytes_eq, ==_refl, if◌then◌else◌,
}
use haven_e2e_messenger.Prelude.Errors.{ok, err, restore_failed, ◌>>=◌}
use haven_e2e_messenger.Prelude.Dict.{Dict, insert, lookup-insert_same}
use haven_e2e_messenger.Crypto.Primitives.{Primitives, SealOpens}
use haven_e2e_messenger.Crypto.Hex.{hex, fromhex-hex, IsByte}
use haven_e2e_messenger.Crypto.Keys.{KeyPair, from_private_bytes}
use haven_e2e_messenger.Crypto.AtRest.{CtrMode, CtrOpens, encrypt_deniable, decrypt_deniable}
use haven_e2e_messenger.Crypto.AtRest.Opening.{
  decrypt-encrypt, take-prefix, drop-prefix, decrypt_deniable-encrypt_deniable,
}
use haven_e2e_messenger.Identity.Local.{
  FileTools, LoadsBack, Disk, LocalAccount, Drawn, sign_in, write_unlock_blob,
}
use haven_e2e_messenger.Identity.Phrase.{normalize_phrase}
use haven_e2e_messenger.Identity.Unlock.{IsDrawn, sign_in-written}
use haven_e2e_messenger.Storage.Tables.{
  Contact, Tables, no_rows, StoreTools, raise_first, history, storage_key, save_message,
}
use haven_e2e_messenger.Storage.Contacts.{upsert_contact, set_verified}
use haven_e2e_messenger.Storage.History.{
  Saved, shown, saved_for, save_all, row_of, save_all-messages, IsStorable, history-messages,
  history_shows_first,
}
use haven_e2e_messenger.Backup.{
  Bundle, BackupMessage, BundleTools, object, Home, magic, checked, as_restore_failed,
  export_contact, export_message, export_backup, restore_backup, verify_if, restore_contacts,
  restore_messages, apply_restored_bundle,
}

abbrev pub kept : Saved → BackupMessage
kept m = record {
  fingerprint = m.fingerprint;
  direction = m.direction;
  kind = m.kind;
  body = m.body;
  ts = m.now;
}

-- The messages as a device saves them that restores a backup: at its own times.
abbrev pub renewed : (ℕ → Bytes) → (ℕ → ℕ) → ℕ → List Saved → List Saved
renewed nonce now i [] = []
renewed nonce now i (m ∷ saved) =
    record m { nonce = nonce i; now = now i } ∷ renewed nonce now (suc i) saved

abbrev pub HasByteKey : Str × Contact → Type 0
HasByteKey (fingerprint, c) = All IsByte c.identity_pub

module _ (P : Primitives) (M : CtrMode) (F : FileTools) (T : StoreTools) (B : BundleTools) where
  verify_if-messages :
      (b : Bool) (fingerprint : Str) (t : Tables)
      → (verify_if P M F T B b fingerprint t).messages ≡ t.messages
  unfolding set_verified
  verify_if-messages true fingerprint t = refl
  verify_if-messages false fingerprint t = refl

  restore_contacts-messages :
      (now : ℕ) (contacts : Dict Str Contact) (t : Tables)
      → All HasByteKey contacts
      → (t' : Tables) × (restore_contacts P M F T B now (map export_contact contacts) t ≡ ok t')
        × (t'.messages ≡ t.messages)
  unfolding upsert_contact
  restore_contacts-messages now [] t h = (t, refl, refl)
  restore_contacts-messages now ((fingerprint, c) ∷ contacts) t (good, h) =
      let u = upsert_contact now fingerprint c.username c.identity_pub c.host c.port none none t in
      let (t', restored, same) =
        restore_contacts-messages now contacts (verify_if P M F T B c.verified fingerprint u) h in
      (
        t',
        rw (fromhex-hex c.identity_pub good) restored,
        same ∙ verify_if-messages c.verified fingerprint u,
      )

  restore_messages-save_all :
      (nonce : ℕ → Bytes) (now : ℕ → ℕ) (i : ℕ) (identity : KeyPair) (saved : List Saved)
      (t : Tables)
      → restore_messages P M F T B nonce now i identity (map kept saved) t
        ≡ save_all P identity T (renewed nonce now i saved) t
  unfolding save_all
  restore_messages-save_all nonce now i identity [] t = refl
  restore_messages-save_all nonce now i identity (m ∷ saved) t =
      restore_messages-save_all nonce now (suc i) identity saved
        (save_message P identity T (nonce i) (now i) m.fingerprint m.direction m.body m.kind t)

  renewed-IsStorable :
      (nonce : ℕ → Bytes) (now : ℕ → ℕ) (identity : KeyPair) (i : ℕ) (saved : List Saved)
      → ((j : ℕ) → length (nonce j) ≡ 12)
      → All (IsStorable P identity T) saved
      → All (IsStorable P identity T) (renewed nonce now i saved)
  renewed-IsStorable nonce now identity i [] nonces h = tt
  renewed-IsStorable nonce now identity i (m ∷ saved) nonces (good, h) =
      ((nonces i, good.1), renewed-IsStorable nonce now identity (suc i) saved nonces h)

  restore_backup-parts :
      (raw : Bytes) (password : Str) (salt sealed plain : Bytes) (bundle : Bundle)
      → take 16 raw ≡ salt
      → drop 16 raw ≡ sealed
      → decrypt_deniable M (F.derive_key password salt) sealed ≡ plain
      → B.loads plain ≡ ok (object (some magic) bundle)
      → restore_backup P M F T B raw password ≡ ok bundle
  unfolding restore_backup
  restore_backup-parts raw password salt sealed plain bundle front back opened reads =
      let open_with = λ (s c : Bytes).
        as_restore_failed (B.loads (decrypt_deniable M (F.derive_key password s) c)) >>= checked in
      ap (λ s. open_with s (drop 16 raw)) front
      ∙ ap (open_with salt) back
      ∙ ap (λ p. as_restore_failed (B.loads p) >>= checked) opened
      ∙ ap (λ r. as_restore_failed r >>= checked) reads
      ∙ ap (λ b. if b then ok bundle else err restore_failed) (==_refl magic)

  module _ (opens : SealOpens P) where
    export_message-row_of :
        (identity : KeyPair) (m : Saved)
        → IsStorable P identity T m
        → export_message P M F T B identity (row_of P identity T m) ≡ ok (kept m)
    export_message-row_of identity m (nonce_12, back) =
        rw
          (decrypt-encrypt P opens m.nonce (storage_key P identity) (T.utf8 m.body)
            (T.utf8 m.fingerprint) nonce_12)
          (rw back refl)

    raise_first-kept :
        (identity : KeyPair) (saved : List Saved)
        → All (IsStorable P identity T) saved
        → raise_first (export_message P M F T B identity) (map (row_of P identity T) saved)
          ≡ ok (map kept saved)
    raise_first-kept identity [] h = refl
    raise_first-kept identity (m ∷ saved) (good, h) =
        rw (export_message-row_of identity m good) (rw (raise_first-kept identity saved h) refl)

    history-restored :
        (identity : KeyPair) (fingerprint : Str) (limit : ℕ) (saved : List Saved) (t : Tables)
        → t.messages ≡ []
        → All (IsStorable P identity T) saved
        → history P identity T fingerprint limit (save_all P identity T saved t)
          ≡ ok (map shown (take limit (saved_for fingerprint saved)))
    history-restored identity fingerprint limit saved t blank h =
        history-messages P identity T fingerprint limit (save_all P identity T saved t)
          (save_all P identity T saved no_rows)
          (save_all-messages P identity T saved t
            ∙ ap (λ rows. rows ++ map (row_of P identity T) saved) blank
            ∙ sym (save_all-messages P identity T saved no_rows))
        ∙ history_shows_first P identity T opens fingerprint limit saved h

-- The bundle of an account with these contacts and messages.
abbrev pub bundle_of : LocalAccount → Dict Str Contact → List Saved → Bundle
bundle_of account contacts saved = record {
  username = account.username;
  identity_private_key = hex account.identity.private_key;
  created_at = account.created_at;
  contacts = map export_contact contacts;
  messages = map kept saved;
}

-- The file of an account whose database holds contacts and saved messages can be restored with its
-- password: the bundle applied on a device without messages gives the account back, with its key and the
-- time of its creation, which the new password unlocks, and the history of every contact is the one that
-- it was, but at the times of the restoring. Conditions: what was sealed opens, CTR decrypts what it
-- encrypted, JSON reads back what it wrote, keys consist of bytes, texts encode, and salts, IVs and nonces
-- have their lengths.
pub backup_brings_account_back :
    (P : Primitives) (opens : SealOpens P) (M : CtrMode) (ctr : CtrOpens M) (F : FileTools)
    (loads : LoadsBack F) (T : StoreTools) (B : BundleTools) (salt iv : Bytes)
    (drawn recovery_drawn : Drawn) (nonce : ℕ → Bytes) (now : ℕ → ℕ) (private_key : Bytes)
    (username password new_password phrase : Str) (created_at : ℕ) (contacts : Dict Str Contact)
    (saved : List Saved) (home : Home)
    → let account : LocalAccount = record {
      username = username;
      identity = from_private_bytes P private_key;
      created_at = created_at;
    } in
      B.loads (B.dumps magic (bundle_of account contacts saved))
        ≡ ok (object (some magic) (bundle_of account contacts saved))
      → length salt ≡ 16
      → length iv ≡ 16
      → IsDrawn drawn
      → ((i : ℕ) → length (nonce i) ≡ 12)
      → All IsByte private_key
      → All HasByteKey contacts
      → All (IsStorable P (from_private_bytes P private_key) T) saved
      → home.tables.messages ≡ []
      → (file : Bytes) × (home' : Home) × (export_backup P M F T B salt iv account password
            (record (save_all P account.identity T saved no_rows) { contacts = contacts })
          ≡ ok file)
        × (restore_backup P M F T B file password ≡ ok (bundle_of account contacts saved))
        × (apply_restored_bundle P M F T B drawn recovery_drawn nonce now phrase
              (bundle_of account contacts saved)
              new_password
              home
            ≡ ok (account, phrase, home'))
        × (sign_in P F username new_password home'.disk ≡ ok account)
        × ((fingerprint : Str) (limit : ℕ)
            → history P account.identity T fingerprint limit home'.tables
              ≡ ok (map shown (take limit (saved_for fingerprint (renewed nonce now 0 saved)))))
unfolding export_backup restore_backup apply_restored_bundle from_private_bytes
backup_brings_account_back P opens M ctr F loads T B salt iv drawn recovery_drawn nonce now
      private_key username password new_password phrase created_at contacts saved home reads salt_16
      iv_16 is_drawn nonces key_bytes contact_bytes storable blank =
    let identity = from_private_bytes P private_key in
    let account : LocalAccount = record {
      username = username;
      identity = identity;
      created_at = created_at;
    } in
    let bundle = bundle_of account contacts saved in
    let key = F.derive_key password salt in
    let sealed = encrypt_deniable M iv key (B.dumps magic bundle) in
    let (tables, restored, same) =
      restore_contacts-messages P M F T B (now 0) contacts home.tables contact_bytes in
    let write = write_unlock_blob P F drawn new_password username identity created_at in
    let disk : Disk = record {
      identity_enc = insert username write home.disk.identity_enc;
      recovery_enc =
          insert username
            (write_unlock_blob P F recovery_drawn (normalize_phrase phrase) username identity
              created_at)
            home.disk.recovery_enc;
    } in
    (
      salt ++ sealed,
      record { disk = disk; tables = save_all P identity T (renewed nonce now 0 saved) tables },
      rw (save_all-messages P identity T saved no_rows)
          (rw (raise_first-kept P M F T B opens identity saved storable) refl),
      restore_backup-parts P M F T B (salt ++ sealed) password salt sealed (B.dumps magic bundle)
          bundle (take-prefix 16 salt sealed salt_16) (drop-prefix 16 salt sealed salt_16)
          (decrypt_deniable-encrypt_deniable M ctr iv key (B.dumps magic bundle) iv_16) reads,
      rw (fromhex-hex private_key key_bytes) (
          rw restored
            (rw (restore_messages-save_all P M F T B nonce now 0 identity saved tables) refl)),
      sign_in-written P opens F loads drawn new_password username private_key created_at disk
          is_drawn key_bytes (lookup-insert_same username write home.disk.identity_enc),
      λ fingerprint limit.
          history-restored P M F T B opens identity fingerprint limit (renewed nonce now 0 saved)
            tables (same ∙ blank)
            (renewed-IsStorable P M F T B nonce now identity 0 saved nonces storable),
    )
