-- ===== src/Backup/Examples.antt =====
-- A backup of haven/backup.py at a concrete input.
use haven_e2e_messenger.Prelude.{
  ◌≡◌, refl, ℕ, ◌+◌, Str, Bytes, text, true, none, some, List, [], ◌∷◌, ◌++◌, map, take, arith,
  bytes_eq, ◌==◌, ==_refl, if◌then◌else◌,
}
use haven_e2e_messenger.Prelude.Errors.{Result, ok, err, value_error}
use haven_e2e_messenger.Crypto.Toy.{toy, toy-SealOpens}
use haven_e2e_messenger.Crypto.Hex.{hex}
use haven_e2e_messenger.Crypto.Keys.{from_private_bytes}
use haven_e2e_messenger.Crypto.AtRest.{CtrMode}
use haven_e2e_messenger.Identity.Local.{FileTools, LocalAccount, Drawn, sign_in}
use haven_e2e_messenger.Storage.Tables.{
  Contact, Direction, incoming, outgoing, StoreTools, no_rows, history,
}
use haven_e2e_messenger.Storage.History.{Saved, shown, saved_for, save_all}
use haven_e2e_messenger.Backup.{
  BundleTools, object, Home, magic, export_backup, restore_backup, apply_restored_bundle,
}
use haven_e2e_messenger.Backup.RoundTrip.{bundle_of, renewed, backup_brings_account_back}

abbrev read_toy : Bytes → Result (Str × ℕ)
read_toy [] = err value_error
read_toy (created_at ∷ private_key) = ok (private_key, created_at)

abbrev files : FileTools
files = record {
  derive_key = λ secret salt. secret ++ salt;
  utf8 = λ s. s;
  dumps = λ private_key created_at. created_at ∷ private_key;
  loads = read_toy;
}

abbrev stream : CtrMode
stream = record { encryptor = λ key iv plain. plain; decryptor = λ key iv sealed. sealed }

abbrev store : StoreTools
store = record {
  utf8 = λ s. s;
  from_utf8 = λ b. ok b;
  dump_session = λ s. [];
  load_session_json = λ b. err value_error;
  dump_group = λ g. [];
  load_group_json = λ b. err value_error;
}

abbrev ann : LocalAccount
ann = record { username = text "ann"; identity = from_private_bytes toy (5 ∷ []); created_at = 3 }

abbrev contacts : List (Str × Contact)
contacts =
    (
      text "fp",
      record {
        username = text "bob";
        identity_pub = 9 ∷ [];
        host = none;
        port = some 7000;
        relay_host = none;
        relay_port = none;
        verified = true;
        added_at = 2;
      },
    )
    ∷ []

abbrev said : Direction → Str → ℕ → Saved
said direction body now = record {
  nonce = text "0123456789ab";
  now = now;
  fingerprint = text "fp";
  direction = direction;
  body = body;
  kind = text "text";
}

abbrev talk : List Saved
talk = said outgoing (text "hi") 1 ∷ said incoming (text "ho") 2 ∷ []

abbrev written : Bytes
written = 3 ∷ hex (5 ∷ [])

-- One text is read here, that of Ann's bundle.
abbrev bundles : BundleTools
bundles = record {
  dumps = λ m b. b.created_at ∷ b.identity_private_key;
  loads = λ raw.
      if raw == written
      then ok (object (some magic) (bundle_of ann contacts talk))
      else err value_error;
}

bundles-read :
    bundles.loads (bundles.dumps magic (bundle_of ann contacts talk))
    ≡ ok (object (some magic) (bundle_of ann contacts talk))
unfolding from_private_bytes
bundles-read = rw (==_refl written) refl

abbrev drawn : Drawn
drawn = record { salt = text "0123456789abcdef"; nonce = text "0123456789ab" }

abbrev blank : Home
blank = record { disk = record { identity_enc = []; recovery_enc = [] }; tables = no_rows }

backup_brings_account_back_example :
    (file : Bytes) × (home : Home) × (export_backup toy stream files store bundles drawn.salt
        drawn.salt ann
        (text "pw")
        (record (save_all toy ann.identity store talk no_rows) { contacts = contacts })
      ≡ ok file)
    × (restore_backup toy stream files store bundles file (text "pw")
        ≡ ok (bundle_of ann contacts talk))
    × (apply_restored_bundle toy stream files store bundles drawn drawn
          (λ i. drawn.nonce)
          (λ i. 9 + i)
          (text "zoo")
          (bundle_of ann contacts talk)
          (text "new")
          blank
        ≡ ok (ann, text "zoo", home))
    × (sign_in toy files (text "ann") (text "new") home.disk ≡ ok ann)
    × ((fingerprint : Str) (limit : ℕ)
        → history toy ann.identity store fingerprint limit home.tables
          ≡ ok (
              map shown (
                take limit
                  (saved_for fingerprint (renewed (λ i. drawn.nonce) (λ i. 9 + i) 0 talk)))))
backup_brings_account_back_example =
    backup_brings_account_back toy toy-SealOpens stream (λ key iv plain. refl) files
      (λ private_key created_at. refl) store bundles drawn.salt drawn.salt drawn drawn
      (λ i. drawn.nonce) (λ i. 9 + i) (5 ∷ []) (text "ann") (text "pw") (text "new") (text "zoo") 3
      contacts talk blank bundles-read refl refl (refl, refl) (λ i. refl) (omega arith, tt)
      ((omega arith, tt), tt) ((refl, refl), ((refl, refl), tt)) refl
