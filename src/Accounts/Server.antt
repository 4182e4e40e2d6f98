-- ===== src/Accounts/Server.antt =====
-- The endpoints of webapp/accounts_server.py. Each is one step of the service, at the time `now`, with
-- the salt that hashing draws; a raised HTTPException carries its status.
pub mod Login
pub mod Requests
use haven_e2e_messenger.Prelude.{
  ℕ, Str, Bytes, text, Bool, true, false, not, ◌&&◌, ◌||◌, Option, none, some, [], ◌∷◌, ◌++◌,
  if◌then◌else◌,
}
use haven_e2e_messenger.Prelude.Errors.{Exn, Result, ok, err, http_exception}
use haven_e2e_messenger.Prelude.Exec.{Exec, pure, raise, lift, gets, modify, skip, ◌>>=◌, ◌>>◌}
use haven_e2e_messenger.Accounts.Names.{lower, validate_username}
use haven_e2e_messenger.Accounts.Limiter.{SimpleRateLimiter, check}
use haven_e2e_messenger.Accounts.Secrets.{Hashers, hash_secret, verify_secret}
use haven_e2e_messenger.Accounts.Db.{
  Account, AccountsDb, NewAccount, is_username_available, create_account, get_by_username,
  set_identity_pub, update_password, upgrade_password_hash, upgrade_recovery_hash, add_contact_edge,
}

-- The module's globals: the database and the limiters.
pub record Service : Type 0 where
  pub db : AccountsDb
  pub login_limiter : SimpleRateLimiter
  pub signup_limiter : SimpleRateLimiter
  pub search_limiter : SimpleRateLimiter
  pub lookup_limiter : SimpleRateLimiter
  pub contacts_limiter : SimpleRateLimiter

abbrev limiter_of : ℕ → ℕ → SimpleRateLimiter
limiter_of max_attempts window = record {
  max_attempts = max_attempts;
  window_seconds = window;
  attempts = [];
}

-- The service on an empty database, with `second` units of time to a second.
abbrev pub start : ℕ → AccountsDb → Service
start minute db = record {
  db = db;
  login_limiter = limiter_of 10 minute;
  signup_limiter = limiter_of 5 minute;
  search_limiter = limiter_of 30 minute;
  lookup_limiter = limiter_of 60 minute;
  contacts_limiter = limiter_of 60 minute;
}

abbrev pub check_login : ℕ → Str → Exec Service (Unit {0})
check_login now key s =
    let (r, l) = check now key s.login_limiter in (r, record s { login_limiter = l })

abbrev pub check_signup : ℕ → Str → Exec Service (Unit {0})
check_signup now key s =
    let (r, l) = check now key s.signup_limiter in (r, record s { signup_limiter = l })

abbrev pub check_lookup : ℕ → Str → Exec Service (Unit {0})
check_lookup now key s =
    let (r, l) = check now key s.lookup_limiter in (r, record s { lookup_limiter = l })

abbrev pub check_contacts : ℕ → Str → Exec Service (Unit {0})
check_contacts now key s =
    let (r, l) = check now key s.contacts_limiter in (r, record s { contacts_limiter = l })

abbrev pub change_db : (AccountsDb → AccountsDb) → Exec Service (Unit {0})
change_db f = modify (λ s. record s { db = f s.db })

-- `except ValueError: raise HTTPException(status)` and its like.
abbrev pub or_status : {A : Type 0} → ℕ → Result A → Result A
or_status status (ok a) = ok a
or_status status (err e) = err (http_exception status)

-- `username_available`
unfoldable pub username_available : ℕ → Str → Str → Exec Service Bool
username_available now client_ip username = do
  check_lookup now client_ip
  lift (or_status 400 (validate_username username))
  gets (λ s. is_username_available username s.db)

-- `SignupRequest`: what `create_account` takes, with the auth keys in place of their hashes.
pub record SignupRequest : Type 0 where
  pub username : Str
  pub password_salt : Str
  pub password_auth_key : Str
  pub encrypted_identity_blob : Str
  pub recovery_salt : Str
  pub recovery_auth_key : Str
  pub encrypted_identity_blob_recovery : Str
  pub identity_pub : Str
  pub password_kdf_n : ℕ
  pub recovery_kdf_n : ℕ

abbrev require_found : ℕ → Option Account → Exec Service Account
require_found status none = raise (http_exception status)
require_found status (some row) = pure row

-- `login_salt`
unfoldable pub login_salt : ℕ → Str → Str → Exec Service (Str × ℕ)
login_salt now client_ip username = do
  check_lookup now client_ip
  found_row ← gets (λ s. get_by_username username s.db)
  row ← require_found 404 found_row
  pure (row.password_salt, row.password_kdf_n)

-- `recovery_salt`
unfoldable pub recovery_salt : ℕ → Str → Str → Exec Service (Str × ℕ)
recovery_salt now client_ip username = do
  check_lookup now client_ip
  found_row ← gets (λ s. get_by_username username s.db)
  row ← require_found 404 found_row
  pure (row.recovery_salt, row.recovery_kdf_n)

-- `RecoveryResetRequest` without the username and the recovery key.
pub record NewPassword : Type 0 where
  pub salt : Str
  pub auth_key : Str
  pub blob : Str
  pub kdf_n : ℕ

module _ (H : Hashers) where
  abbrev to_new_account : Bytes → Bytes → SignupRequest → NewAccount
  to_new_account password_drawn recovery_drawn req = record {
    username = req.username;
    password_salt = req.password_salt;
    password_auth_hash = hash_secret H password_drawn req.password_auth_key;
    encrypted_identity_blob = req.encrypted_identity_blob;
    recovery_salt = req.recovery_salt;
    recovery_auth_hash = hash_secret H recovery_drawn req.recovery_auth_key;
    encrypted_identity_blob_recovery = req.encrypted_identity_blob_recovery;
    identity_pub = req.identity_pub;
    password_kdf_n = req.password_kdf_n;
    recovery_kdf_n = req.recovery_kdf_n;
  }

  abbrev store_account : Str → NewAccount → Exec Service Str
  store_account user_id n s =
      let (r, db') = create_account user_id n s.db in (or_status 409 r, record s { db = db' })

  -- `signup`, on the id that uuid4 gives; pydantic answers 422 for a refused username.
  unfoldable pub signup : ℕ → Bytes → Bytes → Str → SignupRequest → Exec Service Str
  signup now password_drawn recovery_drawn user_id req = do
    lift (or_status 422 (validate_username req.username))
    check_signup now (lower req.username)
    store_account user_id (to_new_account password_drawn recovery_drawn req)

  -- `_DUMMY_HASH`
  abbrev dummy_hash : Str
  dummy_hash = hash_secret H H.dummy_salt (text "no-such-account-placeholder")

  abbrev password_hash_of : Option Account → Str
  password_hash_of none = dummy_hash
  password_hash_of (some row) = row.password_auth_hash

  abbrev recovery_hash_of : Option Account → Str
  recovery_hash_of none = dummy_hash
  recovery_hash_of (some row) = row.recovery_auth_hash

  -- `if not row or not ok: raise HTTPException(401)`
  abbrev pub admit : Option Account → Bool → Exec Service Account
  admit none right = raise (http_exception 401)
  admit (some row) true = pure row
  admit (some row) false = raise (http_exception 401)

  abbrev pub upgrade :
      (Str → Str → AccountsDb → AccountsDb) → Str → Option Str → Exec Service (Unit {0})
  upgrade store username none = skip
  upgrade store username (some upgraded) = change_db (store username upgraded)

  -- `_require_password_auth`
  unfoldable pub require_password_auth : Bytes → Str → Str → Exec Service Account
  require_password_auth drawn username password_auth_key = do
    found_row ← gets (λ s. get_by_username username s.db)
    let verdict = verify_secret H drawn (password_hash_of found_row) password_auth_key
    row ← admit found_row verdict.0
    upgrade upgrade_password_hash username verdict.1
    pure row

  -- The same lines for the recovery phrase, which two endpoints repeat.
  unfoldable pub require_recovery_auth : Bytes → Str → Str → Exec Service Account
  require_recovery_auth drawn username recovery_auth_key = do
    found_row ← gets (λ s. get_by_username username s.db)
    let verdict = verify_secret H drawn (recovery_hash_of found_row) recovery_auth_key
    row ← admit found_row verdict.0
    upgrade upgrade_recovery_hash username verdict.1
    pure row

  -- `login`
  unfoldable pub login : ℕ → Bytes → Str → Str → Exec Service (Str × Str)
  login now drawn username password_auth_key = do
    check_login now (lower username)
    row ← require_password_auth drawn username password_auth_key
    pure (row.password_salt, row.encrypted_identity_blob)

  -- `update_identity_pub`
  unfoldable pub update_identity_pub : ℕ → Bytes → Str → Str → Str → Exec Service (Unit {0})
  update_identity_pub now drawn username password_auth_key identity_pub = do
    check_login now (lower username)
    require_password_auth drawn username password_auth_key
    change_db (set_identity_pub username identity_pub)

  -- `sync_contact`
  unfoldable pub sync_contact : ℕ → Bytes → Str → Str → Str → Exec Service (Unit {0})
  sync_contact now drawn username password_auth_key contact_username = do
    check_contacts now (lower username)
    require_password_auth drawn username password_auth_key
    lift (or_status 400 (validate_username contact_username))
    change_db (add_contact_edge username contact_username)

  -- `forgot_password_verify`
  unfoldable pub forgot_password_verify : ℕ → Bytes → Str → Str → Exec Service (Str × Str)
  forgot_password_verify now drawn username recovery_auth_key = do
    check_login now (text "recovery:" ++ lower username)
    row ← require_recovery_auth drawn username recovery_auth_key
    pure (row.recovery_salt, row.encrypted_identity_blob_recovery)

  -- `forgot_password_reset`
  unfoldable pub forgot_password_reset :
      ℕ → Bytes → Bytes → Str → Str → NewPassword → Exec Service (Unit {0})
  forgot_password_reset now drawn new_drawn username recovery_auth_key new = do
    check_login now (text "recovery-reset:" ++ lower username)
    require_recovery_auth drawn username recovery_auth_key
    change_db (
        update_password username new.salt (hash_secret H new_drawn new.auth_key) new.blob new.kdf_n)
