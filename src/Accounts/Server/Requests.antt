-- ===== src/Accounts/Server/Requests.antt =====
-- Any sequence of requests to webapp/accounts_server.py, and what it keeps true of the accounts.
pub mod Usernames
use haven_e2e_messenger.Prelude.{
  ◌≡◌, refl, sym, ap, ◌∙◌, subst, ℕ, Str, Bytes, text, ◌++◌, Bool, true, false, Option, none, some,
  List, [], ◌∷◌, arith, if◌then◌else◌, ◌==◌, bytes_eq,
}
use haven_e2e_messenger.Prelude.Errors.{Exn, Result, ok, err}
use haven_e2e_messenger.Prelude.Exec.{Exec, lift, pure, ◌>>=◌, ◌>>◌, Preserves, bind-Preserves}
use haven_e2e_messenger.Accounts.Names.{lower, validate_username}
use haven_e2e_messenger.Accounts.Secrets.{Hashers, hash_secret, verify_secret}
use haven_e2e_messenger.Accounts.Db.{
  Account, AccountsDb, NewAccount, create_account, get_by_username, update_where, find, found,
  set_identity_pub, upgrade_password_hash, upgrade_recovery_hash, update_password, add_contact_edge,
  is_username_available,
}
use haven_e2e_messenger.Accounts.Db.Names.{
  KeepsName, UniqueNames, update_where-UniqueNames, create_account-UniqueNames, find-update_where,
}
use haven_e2e_messenger.Accounts.Server.{
  Service, SignupRequest, NewPassword, username_available, login_salt, recovery_salt, signup, login,
  upgrade, admit, require_password_auth, require_recovery_auth, password_hash_of, recovery_hash_of,
  or_status, check_login, check_signup, check_lookup, check_contacts, to_new_account, change_db,
  update_identity_pub, sync_contact, forgot_password_verify, forgot_password_reset,
}
use haven_e2e_messenger.Accounts.Search.{search_users, check_search, or_anonymous}
use haven_e2e_messenger.Accounts.Friends.{mutual_friends}

-- A request with what the service draws and reads while it answers: the time, the salts, the new
-- id. `/api/translate` and the pages touch no part of the service that is modelled.
pub data Request : Type 0 where
  asks_available : ℕ → Str → Str → Request
  asks_login_salt : ℕ → Str → Str → Request
  asks_recovery_salt : ℕ → Str → Str → Request
  signs_up : ℕ → Bytes → Bytes → Str → SignupRequest → Request
  logs_in : ℕ → Bytes → Str → Str → Request
  updates_identity : ℕ → Bytes → Str → Str → Str → Request
  syncs_contact : ℕ → Bytes → Str → Str → Str → Request
  asks_mutual_friends : ℕ → Bytes → Str → Str → Request
  searches_users : ℕ → Str → Str → Request
  verifies_recovery : ℕ → Bytes → Str → Str → Request
  resets_password : ℕ → Bytes → Bytes → Str → Str → NewPassword → Request

module _ (H : Hashers) where
  abbrev perform : Request → Service → Service
  perform (asks_available now ip name) s = (username_available now ip name s).1
  perform (asks_login_salt now ip name) s = (login_salt now ip name s).1
  perform (asks_recovery_salt now ip name) s = (recovery_salt now ip name s).1
  perform (signs_up now pd rd id req) s = (signup H now pd rd id req s).1
  perform (logs_in now drawn name key) s = (login H now drawn name key s).1
  perform (updates_identity now drawn name key p) s =
      (update_identity_pub H now drawn name key p s).1
  perform (syncs_contact now drawn name key other) s = (sync_contact H now drawn name key other s).1
  perform (asks_mutual_friends now drawn name key) s = (mutual_friends H now drawn name key s).1
  perform (searches_users now query exclude) s = (search_users now query exclude s).1
  perform (verifies_recovery now drawn name key) s =
      (forgot_password_verify H now drawn name key s).1
  perform (resets_password now drawn nd name key new) s =
      (forgot_password_reset H now drawn nd name key new s).1

  unfoldable pub serve : List Request → Service → Service
  serve [] s = s
  serve (r ∷ requests) s = serve requests (perform r s)

-- A property of the rows that survives every write the database offers.
pub record IsStable (P : List Account → Type 0) : Type 0 where
  pub updated :
      (name : Str) (f : Account → Account) (rows : List Account)
      → KeepsName f
      → P rows
      → P (update_where name f rows)
  pub created :
      (id : Str) (n : NewAccount) (db : AccountsDb)
      → P db.accounts
      → P (create_account id n db).1.accounts

module _ (H : Hashers) (P : List Account → Type 0) (stable : IsStable P) where
  abbrev Holds : Service → Type 0
  Holds s = P s.db.accounts

  upgrade-Preserves :
      (store : Str → Str → AccountsDb → AccountsDb) (name : Str) (better : Option Str)
      → ((h : Str) (db : AccountsDb) → P db.accounts → P (store name h db).accounts)
      → Preserves Holds (upgrade H store name better)
  upgrade-Preserves store name none keeps s p = p
  upgrade-Preserves store name (some h) keeps s p = keeps h s.db p

  admit-Preserves : (r : Option Account) (right : Bool) → Preserves Holds (admit H r right)
  admit-Preserves none right s p = p
  admit-Preserves (some row) true s p = p
  admit-Preserves (some row) false s p = p

  require_password_auth-Preserves :
      (drawn : Bytes) (name key : Str) → Preserves Holds (require_password_auth H drawn name key)
  unfolding require_password_auth upgrade_password_hash
  require_password_auth-Preserves drawn name key s p =
      let row = get_by_username name s.db in
      let verdict = verify_secret H drawn (password_hash_of H row) key in
      bind-Preserves Holds (admit H row verdict.0) _ (admit-Preserves row verdict.0)
        (λ a.
          bind-Preserves Holds (upgrade H upgrade_password_hash name verdict.1) _
            (upgrade-Preserves upgrade_password_hash name verdict.1 (λ h db.
              stable.updated (lower name) (λ a. record a { password_auth_hash = h }) db.accounts
                (λ a. (refl, refl))))
            (λ _ s p. p))
        s p

  require_recovery_auth-Preserves :
      (drawn : Bytes) (name key : Str) → Preserves Holds (require_recovery_auth H drawn name key)
  unfolding require_recovery_auth upgrade_recovery_hash
  require_recovery_auth-Preserves drawn name key s p =
      let row = get_by_username name s.db in
      let verdict = verify_secret H drawn (recovery_hash_of H row) key in
      bind-Preserves Holds (admit H row verdict.0) _ (admit-Preserves row verdict.0)
        (λ a.
          bind-Preserves Holds (upgrade H upgrade_recovery_hash name verdict.1) _
            (upgrade-Preserves upgrade_recovery_hash name verdict.1 (λ h db.
              stable.updated (lower name) (λ a. record a { recovery_auth_hash = h }) db.accounts
                (λ a. (refl, refl))))
            (λ _ s p. p))
        s p

  signup-Preserves :
      (now : ℕ) (pd rd : Bytes) (id : Str) (req : SignupRequest)
      → Preserves Holds (signup H now pd rd id req)
  unfolding signup
  signup-Preserves now pd rd id req =
      bind-Preserves Holds (lift (or_status 422 (validate_username req.username))) _ (λ s p. p)
        (λ _.
          bind-Preserves Holds (check_signup now (lower req.username)) _ (λ s p. p)
            (λ _ s p. stable.created id (to_new_account H pd rd req) s.db p))

  login-Preserves :
      (now : ℕ) (drawn : Bytes) (name key : Str) → Preserves Holds (login H now drawn name key)
  unfolding login
  login-Preserves now drawn name key =
      bind-Preserves Holds (check_login now (lower name)) _ (λ s p. p)
        (λ _.
          bind-Preserves Holds (require_password_auth H drawn name key) _
            (require_password_auth-Preserves drawn name key) (λ _ s p. p))

  update_identity_pub-Preserves :
      (now : ℕ) (drawn : Bytes) (name key p : Str)
      → Preserves Holds (update_identity_pub H now drawn name key p)
  unfolding update_identity_pub set_identity_pub
  update_identity_pub-Preserves now drawn name key pub_key =
      bind-Preserves Holds (check_login now (lower name)) _ (λ s p. p)
        (λ _.
          bind-Preserves Holds (require_password_auth H drawn name key) _
            (require_password_auth-Preserves drawn name key)
            (λ _ s p.
              stable.updated (lower name) (λ a. record a { identity_pub = some pub_key })
                s.db.accounts (λ a. (refl, refl)) p))

  add_contact_edge-accounts :
      (x y : Str) (db : AccountsDb) → (add_contact_edge x y db).accounts ≡ db.accounts
  unfolding add_contact_edge
  add_contact_edge-accounts x y db = ground arith

  sync_contact-Preserves :
      (now : ℕ) (drawn : Bytes) (name key other : Str)
      → Preserves Holds (sync_contact H now drawn name key other)
  unfolding sync_contact
  sync_contact-Preserves now drawn name key other =
      bind-Preserves Holds (check_contacts now (lower name)) _ (λ s p. p)
        (λ _.
          bind-Preserves Holds (require_password_auth H drawn name key) _
            (require_password_auth-Preserves drawn name key)
            (λ _.
              bind-Preserves Holds (lift (or_status 400 (validate_username other))) _ (λ s p. p)
                (λ _ s p. subst P (sym (add_contact_edge-accounts name other s.db)) p)))

  mutual_friends-Preserves :
      (now : ℕ) (drawn : Bytes) (name key : Str)
      → Preserves Holds (mutual_friends H now drawn name key)
  unfolding mutual_friends
  mutual_friends-Preserves now drawn name key =
      bind-Preserves Holds (check_contacts now (lower name)) _ (λ s p. p)
        (λ _.
          bind-Preserves Holds (require_password_auth H drawn name key) _
            (require_password_auth-Preserves drawn name key) (λ _ s p. p))

  search_users-Preserves :
      (now : ℕ) (query exclude : Str) → Preserves Holds (search_users now query exclude)
  unfolding search_users
  search_users-Preserves now query exclude =
      bind-Preserves Holds (check_search now (or_anonymous (lower exclude))) _ (λ s p. p)
        (λ _ s p. p)

  forgot_password_verify-Preserves :
      (now : ℕ) (drawn : Bytes) (name key : Str)
      → Preserves Holds (forgot_password_verify H now drawn name key)
  unfolding forgot_password_verify
  forgot_password_verify-Preserves now drawn name key =
      bind-Preserves Holds (check_login now (text "recovery:" ++ lower name)) _ (λ s p. p)
        (λ _.
          bind-Preserves Holds (require_recovery_auth H drawn name key) _
            (require_recovery_auth-Preserves drawn name key) (λ _ s p. p))

  forgot_password_reset-Preserves :
      (now : ℕ) (drawn nd : Bytes) (name key : Str) (new : NewPassword)
      → Preserves Holds (forgot_password_reset H now drawn nd name key new)
  unfolding forgot_password_reset update_password
  forgot_password_reset-Preserves now drawn nd name key new =
      bind-Preserves Holds (check_login now (text "recovery-reset:" ++ lower name)) _ (λ s p. p)
        (λ _.
          bind-Preserves Holds (require_recovery_auth H drawn name key) _
            (require_recovery_auth-Preserves drawn name key)
            (λ _ s p.
              stable.updated (lower name)
                (λ a. record a {
                  password_salt = new.salt;
                  password_auth_hash = hash_secret H nd new.auth_key;
                  encrypted_identity_blob = new.blob;
                  password_kdf_n = new.kdf_n;
                })
                s.db.accounts (λ a. (refl, refl)) p))

  lookup-accounts :
      (now : ℕ) (ip name : Str) (s : Service)
      → ((username_available now ip name s).1.db ≡ s.db)
        × ((login_salt now ip name s).1.db ≡ s.db)
        × ((recovery_salt now ip name s).1.db ≡ s.db)
  unfolding username_available login_salt recovery_salt
  lookup-accounts now ip name s = ground arith

  perform-Preserves : (r : Request) (s : Service) → Holds s → Holds (perform H r s)
  perform-Preserves (asks_available now ip name) s p =
      subst (λ db. P db.accounts) (sym (lookup-accounts now ip name s).0) p
  perform-Preserves (asks_login_salt now ip name) s p =
      subst (λ db. P db.accounts) (sym (lookup-accounts now ip name s).1) p
  perform-Preserves (asks_recovery_salt now ip name) s p =
      subst (λ db. P db.accounts) (sym (lookup-accounts now ip name s).2) p
  perform-Preserves (signs_up now pd rd id req) s p = signup-Preserves now pd rd id req s p
  perform-Preserves (logs_in now drawn name key) s p = login-Preserves now drawn name key s p
  perform-Preserves (updates_identity now drawn name key k) s p =
      update_identity_pub-Preserves now drawn name key k s p
  perform-Preserves (syncs_contact now drawn name key other) s p =
      sync_contact-Preserves now drawn name key other s p
  perform-Preserves (asks_mutual_friends now drawn name key) s p =
      mutual_friends-Preserves now drawn name key s p
  perform-Preserves (searches_users now query exclude) s p =
      search_users-Preserves now query exclude s p
  perform-Preserves (verifies_recovery now drawn name key) s p =
      forgot_password_verify-Preserves now drawn name key s p
  perform-Preserves (resets_password now drawn nd name key new) s p =
      forgot_password_reset-Preserves now drawn nd name key new s p

  pub serve-Preserves :
      (requests : List Request) (s : Service) → Holds s → Holds (serve H requests s)
  unfolding serve
  serve-Preserves [] s p = p
  serve-Preserves (r ∷ requests) s p =
      serve-Preserves requests (perform H r s) (perform-Preserves r s p)
