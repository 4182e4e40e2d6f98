-- ===== src/Accounts/Server/Login.antt =====
-- Signing up, logging in and resetting a password in webapp/accounts_server.py.
use haven_e2e_messenger.Prelude.{
  ◌≡◌, refl, sym, ap, ◌∙◌, ℕ, Str, Bytes, text, true, false, Option, none, some, ◌⊎◌, inl, inr,
  ◌++◌, if◌then◌else◌, ◌==◌, bytes_eq, arith, Option-cases,
}
use haven_e2e_messenger.Prelude.Errors.{Result, ok, err, http_exception}
use haven_e2e_messenger.Prelude.Exec.{◌>>=◌, bind-ok}
use haven_e2e_messenger.Accounts.Names.{lower}
use haven_e2e_messenger.Accounts.Limiter.{check}
use haven_e2e_messenger.Accounts.Secrets.{
  Hashers, HashVerifies, hash_secret, verify_secret, verify_secret-hash_secret,
}
use haven_e2e_messenger.Accounts.Db.{
  Account, AccountsDb, NewAccount, found, to_row, create_account, get_by_username, find,
  upgrade_recovery_hash, update_password, is_username_available,
}
use haven_e2e_messenger.Accounts.Db.Names.{
  create_account_lem, find-update_where_same, found-changed, changed,
}
use haven_e2e_messenger.Accounts.Server.{
  Service, SignupRequest, signup, to_new_account, store_account, login, require_password_auth,
  require_recovery_auth, password_hash_of, recovery_hash_of, forgot_password_reset, NewPassword,
  or_status, upgrade, check_login, change_db,
}

module _ (H : Hashers) where
  -- With the right key for a row's hash the row comes back.
  require_password_auth-right :
      (drawn : Bytes) (username key : Str) (row : Account) (s : Service)
      → get_by_username username s.db ≡ some row
      → (verify_secret H drawn row.password_auth_hash key).0 ≡ true
      → (require_password_auth H drawn username key s).0 ≡ ok row
  unfolding require_password_auth
  require_password_auth-right drawn username key row s there right = ground arith

  require_password_auth-wrong :
      (drawn : Bytes) (username key : Str) (s : Service)
      → (get_by_username username s.db ≡ none)
        ⊎ ((verify_secret H drawn (password_hash_of H (get_by_username username s.db)) key).0
            ≡ false)
      → require_password_auth H drawn username key s ≡ (err (http_exception 401), s)
  unfolding require_password_auth
  require_password_auth-wrong drawn username key s h = ground arith

  -- Whether there is no such account or the key is wrong, a login within its budget answers 401, and
  -- changes nothing but the count of attempts.
  pub login_refused_alike :
      (now : ℕ) (drawn : Bytes) (username key : Str) (s : Service)
      → (check now (lower username) s.login_limiter).0 ≡ ok tt
      → (get_by_username username s.db ≡ none)
        ⊎ ((verify_secret H drawn (password_hash_of H (get_by_username username s.db)) key).0
            ≡ false)
      → login H now drawn username key s ≡ (
        err (http_exception 401),
        record s { login_limiter = (check now (lower username) s.login_limiter).1 },
      )
  unfolding login
  login_refused_alike now drawn username key s budget h =
      let t = record s { login_limiter = (check now (lower username) s.login_limiter).1 } in
      rw budget (rw (require_password_auth-wrong drawn username key t h) refl)

  login-right :
      (now : ℕ) (drawn : Bytes) (username key : Str) (row : Account) (s : Service)
      → (check now (lower username) s.login_limiter).0 ≡ ok tt
      → get_by_username username s.db ≡ some row
      → (verify_secret H drawn row.password_auth_hash key).0 ≡ true
      → (login H now drawn username key s).0 ≡ ok (row.password_salt, row.encrypted_identity_blob)
  unfolding login
  login-right now drawn username key row s budget there right =
      let t = record s { login_limiter = (check now (lower username) s.login_limiter).1 } in
      rw budget (ground (arith, require_password_auth-right drawn username key row t there right))

  or_status-ok :
      {A : Type 0} (status : ℕ) (r : Result A) {a : A} → or_status status r ≡ ok a → r ≡ ok a
  or_status-ok status (ok b) h = h
  or_status-ok status (err e) h = ground arith

  store_account-get :
      (id other : Str) (n : NewAccount) (s : Service) {user_id : Str}
      → (store_account H id n s).0 ≡ ok user_id
      → (get_by_username n.username s.db ≡ none)
        × (get_by_username other (store_account H id n s).1.db ≡ (
            if lower other == lower n.username
            then some (to_row id n)
            else get_by_username other s.db))
  unfolding is_username_available get_by_username
  store_account-get id other n s h =
      let made =
        create_account_lem id other n s.db (or_status-ok 409 (create_account id n s.db).0 h) in
      (ground (arith, made.0), made.1)

  -- A signup that succeeds had a free username, and afterwards a lookup of it, in any case, finds the
  -- new account, while every other lookup finds what it found before.
  pub signup_lem :
      (now : ℕ) (pd rd : Bytes) (id other : Str) (req : SignupRequest) (s : Service) {user_id : Str}
      → (signup H now pd rd id req s).0 ≡ ok user_id
      → (get_by_username req.username s.db ≡ none)
        × (get_by_username other (signup H now pd rd id req s).1.db ≡ (
            if lower other == lower req.username
            then some (to_row id (to_new_account H pd rd req))
            else get_by_username other s.db))
        × ((signup H now pd rd id req s).1.login_limiter ≡ s.login_limiter)
  unfolding signup
  signup_lem now pd rd id other req s {user_id = user_id} h = ground (
    arith,
    store_account-get id other (to_new_account H pd rd req)
        (record s { signup_limiter = (check now (lower req.username) s.signup_limiter).1 })
        {user_id = user_id},
  )

  -- Signing up and then logging in: for every username that agrees with the one signed up but for case,
  -- and the key given at signup, a login within its budget gives back the salt and the encrypted
  -- identity of the signup. Conditions: the signup succeeds, and the hash verifies what it was made of.
  pub login_after_signup :
      HashVerifies H
      → (now later : ℕ) (pd rd drawn : Bytes) (id name : Str) (req : SignupRequest) (s : Service)
      → {user_id : Str} → (signup H now pd rd id req s).0 ≡ ok user_id
      → lower name ≡ lower req.username
      → (check later (lower name) s.login_limiter).0 ≡ ok tt
      → (login H later drawn name req.password_auth_key (signup H now pd rd id req s).1).0
        ≡ ok (req.password_salt, req.encrypted_identity_blob)
  login_after_signup laws now later pd rd drawn id name req s h same budget =
      let s' = (signup H now pd rd id req s).1 in
      let row = to_row id (to_new_account H pd rd req) in
      let made = signup_lem now pd rd id name req s h in
      let there : get_by_username name s'.db ≡ some row = ground (arith, made.1) in
      let right : (verify_secret H drawn row.password_auth_hash req.password_auth_key).0 ≡ true =
        ap (λ v. v.0) (verify_secret-hash_secret H laws drawn pd req.password_auth_key) in
      login-right later drawn name req.password_auth_key row s' (rw made.2 budget) there right

  -- Storing a better hash loses no account.
  upgrade-finds :
      (username : Str) (better : Option Str) (s : Service)
      → found (get_by_username username (upgrade H upgrade_recovery_hash username better s).1.db)
        ≡ found (get_by_username username s.db)
  unfolding get_by_username upgrade_recovery_hash
  upgrade-finds username none s = refl
  upgrade-finds username (some h) s =
      let f : Account → Account = λ a. record a { recovery_auth_hash = h } in
      ground (
        arith,
        find-update_where_same (lower username) f s.db.accounts (λ a. (refl, refl)),
        found-changed f (find (lower username) s.db.accounts),
      )

  require_recovery_auth-finds :
      (drawn : Bytes) (username key : Str) (s : Service) {row : Account}
      → (require_recovery_auth H drawn username key s).0 ≡ ok row
      → found (get_by_username username (require_recovery_auth H drawn username key s).1.db) ≡ true
  unfolding require_recovery_auth
  require_recovery_auth-finds drawn username key s h = ground (
    arith,
    upgrade-finds username
        (verify_secret H drawn (recovery_hash_of H (get_by_username username s.db)) key).1 s,
  )

  abbrev with_password : Bytes → NewPassword → Account → Account
  with_password nd new a = record a {
    password_salt = new.salt;
    password_auth_hash = hash_secret H nd new.auth_key;
    encrypted_identity_blob = new.blob;
    password_kdf_n = new.kdf_n;
  }

  update_password-finds :
      (nd : Bytes) (username : Str) (new : NewPassword) (db : AccountsDb)
      → found (get_by_username username db) ≡ true
      → (row : Account) × (get_by_username username (
            update_password username new.salt (hash_secret H nd new.auth_key) new.blob new.kdf_n db)
          ≡ some (with_password nd new row))
  unfolding update_password get_by_username
  update_password-finds nd username new db h =
      elim (Option-cases (find (lower username) db.accounts)) [
        | inl gone ↦ ground (arith, h, gone)
        | inr (row, there) ↦ (
          row,
          find-update_where_same (lower username) (with_password nd new) db.accounts
                (λ a. (refl, refl))
              ∙ ap (changed (with_password nd new)) there,
        )
      ]

  forgot_password_reset-finds :
      (now : ℕ) (drawn nd : Bytes) (username key : Str) (new : NewPassword) (s : Service)
      → (forgot_password_reset H now drawn nd username key new s).0 ≡ ok tt
      → (row : Account) × (get_by_username username
            (forgot_password_reset H now drawn nd username key new s).1.db
          ≡ some (with_password nd new row))
  unfolding forgot_password_reset
  forgot_password_reset-finds now drawn nd username key new s h =
      let t : Service = record s {
        login_limiter = (check now (text "recovery-reset:" ++ lower username) s.login_limiter).1;
      } in
      let (_, checked, afterwards) =
        bind-ok (check_login now (text "recovery-reset:" ++ lower username))
          (λ _. require_recovery_auth H drawn username key >>= λ _.
            change_db (
              update_password username new.salt (hash_secret H nd new.auth_key) new.blob new.kdf_n))
          s h in
      let (row, right, then_) =
        bind-ok (require_recovery_auth H drawn username key)
          (λ _.
            change_db (
              update_password username new.salt (hash_secret H nd new.auth_key) new.blob new.kdf_n))
          t (sym (ap (λ r. r.0) afterwards) ∙ h) in
      rw afterwards (
        rw then_ (
          update_password-finds nd username new (require_recovery_auth H drawn username key t).1.db
            (require_recovery_auth-finds drawn username key t right)))

  -- After a reset with the recovery key, the new key logs in and the answer holds the new salt and the
  -- new encrypted identity. Conditions: the reset succeeds, the login is within its budget, and a hash
  -- verifies what it was made of.
  pub login_after_reset :
      HashVerifies H
      → (now later : ℕ) (drawn nd ld : Bytes) (username key : Str) (new : NewPassword) (s : Service)
      → (forgot_password_reset H now drawn nd username key new s).0 ≡ ok tt
      → (check later
          (lower username)
          (forgot_password_reset H now drawn nd username key new s).1.login_limiter).0
        ≡ ok tt
      → (login H later ld username new.auth_key
          (forgot_password_reset H now drawn nd username key new s).1).0
        ≡ ok (new.salt, new.blob)
  login_after_reset laws now later drawn nd ld username key new s h budget =
      let s' = (forgot_password_reset H now drawn nd username key new s).1 in
      let (row, there) = forgot_password_reset-finds now drawn nd username key new s h in
      login-right later ld username new.auth_key (with_password nd new row) s' budget there
        (ap (λ v. v.0) (verify_secret-hash_secret H laws ld nd new.auth_key))
