-- ===== src/Accounts/Examples.antt =====
-- The accounts service of webapp/accounts_server.py on a small database, and its theorems at concrete
-- inputs. The toy hash keeps the secret in the clear.
use haven_e2e_messenger.Prelude.Dict.{insert}
use haven_e2e_messenger.Prelude.{bytes_dec, some, take, order_by}
use haven_e2e_messenger.Crypto.Keys.{bytes_leb}
use haven_e2e_messenger.Accounts.Friends.{suggest_mutual_friends, by_mutual_count}
use haven_e2e_messenger.Accounts.Friends.Common.{friends_of_friends, mutual_friends_are_exact}
use haven_e2e_messenger.Accounts.Db.{has_user_id}
use haven_e2e_messenger.Prelude.{
  ◌≡◌, ◌≢◌, refl, ◌≤◌, Str, text, List, [], ◌∷◌, ◌++◌, arith, ◌==◌, bytes_eq, length, ==_refl,
}
use haven_e2e_messenger.Prelude.Errors.{ok}
use haven_e2e_messenger.Prelude.Dict.{lookup}
use haven_e2e_messenger.Accounts.Names.{
  lower, validate_username, is_name_char, lower_char, matches_username_re, drop_last_newline,
}
use haven_e2e_messenger.Accounts.Limiter.{SimpleRateLimiter, check, recent}
use haven_e2e_messenger.Accounts.Limiter.Window.{admitted, window_limit}
use haven_e2e_messenger.Accounts.Secrets.{Hashers, HashVerifies, verify_secret, is_argon}
use haven_e2e_messenger.Accounts.Db.{
  Account, AccountsDb, empty_db, create_account, get_by_username, find, add_contact_edge,
  update_password, update_where,
}
use haven_e2e_messenger.Accounts.Server.{
  Service, SignupRequest, NewPassword, start, signup, login, forgot_password_reset,
  require_recovery_auth,
}
use haven_e2e_messenger.Accounts.Server.Login.{login_after_signup, login_after_reset}
use haven_e2e_messenger.Accounts.Server.Requests.{Request, serve, signs_up, logs_in, syncs_contact}
use haven_e2e_messenger.Accounts.Server.Requests.Usernames.{second_signup_fails}

abbrev toy : Hashers
toy = record {
  argon_hash = λ salt secret. text "$argon2" ++ secret;
  argon_verify = λ stored secret. stored == (text "$argon2" ++ secret);
  bcrypt_check = λ stored secret. ok (stored == secret);
  dummy_salt = [];
}

toy-HashVerifies : HashVerifies toy
unfolding is_argon
toy-HashVerifies = record {
  named = λ salt secret. refl;
  verifies = λ salt secret. ==_refl (text "$argon2" ++ secret);
}

abbrev request : SignupRequest
request = record {
  username = text "Ann";
  password_salt = text "s1";
  password_auth_key = text "k1";
  encrypted_identity_blob = text "b1";
  recovery_salt = text "s2";
  recovery_auth_key = text "k2";
  encrypted_identity_blob_recovery = text "b2";
  identity_pub = text "p1";
  password_kdf_n = 1;
  recovery_kdf_n = 2;
}

abbrev fresh : Service
fresh = start 60 empty_db

abbrev id : Str
id = text "id1"

signed_up : (signup toy 5 [] [] id request fresh).0 ≡ ok id
unfolding signup validate_username matches_username_re drop_last_newline is_name_char lower_char
    check lower create_account find lookup has_user_id
signed_up = refl

abbrev filled : Service
filled = (signup toy 5 [] [] id request fresh).1

login_after_signup_example :
    (login toy 9 [] (text "aNN") (text "k1") filled).0 ≡ ok (text "s1", text "b1")
unfolding check lower lower_char lookup
login_after_signup_example =
    login_after_signup toy toy-HashVerifies 5 9 [] [] [] id (text "aNN") request fresh signed_up
      refl refl

-- A wrong key for an account that is there.
abbrev new_password : NewPassword
new_password = record { salt = text "s3"; auth_key = text "k3"; blob = text "b3"; kdf_n = 3 }

login_after_reset_example :
    (login toy 9 []
      (text "Ann")
      (text "k3")
      (forgot_password_reset toy 7 [] [] (text "Ann") (text "k2") new_password filled).1).0
    ≡ ok (text "s3", text "b3")
unfolding check lower lower_char signup validate_username matches_username_re drop_last_newline
    is_name_char create_account get_by_username find verify_secret is_argon forgot_password_reset
    require_recovery_auth update_password update_where lookup has_user_id bytes_dec insert
login_after_reset_example =
    login_after_reset toy toy-HashVerifies 7 9 [] [] [] (text "Ann") (text "k2") new_password filled
      refl refl

abbrev requests : List Request
requests =
    signs_up 6 [] [] (text "id2") (record request { username = text "ANN" })
    ∷ logs_in 7 [] (text "ann") (text "k1")
    ∷ syncs_contact 8 [] (text "ann") (text "k1") (text "Bob")
    ∷ []

second_signup_fails_example :
    (signup toy 9 [] []
      (text "id3")
      (record request { username = text "aNn" })
      (serve toy requests (signup toy 5 [] [] id request fresh).1)).0
    ≢ ok (text "id3")
unfolding lower lower_char
second_signup_fails_example =
    second_signup_fails toy 5 9 [] [] [] [] id (text "id3") request
      (record request { username = text "aNn" }) requests fresh id (text "id3") signed_up refl

abbrev limiter : SimpleRateLimiter
limiter = record { max_attempts = 2; window_seconds = 10; attempts = [] }

window_limit_example :
    length (recent 14 10 (admitted (text "k") (1 ∷ 3 ∷ 4 ∷ 12 ∷ 13 ∷ []) limiter []).0) ≤ 2
unfolding lookup
window_limit_example =
    window_limit (text "k") (1 ∷ 3 ∷ 4 ∷ 12 ∷ 13 ∷ []) 14 limiter refl (omega arith) (omega arith)

abbrev edges : AccountsDb
edges = add_contact_edge (text "Bob") (text "ann") empty_db

abbrev account : Str → Account
account name = record {
  user_id = name;
  username = name;
  username_lower = name;
  password_salt = [];
  password_auth_hash = [];
  encrypted_identity_blob = [];
  recovery_salt = [];
  recovery_auth_hash = [];
  encrypted_identity_blob_recovery = [];
  identity_pub = some (text "01");
  password_kdf_n = 1;
  recovery_kdf_n = 1;
}

-- ann knows bob and cid, who know dan; cid also knows eve, and bob knows cid.
abbrev circle : AccountsDb
circle = record {
  accounts = account (text "dan") ∷ account (text "bob") ∷ account (text "eve") ∷ [];
  contact_edges =
      (text "ann", text "bob")
      ∷ (text "ann", text "cid")
      ∷ (text "bob", text "dan")
      ∷ (text "cid", text "dan")
      ∷ (text "cid", text "eve")
      ∷ (text "bob", text "cid")
      ∷ [];
}

circle_suggests :
    suggest_mutual_friends (text "Ann") 5 circle
    ≡ (account (text "dan"), 2) ∷ (account (text "eve"), 1) ∷ []
unfolding suggest_mutual_friends lower lower_char bytes_leb bytes_dec
circle_suggests = refl

mutual_friends_are_exact_example :
    suggest_mutual_friends (text "Ann") 5 circle
    ≡ take 5 (
        order_by by_mutual_count
          (friends_of_friends (text "ann") circle.contact_edges circle.accounts))
unfolding lower lower_char bytes_leb bytes_dec
mutual_friends_are_exact_example = mutual_friends_are_exact (text "Ann") 5 circle (
  refl,
  ground arith,
  refl,
  (
    refl,
    ground arith,
    refl,
    (
      refl,
      ground arith,
      refl,
      (refl, ground arith, refl, (refl, ground arith, refl, (refl, ground arith, refl, tt))),
    ),
  ),
)
