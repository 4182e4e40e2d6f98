-- ===== src/Accounts/Db.antt =====
-- `class AccountsDB` of webapp/accounts_db.py. The times `created_at` and `updated_at` are written and
-- never read, so rows have none; the migrations have run. Each method is one step: it holds the lock.
pub mod Names
pub mod Edges
use haven_e2e_messenger.Prelude.{
  ℕ, ◌+◌, Str, Bool, true, false, not, ◌&&◌, ◌||◌, Option, none, some, List, [], ◌∷◌, ◌++◌, keep,
  map, take, if◌then◌else◌, ◌==◌, bytes_eq, contains, eqb, ltb,
}
use haven_e2e_messenger.Prelude.Errors.{Result, ok, err, username_taken}
use haven_e2e_messenger.Prelude.Exec.{Exec}
use haven_e2e_messenger.Crypto.Keys.{bytes_leb}
use haven_e2e_messenger.Accounts.Names.{lower}

-- A row of the table `accounts`. A NULL `identity_pub` is none.
pub record Account : Type 0 where
  pub user_id : Str
  pub username : Str
  pub username_lower : Str
  pub password_salt : Str
  pub password_auth_hash : Str
  pub encrypted_identity_blob : Str
  pub recovery_salt : Str
  pub recovery_auth_hash : Str
  pub encrypted_identity_blob_recovery : Str
  pub identity_pub : Option Str
  pub password_kdf_n : ℕ
  pub recovery_kdf_n : ℕ

-- The two tables; an edge is `(username_a, username_b)`.
pub record AccountsDb : Type 0 where
  pub accounts : List Account
  pub contact_edges : List (Str × Str)

abbrev pub empty_db : AccountsDb
empty_db = record { accounts = []; contact_edges = [] }

-- `SELECT … WHERE username_lower = ?`, its first row.
unfoldable pub find : Str → List Account → Option Account
find name [] = none
find name (a ∷ rows) = if a.username_lower == name then some a else find name rows

abbrev pub found : Option Account → Bool
found none = false
found (some _) = true

unfoldable pub is_username_available : Str → AccountsDb → Bool
is_username_available username db = not (found (find (lower username) db.accounts))

unfoldable pub get_by_username : Str → AccountsDb → Option Account
get_by_username username db = find (lower username) db.accounts

-- The arguments of `create_account`, which are those of the signup form but for the two hashes.
pub record NewAccount : Type 0 where
  pub username : Str
  pub password_salt : Str
  pub password_auth_hash : Str
  pub encrypted_identity_blob : Str
  pub recovery_salt : Str
  pub recovery_auth_hash : Str
  pub encrypted_identity_blob_recovery : Str
  pub identity_pub : Str
  pub password_kdf_n : ℕ
  pub recovery_kdf_n : ℕ

abbrev pub to_row : Str → NewAccount → Account
to_row user_id n = record {
  user_id = user_id;
  username = n.username;
  username_lower = lower n.username;
  password_salt = n.password_salt;
  password_auth_hash = n.password_auth_hash;
  encrypted_identity_blob = n.encrypted_identity_blob;
  recovery_salt = n.recovery_salt;
  recovery_auth_hash = n.recovery_auth_hash;
  encrypted_identity_blob_recovery = n.encrypted_identity_blob_recovery;
  identity_pub = some n.identity_pub;
  password_kdf_n = n.password_kdf_n;
  recovery_kdf_n = n.recovery_kdf_n;
}

unfoldable pub has_user_id : Str → List Account → Bool
has_user_id id [] = false
has_user_id id (a ∷ rows) = (a.user_id == id) || has_user_id id rows

-- `create_account`, on the id that uuid4 gave. Either unique column may refuse the row.
unfoldable pub create_account : Str → NewAccount → Exec AccountsDb Str
create_account user_id n db =
    if found (find (lower n.username) db.accounts) || has_user_id user_id db.accounts
    then (err username_taken, db)
    else (ok user_id, record db { accounts = db.accounts ++ (to_row user_id n ∷ []) })

-- `UPDATE accounts SET … WHERE username_lower = ?`
unfoldable pub update_where : Str → (Account → Account) → List Account → List Account
update_where name f [] = []
update_where name f (a ∷ rows) =
    (if a.username_lower == name then f a else a) ∷ update_where name f rows

abbrev update_accounts : Str → (Account → Account) → AccountsDb → AccountsDb
update_accounts username f db = record db { accounts = update_where (lower username) f db.accounts }

unfoldable pub set_identity_pub : Str → Str → AccountsDb → AccountsDb
set_identity_pub username identity_pub =
    update_accounts username (λ a. record a { identity_pub = some identity_pub })

unfoldable pub update_password : Str → Str → Str → Str → ℕ → AccountsDb → AccountsDb
update_password username salt auth_hash blob kdf_n = update_accounts username λ a. record a {
  password_salt = salt;
  password_auth_hash = auth_hash;
  encrypted_identity_blob = blob;
  password_kdf_n = kdf_n;
}

unfoldable pub upgrade_password_hash : Str → Str → AccountsDb → AccountsDb
upgrade_password_hash username new_hash =
    update_accounts username (λ a. record a { password_auth_hash = new_hash })

unfoldable pub upgrade_recovery_hash : Str → Str → AccountsDb → AccountsDb
upgrade_recovery_hash username new_hash =
    update_accounts username (λ a. record a { recovery_auth_hash = new_hash })

abbrev pub has_edge : Str → Str → List (Str × Str) → Bool
has_edge a b [] = false
has_edge a b ((c, d) ∷ edges) = ((c == a) && (d == b)) || has_edge a b edges

-- `INSERT OR IGNORE`
abbrev insert_edge : Str → Str → AccountsDb → AccountsDb
insert_edge a b db =
    if has_edge a b db.contact_edges
    then db
    else record db { contact_edges = db.contact_edges ++ ((a, b) ∷ []) }

abbrev pub add_pair : Str → Str → AccountsDb → AccountsDb
add_pair a b db = if a == b then db else insert_edge a b db

-- `sorted([a, b])`
abbrev pub smaller : Str → Str → Str
smaller x y = if bytes_leb x y then x else y

abbrev pub larger : Str → Str → Str
larger x y = if bytes_leb x y then y else x

unfoldable pub add_contact_edge : Str → Str → AccountsDb → AccountsDb
add_contact_edge username_a username_b =
    let x = lower username_a in let y = lower username_b in add_pair (smaller x y) (larger x y)
