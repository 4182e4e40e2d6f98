-- ===== src/Accounts/Server/Requests/Usernames.antt =====
-- Usernames are unique for good: what no sequence of requests to webapp/accounts_server.py can undo.
use haven_e2e_messenger.Prelude.{◌≡◌, ◌≢◌, ℕ, Str, Bytes, true, List, arith, bytes_eq}
use haven_e2e_messenger.Prelude.Errors.{ok}
use haven_e2e_messenger.Accounts.Names.{lower}
use haven_e2e_messenger.Accounts.Secrets.{Hashers}
use haven_e2e_messenger.Accounts.Db.{
  Account, AccountsDb, NewAccount, to_row, create_account, get_by_username, update_where, find,
  found,
}
use haven_e2e_messenger.Accounts.Db.Names.{
  UniqueNames, KeepsName, update_where-UniqueNames, create_account-UniqueNames, find-update_where,
  found-changed, find-append,
}
use haven_e2e_messenger.Accounts.Server.{Service, SignupRequest, signup}
use haven_e2e_messenger.Accounts.Server.Login.{signup_lem}
use haven_e2e_messenger.Accounts.Server.Requests.{Request, serve, serve-Preserves, IsStable}

UniqueNames-IsStable : IsStable UniqueNames
UniqueNames-IsStable = record {
  updated = update_where-UniqueNames;
  created = create_account-UniqueNames;
}

-- After any sequence of requests no two accounts have usernames that agree but for case, given that
-- none had before.
pub serve-UniqueNames :
    (H : Hashers) (requests : List Request) (s : Service)
    → UniqueNames s.db.accounts
    → UniqueNames (serve H requests s).db.accounts
serve-UniqueNames H requests s u = serve-Preserves H UniqueNames UniqueNames-IsStable requests s u

abbrev IsTaken : Str → List Account → Type 0
IsTaken name rows = found (find name rows) ≡ true

IsTaken-update_where :
    (name other : Str) (f : Account → Account) (rows : List Account)
    → KeepsName f
    → IsTaken name rows
    → IsTaken name (update_where other f rows)
IsTaken-update_where name other f rows keeps h =
    ground (arith, find-update_where other name f rows keeps, found-changed f (find name rows))

IsTaken-create_account :
    (name id : Str) (n : NewAccount) (db : AccountsDb)
    → IsTaken name db.accounts
    → IsTaken name (create_account id n db).1.accounts
unfolding create_account
IsTaken-create_account name id n db h = ground (arith, find-append name db.accounts (to_row id n))

IsTaken-IsStable : (name : Str) → IsStable (IsTaken name)
IsTaken-IsStable name = record {
  updated = IsTaken-update_where name;
  created = IsTaken-create_account name;
}

-- A signup that succeeded makes its username unavailable for good: whatever requests follow it, no
-- signup of that username, in any case, succeeds.
pub second_signup_fails :
    (H : Hashers) (now later : ℕ) (pd rd pd' rd' : Bytes) (id id' : Str) (req req' : SignupRequest)
    → (requests : List Request) (s : Service) (user_id other_id : Str)
    → (signup H now pd rd id req s).0 ≡ ok user_id
    → lower req'.username ≡ lower req.username
    → (signup H later pd' rd' id' req' (serve H requests (signup H now pd rd id req s).1)).0
      ≢ ok other_id
unfolding get_by_username
second_signup_fails H now later pd rd pd' rd' id id' req req' requests s user_id other_id h same
      again =
    let t = (signup H now pd rd id req s).1 in
    let name = lower req'.username in
    let taken : IsTaken name t.db.accounts =
      ground (arith, signup_lem H now pd rd id req'.username req s h) in
    let still = serve-Preserves H (IsTaken name) (IsTaken-IsStable name) requests t taken in
    let free = signup_lem H later pd' rd' id' req'.username req' (serve H requests t) again in
    ground (arith, still, free.0)
