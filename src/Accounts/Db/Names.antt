-- ===== src/Accounts/Db/Names.antt =====
-- Global uniqueness of usernames in webapp/accounts_db.py, and what an update leaves alone.
use haven_e2e_messenger.Prelude.{
  ◌≡◌, refl, Str, true, false, Option, none, some, List, [], ◌∷◌, ◌++◌, if◌then◌else◌, ◌==◌,
  bytes_eq, arith, ==_refl,
}
use haven_e2e_messenger.Prelude.Errors.{ok, err, username_taken}
use haven_e2e_messenger.Accounts.Names.{lower}
use haven_e2e_messenger.Accounts.Db.{
  Account, AccountsDb, NewAccount, to_row, find, found, create_account, update_where,
  get_by_username, is_username_available,
}

-- No two rows have the same lower-case username, and each row's is that of its username.
abbrev pub UniqueNames : List Account → Type 0
UniqueNames [] = Unit
UniqueNames (a ∷ rows) =
    (a.username_lower ≡ lower a.username) × (find a.username_lower rows ≡ none) × UniqueNames rows

pub find-append :
    (name : Str) (rows : List Account) (a : Account)
    → find name (rows ++ (a ∷ [])) ≡ (
        if found (find name rows)
        then find name rows
        else if a.username_lower == name
        then some a
        else none)
unfolding find
find-append name [] a = refl
find-append name (r ∷ rows) a = ground (arith, find-append name rows a)

-- An update that keeps the two name columns.
abbrev pub KeepsName : (Account → Account) → Type 0
KeepsName f =
    (a : Account) → ((f a).username_lower ≡ a.username_lower) × ((f a).username ≡ a.username)

abbrev pub changed : (Account → Account) → Option Account → Option Account
changed f none = none
changed f (some a) = some (f a)

pub find-update_where :
    (name other : Str) (f : Account → Account) (rows : List Account)
    → KeepsName f
    → find other (update_where name f rows)
      ≡ (if other == name then changed f (find other rows) else find other rows)
unfolding find update_where
find-update_where name other f [] keeps = ground arith
find-update_where name other f (a ∷ rows) keeps =
    ground (arith, keeps a, find-update_where name other f rows keeps)

-- An update of a row changes what a lookup of it finds.
pub find-update_where_same :
    (name : Str) (f : Account → Account) (rows : List Account)
    → KeepsName f
    → find name (update_where name f rows) ≡ changed f (find name rows)
find-update_where_same name f rows keeps =
    ground (arith, find-update_where name name f rows keeps, ==_refl name)

pub found-changed : (f : Account → Account) (r : Option Account) → found (changed f r) ≡ found r
found-changed f none = refl
found-changed f (some a) = refl

UniqueNames-append :
    (rows : List Account) (a : Account)
    → a.username_lower ≡ lower a.username
    → found (find a.username_lower rows) ≡ false
    → UniqueNames rows
    → UniqueNames (rows ++ (a ∷ []))
unfolding find
UniqueNames-append [] a named fresh u = (named, refl, tt)
UniqueNames-append (r ∷ rows) a named fresh u =
    ground (arith, UniqueNames-append rows a named, find-append r.username_lower rows a)

pub update_where-UniqueNames :
    (name : Str) (f : Account → Account) (rows : List Account)
    → KeepsName f
    → UniqueNames rows
    → UniqueNames (update_where name f rows)
unfolding update_where
update_where-UniqueNames name f [] keeps u = tt
update_where-UniqueNames name f (a ∷ rows) keeps u = ground (
  arith,
  keeps a,
  update_where-UniqueNames name f rows keeps u.2,
  find-update_where name a.username_lower f rows keeps,
)

-- A new account that is accepted had a free username; afterwards a lookup of that username, in any
-- case, finds the new row, and every other lookup finds what it found before.
pub create_account_lem :
    (id other : Str) (n : NewAccount) (db : AccountsDb) {user_id : Str}
    → (create_account id n db).0 ≡ ok user_id
    → (is_username_available n.username db ≡ true)
      × (get_by_username other (create_account id n db).1 ≡ (
          if lower other == lower n.username then some (to_row id n) else get_by_username other db))
unfolding create_account get_by_username is_username_available
create_account_lem id other n db h =
    ground (arith, find-append (lower other) db.accounts (to_row id n))

-- A username that an account has, in any case, is refused, and nothing changes.
pub create_account_taken :
    (id : Str) (n : NewAccount) (db : AccountsDb)
    → is_username_available n.username db ≡ false
    → create_account id n db ≡ (err username_taken, db)
unfolding create_account is_username_available
create_account_taken id n db h = ground arith

pub create_account-UniqueNames :
    (id : Str) (n : NewAccount) (db : AccountsDb)
    → UniqueNames db.accounts
    → UniqueNames (create_account id n db).1.accounts
unfolding create_account
create_account-UniqueNames id n db u =
    ground (arith, UniqueNames-append db.accounts (to_row id n) refl)
