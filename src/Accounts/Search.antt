-- ===== src/Accounts/Search.antt =====
-- People search of webapp/accounts_db.py and webapp/accounts_server.py: `search_usernames` and
-- `search_users`. Both only read the accounts.
use haven_e2e_messenger.Prelude.{
  ◌≡◌, ℕ, zero, suc, ◌≤◌, Str, text, Bool, true, false, not, ◌&&◌, ◌||◌, Option, none, some, List,
  [], ◌∷◌, ◌++◌, keep, take, length, All, All-take, All-order_by, order_by, if◌then◌else◌, ◌==◌,
  bytes_eq, eqb, arith,
}
use haven_e2e_messenger.Prelude.Exec.{Exec, gets, ◌>>◌}
use haven_e2e_messenger.Crypto.Keys.{bytes_leb}
use haven_e2e_messenger.Accounts.Names.{lower}
use haven_e2e_messenger.Accounts.Limiter.{check}
use haven_e2e_messenger.Accounts.Db.{Account, AccountsDb}
use haven_e2e_messenger.Accounts.Server.{Service}

abbrev is_empty : Str → Bool
is_empty [] = true
is_empty (_ ∷ _) = false

-- Some end of the text passes the test.
abbrev some_suffix : (Str → Bool) → Str → Bool
some_suffix test [] = test []
some_suffix test (c ∷ s) = test (c ∷ s) || some_suffix test s

-- One character of a pattern, 95 being `_`, and the test of the rest.
abbrev one_char : ℕ → (Str → Bool) → Str → Bool
one_char p test [] = false
one_char p test (c ∷ s) = (eqb p 95 || eqb p c) && test s

-- SQL's `LIKE` on lower-case texts, 37 being `%`.
unfoldable pub like : Str → Str → Bool
like [] = is_empty
like (p ∷ pattern_) =
    let rest = like pattern_ in if eqb p 37 then some_suffix rest else one_char p rest

abbrev pub has_identity : Option Str → Bool
has_identity none = false
has_identity (some identity_pub) = not (is_empty identity_pub)

abbrev pub is_result : Str → Str → Account → Bool
is_result query exclude a =
    like (37 ∷ lower query ++ (37 ∷ [])) a.username_lower
    && not (a.username_lower == lower exclude)
    && has_identity a.identity_pub

abbrev by_username : Account → Account → Bool
by_username a b = bytes_leb a.username_lower b.username_lower

-- `search_usernames`; the rows stand for the two columns that are selected.
unfoldable pub search_usernames : Str → Str → ℕ → AccountsDb → List Account
search_usernames query exclude_username limit db =
    take limit (order_by by_username (keep (is_result query exclude_username) db.accounts))

abbrev pub or_anonymous : Str → Str
or_anonymous [] = text "anonymous"
or_anonymous (c ∷ s) = c ∷ s

abbrev pub check_search : ℕ → Str → Exec Service (Unit {0})
check_search now key s =
    let (r, l) = check now key s.search_limiter in (r, record s { search_limiter = l })

abbrev found_users : Str → Str → AccountsDb → List Account
found_users [] exclude db = []
found_users (c ∷ q) exclude db = search_usernames (c ∷ q) exclude 15 db

-- `search_users`, on the query that `strip` leaves.
unfoldable pub search_users : ℕ → Str → Str → Exec Service (List Account)
search_users now q exclude = do
  check_search now (or_anonymous (lower exclude))
  gets (λ s. found_users q exclude s.db)

length-take_le : (n : ℕ) (rows : List Account) → length (take n rows) ≤ n
length-take_le zero rows = omega arith
length-take_le (suc n) [] = omega arith
length-take_le (suc n) (a ∷ rows) = omega (arith, length-take_le n rows)

All-keep : (test : Account → Bool) (rows : List Account) → All (λ a. test a ≡ true) (keep test rows)
All-keep test [] = tt
All-keep test (a ∷ rows) = ground (arith, All-keep test rows)

-- A people search gives at most as many accounts as it is asked for, and each of them matches the
-- query, is not the one excluded and has announced an identity.
pub search_usernames_lem :
    (query exclude : Str) (limit : ℕ) (db : AccountsDb)
    → (length (search_usernames query exclude limit db) ≤ limit)
      × All (λ a. is_result query exclude a ≡ true) (search_usernames query exclude limit db)
unfolding search_usernames
search_usernames_lem query exclude limit db =
    let Good : Account → Type 0 = λ a. is_result query exclude a ≡ true in
    let kept = keep (is_result query exclude) db.accounts in
    (
      length-take_le limit (order_by by_username kept),
      All-take Good limit (order_by by_username kept)
          (All-order_by Good by_username kept (All-keep (is_result query exclude) db.accounts)),
    )
