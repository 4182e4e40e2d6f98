-- ===== src/Accounts/Friends.antt =====
-- Mutual friends of webapp/accounts_db.py and webapp/accounts_server.py: `suggest_mutual_friends` and
-- `mutual_friends`. Both only read the tables.
pub mod Common
use haven_e2e_messenger.Prelude.{
  Bytes, ℕ, zero, suc, Str, Bool, true, false, not, ◌&&◌, ◌||◌, List, [], ◌∷◌, ◌++◌, keep, take,
  order_by, contains, if◌then◌else◌, ◌==◌, bytes_eq, ltb, eqb,
}
use haven_e2e_messenger.Prelude.Exec.{Exec, gets, ◌>>◌}
use haven_e2e_messenger.Crypto.Keys.{bytes_leb}
use haven_e2e_messenger.Accounts.Names.{lower}
use haven_e2e_messenger.Accounts.Db.{Account, AccountsDb}
use haven_e2e_messenger.Accounts.Secrets.{Hashers}
use haven_e2e_messenger.Accounts.Search.{has_identity}
use haven_e2e_messenger.Accounts.Server.{Service, check_contacts, require_password_auth}

-- `SELECT username_b FROM contact_edges WHERE username_a = ?`
abbrev pub ends_from : Str → List (Str × Str) → List Str
ends_from m [] = []
ends_from m ((a, b) ∷ edges) = let rest = ends_from m edges in if a == m then b ∷ rest else rest

-- `SELECT username_a FROM contact_edges WHERE username_b = ?`
abbrev pub starts_of : Str → List (Str × Str) → List Str
starts_of m [] = []
starts_of m ((a, b) ∷ edges) = let rest = starts_of m edges in if b == m then a ∷ rest else rest

abbrev pub distinct : List Str → List Str
distinct [] = []
distinct (x ∷ xs) = let rest = distinct xs in if contains x rest then rest else x ∷ rest

-- `my_contacts`
abbrev pub my_contacts : Str → List (Str × Str) → List Str
my_contacts u edges = distinct (ends_from u edges ++ starts_of u edges)

-- A join of the contacts with a column of the edges.
abbrev pub join_with : (Str → List Str) → List Str → List Str
join_with column [] = []
join_with column (m ∷ mine) = column m ++ join_with column mine

-- `candidates`, in some order.
abbrev pub candidates : List Str → List (Str × Str) → List Str
candidates mine edges =
    join_with (λ m. ends_from m edges) mine ++ join_with (λ m. starts_of m edges) mine

abbrev pub count : Str → List Str → ℕ
count x [] = 0
count x (y ∷ ys) = let rest = count x ys in if x == y then suc rest else rest

abbrev pub is_candidate : Str → List Str → List (Str × Str) → Account → Bool
is_candidate u mine edges a =
    ltb 0 (count a.username_lower (candidates mine edges))
    && not (a.username_lower == u)
    && not (contains a.username_lower mine)
    && has_identity a.identity_pub

-- The groups; a group is one account, for `username_lower` is unique.
abbrev pub groups_by_peer : Str → List Str → List (Str × Str) → List Account → List (Account × ℕ)
groups_by_peer u mine edges [] = []
groups_by_peer u mine edges (a ∷ rows) =
    let rest = groups_by_peer u mine edges rows in
    if is_candidate u mine edges a
    then (a, count a.username_lower (candidates mine edges)) ∷ rest
    else rest

-- `ORDER BY mutual_count DESC, c.peer`
abbrev pub by_mutual_count : Account × ℕ → Account × ℕ → Bool
by_mutual_count (a, n) (b, m) = ltb m n || (eqb m n && bytes_leb a.username_lower b.username_lower)

-- `suggest_mutual_friends`; an account stands for the two columns that are selected.
unfoldable pub suggest_mutual_friends : Str → ℕ → AccountsDb → List (Account × ℕ)
suggest_mutual_friends username limit db =
    let u = lower username in
    let mine = my_contacts u db.contact_edges in
    take limit (order_by by_mutual_count (groups_by_peer u mine db.contact_edges db.accounts))

-- `mutual_friends`
unfoldable pub mutual_friends : Hashers → ℕ → Bytes → Str → Str → Exec Service (List (Account × ℕ))
mutual_friends H now drawn username password_auth_key = do
  check_contacts now (lower username)
  require_password_auth H drawn username password_auth_key
  gets (λ s. suggest_mutual_friends username 15 s.db)
