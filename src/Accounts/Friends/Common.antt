-- ===== src/Accounts/Friends/Common.antt =====
-- Whom `suggest_mutual_friends` of webapp/accounts_db.py suggests.
use haven_e2e_messenger.Prelude.{
  ◌≡◌, ◌≢◌, refl, ap, ◌∙◌, ℕ, ◌+◌, Str, Bool, true, not, ◌&&◌, ◌||◌, List, [], ◌∷◌, ◌++◌, keep,
  take, length, order_by, contains, if◌then◌else◌, ◌==◌, bytes_eq, ltb, arith,
}
use haven_e2e_messenger.Crypto.Handshake.{bytes_leb_antisymm}
use haven_e2e_messenger.Crypto.Keys.{bytes_leb}
use haven_e2e_messenger.Accounts.Names.{lower}
use haven_e2e_messenger.Accounts.Db.{Account, AccountsDb, has_edge}
use haven_e2e_messenger.Accounts.Db.Edges.{IsCanonical}
use haven_e2e_messenger.Accounts.Search.{has_identity}
use haven_e2e_messenger.Accounts.Friends.{
  ends_from, starts_of, distinct, my_contacts, join_with, candidates, count, groups_by_peer,
  by_mutual_count, suggest_mutual_friends,
}

-- Two usernames are contacts if there is an edge of them, in either order.
abbrev pub linked : Str → Str → List (Str × Str) → Bool
linked x y edges = has_edge x y edges || has_edge y x edges

abbrev one_if : Bool → ℕ
one_if b = if b then 1 else 0

count-append : (x : Str) (xs ys : List Str) → count x (xs ++ ys) ≡ count x xs + count x ys
count-append x [] ys = omega arith
count-append x (z ∷ xs) ys = ground (arith, count-append x xs ys)

count-ends_from :
    (m p : Str) (edges : List (Str × Str))
    → IsCanonical edges
    → count p (ends_from m edges) ≡ one_if (has_edge m p edges)
count-ends_from m p [] v = refl
count-ends_from m p ((a, b) ∷ edges) (le, ne, fresh, v) =
    ground (arith, count-ends_from m p edges v)

count-starts_of :
    (m p : Str) (edges : List (Str × Str))
    → IsCanonical edges
    → count p (starts_of m edges) ≡ one_if (has_edge p m edges)
count-starts_of m p [] v = refl
count-starts_of m p ((a, b) ∷ edges) (le, ne, fresh, v) =
    ground (arith, count-starts_of m p edges v)

has_edge-sorted :
    (a b : Str) (edges : List (Str × Str))
    → IsCanonical edges
    → has_edge a b edges ≡ true
    → (bytes_leb a b ≡ true) × (a ≢ b)
has_edge-sorted a b [] v h = absurd (ground arith)
has_edge-sorted a b ((c, d) ∷ edges) (le, ne, fresh, v) h =
    ground (arith, has_edge-sorted a b edges v)

-- No two usernames have edges in both orders.
one_edge :
    (a b : Str) (edges : List (Str × Str))
    → IsCanonical edges
    → one_if (has_edge a b edges) + one_if (has_edge b a edges) ≡ one_if (linked a b edges)
one_edge a b edges v =
    ground (arith, has_edge-sorted a b edges v, has_edge-sorted b a edges v, bytes_leb_antisymm a b)

-- The contacts in a list that are also contacts of p.
abbrev pub common_with : Str → List (Str × Str) → List Str → List Str
common_with p edges = keep (λ m. linked m p edges)

count-candidates :
    (p : Str) (mine : List Str) (edges : List (Str × Str))
    → IsCanonical edges
    → count p (candidates mine edges) ≡ length (common_with p edges mine)
count-candidates p mine edges v =
    count-append p (join_with (λ m. ends_from m edges) mine)
      (join_with (λ m. starts_of m edges) mine)
    ∙ count-joins mine
  where
    count-joins :
        (xs : List Str)
        → count p (join_with (λ m. ends_from m edges) xs)
            + count p (join_with (λ m. starts_of m edges) xs)
          ≡ length (common_with p edges xs)
    count-joins [] = refl
    count-joins (m ∷ xs) = ground (
      arith,
      count-joins xs,
      count-append p (ends_from m edges) (join_with (λ m. ends_from m edges) xs),
      count-append p (starts_of m edges) (join_with (λ m. starts_of m edges) xs),
      count-ends_from m p edges v,
      count-starts_of m p edges v,
      one_edge m p edges v,
    )

contains-append :
    (x : Str) (xs ys : List Str) → contains x (xs ++ ys) ≡ (contains x xs || contains x ys)
contains-append x [] ys = refl
contains-append x (y ∷ xs) ys = ground (arith, contains-append x xs ys)

contains-distinct : (x : Str) (xs : List Str) → contains x (distinct xs) ≡ contains x xs
contains-distinct x [] = refl
contains-distinct x (y ∷ xs) = ground (arith, contains-distinct x xs, contains-distinct y xs)

contains-ends_from :
    (u p : Str) (edges : List (Str × Str)) → contains p (ends_from u edges) ≡ has_edge u p edges
contains-ends_from u p [] = refl
contains-ends_from u p ((a, b) ∷ edges) = ground (arith, contains-ends_from u p edges)

contains-starts_of :
    (u p : Str) (edges : List (Str × Str)) → contains p (starts_of u edges) ≡ has_edge p u edges
contains-starts_of u p [] = refl
contains-starts_of u p ((a, b) ∷ edges) = ground (arith, contains-starts_of u p edges)

contains-my_contacts :
    (u p : Str) (edges : List (Str × Str)) → contains p (my_contacts u edges) ≡ linked u p edges
contains-my_contacts u p edges =
    contains-distinct p (ends_from u edges ++ starts_of u edges)
    ∙ contains-append p (ends_from u edges) (starts_of u edges)
    ∙ rw (contains-ends_from u p edges) (rw (contains-starts_of u p edges) refl)

-- The contacts that two usernames share.
abbrev pub common_contacts : Str → Str → List (Str × Str) → List Str
common_contacts u p edges = common_with p edges (my_contacts u edges)

-- The accounts with an announced identity that are neither the user nor a contact of the user's but share
-- contacts with the user, each with their number.
abbrev pub friends_of_friends : Str → List (Str × Str) → List Account → List (Account × ℕ)
friends_of_friends u edges [] = []
friends_of_friends u edges (a ∷ rows) =
    let rest = friends_of_friends u edges rows in
    let shared = length (common_contacts u a.username_lower edges) in
    if ltb 0 shared
      && not (a.username_lower == u)
      && not (linked u a.username_lower edges)
      && has_identity a.identity_pub
    then (a, shared) ∷ rest
    else rest

groups_by_peer-exact :
    (u : Str) (edges : List (Str × Str)) (rows : List Account)
    → IsCanonical edges
    → groups_by_peer u (my_contacts u edges) edges rows ≡ friends_of_friends u edges rows
groups_by_peer-exact u edges [] v = refl
groups_by_peer-exact u edges (a ∷ rows) v =
    rw (count-candidates a.username_lower (my_contacts u edges) edges v) (
      rw (contains-my_contacts u a.username_lower edges)
        (rw (groups_by_peer-exact u edges rows v) refl))

-- The suggestions are the first of the accounts, by the number of shared contacts and then by name, that
-- have announced an identity, are neither the user nor a contact of the user's, and share a contact with
-- the user; each comes with the exact number of contacts that it shares. Condition: the edges are sorted
-- pairs, each there once, as add_contact_edge keeps them.
pub mutual_friends_are_exact :
    (username : Str) (limit : ℕ) (db : AccountsDb)
    → IsCanonical db.contact_edges
    → suggest_mutual_friends username limit db
      ≡ take limit (
          order_by by_mutual_count
            (friends_of_friends (lower username) db.contact_edges db.accounts))
unfolding suggest_mutual_friends
mutual_friends_are_exact username limit db v =
    ap (λ groups. take limit (order_by by_mutual_count groups))
      (groups_by_peer-exact (lower username) db.contact_edges db.accounts v)
