-- ===== src/Accounts/Db/Edges.antt =====
-- The contact edges of webapp/accounts_db.py: one row for a pair, whoever reports it and how often.
use haven_e2e_messenger.Prelude.{
  ◌≡◌, ◌≢◌, refl, Str, true, false, ◌&&◌, ◌||◌, List, [], ◌∷◌, ◌++◌, ◌==◌, bytes_eq, arith, ==_refl,
}
use haven_e2e_messenger.Crypto.Keys.{bytes_leb}
use haven_e2e_messenger.Crypto.Handshake.{bytes_leb_total, bytes_leb_antisymm}
use haven_e2e_messenger.Accounts.Names.{lower}
use haven_e2e_messenger.Accounts.Db.{
  AccountsDb, has_edge, add_pair, smaller, larger, add_contact_edge,
}

-- Every edge is sorted, and none is there twice.
abbrev pub IsCanonical : List (Str × Str) → Type 0
IsCanonical [] = Unit
IsCanonical ((a, b) ∷ edges) =
    (bytes_leb a b ≡ true) × (a ≢ b) × (has_edge a b edges ≡ false) × IsCanonical edges

-- Which of the two sides reports a contact makes no difference.
pub add_contact_edge_comm :
    (x y : Str) (db : AccountsDb) → add_contact_edge x y db ≡ add_contact_edge y x db
unfolding add_contact_edge
add_contact_edge_comm x y db =
    ground (arith, bytes_leb_total (lower x) (lower y), bytes_leb_antisymm (lower x) (lower y))

has_edge-append :
    (a b c d : Str) (edges : List (Str × Str))
    → has_edge a b (edges ++ ((c, d) ∷ [])) ≡ (has_edge a b edges || ((c == a) && (d == b)))
has_edge-append a b c d [] = ground arith
has_edge-append a b c d ((e, f) ∷ edges) = ground (arith, has_edge-append a b c d edges)

add_pair_idem : (a b : Str) (db : AccountsDb) → add_pair a b (add_pair a b db) ≡ add_pair a b db
add_pair_idem a b db =
    ground (arith, has_edge-append a b a b db.contact_edges, ==_refl a, ==_refl b)

-- Reporting a contact again changes nothing.
pub add_contact_edge_idem :
    (x y : Str) (db : AccountsDb)
    → add_contact_edge x y (add_contact_edge x y db) ≡ add_contact_edge x y db
unfolding add_contact_edge
add_contact_edge_idem x y db =
    add_pair_idem (smaller (lower x) (lower y)) (larger (lower x) (lower y)) db

IsCanonical-append :
    (a b : Str) (edges : List (Str × Str))
    → bytes_leb a b ≡ true
    → a ≢ b
    → has_edge a b edges ≡ false
    → IsCanonical edges
    → IsCanonical (edges ++ ((a, b) ∷ []))
IsCanonical-append a b [] le ne fresh v = (le, ne, refl, tt)
IsCanonical-append a b ((c, d) ∷ edges) le ne fresh v =
    ground (arith, IsCanonical-append a b edges le ne, has_edge-append c d a b edges)

add_pair-IsCanonical :
    (a b : Str) (db : AccountsDb)
    → bytes_leb a b ≡ true
    → IsCanonical db.contact_edges
    → IsCanonical (add_pair a b db).contact_edges
add_pair-IsCanonical a b db le v = ground (arith, IsCanonical-append a b db.contact_edges le)

smaller-le-larger : (x y : Str) → bytes_leb (smaller x y) (larger x y) ≡ true
smaller-le-larger x y = ground (arith, bytes_leb_total x y)

pub add_contact_edge-IsCanonical :
    (x y : Str) (db : AccountsDb)
    → IsCanonical db.contact_edges
    → IsCanonical (add_contact_edge x y db).contact_edges
unfolding add_contact_edge
add_contact_edge-IsCanonical x y db v =
    add_pair-IsCanonical (smaller (lower x) (lower y)) (larger (lower x) (lower y)) db
      (smaller-le-larger (lower x) (lower y)) v
