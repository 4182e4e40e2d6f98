-- ===== src/Storage/Loading.antt =====
-- Which groups the loop of `GroupManager.__init__` in haven/groups.py loads from haven/storage.py.
use haven_e2e_messenger.Prelude.{
  ◌≡◌, ◌≢◌, ◌⊎◌, refl, sym, ◌∙◌, Str, Option, none, some, List, [], ◌∷◌, ◌==◌, bytes_eq, map, All,
  All-order_by, order_by, place, Bool-cases, inl, inr, arith,
}
use haven_e2e_messenger.Prelude.Errors.{ok}
use haven_e2e_messenger.Prelude.Dict.{Dict, lookup, insert, lookup-insert}
use haven_e2e_messenger.Crypto.Primitives.{Primitives}
use haven_e2e_messenger.Crypto.Keys.{KeyPair}
use haven_e2e_messenger.Groups.State.{Group}
use haven_e2e_messenger.Storage.Tables.{GroupRow, Tables, StoreTools}
use haven_e2e_messenger.Storage.GroupRows.{
  load_group, load_groups, load_each, list_groups, by_name, group_from, state_in, state_of,
}

-- No key stands twice.
abbrev pub Distinct : Dict Str GroupRow → Type 0
Distinct [] = Unit
Distinct ((k, row) ∷ rows) = (lookup k rows ≡ none) × Distinct rows

pub insert-Distinct :
    (k : Str) (row : GroupRow) (rows : Dict Str GroupRow)
    → Distinct rows
    → Distinct (insert k row rows)
unfolding insert lookup
insert-Distinct k row [] v = (refl, tt)
insert-Distinct k row ((j, old) ∷ rows) (absent, v) = elim (Bool-cases (k == j)) [
  | inl same ↦ rw same (absent, v)
  | inr other ↦ rw other (ground (arith, lookup-insert j k row rows), insert-Distinct k row rows v)
]

abbrev IsFound : Dict Str GroupRow → Str × GroupRow → Type 0
IsFound rows (k, row) = lookup k rows ≡ some row

All-behind :
    (j : Str) (first : GroupRow) (rows some_rows : Dict Str GroupRow)
    → lookup j rows ≡ none
    → All (IsFound rows) some_rows
    → All (IsFound ((j, first) ∷ rows)) some_rows
unfolding lookup
All-behind j first rows [] absent found = tt
All-behind j first rows ((k, row) ∷ some_rows) absent (here, found) =
    (ground arith, All-behind j first rows some_rows absent found)

All-IsFound : (rows : Dict Str GroupRow) → Distinct rows → All (IsFound rows) rows
unfolding lookup
All-IsFound [] v = tt
All-IsFound ((k, row) ∷ rows) (absent, v) =
    (ground arith, All-behind k row rows rows absent (All-IsFound rows v))

abbrev IsNot : Str → Str × GroupRow → Type 0
IsNot id (k, row) = id ≢ k

place-IsNot :
    (id : Str) (e : Str × GroupRow) (rows : List (Str × GroupRow))
    → All (IsNot id) (place by_name e rows)
    → IsNot id e × All (IsNot id) rows
place-IsNot id e [] (other, v) = (other, tt)
place-IsNot id e (b ∷ rows) v = elim (Bool-cases (by_name e b)) [
  | inl first ↦ rw first at v
  | inr later ↦
      let (before, others) = rw later at v in
      let (other, behind) = place-IsNot id e rows others in (other, (before, behind))
]

order_by-IsNot :
    (id : Str) (rows : List (Str × GroupRow))
    → All (IsNot id) (order_by by_name rows)
    → All (IsNot id) rows
order_by-IsNot id [] v = tt
order_by-IsNot id (e ∷ rows) v =
    let (other, others) = place-IsNot id e (order_by by_name rows) v in
    (other, order_by-IsNot id rows others)

IsNot-lookup : (id : Str) (rows : Dict Str GroupRow) → All (IsNot id) rows → lookup id rows ≡ none
unfolding lookup
IsNot-lookup id [] v = refl
IsNot-lookup id ((k, row) ∷ rows) (other, v) = ground (arith, IsNot-lookup id rows v)

module _ (P : Primitives) (identity : KeyPair) (T : StoreTools) where
  -- What a lookup gives in the table and among the manager's groups: nothing, or a row and the group
  -- that it gives.
  abbrev pub Matches : Str → Option GroupRow → Option Group → Type 0
  Matches id none none = Unit
  Matches id (some row) (some g) =
      (row.name ≡ g.name)
      × (state_in P identity T id (some row) ≡ ok (some (state_of g)))
      × (group_from g.name (state_of g) ≡ ok g)
  Matches id none (some g) = ⊥
  Matches id (some row) none = ⊥

  abbrev pub IsStored : Tables → Dict Str Group → Type 0
  IsStored t groups =
      Distinct t.groups × ((id : Str) → Matches id (lookup id t.groups) (lookup id groups))

  matched :
      (id : Str) (row : GroupRow) (found : Option GroupRow) (here : Option Group)
      → found ≡ some row
      → Matches id found here
      → (g : Group) × (here ≡ some g)
        × (row.name ≡ g.name)
        × (state_in P identity T id found ≡ ok (some (state_of g)))
        × (group_from g.name (state_of g) ≡ ok g)
  matched id row none here same m = absurd (ground arith)
  matched id row (some r) none same m = absurd m
  matched id row (some r) (some g) same (name, loads, made) =
      (g, refl, ground (arith, name), loads, made)

  unmatched :
      (id : Str) (found : Option GroupRow) (here : Option Group)
      → found ≡ none
      → Matches id found here
      → here ≡ none
  unmatched id none none same m = refl
  unmatched id none (some g) same m = absurd m
  unmatched id (some r) here same m = absurd (ground arith)

  load_each_lem :
      (t : Tables) (live : Dict Str Group) (rows : List (Str × GroupRow)) (acc : Dict Str Group)
      → IsStored t live
      → All (IsFound t.groups) rows
      → (groups : Dict Str Group) × (load_each P identity T t
            (map (λ (r : Str × GroupRow). (r.0, r.1.name)) rows)
            acc
          ≡ ok groups)
        × ((id : Str)
            → (lookup id groups ≡ lookup id live)
              ⊎ ((lookup id groups ≡ lookup id acc) × All (IsNot id) rows))
  unfolding load_group
  load_each_lem t live [] acc v found = (acc, refl, λ id. inr (refl, tt))
  load_each_lem t live ((k, row) ∷ rows) acc v (here, found) =
      let (g, is_live, name, loads, made) =
        matched k row (lookup k t.groups) (lookup k live) here (v.1 k) in
      let (groups, loaded, each) = load_each_lem t live rows (insert k g acc) v found in
      (
        groups,
        rw loads (rw name (rw made loaded)),
        λ id. elim (each id) [
          | inl done ↦ inl done
          | inr (old, others) ↦ elim (Bool-cases (id == k)) [
            | inl same ↦ inl (ground (arith, lookup-insert id k g acc))
            | inr other ↦ inr (ground (arith, lookup-insert id k g acc), (ground arith, others))
          ]
        ],
      )

  -- What is stored is loaded, up to the order of the groups.
  pub load_groups_lem :
      (t : Tables) (live : Dict Str Group)
      → IsStored t live
      → (groups : Dict Str Group) × (load_groups P identity T t ≡ ok groups)
        × ((id : Str) → lookup id groups ≡ lookup id live)
  unfolding load_groups list_groups lookup
  load_groups_lem t live v =
      let rows = order_by by_name t.groups in
      let (groups, loaded, each) =
        load_each_lem t live rows [] v
          (All-order_by (IsFound t.groups) by_name t.groups (All-IsFound t.groups v.0)) in
      (
        groups,
        loaded,
        λ id. elim (each id) [
          | inl done ↦ done
          | inr (old, others) ↦
              let absent = IsNot-lookup id t.groups (order_by-IsNot id t.groups others) in
              old ∙ sym (unmatched id (lookup id t.groups) (lookup id live) absent (v.1 id))
        ],
      )
