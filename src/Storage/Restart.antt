-- ===== src/Storage/Restart.antt =====
-- The groups of haven/groups.py come back from haven/storage.py as they were persisted.
use haven_e2e_messenger.Prelude.{
  ◌≡◌, refl, Str, Bytes, some, List, [], ◌∷◌, ◌==◌, length, All, bytes_eq, arith, Bool-cases, inl,
  inr,
}
use haven_e2e_messenger.Prelude.Errors.{ok}
use haven_e2e_messenger.Prelude.Dict.{Dict, lookup, insert, lookup-insert}
use haven_e2e_messenger.Crypto.Primitives.{Primitives, SealOpens}
use haven_e2e_messenger.Crypto.Hex.{fromhex-hex, IsByte}
use haven_e2e_messenger.Crypto.Keys.{KeyPair}
use haven_e2e_messenger.Crypto.AtRest.Opening.{decrypt-encrypt}
use haven_e2e_messenger.Crypto.Ratchet.{SenderKeyChain}
use haven_e2e_messenger.Groups.State.{Group}
use haven_e2e_messenger.Storage.Tables.{
  GroupRow, Tables, StoreTools, ReadsGroup, storage_key, seal_row,
}
use haven_e2e_messenger.Storage.GroupRows.{
  save_group, load_groups, group_from, state_of, chain_from, chain_state, chains_from, chain_states,
  state_in,
}
use haven_e2e_messenger.Storage.Loading.{IsStored, insert-Distinct, load_groups_lem}

-- Every chain of the group has a key of bytes.
abbrev pub HasByteKey : Str × SenderKeyChain → Type 0
HasByteKey (pub_hex, c) = All IsByte c.chain_key

chain_from-chain_state :
    (c : SenderKeyChain) → All IsByte c.chain_key → chain_from (chain_state c) ≡ ok c
chain_from-chain_state c h = rw (fromhex-hex c.chain_key h) refl

chains_from-chain_states :
    (chains : Dict Str SenderKeyChain)
    → All HasByteKey chains
    → chains_from (chain_states chains) ≡ ok chains
chains_from-chain_states [] h = refl
chains_from-chain_states ((pub_hex, c) ∷ chains) (good, h) =
    rw (fromhex-hex c.chain_key good) (rw (chains_from-chain_states chains h) refl)

group_from-state_of :
    (g : Group)
    → All IsByte g.my_chain.chain_key
    → All HasByteKey g.peer_chains
    → group_from g.name (state_of g) ≡ ok g
group_from-state_of g mine peers =
    rw (fromhex-hex g.my_chain.chain_key mine)
      (rw (chains_from-chain_states g.peer_chains peers) refl)

-- The manager's groups after these writes.
abbrev pub kept_groups : List (Bytes × Str × Group) → Dict Str Group → Dict Str Group
kept_groups [] live = live
kept_groups ((nonce, group_id, g) ∷ saves) live = kept_groups saves (insert group_id g live)

module _ (P : Primitives) (identity : KeyPair) (T : StoreTools) where
  -- `_persist` of some groups, in this order, each with the nonce that it draws.
  abbrev pub persist_all : List (Bytes × Str × Group) → Tables → Tables
  persist_all [] t = t
  persist_all ((nonce, group_id, g) ∷ saves) t =
      persist_all saves (save_group P identity T nonce group_id g t)

  -- A nonce of 12 bytes, chain keys of bytes, and JSON that reads back what it wrote.
  abbrev pub IsRestorable : Bytes × Str × Group → Type 0
  IsRestorable (nonce, group_id, g) =
      (length nonce ≡ 12)
      × All IsByte g.my_chain.chain_key
      × All HasByteKey g.peer_chains
      × ReadsGroup T (state_of g)

  saved_row_loads :
      SealOpens P
      → (nonce : Bytes) (group_id : Str) (g : Group) → length nonce ≡ 12
      → ReadsGroup T (state_of g)
      → state_in P identity T group_id (
          some (record {
            name = g.name;
            encrypted_state = seal_row P identity T nonce group_id (T.dump_group (state_of g));
          }))
        ≡ ok (some (state_of g))
  saved_row_loads opens nonce group_id g nonce_12 back =
      let plain = T.dump_group (state_of g) in
      rw (decrypt-encrypt P opens nonce (storage_key P identity) plain (T.utf8 group_id) nonce_12)
        (rw back refl)

  save_group-IsStored :
      SealOpens P
      → (nonce : Bytes) (group_id : Str) (g : Group) (t : Tables) (live : Dict Str Group)
      → IsRestorable (nonce, group_id, g)
      → IsStored P identity T t live
      → IsStored P identity T (save_group P identity T nonce group_id g t) (insert group_id g live)
  unfolding save_group
  save_group-IsStored opens nonce group_id g t live (nonce_12, mine, peers, back) (unique, same) =
      let row : GroupRow = record {
        name = g.name;
        encrypted_state = seal_row P identity T nonce group_id (T.dump_group (state_of g));
      } in
      (
        insert-Distinct group_id row t.groups unique,
        λ id.
            rw (lookup-insert id group_id row t.groups, lookup-insert id group_id g live)
              (elim (Bool-cases (id == group_id)) [
                | inl this ↦
                    let at : id ≡ group_id = ground arith in
                    rw this (
                      refl,
                      rw at (saved_row_loads opens nonce group_id g nonce_12 back),
                      group_from-state_of g mine peers,
                    )
                | inr other ↦ rw other (same id)
              ]),
      )

  persist_all-IsStored :
      SealOpens P
      → (saves : List (Bytes × Str × Group)) (t : Tables) (live : Dict Str Group)
      → All IsRestorable saves
      → IsStored P identity T t live
      → IsStored P identity T (persist_all saves t) (kept_groups saves live)
  persist_all-IsStored opens [] t live good v = v
  persist_all-IsStored opens ((nonce, group_id, g) ∷ saves) t live (one, good) v =
      persist_all-IsStored opens saves (save_group P identity T nonce group_id g t)
        (insert group_id g live) good (save_group-IsStored opens nonce group_id g t live one v)

  nothing-IsStored : (t : Tables) → t.groups ≡ [] → IsStored P identity T t []
  unfolding lookup
  nothing-IsStored t empty = (rw empty tt, λ id. rw empty tt)

  -- The groups that a manager persisted come back when it starts again: whatever groups it wrote, each
  -- as often as it changed, what it then loads has under every group's id what was written last under it,
  -- with its name, its members, its chains with their keys and indices, and whether this side was
  -- removed, and has no other group. Conditions: no group was stored before, each nonce has 12 bytes, the
  -- chain keys consist of bytes, what was sealed opens and JSON reads back what it wrote.
  pub groups_survive_restart :
      SealOpens P
      → (saves : List (Bytes × Str × Group)) (t : Tables) → All IsRestorable saves
      → t.groups ≡ []
      → (groups : Dict Str Group) × (load_groups P identity T (persist_all saves t) ≡ ok groups)
        × ((id : Str) → lookup id groups ≡ lookup id (kept_groups saves []))
  groups_survive_restart opens saves t good empty =
      load_groups_lem P identity T (persist_all saves t) (kept_groups saves [])
        (persist_all-IsStored opens saves t [] good (nothing-IsStored t empty))
