-- ===== src/Storage/GroupRows.antt =====
-- The group tables of haven/storage.py, and what haven/groups.py hands them and reads from them:
-- `GroupManager._persist` and the loading in `GroupManager.__init__`.
use haven_e2e_messenger.Prelude.{
  ℕ, Str, Bytes, Bool, Option, none, some, List, [], ◌∷◌, ◌++◌, ◌==◌, keep, take, bytes_eq,
  order_by, map,
}
use haven_e2e_messenger.Prelude.Errors.{Result, ok, err, type_error, ◌>>=◌}
use haven_e2e_messenger.Prelude.Dict.{Dict, lookup, insert}
use haven_e2e_messenger.Crypto.Primitives.{Primitives}
use haven_e2e_messenger.Crypto.Hex.{hex}
use haven_e2e_messenger.Crypto.Keys.{KeyPair, bytes_leb}
use haven_e2e_messenger.Crypto.Ratchet.{SenderKeyChain}
use haven_e2e_messenger.Groups.State.{Group, GroupMessage, bytes_of}
use haven_e2e_messenger.Storage.Tables.{
  Tables, StoreTools, GroupState, GroupRow, GroupMessageRow, seal_row, open_row, raise_first,
}

abbrev pub chain_state : SenderKeyChain → Str × ℕ
chain_state c = (hex c.chain_key, c.index)

abbrev pub chain_states : Dict Str SenderKeyChain → Dict Str (Str × ℕ)
chain_states [] = []
chain_states ((pub_hex, c) ∷ chains) = (pub_hex, chain_state c) ∷ chain_states chains

-- The dict that `_persist` builds.
abbrev pub state_of : Group → GroupState
state_of g = record {
  members = g.members;
  my_chain = chain_state g.my_chain;
  peer_chains = chain_states g.peer_chains;
  removed = g.removed;
}

abbrev pub chain_from : Str × ℕ → Result SenderKeyChain
chain_from (key_hex, index) =
    bytes_of key_hex >>= λ chain_key. ok (record { chain_key = chain_key; index = index })

abbrev pub chains_from : Dict Str (Str × ℕ) → Result (Dict Str SenderKeyChain)
chains_from [] = ok []
chains_from ((pub_hex, state) ∷ states) =
    let rest = chains_from states in
    chain_from state >>= λ c. rest >>= λ chains. ok ((pub_hex, c) ∷ chains)

-- The dict that `__init__` builds of a stored state.
abbrev pub group_from : Str → GroupState → Result Group
group_from name state = do
  my_chain ← chain_from state.my_chain
  peer_chains ← chains_from state.peer_chains
  ok (record {
    name = name;
    members = state.members;
    my_chain = my_chain;
    peer_chains = peer_chains;
    removed = state.removed;
  })

abbrev pub by_name : Str × GroupRow → Str × GroupRow → Bool
by_name (_, a) (_, b) = bytes_leb a.name b.name

-- `list_groups`
unfoldable pub list_groups : Tables → List (Str × Str)
list_groups t = map (λ (r : Str × GroupRow). (r.0, r.1.name)) (order_by by_name t.groups)

-- What `group_history` gives for a row.
pub record GroupEntry : Type 0 where
  pub sender_identity_pub : Str
  pub kind : Str
  pub body : Str
  pub ts : ℕ

module _ (P : Primitives) (identity : KeyPair) (T : StoreTools) where
  -- `save_group`, of a group of the manager.
  unfoldable pub save_group : Bytes → Str → Group → Tables → Tables
  save_group nonce group_id g t =
      let row : GroupRow = record {
        name = g.name;
        encrypted_state = seal_row P identity T nonce group_id (T.dump_group (state_of g));
      } in
      record t { groups = insert group_id row t.groups }

  abbrev pub state_in : Str → Option GroupRow → Result (Option GroupState)
  state_in group_id none = ok none
  state_in group_id (some row) = do
    plain ← open_row P identity T group_id row.encrypted_state
    state ← T.load_group_json plain
    ok (some state)

  -- `load_group`
  unfoldable pub load_group : Str → Tables → Result (Option GroupState)
  load_group group_id t = state_in group_id (lookup group_id t.groups)

  -- `state["members"]` raises TypeError where there is no state.
  abbrev pub restored : Str → Option GroupState → Result Group
  restored name none = err type_error
  restored name (some state) = group_from name state

  abbrev pub load_each : Tables → List (Str × Str) → Dict Str Group → Result (Dict Str Group)
  load_each t [] groups = ok groups
  load_each t ((group_id, name) ∷ listed) groups = do
    state ← load_group group_id t
    g ← restored name state
    load_each t listed (insert group_id g groups)

  -- The loop of `GroupManager.__init__`.
  unfoldable pub load_groups : Tables → Result (Dict Str Group)
  load_groups t = load_each t (list_groups t) []

  -- `save_group_message`
  unfoldable pub save_group_message : Bytes → ℕ → GroupMessage → Tables → Tables
  save_group_message nonce now m t =
      let row : GroupMessageRow = record {
        group_id = m.group_id;
        sender_identity_pub = m.sender;
        kind = m.kind;
        encrypted_body = seal_row P identity T nonce m.group_id (T.utf8 m.body);
        timestamp = now;
      } in
      record t { group_messages = t.group_messages ++ (row ∷ []) }

  abbrev group_entry_of : Str → GroupMessageRow → Result GroupEntry
  group_entry_of group_id row = do
    plain ← open_row P identity T group_id row.encrypted_body
    body ← T.from_utf8 plain
    ok (record {
      sender_identity_pub = row.sender_identity_pub;
      kind = row.kind;
      body = body;
      ts = row.timestamp;
    })

  -- `group_history`
  unfoldable pub group_history : Str → ℕ → Tables → Result (List GroupEntry)
  group_history group_id limit t =
      raise_first (group_entry_of group_id)
        (take limit (keep (λ (row : GroupMessageRow). row.group_id == group_id) t.group_messages))
