-- ===== src/Groups/Inbound.antt =====
-- What a control frame from a peer does: `handle_incoming` of haven/groups.py and its handlers.
use haven_e2e_messenger.Prelude.{
  ℕ, Str, Bytes, Bool, true, false, Option, none, some, [], ◌∷◌, bytes_eq, if◌then◌else◌, ◌==◌,
}
use haven_e2e_messenger.Prelude.Errors.{Result, ok, err, value_error, is_key_or_value}
use haven_e2e_messenger.Prelude.Exec.{Exec, raise, lift, gets, skip, try_pass, ◌>>=◌, ◌>>◌}
use haven_e2e_messenger.Prelude.Dict.{Dict, lookup, insert, update, has_key}
use haven_e2e_messenger.Crypto.Primitives.{Primitives}
use haven_e2e_messenger.Crypto.Hex.{hex}
use haven_e2e_messenger.Crypto.Ratchet.{Envelope, SenderKeyChain, chain_decrypt}
use haven_e2e_messenger.Groups.State.{
  Control, group_invite, group_sender_key, group_msg, group_member_add, group_member_remove,
  other_type, malformed, Group, GroupManager, my_pub_hex, fresh_chain, set_group, persist,
  save_group_message, send_control, tell, bytes_of,
}
use haven_e2e_messenger.Groups.Manager.{sender_key_of, without_member}

-- The group is new here: join it, and hand out the own sender key.
abbrev join_group :
    Bytes → Str → Result Str → Dict Str Str → Str → SenderKeyChain → Exec GroupManager (Unit {0})
join_group drawn group_id name_field members sender_hex sender_chain = do
  name ← lift name_field
  let g : Group = record {
    name = name;
    members = members;
    my_chain = fresh_chain drawn;
    peer_chains = (sender_hex, sender_chain) ∷ [];
    removed = false;
  }
  set_group group_id g
  persist group_id
  me ← gets my_pub_hex
  tell (me ∷ []) (sender_key_of group_id g.my_chain ∷ []) members

abbrev join_or_update :
    Bytes
    → Str
    → Result Str
    → Dict Str Str
    → Str
    → SenderKeyChain
    → Option Group
    → Exec GroupManager (Unit {0})
join_or_update drawn group_id name_field members sender_hex sender_chain none =
    join_group drawn group_id name_field members sender_hex sender_chain
join_or_update drawn group_id name_field members sender_hex sender_chain (some g) = do
  set_group group_id (record g {
    members = update g.members members;
    peer_chains = insert sender_hex sender_chain g.peer_chains;
    removed = false;
  })
  persist group_id

abbrev accept_invite :
    Bytes
    → Bytes
    → Str
    → Result Str
    → Dict Str Str
    → Result Str
    → Result ℕ
    → Bool
    → Exec GroupManager (Unit {0})
accept_invite drawn sender group_id name_field members chain_key_field index_field false = skip
accept_invite drawn sender group_id name_field members chain_key_field index_field true = do
  chain_key_hex ← lift chain_key_field
  chain_key ← lift (bytes_of chain_key_hex)
  index ← lift index_field
  known ← gets (λ s. lookup group_id s.groups)
  join_or_update drawn group_id name_field members (hex sender)
      (record { chain_key = chain_key; index = index }) known

-- `_on_invite`, on the chain key that os.urandom gives.
unfoldable pub on_invite :
    Bytes
    → Bytes
    → Result Str
    → Result Str
    → Result (Dict Str Str)
    → Result Str
    → Result ℕ
    → Exec GroupManager (Unit {0})
on_invite drawn sender group_id_field name_field members_field chain_key_field index_field = do
  group_id ← lift group_id_field
  listed ← lift members_field
  let members = update [] listed
  me ← gets my_pub_hex
  accept_invite drawn sender group_id name_field members chain_key_field index_field
      (has_key me members)

abbrev pub when_known :
    Option Group → (Group → Exec GroupManager (Unit {0})) → Exec GroupManager (Unit {0})
when_known none f = skip
when_known (some g) f = f g

abbrev pub with_group :
    Result Str → (Str → Group → Exec GroupManager (Unit {0})) → Exec GroupManager (Unit {0})
with_group group_id_field f = do
  group_id ← lift group_id_field
  g ← gets (λ s. lookup group_id s.groups)
  when_known g (f group_id)

-- `_on_sender_key`
unfoldable pub on_sender_key :
    Bytes → Result Str → Result Str → Result ℕ → Exec GroupManager (Unit {0})
on_sender_key sender group_id_field chain_key_field index_field =
    with_group group_id_field λ group_id g. do
      chain_key_hex ← lift chain_key_field
      chain_key ← lift (bytes_of chain_key_hex)
      index ← lift index_field
      let chain : SenderKeyChain = record { chain_key = chain_key; index = index }
      set_group group_id (record g { peer_chains = insert (hex sender) chain g.peer_chains })
      persist group_id

-- `_on_member_add`
unfoldable pub on_member_add : Result Str → Result Str → Result Str → Exec GroupManager (Unit {0})
on_member_add group_id_field identity_pub_field username_field =
    with_group group_id_field λ group_id g. do
      username ← lift username_field
      pub_hex ← lift identity_pub_field
      set_group group_id (record g { members = insert pub_hex username g.members })
      persist group_id
      identity_pub ← lift (bytes_of pub_hex)
      send_control identity_pub username (sender_key_of group_id g.my_chain)

-- `_on_member_remove`
unfoldable pub on_member_remove : Result Str → Result Str → Exec GroupManager (Unit {0})
on_member_remove group_id_field removed_field = with_group group_id_field λ group_id g. do
  removed_pub_hex ← lift removed_field
  me ← gets my_pub_hex
  set_group group_id (
      if removed_pub_hex == me
      then record g { removed = true }
      else without_member removed_pub_hex g)
  persist group_id

module _ (P : Primitives) (utf8 : Str → Bytes) (from_utf8 : Bytes → Result Str) where
  abbrev decoded : Result Bytes → Result Str
  decoded (ok plain) = from_utf8 plain
  decoded (err e) = err e

  abbrev take_plain : Str → Str → Result Str → Result Str → Exec GroupManager (Unit {0})
  take_plain group_id sender_hex kind_field (ok plaintext) = do
    kind ← lift kind_field
    persist group_id
    save_group_message
        (record { group_id = group_id; sender = sender_hex; body = plaintext; kind = kind })
  take_plain group_id sender_hex kind_field (err value_error) = skip
  take_plain group_id sender_hex kind_field (err e) = raise e

  abbrev take_message :
      Str
      → Str
      → Group
      → Result Str
      → Result ℕ
      → Result Str
      → Result Str
      → Option SenderKeyChain
      → Exec GroupManager (Unit {0})
  take_message group_id sender_hex g kind_field index_field nonce_field ciphertext_field none = skip
  take_message group_id sender_hex g kind_field index_field nonce_field ciphertext_field
        (some chain) =
      do
        index ← lift index_field
        nonce_hex ← lift nonce_field
        nonce ← lift (bytes_of nonce_hex)
        ciphertext_hex ← lift ciphertext_field
        ciphertext ← lift (bytes_of ciphertext_hex)
        let envelope : Envelope = record { index = index; nonce = nonce; ciphertext = ciphertext }
        let (plain, chain') = chain_decrypt P envelope (utf8 group_id) chain
        set_group group_id (record g { peer_chains = insert sender_hex chain' g.peer_chains })
        take_plain group_id sender_hex kind_field (decoded plain)

  -- `_on_group_msg`. The callback shows the stored message.
  unfoldable pub on_group_msg :
      Bytes
      → Result Str
      → Result Str
      → Result ℕ
      → Result Str
      → Result Str
      → Exec GroupManager (Unit {0})
  on_group_msg sender group_id_field kind_field index_field nonce_field ciphertext_field =
      with_group group_id_field λ group_id g.
        take_message group_id (hex sender) g kind_field index_field nonce_field ciphertext_field
          (lookup (hex sender) g.peer_chains)

  abbrev dispatch : Bytes → Bytes → Control → Exec GroupManager (Unit {0})
  dispatch drawn sender (group_invite g n ms k i) = on_invite drawn sender g n ms k i
  dispatch drawn sender (group_sender_key g k i) = on_sender_key sender g k i
  dispatch drawn sender (group_msg g k i n c) = on_group_msg sender g k i n c
  dispatch drawn sender (group_member_add g p u) = on_member_add g p u
  dispatch drawn sender (group_member_remove g p) = on_member_remove g p
  dispatch drawn sender other_type = skip
  dispatch drawn sender (malformed e) = raise e

  -- `handle_incoming`
  unfoldable pub handle_incoming : Bytes → Bytes → Control → Exec GroupManager (Unit {0})
  handle_incoming drawn sender frame = try_pass is_key_or_value (dispatch drawn sender frame)
