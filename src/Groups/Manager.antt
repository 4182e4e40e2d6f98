-- ===== src/Groups/Manager.antt =====
-- What the user does with groups: `create_group`, `add_member`, `remove_member` and
-- `send_group_message` of haven/groups.py.
use haven_e2e_messenger.Prelude.{Str, Bytes, false, Option, none, some, List, [], ◌∷◌, bytes_eq}
use haven_e2e_messenger.Prelude.Errors.{ok}
use haven_e2e_messenger.Prelude.Exec.{Exec, pure, lift, gets, skip, ◌>>=◌, ◌>>◌}
use haven_e2e_messenger.Prelude.Dict.{Dict, lookup, insert, erase}
use haven_e2e_messenger.Crypto.Primitives.{Primitives}
use haven_e2e_messenger.Crypto.Hex.{hex}
use haven_e2e_messenger.Crypto.Ratchet.{Envelope, SenderKeyChain, chain_encrypt}
use haven_e2e_messenger.Groups.State.{
  Control, group_invite, group_sender_key, group_msg, group_member_add, group_member_remove, Group,
  GroupManager, my_pub_hex, fresh_chain, require_group, set_group, persist, save_group_message,
  send_control, tell,
}

abbrev pub invite_of : Str → Group → Control
invite_of group_id g =
    group_invite (ok group_id) (ok g.name) (ok g.members) (ok (hex g.my_chain.chain_key))
      (ok g.my_chain.index)

abbrev pub sender_key_of : Str → SenderKeyChain → Control
sender_key_of group_id c = group_sender_key (ok group_id) (ok (hex c.chain_key)) (ok c.index)

abbrev add_all : List (Str × Bytes) → Dict Str Str → Dict Str Str
add_all [] full_members = full_members
add_all ((uname, identity_pub) ∷ members) full_members =
    add_all members (insert (hex identity_pub) uname full_members)

abbrev pub invite_all : Control → List (Str × Bytes) → Exec GroupManager (Unit {0})
invite_all frame [] = skip
invite_all frame ((uname, identity_pub) ∷ members) =
    send_control identity_pub uname frame >> invite_all frame members

-- `create_group`, on the id and the chain key that os.urandom gives.
unfoldable pub create_group : Str → Bytes → Str → List (Str × Bytes) → Exec GroupManager Str
create_group group_id drawn name members = do
  me ← gets (λ s. (my_pub_hex s, s.username))
  let g : Group = record {
    name = name;
    members = add_all members (me ∷ []);
    my_chain = fresh_chain drawn;
    peer_chains = [];
    removed = false;
  }
  set_group group_id g
  persist group_id
  invite_all (invite_of group_id g) members
  pure group_id

-- `add_member`
unfoldable pub add_member : Str → Str → Bytes → Exec GroupManager (Unit {0})
add_member group_id username identity_pub = do
  old ← require_group group_id
  let pub_hex = hex identity_pub
  let g = record old { members = insert pub_hex username old.members }
  set_group group_id g
  persist group_id
  send_control identity_pub username (invite_of group_id g)
  me ← gets my_pub_hex
  tell (me ∷ pub_hex ∷ []) (group_member_add (ok group_id) (ok pub_hex) (ok username) ∷ [])
      g.members

abbrev pub tell_removed : Bytes → Option Str → Control → Exec GroupManager (Unit {0})
tell_removed identity_pub none frame = skip
tell_removed identity_pub (some removed_username) frame =
    send_control identity_pub removed_username frame

abbrev pub without_member : Str → Group → Group
without_member pub_hex g = record g {
  members = erase pub_hex g.members;
  peer_chains = erase pub_hex g.peer_chains;
}

-- `remove_member`, on the chain key that os.urandom gives.
unfoldable pub remove_member : Bytes → Str → Bytes → Exec GroupManager (Unit {0})
remove_member drawn group_id identity_pub = do
  old ← require_group group_id
  let pub_hex = hex identity_pub
  let g = record (without_member pub_hex old) { my_chain = fresh_chain drawn }
  let frame = group_member_remove (ok group_id) (ok pub_hex)
  set_group group_id g
  persist group_id
  tell_removed identity_pub (lookup pub_hex old.members) frame
  me ← gets my_pub_hex
  tell (me ∷ []) (frame ∷ sender_key_of group_id g.my_chain ∷ []) g.members

abbrev pub message_of : Str → Str → Envelope → Control
message_of group_id kind envelope =
    group_msg (ok group_id) (ok kind) (ok envelope.index) (ok (hex envelope.nonce))
      (ok (hex envelope.ciphertext))

-- `send_group_message`, on the nonce that os.urandom gives. `utf8` is `str.encode("utf-8")`.
unfoldable pub send_group_message :
    Primitives → (Str → Bytes) → Bytes → Str → Str → Str → Exec GroupManager (Unit {0})
send_group_message P utf8 nonce group_id body kind = do
  g ← require_group group_id
  let (envelope, my_chain) = chain_encrypt P nonce (utf8 body) (utf8 group_id) g.my_chain
  set_group group_id (record g { my_chain = my_chain })
  sealed ← lift envelope
  persist group_id
  me ← gets my_pub_hex
  save_group_message (record { group_id = group_id; sender = me; body = body; kind = kind })
  tell (me ∷ []) (message_of group_id kind sealed ∷ []) g.members
