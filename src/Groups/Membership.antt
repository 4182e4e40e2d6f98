-- ===== src/Groups/Membership.antt =====
-- Joining and leaving a group of haven/groups.py, by the control frames of others.
use haven_e2e_messenger.Prelude.{
  ◌≡◌, refl, Str, Bytes, true, false, none, some, [], ◌∷◌, ◌++◌, ◌==◌, bytes_eq, All, map,
}
use haven_e2e_messenger.Prelude.Errors.{Result, ok}
use haven_e2e_messenger.Prelude.Dict.{
  lookup, insert, update, has_key, lookup-insert_same, lookup-erase_self,
}
use haven_e2e_messenger.Crypto.Primitives.{Primitives}
use haven_e2e_messenger.Crypto.Hex.{hex, fromhex-hex, IsByte}
use haven_e2e_messenger.Crypto.Ratchet.{SenderKeyChain}
use haven_e2e_messenger.Groups.State.{
  group_member_add, group_member_remove, Group, GroupManager, my_pub_hex, fresh_chain,
}
use haven_e2e_messenger.Groups.Manager.{sender_key_of, invite_of, without_member}
use haven_e2e_messenger.Groups.Letters.{Readable, others, letter, tell_lem}
use haven_e2e_messenger.Groups.Inbound.{
  handle_incoming, on_member_add, on_member_remove, on_invite, on_sender_key,
}

module _ (P : Primitives) (utf8 : Str → Bytes) (from_utf8 : Bytes → Result Str) where
  -- Whoever sends it, also somebody who is in no group here, a group_member_add for a group that is
  -- known puts the key that it names among the members and sends that peer the own sender key.
  pub anyone_can_add :
      (drawn sender newcomer : Bytes) (group_id username : Str) (g : Group) (s : GroupManager)
      → All IsByte newcomer
      → lookup group_id s.groups ≡ some g
      → let (r, s') =
          handle_incoming P utf8 from_utf8 drawn sender
            (group_member_add (ok group_id) (ok (hex newcomer)) (ok username))
            s in
        let g' = record g { members = insert (hex newcomer) username g.members } in
        (r ≡ ok tt)
        × (lookup group_id s'.groups ≡ some g')
        × (s'.sent
            ≡ s.sent
              ++ (record {
                to = newcomer;
                username_hint = username;
                frame = sender_key_of group_id g.my_chain;
              }
                  ∷ []))
  unfolding handle_incoming on_member_add
  anyone_can_add drawn sender newcomer group_id username g s nb there = rw there (
      rw
        (lookup-insert_same group_id
          (record g { members = insert (hex newcomer) username g.members }) s.groups)
        (rw (fromhex-hex newcomer nb) (
          refl,
          lookup-insert_same group_id
              (record g { members = insert (hex newcomer) username g.members }) s.groups,
          refl,
        )))

  -- Whoever sends it, a group_member_remove that names another peer drops that peer from the members
  -- and its chain from the chains, in memory and in the store. The own sender key stays the same.
  pub removal_keeps_own_key :
      (drawn sender : Bytes) (group_id gone_hex : Str) (g : Group) (s : GroupManager)
      → (gone_hex == my_pub_hex s) ≡ false
      → lookup group_id s.groups ≡ some g
      → let s' =
          (handle_incoming P utf8 from_utf8 drawn sender
            (group_member_remove (ok group_id) (ok gone_hex))
            s).1 in
        let g' = without_member gone_hex g in
        (lookup group_id s'.groups ≡ some g')
        × (lookup group_id s'.saved ≡ some g')
        × (lookup gone_hex g'.members ≡ none)
        × (lookup gone_hex g'.peer_chains ≡ none)
        × (g'.my_chain ≡ g.my_chain)
        × (s'.sent ≡ s.sent)
  unfolding handle_incoming on_member_remove
  removal_keeps_own_key drawn sender group_id gone_hex g s other there =
      let g' = without_member gone_hex g in
      let kept = lookup-insert_same group_id g' s.groups in
      rw there (
        rw other (
          rw kept (
            kept,
            lookup-insert_same group_id g' s.saved,
            lookup-erase_self gone_hex g.members,
            lookup-erase_self gone_hex g.peer_chains,
            refl,
            refl,
          )))

  -- An invitation into a group that is not known here, from a peer whose own key it carries: the group
  -- is joined with the members listed, a copy of the inviter's chain and a fresh own chain, and every
  -- other member is sent that own key. Conditions: the invitation lists this peer, the keys of the
  -- members are hexadecimal, and the inviter's chain key consists of bytes.
  pub invite_joins :
      (drawn sender : Bytes) (group_id : Str) (g : Group) (s : GroupManager)
      → let members = update [] g.members in
        All IsByte g.my_chain.chain_key
        → All Readable members
        → has_key (my_pub_hex s) members ≡ true
        → lookup group_id s.groups ≡ none
        → let (r, s') = handle_incoming P utf8 from_utf8 drawn sender (invite_of group_id g) s in
          (r ≡ ok tt)
          × (lookup group_id s'.groups
              ≡ some (record {
                name = g.name;
                members = members;
                my_chain = fresh_chain drawn;
                peer_chains = (hex sender, g.my_chain) ∷ [];
                removed = false;
              }))
          × (s'.sent
              ≡ s.sent
                ++ map
                    (letter (sender_key_of group_id (fresh_chain drawn)))
                    (others (my_pub_hex s ∷ []) members))
  unfolding handle_incoming on_invite
  invite_joins drawn sender group_id g s chain_bytes readable listed fresh =
      let members = update [] g.members in
      let joined : Group = record {
        name = g.name;
        members = members;
        my_chain = fresh_chain drawn;
        peer_chains = (hex sender, g.my_chain) ∷ [];
        removed = false;
      } in
      let kept = lookup-insert_same group_id joined s.groups in
      let before_telling = record s {
        groups = insert group_id joined s.groups;
        saved = insert group_id joined s.saved;
      } in
      let told =
        tell_lem (my_pub_hex s ∷ []) (sender_key_of group_id (fresh_chain drawn)) members
          before_telling readable in
      rw listed (
        rw (fromhex-hex g.my_chain.chain_key chain_bytes)
          (rw fresh (rw kept (rw told (refl, kept, refl)))))

  -- The known group's copy of a chain is replaced by the key that its owner sends.
  pub sender_key_is_kept :
      (drawn sender : Bytes) (group_id : Str) (c : SenderKeyChain) (g : Group) (s : GroupManager)
      → All IsByte c.chain_key
      → lookup group_id s.groups ≡ some g
      → let s' = (handle_incoming P utf8 from_utf8 drawn sender (sender_key_of group_id c) s).1 in
        lookup group_id s'.groups
        ≡ some (record g { peer_chains = insert (hex sender) c g.peer_chains })
  unfolding handle_incoming on_sender_key
  sender_key_is_kept drawn sender group_id c g s chain_bytes there =
      let kept =
        lookup-insert_same group_id (record g { peer_chains = insert (hex sender) c g.peer_chains })
          s.groups in
      rw there (rw (fromhex-hex c.chain_key chain_bytes) (rw kept kept))
