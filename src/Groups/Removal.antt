-- ===== src/Groups/Removal.antt =====
-- Removing a member in haven/groups.py: what the removed peer is still sent.
use haven_e2e_messenger.Prelude.{
  ◌≡◌, refl, sym, ap, ◌∙◌, Str, Bytes, false, Option, none, some, List, [], ◌∷◌, ◌++◌, arith, ◌==◌,
  bytes_eq, ==_refl, All, keep, contains, append-nil, Bool-cases, Option-cases, inl, inr,
}
use haven_e2e_messenger.Prelude.Errors.{ok, Result-cases}
use haven_e2e_messenger.Prelude.Exec.{bind-keeps}
use haven_e2e_messenger.Prelude.Dict.{Dict, lookup, insert, erase, lookup-insert_same}
use haven_e2e_messenger.Crypto.Primitives.{Primitives}
use haven_e2e_messenger.Crypto.Hex.{hex, fromhex}
use haven_e2e_messenger.Crypto.Ratchet.{chain_encrypt}
use haven_e2e_messenger.Groups.State.{
  Control, Group, GroupManager, Outgoing, my_pub_hex, tell, send_each, fresh_chain,
  group_member_remove,
}
use haven_e2e_messenger.Groups.Manager.{
  remove_member, send_group_message, sender_key_of, without_member, message_of,
}
use haven_e2e_messenger.Groups.Letters.{Readable, peer_of, with_sent}
use haven_e2e_messenger.Groups.Stream.{addressed, Draft}

-- The spelling that `bytes.hex` gives, which the code uses for every key that it writes itself.
abbrev pub IsSpelled : Str × Str → Type 0
IsSpelled m = Readable m × (m.0 ≡ hex (peer_of m))

-- Nobody stands for a peer whose key was erased.
erased_is_nobody :
    (peer : Bytes) (members : Dict Str Str)
    → All IsSpelled members
    → keep (λ m. peer_of m == peer) (erase (hex peer) members) ≡ []
unfolding erase
erased_is_nobody peer [] spelled = refl
erased_is_nobody peer (m ∷ members) (good, spelled) =
    ground (arith, erased_is_nobody peer members spelled)

send_each_keeps_groups :
    (to : Bytes) (uname : Str) (frames : List Control) (s : GroupManager)
    → (send_each to uname frames s).1.groups ≡ s.groups
send_each_keeps_groups to uname [] s = refl
send_each_keeps_groups to uname (frame ∷ frames) s =
    send_each_keeps_groups to uname frames
      (with_sent (record { to = to; username_hint = uname; frame = frame } ∷ []) s)

tell_keeps_groups :
    (without : List Str) (frames : List Control) (members : Dict Str Str) (s : GroupManager)
    → (tell without frames members s).1.groups ≡ s.groups
unfolding tell
tell_keeps_groups without frames [] s = refl
tell_keeps_groups without frames (m ∷ members) s = elim (Bool-cases (contains m.0 without)) [
  | inl skipped ↦ rw skipped (tell_keeps_groups without frames members s)
  | inr kept ↦ elim (Option-cases (fromhex m.0)) [
    | inl bad ↦ rw kept (rw bad refl)
    | inr (bs, good) ↦ rw kept (
        rw good (
          bind-keeps (λ (s : GroupManager). s.groups) (send_each bs m.1 frames)
            (λ _. tell without frames members) (send_each_keeps_groups bs m.1 frames)
            (λ _. tell_keeps_groups without frames members) s))
  ]
]

module _ (peer : Bytes) where
  abbrev HasNone : Dict Str Str → Type 0
  HasNone members = keep (λ m. peer_of m == peer) members ≡ []

  addressed-append :
      (xs ys : List Outgoing) → addressed peer (xs ++ ys) ≡ addressed peer xs ++ addressed peer ys
  addressed-append [] ys = refl
  addressed-append (x ∷ xs) ys = ground (arith, addressed-append xs ys)

  abbrev for_peer : GroupManager → List Outgoing
  for_peer s = addressed peer s.sent

  send_each_leaves_out :
      (other : Bytes) (uname : Str) (frames : List Control)
      → (other == peer) ≡ false
      → (s : GroupManager) → for_peer (send_each other uname frames s).1 ≡ for_peer s
  send_each_leaves_out other uname [] h s = refl
  send_each_leaves_out other uname (frame ∷ frames) h s =
      let l : Outgoing = record { to = other; username_hint = uname; frame = frame } in
      send_each_leaves_out other uname frames h (with_sent (l ∷ []) s)
      ∙ addressed-append s.sent (l ∷ [])
      ∙ rw h (append-nil (for_peer s))

  -- The loop over the members sends nothing to a peer that none of them stands for.
  tell_leaves_out :
      (without : List Str) (frames : List Control) (members : Dict Str Str)
      → HasNone members
      → (s : GroupManager) → for_peer (tell without frames members s).1 ≡ for_peer s
  unfolding tell
  tell_leaves_out without frames [] h s = refl
  tell_leaves_out without frames (m ∷ members) h s = elim (Bool-cases (contains m.0 without)) [
    | inl skipped ↦ rw skipped (tell_leaves_out without frames members (ground arith) s)
    | inr kept ↦ elim (Option-cases (fromhex m.0)) [
      | inl bad ↦ rw kept (rw bad refl)
      | inr (bs, good) ↦ rw kept (
          rw good (
            bind-keeps for_peer (send_each bs m.1 frames) (λ _. tell without frames members)
              (send_each_leaves_out bs m.1 frames (ground arith))
              (λ _. tell_leaves_out without frames members (ground arith)) s))
    ]
  ]

  -- A group that is known and has no member that stands for the peer.
  abbrev pub IsAbsent : Str → GroupManager → Type 0
  IsAbsent group_id s = (g : Group) × (lookup group_id s.groups ≡ some g) × HasNone g.members

  told_out :
      (without : List Str) (frames : List Control) (group_id : Str) (g : Group) (t : GroupManager)
      → lookup group_id t.groups ≡ some g
      → HasNone g.members
      → let t' = (tell without frames g.members t).1 in
        IsAbsent group_id t' × (for_peer t' ≡ for_peer t)
  told_out without frames group_id g t kept out = (
    (g, ap (λ gs. lookup group_id gs) (tell_keeps_groups without frames g.members t) ∙ kept, out),
    tell_leaves_out without frames g.members out t,
  )

  -- The outcome of a message that is sent, whether or not it raises, for a peer that is out.
  send_leaves_out :
      (P : Primitives) (utf8 : Str → Bytes) (nonce : Bytes) (group_id body kind : Str)
      (s : GroupManager)
      → IsAbsent group_id s
      → let s' = (send_group_message P utf8 nonce group_id body kind s).1 in
        IsAbsent group_id s' × (for_peer s' ≡ for_peer s)
  unfolding send_group_message
  send_leaves_out P utf8 nonce group_id body kind s (g, there, out) =
      let (r, c') = chain_encrypt P nonce (utf8 body) (utf8 group_id) g.my_chain in
      let g' = record g { my_chain = c' } in
      let kept = lookup-insert_same group_id g' s.groups in
      elim (Result-cases r) [
        | inl (e, raised) ↦ rw there (rw raised ((g', kept, out), refl))
        | inr (e, sealed) ↦
            let t = record s {
              groups = insert group_id g' s.groups;
              saved = insert group_id g' s.saved;
              history =
                  s.history
                  ++ (record {
                    group_id = group_id;
                    sender = my_pub_hex s;
                    body = body;
                    kind = kind;
                  }
                      ∷ []);
            } in
            let frames = message_of group_id kind e ∷ [] in
            rw there
              (rw sealed (rw kept (told_out (my_pub_hex s ∷ []) frames group_id g' t kept out)))
      ]

  abbrev pub notice : Str → Option Str → List Outgoing
  notice group_id none = []
  notice group_id (some uname) =
      record {
        to = peer;
        username_hint = uname;
        frame = group_member_remove (ok group_id) (ok (hex peer));
      }
      ∷ []

  remove_member_lem :
      (drawn : Bytes) (group_id : Str) (g : Group) (s : GroupManager)
      → lookup group_id s.groups ≡ some g
      → All IsSpelled g.members
      → let s' = (remove_member drawn group_id peer s).1 in
        IsAbsent group_id s'
        × (for_peer s' ≡ for_peer s ++ notice group_id (lookup (hex peer) g.members))
  unfolding remove_member
  remove_member_lem drawn group_id g s there spelled =
      let g' = record (without_member (hex peer) g) { my_chain = fresh_chain drawn } in
      let kept = lookup-insert_same group_id g' s.groups in
      let out = erased_is_nobody peer g.members spelled in
      let frames =
        group_member_remove (ok group_id) (ok (hex peer))
        ∷ sender_key_of group_id (fresh_chain drawn)
        ∷ [] in
      let t = record s {
        groups = insert group_id g' s.groups;
        saved = insert group_id g' s.saved;
      } in
      elim (Option-cases (lookup (hex peer) g.members)) [
        | inl absent ↦
            let (still, told) = told_out (my_pub_hex s ∷ []) frames group_id g' t kept out in
            rw there (rw kept (rw absent (still, told ∙ sym (append-nil (for_peer s)))))
        | inr (uname, present) ↦
            let more = notice group_id (some uname) in
            let (still, told) =
              told_out (my_pub_hex s ∷ []) frames group_id g' (with_sent more t) kept out in
            rw there (
              rw kept
                (rw present (still, told ∙ addressed-append s.sent more ∙ rw (==_refl peer) refl)))
      ]

-- Group messages that one peer sends, whether or not each succeeds.
abbrev pub send_all : Primitives → (Str → Bytes) → Str → List Draft → GroupManager → GroupManager
send_all P utf8 group_id [] s = s
send_all P utf8 group_id (d ∷ drafts) s =
    send_all P utf8 group_id drafts (send_group_message P utf8 d.nonce group_id d.body d.kind s).1

send_all_leaves_out :
    (peer : Bytes) (P : Primitives) (utf8 : Str → Bytes) (group_id : Str) (drafts : List Draft)
    (s : GroupManager)
    → IsAbsent peer group_id s
    → for_peer peer (send_all P utf8 group_id drafts s) ≡ for_peer peer s
send_all_leaves_out peer P utf8 group_id [] s out = refl
send_all_leaves_out peer P utf8 group_id (d ∷ drafts) s out =
    let (still, same) = send_leaves_out peer P utf8 d.nonce group_id d.body d.kind s out in
    send_all_leaves_out peer P utf8 group_id drafts
      (send_group_message P utf8 d.nonce group_id d.body d.kind s).1 still
    ∙ same

-- From its removal on, and through any messages that follow, the removed peer is sent nothing but the
-- one frame that says so, if it was a member at all: neither the new sender key nor a message.
-- Conditions: the group is known, and its members' keys are spelled as `bytes.hex` spells them.
pub removed_is_left_out :
    (P : Primitives) (utf8 : Str → Bytes) (drawn peer : Bytes) (group_id : Str) (g : Group)
    (drafts : List Draft) (s : GroupManager)
    → lookup group_id s.groups ≡ some g
    → All IsSpelled g.members
    → addressed peer (send_all P utf8 group_id drafts (remove_member drawn group_id peer s).1).sent
      ≡ addressed peer s.sent ++ notice peer group_id (lookup (hex peer) g.members)
removed_is_left_out P utf8 drawn peer group_id g drafts s there spelled =
    let (out, told) = remove_member_lem peer drawn group_id g s there spelled in
    send_all_leaves_out peer P utf8 group_id drafts (remove_member drawn group_id peer s).1 out
    ∙ told
