-- ===== src/Groups/Stream.antt =====
-- A run of group messages of haven/groups.py from one member to another: what arrives.
use haven_e2e_messenger.Prelude.{
  ◌≡◌, refl, sym, ap, ◌∙◌, ◌+◌, ◌<◌, ◌≤◌, Str, Bytes, some, List, [], ◌∷◌, ◌++◌, arith, ◌==◌,
  bytes_eq, All, length, drop, drop-append, map, keep, append_assoc, append-nil,
}
use haven_e2e_messenger.Prelude.Errors.{Result}
use haven_e2e_messenger.Prelude.Dict.{Dict, lookup, insert, lookup-insert_same}
use haven_e2e_messenger.Crypto.Primitives.{Primitives, SealOpens}
use haven_e2e_messenger.Crypto.Hex.{hex, IsByte}
use haven_e2e_messenger.Crypto.Ratchet.{u64_mod}
use haven_e2e_messenger.Groups.State.{
  Control, Group, GroupMessage, GroupManager, Outgoing, my_pub_hex,
}
use haven_e2e_messenger.Groups.Manager.{send_group_message, message_of}
use haven_e2e_messenger.Groups.Inbound.{handle_incoming}
use haven_e2e_messenger.Groups.Letters.{Readable, others, letter, peer_of}
use haven_e2e_messenger.Groups.Messages.{
  SealsBytes, IsText, next_chain, envelope_of, chain_decrypt-ok, handle_incoming-message,
  after_send, send_group_message_lem,
}

-- One message to send, with the nonce that is drawn for it.
pub record Draft : Type 0 where
  pub nonce : Bytes
  pub body : Str
  pub kind : Str

-- The rows that such messages become on the side of a receiver.
abbrev pub stored : Str → Bytes → Draft → GroupMessage
stored group_id sender d = record {
  group_id = group_id;
  sender = hex sender;
  body = d.body;
  kind = d.kind;
}

-- The letters addressed to one peer.
abbrev pub addressed : Bytes → List Outgoing → List Outgoing
addressed peer = keep (λ o. o.to == peer)

module _ (P : Primitives) (utf8 : Str → Bytes) (from_utf8 : Bytes → Result Str) where
  abbrev receive_all : Bytes → Bytes → List Outgoing → GroupManager → GroupManager
  receive_all drawn sender [] b = b
  receive_all drawn sender (o ∷ letters) b =
      receive_all drawn sender letters (handle_incoming P utf8 from_utf8 drawn sender o.frame b).1

  -- The sender sends, and the receiver handles what the sender has put out for it, all of it and at once.
  -- The program sends each frame from a thread that polls for a session and gives up after some seconds:
  -- this is the run in which every frame comes through before the next message.
  abbrev pub exchange_one : Str → Draft → GroupManager × GroupManager → GroupManager × GroupManager
  exchange_one group_id d (a, b) =
      let a' = (send_group_message P utf8 d.nonce group_id d.body d.kind a).1 in
      (a', receive_all [] a.identity (addressed b.identity (drop (length a.sent) a'.sent)) b)

  unfoldable pub exchange_all :
      Str → List Draft → GroupManager × GroupManager → GroupManager × GroupManager
  exchange_all group_id [] ab = ab
  exchange_all group_id (d ∷ drafts) ab = exchange_all group_id drafts (exchange_one group_id d ab)

-- The receiver has a copy of the sender's chain, and the sender lists the receiver once.
pub record InSync (group_id : Str) (a b : GroupManager) : Type 0 where
  pub sending : Group
  pub receiving : Group
  pub is_sending : lookup group_id a.groups ≡ some sending
  pub is_receiving : lookup group_id b.groups ≡ some receiving
  pub copied : lookup (hex a.identity) receiving.peer_chains ≡ some sending.my_chain
  pub readable : All Readable sending.members
  pub entry : Str × Str
  pub listed :
      keep (λ m. peer_of m == b.identity) (others (my_pub_hex a ∷ []) sending.members) ≡ entry ∷ []

pub addressed-letters :
    (peer : Bytes) (frame : Control) (members : Dict Str Str)
    → addressed peer (map (letter frame) members)
      ≡ map (letter frame) (keep (λ m. peer_of m == peer) members)
addressed-letters peer frame [] = refl
addressed-letters peer frame (m ∷ members) = ground (arith, addressed-letters peer frame members)

module _ (P : Primitives) (utf8 : Str → Bytes) (from_utf8 : Bytes → Result Str)
    (opens : SealOpens P) (bytes : SealsBytes P) where
  abbrev Sendable : Draft → Type 0
  Sendable d = All IsByte d.nonce × IsText utf8 from_utf8 d.body

  module _ (group_id : Str) (d : Draft) (a b : GroupManager) (v : InSync group_id a b) where
    abbrev sender_after : GroupManager
    sender_after = after_send P utf8 from_utf8 d.nonce group_id d.body d.kind v.sending a

    abbrev received : Group
    received = record v.receiving {
      peer_chains =
          insert (hex a.identity) (next_chain P v.sending.my_chain) v.receiving.peer_chains;
    }

    abbrev receiver_after : GroupManager
    receiver_after = record b {
      groups = insert group_id received b.groups;
      saved = insert group_id received b.saved;
      history = b.history ++ (stored group_id a.identity d ∷ []);
    }

    exchange_one_lem :
        v.sending.my_chain.index < u64_mod
        → Sendable d
        → exchange_one P utf8 from_utf8 group_id d (a, b) ≡ (sender_after, receiver_after)
    exchange_one_lem room (nonce_bytes, (text_bytes, back)) =
        let c = v.sending.my_chain in
        let e = envelope_of P d.nonce (utf8 d.body) (utf8 group_id) c in
        let frame = message_of group_id d.kind e in
        let listed_others = others (my_pub_hex a ∷ []) v.sending.members in
        let sends =
          send_group_message_lem P utf8 from_utf8 d.nonce group_id d.body d.kind v.sending a
            v.is_sending room v.readable in
        let takes =
          handle_incoming-message P utf8 from_utf8 [] a.identity group_id d.body d.kind e
            v.receiving c (next_chain P c) b nonce_bytes
            (bytes _ d.nonce (utf8 d.body) _ text_bytes) v.is_receiving v.copied
            (chain_decrypt-ok P opens d.nonce (utf8 d.body) (utf8 group_id) c room) back in
        rw sends (
          rw (drop-append a.sent (map (letter frame) listed_others)) (
            rw (addressed-letters b.identity frame listed_others)
              (rw v.listed (ap (λ r. (sender_after, r.1)) takes))))

    abbrev in_sync_after : InSync group_id sender_after receiver_after
    in_sync_after = record {
      sending = record v.sending { my_chain = next_chain P v.sending.my_chain };
      receiving = received;
      is_sending =
          lookup-insert_same group_id
            (record v.sending { my_chain = next_chain P v.sending.my_chain }) a.groups;
      is_receiving = lookup-insert_same group_id received b.groups;
      copied =
          lookup-insert_same (hex a.identity) (next_chain P v.sending.my_chain)
            v.receiving.peer_chains;
      readable = v.readable;
      entry = v.entry;
      listed = v.listed;
    }

  -- Whatever messages the sender sends to the group, each reaches the receiver, who stores them all in that
  -- order under the sender's key and none beside them. Conditions: each message's frame is delivered, once,
  -- before the next message is sent; the receiver starts with a copy of the sender's chain and is listed
  -- once, the chain stays below 2^64 messages, the texts encode, and what was sealed opens.
  pub group_messages_arrive :
      (group_id : Str) (drafts : List Draft) (a b : GroupManager) (v : InSync group_id a b)
      → v.sending.my_chain.index + length drafts ≤ u64_mod
      → All Sendable drafts
      → let (a', b') = exchange_all P utf8 from_utf8 group_id drafts (a, b) in
        b'.history ≡ b.history ++ map (stored group_id a.identity) drafts
  unfolding exchange_all
  group_messages_arrive group_id [] a b v room ok_drafts = sym (append-nil b.history)
  group_messages_arrive group_id (d ∷ drafts) a b v room (good, ok_drafts) =
      let a' = sender_after group_id d a b v in
      let b' = receiver_after group_id d a b v in
      ap (λ ab. (exchange_all P utf8 from_utf8 group_id drafts ab).1.history)
        (exchange_one_lem group_id d a b v (omega arith) good)
      ∙ (group_messages_arrive group_id drafts a' b' (in_sync_after group_id d a b v) (omega arith)
            ok_drafts
          ∙ append_assoc b.history (stored group_id a.identity d ∷ [])
              (map (stored group_id a.identity) drafts))
