-- ===== src/Groups/Messages.antt =====
-- Group messages of haven/groups.py from their sender to a member.
use haven_e2e_messenger.Prelude.{
  ◌≡◌, refl, ◌+◌, ◌<◌, Str, Bytes, some, [], ◌∷◌, ◌++◌, arith, bytes_eq, All, map,
}
use haven_e2e_messenger.Prelude.Errors.{Result, ok}
use haven_e2e_messenger.Prelude.Dict.{lookup, insert, lookup-insert_same}
use haven_e2e_messenger.Crypto.Primitives.{Primitives, SealOpens}
use haven_e2e_messenger.Crypto.Hex.{hex, fromhex-hex, IsByte}
use haven_e2e_messenger.Crypto.Ratchet.{
  Envelope, SenderKeyChain, ratchet_step, u64_bytes, chain_encrypt, chain_decrypt, u64_mod,
}
use haven_e2e_messenger.Crypto.Ratchet.Steps.{pack_u64-ok}
use haven_e2e_messenger.Groups.State.{Group, GroupManager, my_pub_hex}
use haven_e2e_messenger.Groups.Letters.{Readable, others, letter, tell_lem}
use haven_e2e_messenger.Groups.Manager.{send_group_message, message_of}
use haven_e2e_messenger.Groups.Inbound.{handle_incoming, on_group_msg}

-- AES-GCM maps bytes to bytes.
abbrev pub SealsBytes : Primitives → Type 0
SealsBytes P =
    (key nonce plain aad : Bytes) → All IsByte plain → All IsByte (P.seal key nonce plain aad)

-- A text that `encode` takes: to bytes, which `decode` takes back to it.
abbrev pub IsText : (Str → Bytes) → (Bytes → Result Str) → Str → Type 0
IsText utf8 from_utf8 s = All IsByte (utf8 s) × (from_utf8 (utf8 s) ≡ ok s)

module _ (P : Primitives) where
  abbrev pub next_chain : SenderKeyChain → SenderKeyChain
  next_chain c = record { chain_key = (ratchet_step P c.chain_key).1; index = c.index + 1 }

  abbrev pub envelope_of : Bytes → Bytes → Bytes → SenderKeyChain → Envelope
  envelope_of nonce plain aad c = record {
    index = c.index;
    nonce = nonce;
    ciphertext = P.seal (ratchet_step P c.chain_key).0 nonce plain (aad ++ u64_bytes c.index);
  }

  pub chain_encrypt-ok :
      (nonce plain aad : Bytes) (c : SenderKeyChain)
      → c.index < u64_mod
      → chain_encrypt P nonce plain aad c ≡ (ok (envelope_of nonce plain aad c), next_chain c)
  unfolding chain_encrypt
  chain_encrypt-ok nonce plain aad c h = rw (pack_u64-ok c.index h) refl

  pub chain_decrypt-ok :
      SealOpens P
      → (nonce plain aad : Bytes) (c : SenderKeyChain) → c.index < u64_mod
      → chain_decrypt P (envelope_of nonce plain aad c) aad c ≡ (ok plain, next_chain c)
  unfolding chain_decrypt
  chain_decrypt-ok opens nonce plain aad c h = ground (
    arith,
    pack_u64-ok c.index h,
    opens (ratchet_step P c.chain_key).0 nonce plain (aad ++ u64_bytes c.index),
  )

module _ (P : Primitives) (utf8 : Str → Bytes) (from_utf8 : Bytes → Result Str) where
  -- A member whose copy of the sender's chain opens an envelope stores the text, under the sender's
  -- key, and keeps the moved chain in memory and in the store.
  pub handle_incoming-message :
      (drawn sender : Bytes) (group_id body kind : Str) (e : Envelope) (g : Group)
      (c c' : SenderKeyChain) (s : GroupManager)
      → All IsByte e.nonce
      → All IsByte e.ciphertext
      → lookup group_id s.groups ≡ some g
      → lookup (hex sender) g.peer_chains ≡ some c
      → chain_decrypt P e (utf8 group_id) c ≡ (ok (utf8 body), c')
      → from_utf8 (utf8 body) ≡ ok body
      → let g' = record g { peer_chains = insert (hex sender) c' g.peer_chains } in
        handle_incoming P utf8 from_utf8 drawn sender (message_of group_id kind e) s ≡ (
          ok tt,
          record s {
            groups = insert group_id g' s.groups;
            saved = insert group_id g' s.saved;
            history =
                s.history
                ++ (record { group_id = group_id; sender = hex sender; body = body; kind = kind }
                    ∷ []);
          },
        )
  unfolding handle_incoming on_group_msg
  handle_incoming-message drawn sender group_id body kind e g c c' s nb cb there copy opens back =
      rw there (
        rw copy (
          rw (fromhex-hex e.nonce nb) (
            rw (fromhex-hex e.ciphertext cb) (
              rw opens (
                rw back (
                  rw
                    (lookup-insert_same group_id
                      (record g { peer_chains = insert (hex sender) c' g.peer_chains }) s.groups)
                    refl))))))

  -- What sending does: the group's own chain moves on, the text is stored, and every other member gets
  -- the envelope once.
  abbrev pub after_send : Bytes → Str → Str → Str → Group → GroupManager → GroupManager
  after_send nonce group_id body kind g s =
      let g' = record g { my_chain = next_chain P g.my_chain } in
      let frame =
        message_of group_id kind (envelope_of P nonce (utf8 body) (utf8 group_id) g.my_chain) in
      record s {
        groups = insert group_id g' s.groups;
        saved = insert group_id g' s.saved;
        history =
            s.history
            ++ (record { group_id = group_id; sender = my_pub_hex s; body = body; kind = kind }
                ∷ []);
        sent = s.sent ++ map (letter frame) (others (my_pub_hex s ∷ []) g.members);
      }

  pub send_group_message_lem :
      (nonce : Bytes) (group_id body kind : Str) (g : Group) (s : GroupManager)
      → lookup group_id s.groups ≡ some g
      → g.my_chain.index < u64_mod
      → All Readable g.members
      → send_group_message P utf8 nonce group_id body kind s
        ≡ (ok tt, after_send nonce group_id body kind g s)
  unfolding send_group_message
  send_group_message_lem nonce group_id body kind g s there room readable =
      let g' = record g { my_chain = next_chain P g.my_chain } in
      let frame =
        message_of group_id kind (envelope_of P nonce (utf8 body) (utf8 group_id) g.my_chain) in
      let before_telling = record s {
        groups = insert group_id g' s.groups;
        saved = insert group_id g' s.saved;
        history =
            s.history
            ++ (record { group_id = group_id; sender = my_pub_hex s; body = body; kind = kind }
                ∷ []);
      } in
      rw there (
        rw (chain_encrypt-ok P nonce (utf8 body) (utf8 group_id) g.my_chain room) (
          rw (lookup-insert_same group_id g' s.groups)
            (tell_lem (my_pub_hex s ∷ []) frame g.members before_telling readable)))
