-- ===== src/Network/Relayed/Arrival.antt =====
-- A text that one manager of haven/network.py sends over a relay and the other handles.
use haven_e2e_messenger.Prelude.{
  ◌≡◌, refl, ap, ◌∙◌, ℕ, ◌+◌, ◌<◌, Str, Bytes, false, some, [], ◌∷◌, ◌++◌, bytes_eq, nat_eq,
  contains, All,
}
use haven_e2e_messenger.Prelude.Errors.{
  Result, ok, or_raise, key_error, connection_error, is_key_or_value,
}
use haven_e2e_messenger.Prelude.Exec.{Exec, bind_returned, lift_returned, try_pass-returned}
use haven_e2e_messenger.Prelude.Dict.{lookup, insert, lookup-insert_same}
use haven_e2e_messenger.Crypto.Primitives.{Primitives, SealOpens}
use haven_e2e_messenger.Crypto.Hex.{hex, fromhex-hex, IsByte}
use haven_e2e_messenger.Crypto.Ratchet.{
  Envelope, RatchetSession, SenderKeyChain, u64_mod, session_encrypt, session_decrypt,
  chain_decrypt,
}
use haven_e2e_messenger.Crypto.Ratchet.Wire.{SealsBytes, chain_encrypt-HasBytes}
use haven_e2e_messenger.Crypto.Ratchet.Steps.{
  send_half, recv_half, with_send, with_recv, session_encrypt_lem, session_decrypt_lem,
  chain_decrypt-chain_encrypt,
}
use haven_e2e_messenger.Storage.Tables.{StoreTools, incoming, outgoing, save_session, save_message}
use haven_e2e_messenger.Network.State.{
  Frame, relay, PeerConnection, NetworkManager, by_relay, on_message, current, peer,
  fingerprint_with, send_raw,
}
use haven_e2e_messenger.Network.Messages.{
  Drawn, envelope_of, with_session, on_session, store_session, receive_on, handle_incoming_msg,
  send_text, msg_frame,
}
use haven_e2e_messenger.Network.Relayed.{on_relay_frame}

-- The manager's current connection under that fingerprint.
abbrev pub HasConnection : Str → ℕ → PeerConnection → NetworkManager → Type 0
HasConnection fp id conn s = (current fp s ≡ some id) × (peer id s ≡ some conn)

on_session-returned :
    {A : Type 0} (id : ℕ) (conn : PeerConnection) (act : Exec RatchetSession A) (s : NetworkManager)
    {r : Result A} {session : RatchetSession}
    → act conn.session ≡ (r, session)
    → peer id s ≡ some conn
    → on_session id conn act s ≡ (r, with_session session id (some conn) s)
on_session-returned id conn act s {r} {session} acted here =
    ap (λ (x : Result _ × RatchetSession). (x.0, with_session x.1 id (peer id s) s)) acted
    ∙ ap (λ o. (r, with_session session id o s)) here

send_raw-returned :
    (client : ℕ) (conn : PeerConnection) (frame : Frame) (s : NetworkManager)
    → conn.transport ≡ relay client
    → contains client s.offline ≡ false
    → send_raw conn frame s
      ≡ (ok tt, record s { sent = s.sent ++ (by_relay client conn.identity_pub frame ∷ []) })
unfolding send_raw
send_raw-returned client conn frame s over online = rw (send_raw, over) (rw online refl)

module _ (P : Primitives) (T : StoreTools) where
  abbrev pub with_new_session :
      ℕ → PeerConnection → RatchetSession → NetworkManager → NetworkManager
  with_new_session id conn session s = record s {
    peers = insert id (record conn { session = session }) s.peers;
  }

  store_session-returned :
      (nonce : Bytes) (fp : Str) (id : ℕ) (conn : PeerConnection) (session : RatchetSession)
      (s : NetworkManager)
      → store_session P T nonce fp id (with_new_session id conn session s) ≡ (
        ok tt,
        record (with_new_session id conn session s) {
          store = save_session P s.identity T nonce fp session s.store;
        },
      )
  store_session-returned nonce fp id conn session s =
      lift_returned
        (or_raise (lookup id (insert id (record conn { session = session }) s.peers)) key_error) _
        (with_new_session id conn session s)
        (ap (λ o. or_raise o key_error)
          (lookup-insert_same id (record conn { session = session }) s.peers))

  -- The state after a text was sent over a relay.
  abbrev pub after_sending :
      Drawn
      → Str
      → Str
      → Str
      → ℕ
      → ℕ
      → PeerConnection
      → Envelope
      → RatchetSession
      → NetworkManager
      → NetworkManager
  after_sending drawn fp body kind client id conn e session s =
      record (with_new_session id conn session s) {
        sent = s.sent ++ (by_relay client conn.identity_pub (msg_frame P T e kind) ∷ []);
        store =
            save_message P s.identity T drawn.row_nonce drawn.now fp outgoing body kind
              (save_session P s.identity T drawn.session_nonce fp session s.store);
      }

  send_text-returned :
      (drawn : Drawn) (fp body kind : Str) (client id : ℕ) (conn : PeerConnection) (e : Envelope)
      (session : RatchetSession) (s : NetworkManager)
      → HasConnection fp id conn s
      → conn.transport ≡ relay client
      → contains client s.offline ≡ false
      → session_encrypt P drawn.nonce (T.utf8 body) s.identity.public_bytes conn.session
        ≡ (ok e, session)
      → send_text P T drawn fp body kind s
        ≡ (ok tt, after_sending drawn fp body kind client id conn e session s)
  unfolding send_text
  send_text-returned drawn fp body kind client id conn e session s (now, here) over online made =
      lift_returned (or_raise (current fp s) connection_error) _ s
        (ap (λ o. or_raise o connection_error) now)
      ∙ lift_returned (or_raise (peer id s) key_error) _ s (ap (λ o. or_raise o key_error) here)
      ∙ bind_returned
          (on_session id conn (session_encrypt P drawn.nonce (T.utf8 body) s.identity.public_bytes))
          _ s
          (on_session-returned id conn
            (session_encrypt P drawn.nonce (T.utf8 body) s.identity.public_bytes) s made here)
      ∙ bind_returned (store_session P T drawn.session_nonce fp id) _
          (with_new_session id conn session s)
          (store_session-returned drawn.session_nonce fp id conn session s)
      ∙ bind_returned (send_raw conn (msg_frame P T e kind)) _
          (record (with_new_session id conn session s) {
            store = save_session P s.identity T drawn.session_nonce fp session s.store;
          })
          (send_raw-returned client conn (msg_frame P T e kind)
            (record (with_new_session id conn session s) {
              store = save_session P s.identity T drawn.session_nonce fp session s.store;
            })
            over online)

  -- The state after the text arrived.
  abbrev pub after_receiving :
      Drawn → Str → Str → ℕ → PeerConnection → RatchetSession → NetworkManager → NetworkManager
  after_receiving drawn body kind id conn session s = record (with_new_session id conn session s) {
    store =
        save_message P s.identity T drawn.row_nonce drawn.now conn.fingerprint incoming body kind
          (save_session P s.identity T drawn.session_nonce conn.fingerprint session s.store);
    calls = s.calls ++ (on_message conn.fingerprint kind body conn.identity_pub ∷ []);
  }

  envelope_of-returned :
      (e : Envelope) (s : NetworkManager)
      → All IsByte e.nonce
      → All IsByte e.ciphertext
      → envelope_of (ok e.index) (ok (hex e.nonce)) (ok (hex e.ciphertext)) s ≡ (ok e, s)
  envelope_of-returned e s nonce_bytes ciphertext_bytes =
      rw (fromhex-hex e.nonce nonce_bytes) (rw (fromhex-hex e.ciphertext ciphertext_bytes) refl)

  receive_on-returned :
      (drawn : Drawn) (body kind : Str) (id : ℕ) (conn : PeerConnection) (e : Envelope)
      (session : RatchetSession) (s : NetworkManager)
      → peer id s ≡ some conn
      → All IsByte e.nonce
      → All IsByte e.ciphertext
      → T.from_utf8 (T.utf8 body) ≡ ok body
      → session_decrypt P e conn.identity_pub conn.session ≡ (ok (T.utf8 body), session)
      → receive_on P T drawn id (ok e.index) (ok (hex e.nonce)) (ok (hex e.ciphertext)) kind s
        ≡ (ok tt, after_receiving drawn body kind id conn session s)
  receive_on-returned drawn body kind id conn e session s here nonce_bytes ciphertext_bytes back
        opened =
      bind_returned (envelope_of (ok e.index) (ok (hex e.nonce)) (ok (hex e.ciphertext))) _ s
        (envelope_of-returned e s nonce_bytes ciphertext_bytes)
      ∙ lift_returned (or_raise (peer id s) key_error) _ s (ap (λ o. or_raise o key_error) here)
      ∙ bind_returned (on_session id conn (session_decrypt P e conn.identity_pub)) _ s
          (on_session-returned id conn (session_decrypt P e conn.identity_pub) s opened here)
      ∙ lift_returned (T.from_utf8 (T.utf8 body)) _ (with_new_session id conn session s) back
      ∙ bind_returned (store_session P T drawn.session_nonce conn.fingerprint id) _
          (with_new_session id conn session s)
          (store_session-returned drawn.session_nonce conn.fingerprint id conn session s)

  on_relay_frame-msg :
      (drawn : Drawn) (fresh : Bytes) (relay_key body kind : Str) (sender : Bytes) (id : ℕ)
      (conn : PeerConnection) (e : Envelope) (session : RatchetSession) (s : NetworkManager)
      → HasConnection (fingerprint_with P sender s) id conn s
      → All IsByte sender
      → All IsByte e.nonce
      → All IsByte e.ciphertext
      → T.from_utf8 (T.utf8 body) ≡ ok body
      → session_decrypt P e conn.identity_pub conn.session ≡ (ok (T.utf8 body), session)
      → on_relay_frame P T drawn fresh relay_key (hex sender) (msg_frame P T e kind) s
        ≡ (ok tt, after_receiving drawn body kind id conn session s)
  unfolding on_relay_frame handle_incoming_msg
  on_relay_frame-msg drawn fresh relay_key body kind sender id conn e session s (now, here)
        key_bytes nonce_bytes ciphertext_bytes back opened =
      rw (fromhex-hex sender key_bytes) (
        rw now (
          try_pass-returned is_key_or_value
            (receive_on P T drawn id (ok e.index) (ok (hex e.nonce)) (ok (hex e.ciphertext)) kind) s
            (receive_on-returned drawn body kind id conn e session s here nonce_bytes
              ciphertext_bytes back opened)))

-- A text that one side sends over a relay arrives: sending does not raise, hands the relay client one
-- frame and stores the text as outgoing; the other side, handling that frame, does not raise, stores the
-- text as incoming and reports it to its callback with its kind and its sender; and the two sessions are
-- in step again. Conditions: both have a current connection, the receiver's under the sender's key, the
-- receiving half of one session is the sending half of the other, the relay client is online, fewer than
-- 2^64 messages were sent, the text encodes, what was sealed opens, and keys, nonces, encoded
-- texts and ciphertexts of bytes consist of bytes.
pub text_arrives :
    (P : Primitives) (opens : SealOpens P) (seals : SealsBytes P) (T : StoreTools)
    (sending receiving : Drawn) (fresh : Bytes) (relay_key fp body kind : Str)
    (client a_id b_id : ℕ) (a_conn b_conn : PeerConnection) (alice bob : NetworkManager)
    → HasConnection fp a_id a_conn alice
    → a_conn.transport ≡ relay client
    → contains client alice.offline ≡ false
    → HasConnection (fingerprint_with P alice.identity.public_bytes bob) b_id b_conn bob
    → b_conn.identity_pub ≡ alice.identity.public_bytes
    → recv_half b_conn.session ≡ send_half a_conn.session
    → a_conn.session.send_index < u64_mod
    → T.from_utf8 (T.utf8 body) ≡ ok body
    → All IsByte alice.identity.public_bytes
    → All IsByte sending.nonce
    → All IsByte (T.utf8 body)
    → (e : Envelope) × (a_session : RatchetSession) × (b_session : RatchetSession) × (send_text P T
          sending fp body kind alice
        ≡ (ok tt, after_sending P T sending fp body kind client a_id a_conn e a_session alice))
      × (on_relay_frame P T receiving fresh relay_key
            (hex alice.identity.public_bytes)
            (msg_frame P T e kind)
            bob
          ≡ (ok tt, after_receiving P T receiving body kind b_id b_conn b_session bob))
      × (recv_half b_session ≡ send_half a_session)
      × (a_session.send_index ≡ a_conn.session.send_index + 1)
text_arrives P opens seals T sending receiving fresh relay_key fp body kind client a_id b_id a_conn
      b_conn alice bob a_has over online b_has known in_step room back key_bytes nonce_bytes
      body_bytes =
    let me = alice.identity.public_bytes in
    let (e, c, made, opened, next) =
      chain_decrypt-chain_encrypt P opens sending.nonce (T.utf8 body) me (send_half a_conn.session)
        room in
    let e_bytes =
      chain_encrypt-HasBytes P seals sending.nonce (T.utf8 body) me nonce_bytes body_bytes
        (send_half a_conn.session) c e made in
    let a_session = with_send a_conn.session c in
    let b_session = with_recv b_conn.session c in
    let encrypts : session_encrypt P sending.nonce (T.utf8 body) me a_conn.session
        ≡ (ok e, a_session) =
      session_encrypt_lem P sending.nonce (T.utf8 body) me a_conn.session
      ∙ ap (λ (x : Result Envelope × SenderKeyChain). (x.0, with_send a_conn.session x.1)) made in
    let decrypts : session_decrypt P e b_conn.identity_pub b_conn.session
        ≡ (ok (T.utf8 body), b_session) =
      ap (λ k. session_decrypt P e k b_conn.session) known
      ∙ session_decrypt_lem P e me b_conn.session
      ∙ ap (λ (x : Result Bytes × SenderKeyChain). (x.0, with_recv b_conn.session x.1))
          (ap (chain_decrypt P e me) in_step ∙ opened) in
    (
      e,
      a_session,
      b_session,
      send_text-returned P T sending fp body kind client a_id a_conn e a_session alice a_has over
          online encrypts,
      on_relay_frame-msg P T receiving fresh relay_key body kind me b_id b_conn e b_session bob
          b_has key_bytes e_bytes.0 e_bytes.1 back decrypts,
      refl,
      next,
    )
