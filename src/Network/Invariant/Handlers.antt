-- ===== src/Network/Invariant/Handlers.antt =====
-- The message handlers and the direct sockets of haven/network.py keep the connections sound.
use haven_e2e_messenger.Prelude.{
  ℕ, Str, Bytes, Bool, true, false, Option, none, some, bytes_eq, nat_eq,
}
use haven_e2e_messenger.Prelude.Errors.{
  Exn, Result, or_raise, connection_error, key_error, ok, err, is_socket_or_value,
}
use haven_e2e_messenger.Prelude.Exec.{lift, modify, ◌>>◌, ◌>>=◌, bind-Preserves}
use haven_e2e_messenger.Crypto.Primitives.{Primitives}
use haven_e2e_messenger.Crypto.Keys.{KeyPair, from_private_bytes}
use haven_e2e_messenger.Crypto.Ratchet.{session_decrypt, session_encrypt}
use haven_e2e_messenger.Storage.Tables.{StoreTools, incoming, outgoing, save_session}
use haven_e2e_messenger.Network.State.{
  call, on_message, Frame, hello, hello_ack, msg, other_type, not_a_dict, direct, send_frame,
  send_raw, bytes_of, derive_session, hello_of, ack_of, fingerprint_with, peer, current,
}
use haven_e2e_messenger.Network.Messages.{
  Drawn, envelope_of, receive_on, receive_if, handle_incoming_msg, send_text, msg_frame,
  store_session, store_message, on_session,
}
use haven_e2e_messenger.Network.Direct.{
  handle_turn, direct_connection, accept_hello, close_on, closing, open_inbound, accept_direct_ack,
  hail_peer, take_answer,
}
use haven_e2e_messenger.Network.Invariant.{IsSound, register_peer-IsSound, on_session-IsSound}
use haven_e2e_messenger.Network.Invariant.Steps.{Holds, lift_then, send_frame-Holds, send_raw-Holds}

module _ (P : Primitives) (T : StoreTools) where
  envelope_of-Holds : (i : Result ℕ) (n c : Result Str) → Holds P (envelope_of i n c)
  envelope_of-Holds i n c = lift_then P i _ λ index. lift_then P n _ λ nonce_hex.
      lift_then P (bytes_of nonce_hex) _ λ nonce.
        lift_then P c _
          λ ciphertext_hex. lift_then P (bytes_of ciphertext_hex) _ λ ciphertext s v. v

  store_session-Holds :
      (nonce : Bytes) (fp : Str) (id : ℕ) → Holds P (store_session P T nonce fp id)
  store_session-Holds nonce fp id s v =
      lift_then P (or_raise (peer id s) key_error)
        (λ conn.
          modify
            (λ s. record s { store = save_session P s.identity T nonce fp conn.session s.store }))
        (λ conn s v. v) s v

  receive_on-Holds :
      (drawn : Drawn) (id : ℕ) (i : Result ℕ) (n c : Result Str) (kind : Str)
      → Holds P (receive_on P T drawn id i n c kind)
  receive_on-Holds drawn id i n c kind =
      bind-Preserves (IsSound P) (envelope_of i n c) _ (envelope_of-Holds i n c) λ envelope s v.
        lift_then P (or_raise (peer id s) key_error) _
          (λ conn.
            bind-Preserves (IsSound P)
              (on_session id conn (session_decrypt P envelope conn.identity_pub)) _
              (on_session-IsSound P id conn (session_decrypt P envelope conn.identity_pub))
              (λ plain. lift_then P (T.from_utf8 plain) _ λ plaintext.
                bind-Preserves (IsSound P)
                  (store_session P T drawn.session_nonce conn.fingerprint id)
                  (λ _.
                    store_message P T drawn conn.fingerprint incoming plaintext kind
                    >> call (on_message conn.fingerprint kind plaintext conn.identity_pub))
                  (store_session-Holds drawn.session_nonce conn.fingerprint id) (λ _ s v. v)))
          s v

  receive_if-Holds :
      (drawn : Drawn) (found : Option ℕ) (i : Result ℕ) (n c : Result Str) (kind : Str)
      → Holds P (receive_if P T drawn found i n c kind)
  receive_if-Holds drawn none i n c kind s v = v
  receive_if-Holds drawn (some id) i n c kind s v = receive_on-Holds drawn id i n c kind s v

  pub handle_incoming_msg-Holds :
      (drawn : Drawn) (sender : Bytes) (found : Option ℕ) (i : Result ℕ) (n c : Result Str)
      (kind : Str)
      → Holds P (handle_incoming_msg P T drawn sender found i n c kind)
  unfolding handle_incoming_msg
  handle_incoming_msg-Holds drawn sender (some id) i n c kind s v =
      receive_on-Holds drawn id i n c kind s v
  handle_incoming_msg-Holds drawn sender none i n c kind s v =
      receive_if-Holds drawn (current (fingerprint_with P sender s) s) i n c kind s v

  pub send_text-Holds :
      (drawn : Drawn) (fp body kind : Str) → Holds P (send_text P T drawn fp body kind)
  unfolding send_text
  send_text-Holds drawn fp body kind s v =
      lift_then P (or_raise (current fp s) connection_error) _
        (λ id s v.
          lift_then P (or_raise (peer id s) key_error) _
            (λ conn s v.
              bind-Preserves (IsSound P)
                (on_session id conn
                  (session_encrypt P drawn.nonce (T.utf8 body) s.identity.public_bytes))
                _
                (on_session-IsSound P id conn
                  (session_encrypt P drawn.nonce (T.utf8 body) s.identity.public_bytes))
                (λ envelope.
                  bind-Preserves (IsSound P) (store_session P T drawn.session_nonce fp id) _
                    (store_session-Holds drawn.session_nonce fp id)
                    (λ _.
                      bind-Preserves (IsSound P) (send_raw conn (msg_frame P T envelope kind))
                        (λ _. store_message P T drawn fp outgoing body kind)
                        (send_raw-Holds P conn (msg_frame P T envelope kind)) (λ _ s v. v)))
                s v)
            s v)
        s v

  pub handle_turn-Holds :
      (drawn : Drawn) (id : ℕ) (their_pub : Bytes) (frame : Frame)
      → Holds P (handle_turn P T drawn id their_pub frame)
  handle_turn-Holds drawn id their_pub (msg i n c kind) =
      handle_incoming_msg-Holds drawn their_pub (some id) i n c kind
  handle_turn-Holds drawn id their_pub (hello u i h) = λ s v. v
  handle_turn-Holds drawn id their_pub (hello_ack u i h) = λ s v. v
  handle_turn-Holds drawn id their_pub other_type = λ s v. v
  handle_turn-Holds drawn id their_pub not_a_dict = λ s v. v

  direct_connection-Holds :
      (b : Bool) (sock : ℕ) (e : KeyPair) (their_pub their_ephemeral : Bytes) (name : Str)
      → Holds P (direct_connection P T b sock e their_pub their_ephemeral name)
  direct_connection-Holds b sock e their_pub their_ephemeral name s v =
      lift_then P (derive_session P b s.identity e their_pub their_ephemeral) _
        (λ session. register_peer-IsSound P (direct sock) name their_pub session) s v

  accept_hello-Holds :
      (sock : ℕ) (ephemeral : Bytes) (frame : Frame)
      → Holds P (accept_hello P T sock ephemeral frame)
  accept_hello-Holds sock ephemeral (hello u i h) = lift_then P i _ λ identity_hex.
      lift_then P (bytes_of identity_hex) _ λ their_pub. lift_then P h _ λ ephemeral_hex.
        lift_then P (bytes_of ephemeral_hex) _ λ their_ephemeral. lift_then P u _ λ name s v.
          let mine = from_private_bytes P ephemeral in
          bind-Preserves (IsSound P) (send_frame sock (ack_of s mine)) _
            (send_frame-Holds P sock (ack_of s mine))
            (λ _.
              bind-Preserves (IsSound P)
                (direct_connection P T false sock mine their_pub their_ephemeral name) _
                (direct_connection-Holds false sock mine their_pub their_ephemeral name)
                (λ _ s v. v))
            s v
  accept_hello-Holds sock ephemeral (hello_ack u i h) = λ s v. v
  accept_hello-Holds sock ephemeral (msg i n c kind) = λ s v. v
  accept_hello-Holds sock ephemeral other_type = λ s v. v
  accept_hello-Holds sock ephemeral not_a_dict = λ s v. v

  closing-Holds : (b : Bool) (e : Exn) (sock : ℕ) → Holds P (closing b e sock)
  closing-Holds true e sock s v = v
  closing-Holds false e sock s v = v

  close_on-Holds : {A : Type 0} (sock : ℕ) (r : Result A) → Holds P (close_on sock r)
  close_on-Holds sock (ok a) s v = v
  close_on-Holds sock (err e) s v = closing-Holds (is_socket_or_value e) e sock s v

  pub open_inbound-Holds :
      (sock : ℕ) (ephemeral : Bytes) (first : Result Frame)
      → Holds P (open_inbound P T sock ephemeral first)
  unfolding open_inbound
  open_inbound-Holds sock ephemeral first s v =
      let opened = lift first >>= accept_hello P T sock ephemeral in
      close_on-Holds sock (opened s).0 (opened s).1 (
        lift_then P first (accept_hello P T sock ephemeral) (accept_hello-Holds sock ephemeral) s v)

  accept_direct_ack-Holds :
      (sock : ℕ) (mine : KeyPair) (frame : Frame) → Holds P (accept_direct_ack P T sock mine frame)
  accept_direct_ack-Holds sock mine (hello_ack u i h) = lift_then P i _ λ identity_hex.
      lift_then P (bytes_of identity_hex) _ λ their_pub. lift_then P h _ λ ephemeral_hex.
        lift_then P (bytes_of ephemeral_hex) _ λ their_ephemeral.
          lift_then P u _
            λ name. direct_connection-Holds true sock mine their_pub their_ephemeral name
  accept_direct_ack-Holds sock mine (hello u i h) = λ s v. v
  accept_direct_ack-Holds sock mine (msg i n c kind) = λ s v. v
  accept_direct_ack-Holds sock mine other_type = λ s v. v
  accept_direct_ack-Holds sock mine not_a_dict = λ s v. v

  pub hail_peer-Holds :
      (sock : ℕ) (ephemeral : Bytes) (connect : Result (Unit {0}))
      → Holds P (hail_peer P T sock ephemeral connect)
  unfolding hail_peer
  hail_peer-Holds sock ephemeral connect = lift_then P connect _ λ _ s v.
      let frame = hello_of s (from_private_bytes P ephemeral) in send_frame-Holds P sock frame s v

  pub take_answer-Holds :
      (sock : ℕ) (ephemeral : Bytes) (first : Result Frame)
      → Holds P (take_answer P T sock ephemeral first)
  unfolding take_answer
  take_answer-Holds sock ephemeral first =
      lift_then P first _ (accept_direct_ack-Holds sock (from_private_bytes P ephemeral))
