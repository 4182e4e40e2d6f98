-- ===== src/Network/Messages.antt =====
-- Messages of haven/network.py: `_handle_incoming_msg`, `send_text`, `is_connected` and
-- `send_when_ready`.
use haven_e2e_messenger.Prelude.{ℕ, Str, Bytes, Bool, Option, none, some, bytes_eq, nat_eq}
use haven_e2e_messenger.Prelude.Errors.{Result, ok, or_raise, connection_error, key_error}
use haven_e2e_messenger.Prelude.Exec.{Exec, pure, lift, gets, modify, skip, ◌>>=◌, ◌>>◌}
use haven_e2e_messenger.Prelude.Dict.{insert, has_key}
use haven_e2e_messenger.Crypto.Primitives.{Primitives}
use haven_e2e_messenger.Crypto.Hex.{hex}
use haven_e2e_messenger.Crypto.Ratchet.{Envelope, RatchetSession, session_encrypt, session_decrypt}
use haven_e2e_messenger.Storage.Tables.{
  Direction, incoming, outgoing, StoreTools, save_session, save_message,
}
use haven_e2e_messenger.Network.State.{
  Frame, msg, PeerConnection, NetworkManager, Net, on_message, call, send_raw, current, peer,
  bytes_of, fingerprint_with,
}

-- What os.urandom and the clock give to one call: the message's nonce, the nonces of the two rows that
-- are stored, and the time.
pub record Drawn : Type 0 where
  pub nonce : Bytes
  pub session_nonce : Bytes
  pub row_nonce : Bytes
  pub now : ℕ

abbrev pub with_session :
    RatchetSession → ℕ → Option PeerConnection → NetworkManager → NetworkManager
with_session session id none s = s
with_session session id (some conn) s = record s {
  peers = insert id (record conn { session = session }) s.peers;
}

-- `conn.session.…` on the connection of that number: it changes the session also where it raises.
abbrev pub on_session : {A : Type 0} → ℕ → PeerConnection → Exec RatchetSession A → Net A
on_session id conn action s =
    let (result, session) = action conn.session in (result, with_session session id (peer id s) s)

abbrev pub envelope_of : Result ℕ → Result Str → Result Str → Net Envelope
envelope_of index_field nonce_field ciphertext_field = do
  index ← lift index_field
  nonce_hex ← lift nonce_field
  nonce ← lift (bytes_of nonce_hex)
  ciphertext_hex ← lift ciphertext_field
  ciphertext ← lift (bytes_of ciphertext_hex)
  pure (record { index = index; nonce = nonce; ciphertext = ciphertext })

abbrev pub get_peer : ℕ → Net PeerConnection
get_peer id s = (or_raise (peer id s) key_error, s)

module _ (P : Primitives) (T : StoreTools) where
  abbrev pub store_session : Bytes → Str → ℕ → Net (Unit {0})
  store_session nonce fp id = do
    conn ← get_peer id
    modify (λ s. record s { store = save_session P s.identity T nonce fp conn.session s.store })

  abbrev pub store_message : Drawn → Str → Direction → Str → Str → Net (Unit {0})
  store_message drawn fp direction plain kind = modify (λ s. record s {
    store = save_message P s.identity T drawn.row_nonce drawn.now fp direction plain kind s.store;
  })

  abbrev pub receive_on : Drawn → ℕ → Result ℕ → Result Str → Result Str → Str → Net (Unit {0})
  receive_on drawn id index_field nonce_field ciphertext_field kind = do
    envelope ← envelope_of index_field nonce_field ciphertext_field
    conn ← get_peer id
    plain ← on_session id conn (session_decrypt P envelope conn.identity_pub)
    plaintext ← lift (T.from_utf8 plain)
    store_session drawn.session_nonce conn.fingerprint id
    store_message drawn conn.fingerprint incoming plaintext kind
    call (on_message conn.fingerprint kind plaintext conn.identity_pub)

  abbrev pub receive_if :
      Drawn → Option ℕ → Result ℕ → Result Str → Result Str → Str → Net (Unit {0})
  receive_if drawn none index_field nonce_field ciphertext_field kind = skip
  receive_if drawn (some id) index_field nonce_field ciphertext_field kind =
      receive_on drawn id index_field nonce_field ciphertext_field kind

  -- `_handle_incoming_msg`, with the reader's connection or, over a relay, without one.
  unfoldable pub handle_incoming_msg :
      Drawn → Bytes → Option ℕ → Result ℕ → Result Str → Result Str → Str → Net (Unit {0})
  handle_incoming_msg drawn sender_identity_pub (some id) index_field nonce_field ciphertext_field
        kind =
      receive_on drawn id index_field nonce_field ciphertext_field kind
  handle_incoming_msg drawn sender_identity_pub none index_field nonce_field ciphertext_field kind =
      do
        fp ← gets (fingerprint_with P sender_identity_pub)
        found ← gets (current fp)
        receive_if drawn found index_field nonce_field ciphertext_field kind

  -- The dict that `send_text` hands to `send_raw`.
  abbrev pub msg_frame : Envelope → Str → Frame
  msg_frame envelope kind =
      msg (ok envelope.index) (ok (hex envelope.nonce)) (ok (hex envelope.ciphertext)) kind

  -- `send_text`
  unfoldable pub send_text : Drawn → Str → Str → Str → Net (Unit {0})
  send_text drawn fp body kind = do
    found ← gets (current fp)
    id ← lift (or_raise found connection_error)
    conn ← get_peer id
    me ← gets (λ s. s.identity.public_bytes)
    envelope ← on_session id conn (session_encrypt P drawn.nonce (T.utf8 body) me)
    store_session drawn.session_nonce fp id
    send_raw conn (msg_frame envelope kind)
    store_message drawn fp outgoing body kind

-- `is_connected`
unfoldable pub is_connected : Str → NetworkManager → Bool
is_connected fp s = has_key fp s.connections
