-- ===== src/Network/Direct.antt =====
-- Sessions over direct sockets in haven/network.py: `_handle_inbound`, `connect_to_peer`, `_read_loop`
-- and `stop`. What a socket gives is a list of frames, each with what its handler may draw, or the
-- exceptions that reading raises; the end of the list is the end of the stream.
pub mod Ending
use haven_e2e_messenger.Prelude.{
  ℕ, Str, Bytes, Bool, true, false, Option, none, some, List, [], ◌∷◌, ◌++◌, if◌then◌else◌, ◌==◌,
  bytes_eq, nat_eq,
}
use haven_e2e_messenger.Prelude.Errors.{
  Exn, Result, ok, err, or_raise, connection_error, attribute_error, os_error, value_error,
  is_socket_or_value,
}
use haven_e2e_messenger.Prelude.Exec.{
  Exec, pure, raise, lift, gets, modify, skip, try_pass, ◌>>=◌, ◌>>◌,
}
use haven_e2e_messenger.Prelude.Dict.{lookup, insert, erase, values}
use haven_e2e_messenger.Crypto.Primitives.{Primitives}
use haven_e2e_messenger.Crypto.Keys.{KeyPair, from_private_bytes}
use haven_e2e_messenger.Storage.Tables.{StoreTools}
use haven_e2e_messenger.Network.State.{
  Frame, hello, hello_ack, msg, other_type, not_a_dict, direct, PeerConnection, NetworkManager, Net,
  Callback, on_status, disconnected, call, send_frame, close_sock, close_old, current, bytes_of,
  derive_session, fingerprint_with, register_peer, hello_of, ack_of,
}
use haven_e2e_messenger.Network.Messages.{Drawn, handle_incoming_msg}

-- `except (ConnectionError, OSError, ValueError)`
abbrev pub is_read_error : Exn → Bool
is_read_error connection_error = true
is_read_error os_error = true
is_read_error value_error = true
is_read_error _ = false

abbrev pub Arriving : Type 0
Arriving = List (Drawn × Result Frame)

abbrev pub is_current : Option ℕ → ℕ → Bool
is_current none id = false
is_current (some now) id = now == id

-- The `finally` block of `_read_loop`.
abbrev pub drop_connection : ℕ → Str → NetworkManager → NetworkManager
drop_connection id fp s =
    let connections =
      if is_current (current fp s) id then erase fp s.connections else s.connections in
    record s { connections = connections; calls = s.calls ++ (on_status fp disconnected ∷ []) }

-- `except …: sock.close()`
abbrev pub closing : Bool → Exn → ℕ → Net (Unit {0})
closing true e sock = modify (close_sock sock)
closing false e sock = raise e

abbrev pub close_on : {A : Type 0} → ℕ → Result A → Net (Unit {0})
close_on sock (ok a) = skip
close_on sock (err e) = closing (is_socket_or_value e) e sock

module _ (P : Primitives) (T : StoreTools) where
  abbrev pub handle_turn : Drawn → ℕ → Bytes → Frame → Net (Unit {0})
  handle_turn drawn id identity_pub (msg index nonce ciphertext kind) =
      handle_incoming_msg P T drawn identity_pub (some id) index nonce ciphertext kind
  handle_turn drawn id identity_pub not_a_dict = raise attribute_error
  handle_turn drawn id identity_pub _ = skip

  unfoldable pub read_turns : ℕ → Bytes → Arriving → Net (Unit {0})
  read_turns id identity_pub [] = raise connection_error
  read_turns id identity_pub ((drawn, arriving) ∷ rest) = do
    frame ← lift arriving
    handle_turn drawn id identity_pub frame
    read_turns id identity_pub rest

  -- `_read_loop`: an exception that it does not catch goes on after the `finally` block.
  unfoldable pub read_loop : ℕ → Bytes → Str → Arriving → Net (Unit {0})
  unfolding read_turns
  read_loop id identity_pub fp arriving s =
      let (result, s') = try_pass is_read_error (read_turns id identity_pub arriving) s in
      (result, drop_connection id fp s')

  abbrev pub direct_connection : Bool → ℕ → KeyPair → Bytes → Bytes → Str → Net (Str × ℕ)
  direct_connection is_initiator sock my_ephemeral their_identity_pub their_ephemeral_pub
        their_username =
      do
        identity ← gets (λ s. s.identity)
        session ← lift (
            derive_session P is_initiator identity my_ephemeral their_identity_pub
              their_ephemeral_pub)
        register_peer P (direct sock) their_username their_identity_pub session

  -- The rest of `_handle_inbound` up to its read loop, on the first frame: the peer's key, its
  -- fingerprint and the connection to read, or nothing where the frame is no `hello`.
  abbrev pub accept_hello : ℕ → Bytes → Frame → Net (Option (Bytes × Str × ℕ))
  accept_hello sock ephemeral (hello username_field identity_field ephemeral_field) = do
    identity_hex ← lift identity_field
    their_identity_pub ← lift (bytes_of identity_hex)
    ephemeral_hex ← lift ephemeral_field
    their_ephemeral_pub ← lift (bytes_of ephemeral_hex)
    their_username ← lift username_field
    let my_ephemeral = from_private_bytes P ephemeral
    frame ← gets (λ s. ack_of s my_ephemeral)
    send_frame sock frame
    (fp, id) ←
        direct_connection false sock my_ephemeral their_identity_pub their_ephemeral_pub
          their_username
    pure (some (their_identity_pub, fp, id))
  accept_hello sock ephemeral not_a_dict = raise attribute_error
  accept_hello sock ephemeral _ = do modify (close_sock sock); pure none

  -- What `_handle_inbound` does from its thread's start until it waits for the second frame.
  unfoldable pub open_inbound : ℕ → Bytes → Result Frame → Net (Unit {0})
  open_inbound sock ephemeral first s =
      let (result, s') = (do frame ← lift first; accept_hello sock ephemeral frame) s in
      close_on sock result s'

  abbrev pub read_opened : Arriving → Option (Bytes × Str × ℕ) → Net (Unit {0})
  read_opened arriving none = skip
  read_opened arriving (some (identity_pub, fp, id)) = read_loop id identity_pub fp arriving

  -- `_handle_inbound`, on the first frame and on what arrives after it.
  unfoldable pub handle_inbound : ℕ → Bytes → Result Frame → Arriving → Net (Unit {0})
  handle_inbound sock ephemeral first arriving s =
      let (result, s') =
        (do
          frame ← lift first
          opened ← accept_hello sock ephemeral frame
          read_opened arriving opened)
          s in
      close_on sock result s'

  abbrev pub accept_direct_ack : ℕ → KeyPair → Frame → Net (Str × ℕ)
  accept_direct_ack sock my_ephemeral (hello_ack username_field identity_field ephemeral_field) = do
    identity_hex ← lift identity_field
    their_identity_pub ← lift (bytes_of identity_hex)
    ephemeral_hex ← lift ephemeral_field
    their_ephemeral_pub ← lift (bytes_of ephemeral_hex)
    their_username ← lift username_field
    direct_connection true sock my_ephemeral their_identity_pub their_ephemeral_pub their_username
  accept_direct_ack sock my_ephemeral not_a_dict = raise attribute_error
  accept_direct_ack sock my_ephemeral _ = do modify (close_sock sock); raise connection_error

  -- `connect_to_peer` until it waits for the answer, on what `connect` gives.
  unfoldable pub hail_peer : ℕ → Bytes → Result (Unit {0}) → Net (Unit {0})
  hail_peer sock ephemeral connects = do
    done ← lift connects
    frame ← gets (λ s. hello_of s (from_private_bytes P ephemeral))
    send_frame sock frame

  -- The rest of `connect_to_peer`, on what the first read gives.
  unfoldable pub take_answer : ℕ → Bytes → Result Frame → Net (Str × ℕ)
  take_answer sock ephemeral first = do
    ack ← lift first
    accept_direct_ack sock (from_private_bytes P ephemeral) ack

  -- `connect_to_peer`: the fingerprint, and the connection that the new thread reads.
  unfoldable pub connect_to_peer : ℕ → Bytes → Result (Unit {0}) → Result Frame → Net (Str × ℕ)
  unfolding hail_peer take_answer
  connect_to_peer sock ephemeral connects first = do
    hail_peer sock ephemeral connects
    take_answer sock ephemeral first

abbrev pub close_each : List ℕ → NetworkManager → NetworkManager
close_each [] s = s
close_each (id ∷ ids) s = close_each ids (close_old (some id) s)

-- `stop`, but for the listening socket.
unfoldable pub stop : NetworkManager → NetworkManager
stop s = close_each (values s.connections) s
