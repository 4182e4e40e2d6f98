-- ===== src/Network/Relayed.antt =====
-- Sessions over a relay in haven/network.py: `attach_relay`, `detach_relay`, `connect_relay`,
-- `_on_relay_frame`, `_handle_relay_hello` and `_handle_relay_hello_ack`.
pub mod Opened
pub mod Agreed
pub mod Arrival
use haven_e2e_messenger.Prelude.{
  ℕ, Str, Bytes, Bool, true, false, Option, none, some, List, [], ◌∷◌, ◌++◌, if◌then◌else◌, ◌||◌,
  bytes_eq,
}
use haven_e2e_messenger.Prelude.Errors.{
  Exn, Result, ok, err, or_raise, connection_error, attribute_error, is_key_or_value,
}
use haven_e2e_messenger.Prelude.Exec.{
  Exec, pure, raise, lift, gets, modify, skip, try_pass, ◌>>=◌, ◌>>◌,
}
use haven_e2e_messenger.Prelude.Dict.{lookup, insert, erase, has_key}
use haven_e2e_messenger.Crypto.Primitives.{Primitives}
use haven_e2e_messenger.Crypto.Hex.{hex}
use haven_e2e_messenger.Crypto.Keys.{KeyPair, from_private_bytes}
use haven_e2e_messenger.Storage.Tables.{StoreTools}
use haven_e2e_messenger.Network.State.{
  Frame, hello, hello_ack, msg, other_type, not_a_dict, relay, PeerConnection, NetworkManager, Net,
  send_to, bytes_of, derive_session, fingerprint_with, register_peer, hello_of, ack_of,
}
use haven_e2e_messenger.Network.Messages.{Drawn, handle_incoming_msg, is_connected}

-- `attach_relay`; the client calls `_on_relay_frame` with its key from then on.
unfoldable pub attach_relay : Str → ℕ → NetworkManager → NetworkManager
attach_relay relay_key client s = record s { relays = insert relay_key client s.relays }

-- `detach_relay`
unfoldable pub detach_relay : Str → NetworkManager → NetworkManager
detach_relay relay_key s = record s { relays = erase relay_key s.relays }

module _ (P : Primitives) where
  abbrev pub forget_unsent : Bytes → Bool → Net (Unit {0})
  forget_unsent identity_pub true = skip
  forget_unsent identity_pub false = do
    modify (λ s. record s { pending = erase (hex identity_pub) s.pending })
    raise connection_error

  -- The handshake's start, on the bytes of the new ephemeral key.
  abbrev pub begin_handshake : Bytes → Bytes → Str → ℕ → Str → Net Str
  begin_handshake ephemeral identity_pub relay_key client fp = do
    let my_ephemeral = from_private_bytes P ephemeral
    modify
        (λ s. record s { pending = insert (hex identity_pub) (my_ephemeral, relay_key) s.pending })
    frame ← gets (λ s. hello_of s my_ephemeral)
    sent ← send_to client identity_pub frame
    forget_unsent identity_pub sent
    pure fp

  -- `connect_relay`
  unfoldable pub connect_relay : Bytes → Bytes → Option Str → Net Str
  unfolding is_connected
  connect_relay ephemeral identity_pub none = raise connection_error
  connect_relay ephemeral identity_pub (some relay_key) = do
    found ← gets (λ s. lookup relay_key s.relays)
    client ← lift (or_raise found connection_error)
    fp ← gets (fingerprint_with P identity_pub)
    here ← gets (is_connected fp)
    in_flight ← gets (λ s. has_key (hex identity_pub) s.pending)
    if here || in_flight
        then pure fp
        else begin_handshake ephemeral identity_pub relay_key client fp

  -- What the two handlers of a handshake frame share: the connection over the relay client.
  abbrev pub establish : Bool → KeyPair → Bytes → Result Str → Result Str → ℕ → Net (Unit {0})
  establish is_initiator my_ephemeral their_identity_pub username_field ephemeral_field client = do
    their_ephemeral_hex ← lift ephemeral_field
    their_ephemeral_pub ← lift (bytes_of their_ephemeral_hex)
    their_username ← lift username_field
    identity ← gets (λ s. s.identity)
    session ←
        lift (
          derive_session P is_initiator identity my_ephemeral their_identity_pub
            their_ephemeral_pub)
    registered ← register_peer P (relay client) their_username their_identity_pub session
    skip

  abbrev pub answer_hello : Bytes → Bytes → Result Str → Result Str → Option ℕ → Net (Unit {0})
  answer_hello ephemeral their_identity_pub username_field ephemeral_field none = skip
  answer_hello ephemeral their_identity_pub username_field ephemeral_field (some client) = do
    let my_ephemeral = from_private_bytes P ephemeral
    establish false my_ephemeral their_identity_pub username_field ephemeral_field client
    frame ← gets (λ s. ack_of s my_ephemeral)
    sent ← send_to client their_identity_pub frame
    skip

  -- `_handle_relay_hello`
  unfoldable pub handle_relay_hello : Bytes → Str → Bytes → Result Str → Result Str → Net (Unit {0})
  handle_relay_hello ephemeral relay_key their_identity_pub username_field ephemeral_field = do
    found ← gets (λ s. lookup relay_key s.relays)
    answer_hello ephemeral their_identity_pub username_field ephemeral_field found

  abbrev pub finish_handshake :
      KeyPair → Bytes → Result Str → Result Str → Option ℕ → Net (Unit {0})
  finish_handshake my_ephemeral their_identity_pub username_field ephemeral_field none = skip
  finish_handshake my_ephemeral their_identity_pub username_field ephemeral_field (some client) =
      establish true my_ephemeral their_identity_pub username_field ephemeral_field client

  abbrev pub accept_ack :
      Str → Bytes → Result Str → Result Str → Option (KeyPair × Str) → Net (Unit {0})
  accept_ack relay_key their_identity_pub username_field ephemeral_field none = skip
  accept_ack relay_key their_identity_pub username_field ephemeral_field
        (some (my_ephemeral, expected_relay_key)) =
      do
        found ← gets (λ s. lookup relay_key s.relays)
        finish_handshake my_ephemeral their_identity_pub username_field ephemeral_field found

  -- `_handle_relay_hello_ack`: the pending key is popped first.
  unfoldable pub handle_relay_hello_ack : Str → Bytes → Result Str → Result Str → Net (Unit {0})
  handle_relay_hello_ack relay_key their_identity_pub username_field ephemeral_field = do
    pending ← gets (λ s. lookup (hex their_identity_pub) s.pending)
    modify (λ s. record s { pending = erase (hex their_identity_pub) s.pending })
    accept_ack relay_key their_identity_pub username_field ephemeral_field pending

  module _ (T : StoreTools) where
    -- `payload.get` stands before the `try`.
    abbrev pub dispatch : Drawn → Bytes → Str → Bytes → Frame → Net (Unit {0})
    dispatch drawn ephemeral relay_key sender_pub (hello username identity_pub ephemeral_pub) =
        try_pass is_key_or_value
          (handle_relay_hello ephemeral relay_key sender_pub username ephemeral_pub)
    dispatch drawn ephemeral relay_key sender_pub (hello_ack username identity_pub ephemeral_pub) =
        try_pass is_key_or_value
          (handle_relay_hello_ack relay_key sender_pub username ephemeral_pub)
    dispatch drawn ephemeral relay_key sender_pub (msg index nonce ciphertext kind) =
        try_pass is_key_or_value
          (handle_incoming_msg P T drawn sender_pub none index nonce ciphertext kind)
    dispatch drawn ephemeral relay_key sender_pub other_type = skip
    dispatch drawn ephemeral relay_key sender_pub not_a_dict = raise attribute_error

    -- `_on_relay_frame`, on what the handler may draw.
    unfoldable pub on_relay_frame : Drawn → Bytes → Str → Str → Frame → Net (Unit {0})
    on_relay_frame drawn ephemeral relay_key sender_pub_hex payload = do
      sender_pub ← lift (bytes_of sender_pub_hex)
      dispatch drawn ephemeral relay_key sender_pub payload
