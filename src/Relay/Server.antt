-- ===== src/Relay/Server.antt =====
-- `class RelayServer` of haven/relay_server.py: the queue, the registration, the routing and a
-- connection's life. Each method runs as one step: the code holds a lock round each access, and the
-- steps of different connections interleave between methods.
pub mod Mailbox
pub mod Wire
pub mod Registry
pub mod Retention
use haven_e2e_messenger.Prelude.{
  ℕ, suc, ◌+◌, Str, Bytes, Bool, true, false, not, Option, none, some, List, [], ◌∷◌, ◌++◌, keep,
  if◌then◌else◌, ◌==◌, nat_eq, bytes_eq, eqb,
}
use haven_e2e_messenger.Prelude.Errors.{
  Exn, Result, ok, err, key_error, is_socket_or_value, attribute_error, os_error, connection_error,
}
use haven_e2e_messenger.Prelude.Exec.{Exec, lift, gets, modify, skip, raise, try_pass, ◌>>=◌, ◌>>◌}
use haven_e2e_messenger.Prelude.Dict.{lookup, insert, erase}
use haven_e2e_messenger.Relay.State.{
  Payload, ClientHandle, ServerFrame, registered, relay, Row, RelayServer, send, close, transmit,
}
use haven_e2e_messenger.Crypto.Primitives.{Primitives}
use haven_e2e_messenger.Relay.Handshake.{InitFrame, ProofFrame, Registration, do_handshake_sync}

-- A client's frame, as `_handle_frame` reads it. A field holds its value or what reading it raises.
pub data ClientFrame : Type 0 where
  relay_to : Result Str → Result Payload → ClientFrame
  ack : Result ℕ → ClientFrame
  other_type : ClientFrame
  not_a_dict : ClientFrame

-- `_enqueue`
unfoldable pub enqueue : Str → Str → Payload → Exec RelayServer ℕ
enqueue recipient sender payload s =
    let id = suc s.last_id in
    let row : Row = record { id = id; recipient = recipient; sender = sender; payload = payload } in
    (ok id, record s { queue = s.queue ++ (row ∷ []); last_id = id })

-- `_delete_queued`: every row with that id goes.
unfoldable pub delete_queued : ℕ → Exec RelayServer (Unit {0})
delete_queued msg_id s =
    (ok tt, record s { queue = keep (λ (r : Row). not (r.id == msg_id)) s.queue })

-- `except OSError: pass`
abbrev is_os_error : Exn → Bool
is_os_error os_error = true
is_os_error connection_error = true
is_os_error _ = false

abbrev deliver_to : Option ClientHandle → Str → Payload → ℕ → Exec RelayServer (Unit {0})
deliver_to none sender payload msg_id = skip
deliver_to (some handle) sender payload msg_id =
    try_pass is_os_error (send handle (relay sender payload msg_id))

-- `_try_deliver`
unfoldable pub try_deliver : Str → Str → Payload → ℕ → Exec RelayServer (Unit {0})
try_deliver recipient sender payload msg_id s =
    deliver_to (lookup recipient s.clients) sender payload msg_id s

abbrev pub rows_for : Str → List Row → List Row
rows_for recipient = keep (λ (r : Row). r.recipient == recipient)

unfoldable pub deliver_rows : Str → List Row → Exec RelayServer (Unit {0})
deliver_rows recipient [] = skip
deliver_rows recipient (r ∷ rows) = do
  try_deliver recipient r.sender r.payload r.id
  deliver_rows recipient rows

-- `_flush_queue`: the queue is in the order of its ids.
unfoldable pub flush_queue : Str → Exec RelayServer (Unit {0})
flush_queue recipient s = deliver_rows recipient (rows_for recipient s.queue) s

abbrev close_old : Option ClientHandle → Exec RelayServer (Unit {0})
close_old none = skip
close_old (some old) = close old

-- `_register_client`
unfoldable pub register_client : Str → ClientHandle → Exec RelayServer (Unit {0})
register_client identity_pub_hex handle = do
  old ← gets (λ s. lookup identity_pub_hex s.clients)
  close_old old
  modify (λ s. record s { clients = insert identity_pub_hex handle s.clients })

-- `clients.get(identity) is handle`
abbrev pub same_handle : Option ClientHandle → Option ClientHandle → Bool
same_handle none none = true
same_handle (some a) (some b) = a.serial == b.serial
same_handle _ _ = false

abbrev delete_client : Str → Option ClientHandle → Exec RelayServer (Unit {0})
delete_client identity_pub_hex none = raise key_error
delete_client identity_pub_hex (some _) =
    modify (λ s. record s { clients = erase identity_pub_hex s.clients })

-- `_unregister_client`
unfoldable pub unregister_client : Str → Option ClientHandle → Exec RelayServer (Unit {0})
unregister_client identity_pub_hex handle = do
  current ← gets (λ s. lookup identity_pub_hex s.clients)
  if same_handle current handle then delete_client identity_pub_hex current else skip

-- `_handle_frame`
unfoldable pub handle_frame : ClientFrame → Str → Exec RelayServer (Unit {0})
handle_frame (relay_to to_field payload_field) sender = do
  to ← lift to_field
  payload ← lift payload_field
  msg_id ← enqueue to sender payload
  try_deliver to sender payload msg_id
handle_frame (ack msg_id_field) sender = do msg_id ← lift msg_id_field; delete_queued msg_id
handle_frame other_type sender = skip
handle_frame not_a_dict sender = raise attribute_error

-- `_handle_tcp_client` from the end of its handshake to its loop.
unfoldable pub open_connection : Str → ClientHandle → Exec RelayServer (Unit {0})
open_connection identity_pub_hex handle = do
  register_client identity_pub_hex handle
  send handle registered
  flush_queue identity_pub_hex

-- Its loop, over the frames that arrive before the socket fails.
unfoldable pub serve_frames : Str → List ClientFrame → Exec RelayServer (Unit {0})
serve_frames identity_pub_hex [] = raise connection_error
serve_frames identity_pub_hex (frame ∷ frames) = do
  handle_frame frame identity_pub_hex
  serve_frames identity_pub_hex frames

-- The `finally` block runs whatever was raised; then the exception goes on.
abbrev pub finally_do :
    Exec RelayServer (Unit {0}) → Result (Unit {0}) → Exec RelayServer (Unit {0})
finally_do cleanup result = do cleanup; lift result

-- `_handle_tcp_client` after a handshake that returned an identity, with no other connection between.
unfoldable pub serve_client : Str → ClientHandle → List ClientFrame → Exec RelayServer (Unit {0})
serve_client identity_pub_hex handle frames s =
    let (result, s') =
      try_pass is_socket_or_value
        (open_connection identity_pub_hex handle >> serve_frames identity_pub_hex frames) s in
    finally_do (unregister_client identity_pub_hex (some handle) >> close handle) result s'

-- The frames of the handshake, given the last one first.
abbrev pub transmit_all : ℕ → List ServerFrame → RelayServer → RelayServer
transmit_all serial [] s = s
transmit_all serial (frame ∷ before) s = transmit serial frame (transmit_all serial before s)

abbrev after_handshake :
    ClientHandle
    → List ClientFrame
    → Result (List ServerFrame × Registration)
    → Exec RelayServer (Unit {0})
after_handshake handle frames (err e) = close handle >> try_pass is_socket_or_value (raise e)
after_handshake handle frames (ok (sent, none)) =
    modify (transmit_all handle.serial sent) >> close handle
after_handshake handle frames (ok (sent, some (identity_pub_hex, username))) =
    modify (transmit_all handle.serial sent) >> serve_client identity_pub_hex handle frames

-- `_handle_tcp_client`: the handshake on the client's first two frames, and the connection after it.
unfoldable pub handle_tcp_client :
    Primitives
    → Bytes
    → Bytes
    → InitFrame
    → ProofFrame
    → ClientHandle
    → List ClientFrame
    → Exec RelayServer (Unit {0})
handle_tcp_client P ephemeral nonce init resp handle frames =
    after_handshake handle frames (do_handshake_sync P ephemeral nonce init resp)

-- What the connections of a running relay do, one step each.
pub data Event : Type 0 where
  connects : Str → ClientHandle → Event
  sends : Str → ClientFrame → Event
  leaves : Str → ClientHandle → Event
  breaks : ℕ → Event

unfoldable pub perform : Event → Exec RelayServer (Unit {0})
perform (connects identity handle) = open_connection identity handle
perform (sends identity frame) = handle_frame frame identity
perform (leaves identity handle) = do unregister_client identity (some handle); close handle
perform (breaks serial) = modify (λ s. record s { broken = serial ∷ s.broken })

-- An exception ends its own connection alone.
unfoldable pub run : List Event → RelayServer → RelayServer
run [] s = s
run (e ∷ events) s = run events (perform e s).1
