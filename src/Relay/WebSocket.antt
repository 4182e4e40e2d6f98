-- ===== src/Relay/WebSocket.antt =====
-- A WebSocket connection of haven/relay_server.py: `_handle_ws_client`.
pub mod Cleanup
use haven_e2e_messenger.Prelude.{
  ℕ, Bytes, Str, Bool, Option, none, some, List, [], ◌∷◌, nat_eq, contains, if◌then◌else◌,
}
use haven_e2e_messenger.Prelude.Errors.{Result, ok, err, is_socket_or_value, connection_closed}
use haven_e2e_messenger.Prelude.Exec.{Exec, lift, raise, modify, try_pass, ◌>>=◌, ◌>>◌}
use haven_e2e_messenger.Crypto.Primitives.{Primitives}
use haven_e2e_messenger.Relay.State.{
  ClientHandle, ServerFrame, registered, RelayServer, close, transmit,
}
use haven_e2e_messenger.Relay.Handshake.{InitFrame, ProofFrame, Registration, do_handshake_async}
use haven_e2e_messenger.Relay.Server.{
  ClientFrame, register_client, flush_queue, handle_frame, unregister_client, finally_do,
  transmit_all,
}

-- `await ws.send(…)`, which raises ConnectionClosed on a connection that was closed.
abbrev pub ws_send : ClientHandle → ServerFrame → Exec RelayServer (Unit {0})
ws_send handle frame s =
    if contains handle.serial s.broken
    then (err connection_closed, s)
    else (ok tt, transmit handle.serial frame s)

-- From the end of the handshake to the loop.
unfoldable pub open_ws : Str → ClientHandle → Exec RelayServer (Unit {0})
open_ws identity_pub_hex handle = do
  register_client identity_pub_hex handle
  ws_send handle registered
  flush_queue identity_pub_hex

-- The loop over the frames that arrive. It ends quietly when the client closes the connection, and else
-- with an exception: ConnectionClosed, or ValueError on a message that is not JSON.
unfoldable pub serve_ws_frames :
    Str → List ClientFrame → Result (Unit {0}) → Exec RelayServer (Unit {0})
serve_ws_frames identity_pub_hex [] ending = lift ending
serve_ws_frames identity_pub_hex (frame ∷ frames) ending = do
  handle_frame frame identity_pub_hex
  serve_ws_frames identity_pub_hex frames ending

-- `_handle_ws_client` after a handshake that returned an identity.
unfoldable pub serve_ws_client :
    Str → ClientHandle → List ClientFrame → Result (Unit {0}) → Exec RelayServer (Unit {0})
serve_ws_client identity_pub_hex handle frames ending s =
    let (result, s') =
      try_pass is_socket_or_value
        (open_ws identity_pub_hex handle >> serve_ws_frames identity_pub_hex frames ending) s in
    finally_do (unregister_client identity_pub_hex (some handle)) result s'

abbrev after_ws_handshake :
    ClientHandle
    → List ClientFrame
    → Result (Unit {0})
    → Result (List ServerFrame × Registration)
    → Exec RelayServer (Unit {0})
after_ws_handshake handle frames ending (err e) = try_pass is_socket_or_value (raise e)
after_ws_handshake handle frames ending (ok (sent, none)) =
    modify (transmit_all handle.serial sent) >> close handle
after_ws_handshake handle frames ending (ok (sent, some (identity_pub_hex, username))) =
    modify (transmit_all handle.serial sent)
    >> serve_ws_client identity_pub_hex handle frames ending

-- `_handle_ws_client`: the handshake on the client's first two frames, and the connection after it.
unfoldable pub handle_ws_client :
    Primitives
    → Bytes
    → Bytes
    → InitFrame
    → ProofFrame
    → ClientHandle
    → List ClientFrame
    → Result (Unit {0})
    → Exec RelayServer (Unit {0})
handle_ws_client P ephemeral nonce init resp handle frames ending =
    after_ws_handshake handle frames ending (do_handshake_async P ephemeral nonce init resp)
