-- ===== src/Relay/WebSocket/Cleanup.antt =====
-- What a connection of haven/relay_server.py leaves in the registry, over either transport.
use haven_e2e_messenger.Prelude.{◌≡◌, Str, false, some, List, bytes_eq, ==_refl, arith}
use haven_e2e_messenger.Prelude.Errors.{Result, is_socket_or_value}
use haven_e2e_messenger.Prelude.Exec.{try_pass, ◌>>◌}
use haven_e2e_messenger.Prelude.Dict.{lookup}
use haven_e2e_messenger.Relay.State.{ClientHandle, RelayServer}
use haven_e2e_messenger.Relay.Server.{
  ClientFrame, unregister_client, same_handle, serve_client, finally_do,
}
use haven_e2e_messenger.Relay.Server.Registry.{
  unregister_client_lem, unregister_client-ok, serve_client_cleans,
}
use haven_e2e_messenger.Relay.WebSocket.{open_ws, serve_ws_frames, serve_ws_client}

ws_cleaned :
    (identity : Str) (h : ClientHandle) (result : Result (Unit {0})) (s : RelayServer)
    → same_handle
        (lookup identity (finally_do (unregister_client identity (some h)) result s).1.clients)
        (some h)
      ≡ false
ws_cleaned identity h result s =
    rw (unregister_client-ok identity h s)
      (rw (unregister_client_lem identity identity h s) (ground (arith, ==_refl identity)))

-- However a connection ends, over a socket or a WebSocket, when the other side closes it, on a failed
-- send, a malformed frame or an exception that nothing catches: it is not registered any more afterwards.
pub connections_clean_up :
    (identity : Str) (h : ClientHandle) (frames : List ClientFrame) (ending : Result (Unit {0}))
    (s : RelayServer)
    → (same_handle (lookup identity (serve_client identity h frames s).1.clients) (some h) ≡ false)
      × (same_handle
            (lookup identity (serve_ws_client identity h frames ending s).1.clients)
            (some h)
          ≡ false)
unfolding serve_ws_client
connections_clean_up identity h frames ending s =
    let (result, t) =
      try_pass is_socket_or_value (open_ws identity h >> serve_ws_frames identity frames ending)
        s in
    (serve_client_cleans identity h frames s, ws_cleaned identity h result t)
