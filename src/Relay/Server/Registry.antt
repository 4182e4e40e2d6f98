-- ===== src/Relay/Server/Registry.antt =====
-- Which connection haven/relay_server.py has registered for an identity.
use haven_e2e_messenger.Prelude.{
  ◌≡◌, Str, false, none, some, List, if◌then◌else◌, ◌==◌, ◌&&◌, nat_eq, bytes_eq, ==_refl, arith,
}
use haven_e2e_messenger.Prelude.Errors.{Result, ok, is_socket_or_value}
use haven_e2e_messenger.Prelude.Exec.{try_pass, ◌>>◌}
use haven_e2e_messenger.Prelude.Dict.{lookup, lookup-insert, lookup-erase}
use haven_e2e_messenger.Relay.State.{ClientHandle, RelayServer, close}
use haven_e2e_messenger.Relay.Server.{
  ClientFrame, register_client, unregister_client, same_handle, open_connection, serve_frames,
  serve_client, finally_do,
}

-- The end of a connection drops its identity's registration if that is still the connection's own, and
-- nothing else: a newer connection of the same identity, and every other identity, stays registered.
pub unregister_client_lem :
    (identity j : Str) (h : ClientHandle) (s : RelayServer)
    → lookup j (unregister_client identity (some h) s).1.clients ≡ (
        if (j == identity) && same_handle (lookup identity s.clients) (some h)
        then none
        else lookup j s.clients)
unfolding unregister_client
unregister_client_lem identity j h s = ground (arith, lookup-erase j identity s.clients)

-- After a registration the identity has the new connection, and every other identity what it had.
pub register_client_lem :
    (identity j : Str) (h : ClientHandle) (s : RelayServer)
    → lookup j (register_client identity h s).1.clients
      ≡ (if j == identity then some h else lookup j s.clients)
unfolding register_client close
register_client_lem identity j h s = ground (arith, lookup-insert j identity h s.clients)

-- With a handle of its own, `_unregister_client` never raises.
pub unregister_client-ok :
    (identity : Str) (h : ClientHandle) (s : RelayServer)
    → (unregister_client identity (some h) s).0 ≡ ok tt
unfolding unregister_client
unregister_client-ok identity h s = ground arith

cleaned :
    (identity : Str) (h : ClientHandle) (result : Result (Unit {0})) (s : RelayServer)
    → same_handle
        (lookup identity
          (finally_do (unregister_client identity (some h) >> close h) result s).1.clients)
        (some h)
      ≡ false
unfolding close
cleaned identity h result s =
    rw (unregister_client-ok identity h s)
      (rw (unregister_client_lem identity identity h s) (ground (arith, ==_refl identity)))

-- However a connection ends, on a failed socket, a malformed frame or an exception that nothing catches,
-- it is not registered any more afterwards.
pub serve_client_cleans :
    (identity : Str) (h : ClientHandle) (frames : List ClientFrame) (s : RelayServer)
    → same_handle (lookup identity (serve_client identity h frames s).1.clients) (some h) ≡ false
unfolding serve_client
serve_client_cleans identity h frames s =
    let (result, t) =
      try_pass is_socket_or_value (open_connection identity h >> serve_frames identity frames) s in
    cleaned identity h result t
