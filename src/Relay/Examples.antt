-- ===== src/Relay/Examples.antt =====
-- Runs of the relay of haven/relay_server.py, and its theorems at concrete inputs.
use haven_e2e_messenger.Prelude.{Option, some, false}
use haven_e2e_messenger.Prelude.Errors.{connection_closed}
use haven_e2e_messenger.Relay.Server.{same_handle}
use haven_e2e_messenger.Relay.WebSocket.{open_ws, serve_ws_frames, serve_ws_client}
use haven_e2e_messenger.Relay.WebSocket.Cleanup.{connections_clean_up}
use haven_e2e_messenger.Prelude.{
  ◌≡◌, refl, Str, Bytes, text, some, List, [], ◌∷◌, arith, bytes_eq, bytes_dec, nat_eq,
}
use haven_e2e_messenger.Prelude.Errors.{ok, err, attribute_error}
use haven_e2e_messenger.Prelude.Dict.{lookup, insert}
use haven_e2e_messenger.Crypto.Keys.{dh_proof}
use haven_e2e_messenger.Crypto.Hex.{hex, fromhex}
use haven_e2e_messenger.Crypto.Toy.{toy, toy-ExchangeAgrees}
use haven_e2e_messenger.Relay.State.{
  ClientHandle, tcp, ws, challenge, registered, relay, RelayServer, empty, send, close,
}
use haven_e2e_messenger.Relay.Handshake.{register_init, register}
use haven_e2e_messenger.Relay.Handshake.Possession.{holder_is_registered, registered_holds_key}
use haven_e2e_messenger.Relay.Server.{
  relay_to, ack, not_a_dict, Event, connects, sends, breaks, handle_frame, open_connection,
  serve_client, register_client, unregister_client, run, perform, enqueue, try_deliver, flush_queue,
  deliver_rows, delete_queued, serve_frames,
}
use haven_e2e_messenger.Relay.Server.Mailbox.{view, post_all, run_is_mailbox}
use haven_e2e_messenger.Relay.Server.Retention.{Queued, message_stays_until_acknowledged}

abbrev key : Bytes
key = 3 ∷ []

abbrev server_key : Bytes
server_key = 4 ∷ []

abbrev proof : Str
proof = hex (7 ∷ 9 ∷ [])

made : dh_proof toy key server_key (9 ∷ []) ≡ ok proof
unfolding dh_proof hex
made = refl

registered_holds_key_example :
    (name : Option Str) × (claimed : Bytes) × (p : Str) × (register_init
        (ok (hex key))
        (some (text "bob"))
      ≡ register_init (ok (hex key)) name)
    × (fromhex (hex key) ≡ some claimed)
    × (register (some proof) ≡ register (some p))
    × (dh_proof toy server_key claimed (9 ∷ []) ≡ ok p)
registered_holds_key_example =
    registered_holds_key toy server_key (9 ∷ []) (register_init (ok (hex key)) (some (text "bob")))
      (register (some proof)) (hex key) (text "bob") (challenge server_key (9 ∷ []) ∷ [])
      (holder_is_registered toy server_key (9 ∷ []) toy-ExchangeAgrees key (text "bob") proof
        (omega arith, tt) made)

abbrev alice : Str
alice = text "aa"

abbrev bob : Str
bob = text "bb"

abbrev alice_tcp : ClientHandle
alice_tcp = record { serial = 1; transport = tcp }

abbrev bob_ws : ClientHandle
bob_ws = record { serial = 2; transport = ws }

-- Bob is away; Alice writes twice; Bob comes, and acknowledges the first message.
abbrev story : List Event
story =
    connects alice alice_tcp
    ∷ sends alice (relay_to (ok bob) (ok (text "hi")))
    ∷ sends alice (relay_to (ok bob) (ok (text "you?")))
    ∷ connects bob bob_ws
    ∷ sends bob (ack (ok 1))
    ∷ []

story_runs :
    ((run story empty).wire
      ≡ (1, registered)
        ∷ (2, registered)
        ∷ (2, relay alice (text "hi") 1)
        ∷ (2, relay alice (text "you?") 2)
        ∷ [])
    × ((run story empty).queue
        ≡ record { id = 2; recipient = bob; sender = alice; payload = text "you?" } ∷ [])
unfolding run perform open_connection register_client flush_queue deliver_rows try_deliver
    handle_frame enqueue delete_queued send close lookup insert bytes_dec
story_runs = (refl, refl)

run_is_mailbox_example : view (run story empty) ≡ post_all story (view empty)
run_is_mailbox_example = run_is_mailbox story empty

message_stays_until_acknowledged_example :
    Queued
      (record { id = 1; recipient = bob; sender = alice; payload = text "hi" })
      (run
        (sends alice (relay_to (ok bob) (ok (text "hi"))) ∷ connects bob bob_ws ∷ breaks 2 ∷ [])
        empty).queue
message_stays_until_acknowledged_example =
    message_stays_until_acknowledged alice bob (text "hi") (connects bob bob_ws ∷ breaks 2 ∷ [])
      empty (refl, (refl, tt))

abbrev waiting : RelayServer
waiting = record empty {
  queue = record { id = 1; recipient = bob; sender = alice; payload = text "hi" } ∷ [];
  last_id = 1;
}

-- JSON that is no dict ends the connection's thread with an exception that it does not catch.
uncaught_runs : (serve_client alice alice_tcp (not_a_dict ∷ []) empty).0 ≡ err attribute_error
unfolding serve_client serve_frames handle_frame open_connection register_client flush_queue
    deliver_rows send close unregister_client lookup insert bytes_dec
uncaught_runs = refl

-- ConnectionClosed passes by the except clause; the registration goes all the same.
closed_ws_runs :
    (serve_ws_client bob bob_ws (ack (ok 1) ∷ []) (err connection_closed) waiting).0
    ≡ err connection_closed
unfolding serve_ws_client serve_ws_frames open_ws handle_frame delete_queued register_client
    flush_queue deliver_rows try_deliver send close unregister_client lookup insert bytes_dec
closed_ws_runs = refl

connections_clean_up_example :
    (same_handle
        (lookup bob (serve_client bob bob_ws (ack (ok 1) ∷ []) waiting).1.clients)
        (some bob_ws)
      ≡ false)
    × (same_handle
          (lookup bob
            (serve_ws_client bob bob_ws
              (ack (ok 1) ∷ [])
              (err connection_closed)
              waiting).1.clients)
          (some bob_ws)
        ≡ false)
connections_clean_up_example =
    connections_clean_up bob bob_ws (ack (ok 1) ∷ []) (err connection_closed) waiting
