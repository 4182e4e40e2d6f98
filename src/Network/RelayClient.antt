-- ===== src/Network/RelayClient.antt =====
-- haven/relay_client.py: the thread that registers with a relay, hands what it delivers to
-- haven/network.py and reconnects. A `sendall` returns or raises as the environment says.
pub mod Reconnecting
pub mod Registration
use haven_e2e_messenger.Prelude.{
  ℕ, ◌+◌, ◌*◌, Str, Bytes, Bool, true, false, Option, none, some, List, [], ◌∷◌, ◌++◌,
  if◌then◌else◌, ltb, min,
}
use haven_e2e_messenger.Prelude.Errors.{
  Exn, Result, ok, err, attribute_error, connection_error, is_socket_or_value,
}
use haven_e2e_messenger.Prelude.Exec.{Exec, raise, lift, gets, modify, skip, ◌>>=◌, ◌>>◌}
use haven_e2e_messenger.Crypto.Primitives.{Primitives}
use haven_e2e_messenger.Crypto.Hex.{hex}
use haven_e2e_messenger.Crypto.Keys.{KeyPair, dh_proof}
use haven_e2e_messenger.Storage.Tables.{StoreTools}
use haven_e2e_messenger.Network.State.{Frame, NetworkManager, bytes_of}
use haven_e2e_messenger.Network.Messages.{Drawn}
use haven_e2e_messenger.Network.Relayed.{on_relay_frame}

-- What the relay sends. A field is its value or what reading it raises.
pub data Reply : Type 0 where
  -- server_ephemeral_pub, nonce
  challenge : Result Str → Result Str → Reply
  registered : Reply
  -- from, payload, msg_id
  relay : Result Str → Result Frame → Result ℕ → Reply
  other_type : Reply
  not_a_dict : Reply

-- What the client sends, but for `send_to`.
pub data Request : Type 0 where
  register_init : Str → Str → Request
  register : Str → Request
  ack : ℕ → Request

-- One turn of the loop: what `_recv_frame` gives, what the handler draws, and how sending the ack ends.
pub record Turn : Type 0 where
  pub reply : Result Reply
  pub drawn : Drawn
  pub ephemeral : Bytes
  pub ack_sent : Result (Unit {0})

-- One connection: how connecting and the two sends end, the two replies, and the turns until it fails.
pub record Attempt : Type 0 where
  pub connects : Result (Unit {0})
  pub init_sent : Result (Unit {0})
  pub first : Result Reply
  pub proof_sent : Result (Unit {0})
  pub second : Result Reply
  pub turns : List Turn

-- `net` is the manager that `on_deliver` calls, `sent` what went out, `changes` the calls of
-- `on_connection_change`, `slept` the seconds of each sleep.
pub record RelayClient : Type 0 where
  pub net : NetworkManager
  pub connected : Bool
  pub sent : List Request
  pub changes : List Bool
  pub slept : List ℕ

abbrev pub send : Result (Unit {0}) → Request → Exec RelayClient (Unit {0})
send outcome request = do
  done ← lift outcome
  modify (λ c. record c { sent = c.sent ++ (request ∷ []) })

abbrev pub set_connected : Bool → RelayClient → RelayClient
set_connected b c = record c { connected = b; changes = c.changes ++ (b ∷ []) }

module _ (P : Primitives) (T : StoreTools) (relay_key : Str) where
  -- `on_deliver`
  abbrev pub deliver : Turn → Str → Frame → Exec RelayClient (Unit {0})
  deliver turn sender payload c =
      let (result, net) =
        on_relay_frame P T turn.drawn turn.ephemeral relay_key sender payload c.net in
      (result, record c { net = net })

  abbrev pub handle_reply : Turn → Reply → Exec RelayClient (Unit {0})
  handle_reply turn (relay from_field payload_field msg_id_field) = do
    sender ← lift from_field
    payload ← lift payload_field
    msg_id ← lift msg_id_field
    deliver turn sender payload
    send turn.ack_sent (ack msg_id)
  handle_reply turn not_a_dict = raise attribute_error
  handle_reply turn _ = skip

  unfoldable pub serve : List Turn → Exec RelayClient (Unit {0})
  serve [] = raise connection_error
  serve (turn ∷ turns) = do reply ← lift turn.reply; handle_reply turn reply; serve turns

  abbrev pub after_ack : Attempt → Reply → Exec RelayClient (Unit {0})
  after_ack a registered = modify (set_connected true) >> serve a.turns
  after_ack a not_a_dict = raise attribute_error
  after_ack a _ = skip

  abbrev pub after_challenge : Attempt → Reply → Exec RelayClient (Unit {0})
  after_challenge a (challenge ephemeral_field nonce_field) = do
    ephemeral_hex ← lift ephemeral_field
    server_ephemeral_pub ← lift (bytes_of ephemeral_hex)
    nonce_hex ← lift nonce_field
    nonce ← lift (bytes_of nonce_hex)
    private_key ← gets (λ c. c.net.identity.private_key)
    proof ← lift (dh_proof P private_key server_ephemeral_pub nonce)
    send a.proof_sent (register proof)
    reply ← lift a.second
    after_ack a reply
  after_challenge a not_a_dict = raise attribute_error
  after_challenge a _ = skip

  -- `_connect_and_serve`
  unfoldable pub connect_and_serve : Attempt → Exec RelayClient (Unit {0})
  unfolding serve
  connect_and_serve a = do
    opened ← lift a.connects
    greeting ← gets (λ c. register_init (hex c.net.identity.public_bytes) c.net.username)
    send a.init_sent greeting
    reply ← lift a.first
    after_challenge a reply

  abbrev pub wait : ℕ → RelayClient → RelayClient
  wait backoff c = let c' = set_connected false c in record c' { slept = c.slept ++ (backoff ∷ []) }

  -- `_run_forever`, over the attempts until it is stopped, from a backoff on.
  unfoldable pub run_forever : ℕ → List Attempt → Exec RelayClient (Unit {0})
  unfolding connect_and_serve
  run_forever backoff [] c = (ok tt, c)
  run_forever backoff (a ∷ attempts) c =
      let (result, c') = connect_and_serve a c in
      let again = run_forever 2 attempts (wait 1 c') in
      let later = run_forever (min (backoff * 2) 30) attempts (wait backoff c') in
      elim result [ ok done ↦ again | err e ↦ if is_socket_or_value e then later else (err e, c') ]
