-- ===== src/Network/Meetings.antt =====
-- Two managers of haven/network.py that meet, and a relay client of haven/relay_client.py, at concrete inputs.
use haven_e2e_messenger.Prelude.{
  ◌≡◌, refl, ℕ, Str, Bytes, text, true, false, some, [], ◌∷◌, ◌++◌, bytes_eq, nat_eq, bytes_dec,
  arith,
}
use haven_e2e_messenger.Prelude.Errors.{ok, err, os_error}
use haven_e2e_messenger.Prelude.Dict.{lookup}
use haven_e2e_messenger.Crypto.Toy.{byte_toy, byte_toy-ExchangeAgrees, byte_toy-SealOpens}
use haven_e2e_messenger.Crypto.Hex.{hex}
use haven_e2e_messenger.Crypto.Keys.{from_private_bytes, compute_shared_root_key, dh_proof}
use haven_e2e_messenger.Crypto.Ratchet.{Envelope, RatchetSession}
use haven_e2e_messenger.Crypto.Ratchet.Wire.{SealsBytes}
use haven_e2e_messenger.Crypto.Ratchet.Steps.{send_half, recv_half}
use haven_e2e_messenger.Crypto.Delivery.{start_session}
use haven_e2e_messenger.Network.Peers.{tools, drawn, alice, bob}
use haven_e2e_messenger.Network.State.{
  not_a_dict, PeerConnection, NetworkManager, relay, by_relay, hello_of, ack_of, fingerprint_with,
}
use haven_e2e_messenger.Network.Messages.{is_connected, msg_frame, send_text}
use haven_e2e_messenger.Network.Relayed.{connect_relay, on_relay_frame}
use haven_e2e_messenger.Network.Relayed.Opened.{Connected}
use haven_e2e_messenger.Network.Relayed.Agreed.{
  KeysAreBytes, IsReady, relay_handshake_agrees, both_connect_both_initiate,
}
use haven_e2e_messenger.Network.Relayed.Arrival.{
  HasConnection, after_sending, after_receiving, text_arrives,
}
use haven_e2e_messenger.Relay.State
use haven_e2e_messenger.Relay.Handshake
use haven_e2e_messenger.Relay.Handshake.{do_handshake_sync}
use haven_e2e_messenger.Network.RelayClient.{
  Reply, register_init, register, Turn, Attempt, RelayClient, serve, set_connected,
  connect_and_serve,
}
use haven_e2e_messenger.Network.RelayClient.Reconnecting.{Fails}
use haven_e2e_messenger.Network.RelayClient.Registration.{opening, client_registers}

byte_toy-KeysAreBytes : KeysAreBytes byte_toy
byte_toy-KeysAreBytes k = (omega arith, tt)

byte_toy-SealsBytes : SealsBytes byte_toy
byte_toy-SealsBytes key nonce plain aad h = (omega arith, h)

abbrev a_pub : Bytes
a_pub = alice.identity.public_bytes

abbrev b_pub : Bytes
b_pub = bob.identity.public_bytes

alice-IsReady : IsReady byte_toy (text "r:1") 3 b_pub alice
unfolding lookup is_connected bytes_dec
alice-IsReady = (refl, (refl, refl), refl, refl)

bob-IsReady : IsReady byte_toy (text "r:1") 5 a_pub bob
unfolding lookup is_connected bytes_dec
bob-IsReady = (refl, (refl, refl), refl, refl)

abbrev root : ℕ → ℕ → ℕ → Bytes
root a b c = (a ∷ b ∷ c ∷ []) ++ text "root"

agreed :
    compute_shared_root_key byte_toy true alice.identity
      (from_private_bytes byte_toy (7 ∷ []))
      b_pub
      (byte_toy.public_key (9 ∷ []))
    ≡ ok (root 12 12 16)
unfolding compute_shared_root_key from_private_bytes
agreed = refl

relay_handshake_agrees_example :
    let greeting = hello_of alice (from_private_bytes byte_toy (7 ∷ [])) in
    let answer = ack_of bob (from_private_bytes byte_toy (9 ∷ [])) in
    let (began, alice1) = connect_relay byte_toy (7 ∷ []) b_pub (some (text "r:1")) alice in
    let (heard, bob1) =
      on_relay_frame byte_toy tools drawn (9 ∷ []) (text "r:1") (hex a_pub) greeting bob in
    let (done, alice2) =
      on_relay_frame byte_toy tools drawn [] (text "r:1") (hex b_pub) answer alice1 in
    (began ≡ ok (fingerprint_with byte_toy b_pub alice))
    × (alice1.sent ≡ by_relay 3 b_pub greeting ∷ [])
    × (heard ≡ ok tt)
    × (bob1.sent ≡ by_relay 5 a_pub answer ∷ [])
    × (done ≡ ok tt)
    × Connected byte_toy a_pub 5 (start_session byte_toy (root 12 12 16) false) bob1
    × Connected byte_toy b_pub 3 (start_session byte_toy (root 12 12 16) true) alice2
relay_handshake_agrees_example =
    relay_handshake_agrees byte_toy byte_toy-ExchangeAgrees byte_toy-KeysAreBytes tools (text "r:1")
      (text "r:1") 3 5 drawn drawn (7 ∷ []) (9 ∷ []) [] (root 12 12 16) alice bob alice-IsReady
      bob-IsReady agreed

agreed_a :
    compute_shared_root_key byte_toy true alice.identity
      (from_private_bytes byte_toy (7 ∷ []))
      b_pub
      (byte_toy.public_key (11 ∷ []))
    ≡ ok (root 14 12 18)
unfolding compute_shared_root_key from_private_bytes
agreed_a = refl

agreed_b :
    compute_shared_root_key byte_toy true bob.identity
      (from_private_bytes byte_toy (9 ∷ []))
      a_pub
      (byte_toy.public_key (8 ∷ []))
    ≡ ok (root 13 12 17)
unfolding compute_shared_root_key from_private_bytes
agreed_b = refl

both_connect_both_initiate_example :
    let (_, alice1) = connect_relay byte_toy (7 ∷ []) b_pub (some (text "r:1")) alice in
    let (_, bob1) = connect_relay byte_toy (9 ∷ []) a_pub (some (text "r:1")) bob in
    let (_, alice2) =
      on_relay_frame byte_toy tools drawn
        (8 ∷ [])
        (text "r:1")
        (hex b_pub)
        (hello_of bob (from_private_bytes byte_toy (9 ∷ [])))
        alice1 in
    let (_, bob2) =
      on_relay_frame byte_toy tools drawn
        (11 ∷ [])
        (text "r:1")
        (hex a_pub)
        (hello_of alice (from_private_bytes byte_toy (7 ∷ [])))
        bob1 in
    let (_, alice3) =
      on_relay_frame byte_toy tools drawn []
        (text "r:1")
        (hex b_pub)
        (ack_of bob (from_private_bytes byte_toy (11 ∷ [])))
        alice2 in
    let (_, bob3) =
      on_relay_frame byte_toy tools drawn []
        (text "r:1")
        (hex a_pub)
        (ack_of alice (from_private_bytes byte_toy (8 ∷ [])))
        bob2 in
    Connected byte_toy b_pub 3 (start_session byte_toy (root 14 12 18) true) alice3
    × Connected byte_toy a_pub 5 (start_session byte_toy (root 13 12 17) true) bob3
both_connect_both_initiate_example =
    both_connect_both_initiate byte_toy byte_toy-ExchangeAgrees byte_toy-KeysAreBytes tools
      (text "r:1") (text "r:1") 3 5 drawn (7 ∷ []) (8 ∷ []) (9 ∷ []) (11 ∷ []) [] (root 14 12 18)
      (root 13 12 17) alice bob alice-IsReady bob-IsReady agreed_a agreed_b

abbrev to_bob : PeerConnection
to_bob = record {
  transport = relay 3;
  fingerprint = text "fp";
  username = text "bob";
  identity_pub = b_pub;
  session = record {
    send_chain_key = 1 ∷ [];
    recv_chain_key = 2 ∷ [];
    send_index = 4;
    recv_index = 0;
  };
}

abbrev to_alice : PeerConnection
to_alice = record {
  transport = relay 5;
  fingerprint = text "fp";
  username = text "alice";
  identity_pub = a_pub;
  session = record {
    send_chain_key = 2 ∷ [];
    recv_chain_key = 1 ∷ [];
    send_index = 0;
    recv_index = 4;
  };
}

abbrev talking : PeerConnection → Str → NetworkManager → NetworkManager
talking conn fp s = record s { peers = (0, conn) ∷ []; next_peer = 1; connections = (fp, 0) ∷ [] }

abbrev near : NetworkManager
near = talking to_bob (text "fp") alice

abbrev far : NetworkManager
far = talking to_alice (fingerprint_with byte_toy a_pub bob) bob

near-HasConnection : HasConnection (text "fp") 0 to_bob near
unfolding lookup bytes_dec
near-HasConnection = (refl, refl)

far-HasConnection : HasConnection (fingerprint_with byte_toy a_pub far) 0 to_alice far
unfolding lookup
far-HasConnection = (ground arith, ground arith)

text_arrives_example :
    (e : Envelope) × (a_session : RatchetSession) × (b_session : RatchetSession) × (send_text
        byte_toy tools drawn
        (text "fp")
        (text "hi")
        (text "text")
        near
      ≡ (
        ok tt,
        after_sending byte_toy tools drawn
            (text "fp")
            (text "hi")
            (text "text")
            3
            0
            to_bob
            e
            a_session
            near,
      ))
    × (on_relay_frame byte_toy tools drawn []
          (text "r:1")
          (hex a_pub)
          (msg_frame byte_toy tools e (text "text"))
          far
        ≡ (
          ok tt,
          after_receiving byte_toy tools drawn (text "hi") (text "text") 0 to_alice b_session far,
        ))
    × (recv_half b_session ≡ send_half a_session)
    × (a_session.send_index ≡ 5)
text_arrives_example =
    text_arrives byte_toy byte_toy-SealOpens byte_toy-SealsBytes tools drawn drawn [] (text "r:1")
      (text "fp") (text "hi") (text "text") 3 0 0 to_bob to_alice near far near-HasConnection refl
      refl far-HasConnection refl refl (omega arith) refl (omega arith, tt) (omega arith, tt)
      (omega arith, (omega arith, tt))

abbrev client : RelayClient
client = record { net = alice; connected = false; sent = []; changes = []; slept = [] }

made : dh_proof byte_toy (3 ∷ []) (byte_toy.public_key (4 ∷ [])) (9 ∷ []) ≡ ok (hex (7 ∷ 9 ∷ []))
unfolding dh_proof
made = refl

client_registers_example :
    (connect_and_serve byte_toy tools (text "r:1") (opening (4 ∷ []) (9 ∷ []) []) client
      ≡ serve byte_toy tools (text "r:1") [] (
          set_connected true (record client {
            sent = register_init (hex a_pub) (text "alice") ∷ register (hex (7 ∷ 9 ∷ [])) ∷ [];
          })))
    × (do_handshake_sync byte_toy
          (4 ∷ [])
          (9 ∷ [])
          (Handshake.register_init (ok (hex a_pub)) (some (text "alice")))
          (Handshake.register (some (hex (7 ∷ 9 ∷ []))))
        ≡ ok (State.challenge (4 ∷ []) (9 ∷ []) ∷ [], some (hex a_pub, text "alice")))
client_registers_example =
    client_registers byte_toy byte_toy-ExchangeAgrees tools (text "r:1") (4 ∷ []) (9 ∷ []) [] client
      (hex (7 ∷ 9 ∷ [])) refl made (omega arith, tt) (omega arith, tt) (omega arith, tt)

abbrev odd_turn : Turn
odd_turn = record {
  reply = ok (Reply.relay (ok (hex b_pub)) (ok not_a_dict) (ok 1));
  drawn = drawn;
  ephemeral = [];
  ack_sent = ok tt;
}

abbrev unreachable : Attempt
unreachable = record (opening (4 ∷ []) (9 ∷ []) []) { connects = err os_error }

unreachable-Fails : Fails byte_toy tools (text "r:1") unreachable
unfolding connect_and_serve
unreachable-Fails c = (os_error, refl, refl)
