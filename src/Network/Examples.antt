-- ===== src/Network/Examples.antt =====
-- Two managers of haven/network.py on toy primitives, and the theorems at concrete inputs.
use haven_e2e_messenger.Prelude.{
  ◌≡◌, refl, ℕ, Bytes, text, true, false, some, List, [], ◌∷◌, ◌++◌, bytes_eq, nat_eq, arith,
}
use haven_e2e_messenger.Prelude.Errors.{ok}
use haven_e2e_messenger.Prelude.Dict.{lookup}
use haven_e2e_messenger.Crypto.Toy.{byte_toy}
use haven_e2e_messenger.Crypto.Hex.{hex}
use haven_e2e_messenger.Crypto.Keys.{from_private_bytes}
use haven_e2e_messenger.Crypto.Delivery.{start_session}
use haven_e2e_messenger.Network.Peers.{tools, drawn, alice, bob}
use haven_e2e_messenger.Network.Framing.{send_frame, recv_frame, recv_exact}
use haven_e2e_messenger.Network.Framing.RoundTrip.{IsOpen, joined, recv_frame-send_frame}
use haven_e2e_messenger.Network.State.{
  not_a_dict, PeerConnection, NetworkManager, direct, ack_of, hello_of,
}
use haven_e2e_messenger.Network.Waiting.{Poll, worker}
use haven_e2e_messenger.Network.Waiting.Ending.{still_waiting, send_when_ready_ends}
use haven_e2e_messenger.Network.Invariant.{
  Event, accepts, hails, is_answered, ends, attaches, connects_relay, is_relayed, run, IsSound,
}
use haven_e2e_messenger.Network.Invariant.Run.{connections_stay-IsSound}

recv_frame-send_frame_example :
    (framed : Bytes) × (send_frame (text "hi") ≡ ok framed)
    × ((stream : List Bytes)
        → IsOpen stream
        → joined stream ≡ framed ++ text "!"
        → (rest : List Bytes) × (recv_frame stream ≡ ok (text "hi", rest))
          × (joined rest ≡ text "!"))
recv_frame-send_frame_example = recv_frame-send_frame (text "hi") (text "!") (omega arith)

-- A frame that arrives in pieces of any size, with the start of the next behind it.
recv_frame_runs :
    recv_frame ((0 ∷ 0 ∷ []) ∷ (0 ∷ 2 ∷ 104 ∷ []) ∷ (105 ∷ 33 ∷ []) ∷ [])
    ≡ ok (text "hi", (33 ∷ []) ∷ [])
unfolding recv_frame recv_exact
recv_frame_runs = refl

abbrev poll : ℕ → Poll
poll now = record { now = now; others = λ s. s; drawn = drawn }

send_when_ready_ends_example :
    still_waiting
      (worker byte_toy tools 6
        (text "fp")
        (text "hi")
        (text "text")
        (poll 0 ∷ poll 4 ∷ poll 8 ∷ [])
        alice).0
    ≡ false
send_when_ready_ends_example =
    send_when_ready_ends byte_toy tools 6 (text "fp") (text "hi") (text "text") 4 0
      (poll 0 ∷ poll 4 ∷ poll 8 ∷ []) alice (omega arith, (omega arith, (omega arith, tt)))
      (omega arith) (omega arith)

alone-IsSound : IsSound byte_toy alice
unfolding lookup
alone-IsSound = record {
  known = λ fp id h. absurd (cc);
  named = λ id conn h. absurd (cc);
  fresh = λ id conn h. absurd (cc);
}

abbrev story : List Event
story =
    attaches (text "r:2") 9
    ∷ connects_relay (7 ∷ []) bob.identity.public_bytes (some (text "r:1"))
    ∷ is_relayed drawn (8 ∷ []) (text "r:1") (hex bob.identity.public_bytes)
        (ack_of bob (from_private_bytes byte_toy (9 ∷ [])))
    ∷ accepts 5 (6 ∷ []) (ok (hello_of bob (from_private_bytes byte_toy (9 ∷ []))))
    ∷ hails 6 (7 ∷ []) (ok tt)
    ∷ is_answered 6 (7 ∷ []) (ok (ack_of bob (from_private_bytes byte_toy (9 ∷ []))))
    ∷ ends 1 (text "fp")
    ∷ is_relayed drawn (8 ∷ []) (text "r:1") (hex bob.identity.public_bytes) not_a_dict
    ∷ []

connections_stay-IsSound_example : IsSound byte_toy (run byte_toy tools story alice)
connections_stay-IsSound_example = connections_stay-IsSound byte_toy tools story alice alone-IsSound

abbrev socket_peer : PeerConnection
socket_peer = record {
  transport = direct 4;
  fingerprint = text "fp";
  username = text "bob";
  identity_pub = 5 ∷ [];
  session = start_session byte_toy (1 ∷ []) true;
}

abbrev connected_alice : NetworkManager
connected_alice = record alice {
  peers = (0, socket_peer) ∷ [];
  next_peer = 1;
  connections = (text "fp", 0) ∷ [];
}
