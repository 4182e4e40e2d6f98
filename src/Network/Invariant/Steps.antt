-- ===== src/Network/Invariant/Steps.antt =====
-- Every event of haven/network.py keeps the connections sound.
use haven_e2e_messenger.Prelude.{
  ℕ, Str, Bytes, Bool, true, false, Option, none, some, ◌||◌, bytes_eq, nat_eq, contains,
  Bool-cases, inl, inr,
}
use haven_e2e_messenger.Prelude.Errors.{Result, or_raise, connection_error}
use haven_e2e_messenger.Prelude.Dict.{lookup, insert, has_key}
use haven_e2e_messenger.Prelude.Exec.{lift, pure, skip, ◌>>◌, ◌>>=◌, Preserves, bind-Preserves}
use haven_e2e_messenger.Crypto.Primitives.{Primitives}
use haven_e2e_messenger.Crypto.Keys.{KeyPair, from_private_bytes}
use haven_e2e_messenger.Crypto.Hex.{hex}
use haven_e2e_messenger.Network.State.{
  Frame, direct, relay, PeerConnection, NetworkManager, Net, send_frame, send_to, send_raw,
  register_peer, unless_sent, bytes_of, derive_session, hello_of, ack_of, fingerprint_with,
}
use haven_e2e_messenger.Network.Messages.{is_connected}
use haven_e2e_messenger.Network.Relayed.{
  connect_relay, begin_handshake, forget_unsent, establish, answer_hello, finish_handshake,
  accept_ack,
}
use haven_e2e_messenger.Network.Invariant.{IsSound, register_peer-IsSound}

module _ (P : Primitives) where
  abbrev pub Holds : {A : Type 0} → Net A → Type 0
  Holds m = Preserves (IsSound P) m

  module _ {A B : Type 0} where
    pub lift_then : (r : Result A) (k : A → Net B) → ((a : A) → Holds (k a)) → Holds (lift r >>= k)
    lift_then r k keeps = bind-Preserves (IsSound P) (lift r) k (λ s v. v) keeps

  establish-Holds :
      (b : Bool) (e : KeyPair) (their_pub : Bytes) (u h : Result Str) (client : ℕ)
      → Holds (establish P b e their_pub u h client)
  establish-Holds b e their_pub u h client = lift_then h _ λ their_hex.
      lift_then (bytes_of their_hex) _ λ their_ephemeral. lift_then u _ λ name s v.
        lift_then (derive_session P b s.identity e their_pub their_ephemeral) _
          (λ session.
            bind-Preserves (IsSound P) (register_peer P (relay client) name their_pub session)
              (λ _. skip) (register_peer-IsSound P (relay client) name their_pub session)
              (λ _ s v. v))
          s v

  send_to-Holds : (client : ℕ) (to : Bytes) (frame : Frame) → Holds (send_to client to frame)
  send_to-Holds client to frame s v = elim (Bool-cases (contains client s.offline)) [
    | inl offline ↦ rw offline v
    | inr online ↦ rw online v
  ]

  pub send_frame-Holds : (sock : ℕ) (frame : Frame) → Holds (send_frame sock frame)
  send_frame-Holds sock frame s v = elim (Bool-cases (contains sock s.broken)) [
    | inl broken ↦ rw broken v
    | inr usable ↦ rw usable v
  ]

  unless_sent-Holds : (b : Bool) → Holds (unless_sent b)
  unless_sent-Holds true s v = v
  unless_sent-Holds false s v = v

  pub send_raw-Holds : (conn : PeerConnection) (frame : Frame) → Holds (send_raw conn frame)
  unfolding send_raw
  send_raw-Holds conn frame =
      elim conn.transport
        as (λ t. Holds (elim t [
          | direct sock ↦ send_frame sock frame
          | relay client ↦ send_to client conn.identity_pub frame >>= unless_sent
        ])) [
          | direct sock ↦ send_frame-Holds sock frame
          | relay client ↦
              bind-Preserves (IsSound P) (send_to client conn.identity_pub frame) unless_sent
                (send_to-Holds client conn.identity_pub frame) unless_sent-Holds
        ]

  forget_unsent-Holds : (to : Bytes) (b : Bool) → Holds (forget_unsent P to b)
  forget_unsent-Holds to true s v = v
  forget_unsent-Holds to false s v = v

  begin_handshake-Holds :
      (ephemeral to : Bytes) (relay_key : Str) (client : ℕ) (fp : Str)
      → Holds (begin_handshake P ephemeral to relay_key client fp)
  begin_handshake-Holds ephemeral to relay_key client fp s v =
      let my_ephemeral = from_private_bytes P ephemeral in
      let s' : NetworkManager = record s {
        pending = insert (hex to) (my_ephemeral, relay_key) s.pending;
      } in
      bind-Preserves (IsSound P) (send_to client to (hello_of s my_ephemeral))
        (λ sent. forget_unsent P to sent >> pure fp)
        (send_to-Holds client to (hello_of s my_ephemeral))
        (λ sent.
          bind-Preserves (IsSound P) (forget_unsent P to sent) (λ _. pure fp)
            (forget_unsent-Holds to sent) (λ _ s v. v))
        s' v

  pub connect_relay-Holds :
      (ephemeral to : Bytes) (relay_key : Option Str)
      → Holds (connect_relay P ephemeral to relay_key)
  unfolding connect_relay
  connect_relay-Holds ephemeral to none s v = v
  connect_relay-Holds ephemeral to (some relay_key) s v =
      lift_then (or_raise (lookup relay_key s.relays) connection_error) _
        (λ client s v.
          elim (Bool-cases
            (is_connected (fingerprint_with P to s) s || has_key (hex to) s.pending)) [
              | inl busy ↦ rw busy v
              | inr free ↦ rw free (
                  begin_handshake-Holds ephemeral to relay_key client (fingerprint_with P to s) s v)
            ])
        s v

  pub answer_hello-Holds :
      (ephemeral their_pub : Bytes) (u h : Result Str) (found : Option ℕ)
      → Holds (answer_hello P ephemeral their_pub u h found)
  answer_hello-Holds ephemeral their_pub u h none s v = v
  answer_hello-Holds ephemeral their_pub u h (some client) s v =
      let my_ephemeral = from_private_bytes P ephemeral in
      bind-Preserves (IsSound P) (establish P false my_ephemeral their_pub u h client) _
        (establish-Holds false my_ephemeral their_pub u h client)
        (λ _ s v.
          bind-Preserves (IsSound P) (send_to client their_pub (ack_of s my_ephemeral)) (λ _. skip)
            (send_to-Holds client their_pub (ack_of s my_ephemeral)) (λ _ s v. v) s v)
        s v

  finish_handshake-Holds :
      (my_ephemeral : KeyPair) (their_pub : Bytes) (u h : Result Str) (found : Option ℕ)
      → Holds (finish_handshake P my_ephemeral their_pub u h found)
  finish_handshake-Holds my_ephemeral their_pub u h none s v = v
  finish_handshake-Holds my_ephemeral their_pub u h (some client) s v =
      establish-Holds true my_ephemeral their_pub u h client s v

  pub accept_ack-Holds :
      (relay_key : Str) (their_pub : Bytes) (u h : Result Str) (pending : Option (KeyPair × Str))
      → Holds (accept_ack P relay_key their_pub u h pending)
  accept_ack-Holds relay_key their_pub u h none s v = v
  accept_ack-Holds relay_key their_pub u h (some (my_ephemeral, expected)) s v =
      finish_handshake-Holds my_ephemeral their_pub u h (lookup relay_key s.relays) s v
