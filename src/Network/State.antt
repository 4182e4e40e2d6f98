-- ===== src/Network/State.antt =====
-- The state of `NetworkManager` of haven/network.py, its frames, `PeerConnection`, and
-- `_derive_session` and `_register_connection`. A socket and a relay client is a number. The locks are
-- not modelled: a method, or one turn of a loop, is one step.
use haven_e2e_messenger.Prelude.{
  ℕ, suc, Str, Bytes, Bool, true, false, Option, none, some, List, [], ◌∷◌, ◌++◌, if◌then◌else◌,
  bytes_eq, nat_eq, contains,
}
use haven_e2e_messenger.Prelude.Errors.{
  Result, ok, err, or_raise, value_error, os_error, connection_error,
}
use haven_e2e_messenger.Prelude.Exec.{Exec, raise, gets, modify, skip, ◌>>=◌}
use haven_e2e_messenger.Prelude.Dict.{Dict, lookup, insert}
use haven_e2e_messenger.Crypto.Primitives.{Primitives}
use haven_e2e_messenger.Crypto.Hex.{hex, fromhex}
use haven_e2e_messenger.Crypto.Keys.{KeyPair, compute_shared_root_key, fingerprint}
use haven_e2e_messenger.Crypto.Ratchet.{RatchetSession}
use haven_e2e_messenger.Crypto.Delivery.{start_session}
use haven_e2e_messenger.Storage.Tables.{Tables}

-- A frame between peers after `json.loads`. A field is its value or the exception that reading it
-- raises: KeyError where it is missing.
pub data Frame : Type 0 where
  -- username, identity_pub, ephemeral_pub
  hello : Result Str → Result Str → Result Str → Frame
  hello_ack : Result Str → Result Str → Result Str → Frame
  -- index, nonce, ciphertext, and the kind with its default
  msg : Result ℕ → Result Str → Result Str → Str → Frame
  -- Any other object.
  other_type : Frame
  -- A value that is not an object: `.get` raises AttributeError.
  not_a_dict : Frame

-- `transport`, with the socket or the relay client.
pub data Transport : Type 0 where
  direct : ℕ → Transport
  relay : ℕ → Transport

pub record PeerConnection : Type 0 where
  pub transport : Transport
  pub fingerprint : Str
  pub username : Str
  pub identity_pub : Bytes
  pub session : RatchetSession

-- What left this side: on a socket, or through a relay client to a peer.
pub data Sent : Type 0 where
  on_socket : ℕ → Frame → Sent
  by_relay : ℕ → Bytes → Frame → Sent

pub data Status : Type 0 where
  connected disconnected : Status

-- The calls of `on_connect`, `on_status` and `on_message`: fingerprint, kind, text and sender.
pub data Callback : Type 0 where
  on_connect : ℕ → Callback
  on_status : Str → Status → Callback
  on_message : Str → Str → Str → Bytes → Callback

-- `peers` are the `PeerConnection` objects made so far, by their number, and `connections` says which of
-- them is current. `offline` are the relay clients whose `send_to` returns False, `broken` the sockets
-- that were closed or fail, `store` the tables of the message store.
pub record NetworkManager : Type 0 where
  pub identity : KeyPair
  pub username : Str
  pub peers : Dict ℕ PeerConnection
  pub next_peer : ℕ
  pub connections : Dict Str ℕ
  pub relays : Dict Str ℕ
  pub pending : Dict Str (KeyPair × Str)
  pub offline : List ℕ
  pub broken : List ℕ
  pub sent : List Sent
  pub store : Tables
  pub calls : List Callback

abbrev pub Net : Type 0 → Type 0
Net A = Exec NetworkManager A

abbrev pub bytes_of : Str → Result Bytes
bytes_of s = or_raise (fromhex s) value_error

abbrev pub emit : Sent → Net (Unit {0})
emit frame = modify (λ s. record s { sent = s.sent ++ (frame ∷ []) })

abbrev pub call : Callback → Net (Unit {0})
call c = modify (λ s. record s { calls = s.calls ++ (c ∷ []) })

-- `sendall` on a socket. The OSError of a broken one stands for its subclasses too, among them the
-- ConnectionError of a peer that has gone away.
abbrev pub send_frame : ℕ → Frame → Net (Unit {0})
send_frame sock frame = do
  broken ← gets (λ s. contains sock s.broken)
  if broken then raise os_error else emit (on_socket sock frame)

-- `RelayClient.send_to`
abbrev pub send_to : ℕ → Bytes → Frame → Net Bool
send_to client to frame s =
    if contains client s.offline
    then (ok false, s)
    else (ok true, record s { sent = s.sent ++ (by_relay client to frame ∷ []) })

abbrev pub unless_sent : Bool → Net (Unit {0})
unless_sent true = skip
unless_sent false = raise connection_error

-- `PeerConnection.send_raw`
unfoldable pub send_raw : PeerConnection → Frame → Net (Unit {0})
send_raw conn frame = elim conn.transport [
  | direct sock ↦ send_frame sock frame
  | relay client ↦ send_to client conn.identity_pub frame >>= unless_sent
]

abbrev pub close_sock : ℕ → NetworkManager → NetworkManager
close_sock sock s = record s { broken = sock ∷ s.broken }

abbrev pub close_by : Transport → NetworkManager → NetworkManager
close_by (direct sock) s = close_sock sock s
close_by (relay client) s = s

-- `PeerConnection.close`
unfoldable pub close : PeerConnection → NetworkManager → NetworkManager
close conn s = close_by conn.transport s

abbrev pub current : Str → NetworkManager → Option ℕ
current fp s = lookup fp s.connections

abbrev pub peer : ℕ → NetworkManager → Option PeerConnection
peer id s = lookup id s.peers

abbrev pub close_peer : Option PeerConnection → NetworkManager → NetworkManager
close_peer none s = s
close_peer (some old) s = close old s

abbrev pub close_old : Option ℕ → NetworkManager → NetworkManager
close_old none s = s
close_old (some old) s = close_peer (peer old s) s

-- `_register_connection`: the connection gets the next number, which is its result.
unfoldable pub register_connection : PeerConnection → Net ℕ
unfolding close
register_connection conn s =
    let closed = close_old (current conn.fingerprint s) s in
    (
      ok s.next_peer,
      record s {
        broken = closed.broken;
        peers = insert s.next_peer conn s.peers;
        next_peer = suc s.next_peer;
        connections = insert conn.fingerprint s.next_peer s.connections;
        calls = s.calls ++ (on_connect s.next_peer ∷ on_status conn.fingerprint connected ∷ []);
      },
    )

module _ (P : Primitives) where
  -- `crypto.fingerprint(self.identity.public_bytes, identity_pub)`
  abbrev pub fingerprint_with : Bytes → NetworkManager → Str
  fingerprint_with identity_pub s = fingerprint P (s.identity.public_bytes ∷ identity_pub ∷ [])

  -- What all four ends of a handshake do with a session: they build the `PeerConnection` under the
  -- peer's fingerprint and register it. The result is that fingerprint and the connection's number.
  unfoldable pub register_peer : Transport → Str → Bytes → RatchetSession → Net (Str × ℕ)
  unfolding register_connection
  register_peer transport username identity_pub session s =
      let fp = fingerprint_with identity_pub s in
      let conn : PeerConnection = record {
        transport = transport;
        fingerprint = fp;
        username = username;
        identity_pub = identity_pub;
        session = session;
      } in
      let (id, s') = register_connection conn s in (ok (fp, s.next_peer), s')

  -- `_derive_session`
  unfoldable pub derive_session : Bool → KeyPair → KeyPair → Bytes → Bytes → Result RatchetSession
  derive_session is_initiator identity my_ephemeral their_identity_pub their_ephemeral_pub =
      elim (compute_shared_root_key P is_initiator identity my_ephemeral their_identity_pub
        their_ephemeral_pub) [
          | err e ↦ err e
          | ok root_key ↦ ok (start_session P root_key is_initiator)
        ]

abbrev pub hello_of : NetworkManager → KeyPair → Frame
hello_of s my_ephemeral =
    hello (ok s.username) (ok (hex s.identity.public_bytes)) (ok (hex my_ephemeral.public_bytes))

abbrev pub ack_of : NetworkManager → KeyPair → Frame
ack_of s my_ephemeral =
    hello_ack (ok s.username) (ok (hex s.identity.public_bytes))
      (ok (hex my_ephemeral.public_bytes))
