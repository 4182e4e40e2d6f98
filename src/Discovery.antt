-- ===== src/Discovery.antt =====
-- haven/discovery.py: the peers on the local network. Times are whole seconds.
pub mod Heard
pub mod Peers
mod Examples
use haven_e2e_messenger.Prelude.{
  ℕ, ◌+◌, Str, Bool, true, false, not, Option, none, some, List, [], ◌∷◌, keep, ◌==◌, bytes_eq, ltb,
  if◌then◌else◌,
}
use haven_e2e_messenger.Prelude.Errors.{Exn, Result, ok, err, or_raise, key_error, attribute_error}
use haven_e2e_messenger.Prelude.Exec.{Exec, raise, lift, modify, skip, ◌>>=◌, ◌>>◌}
use haven_e2e_messenger.Prelude.Dict.{Dict, insert, values}

pub record Peer : Type 0 where
  pub username : Str
  pub identity_pub : Str
  pub host : Str
  pub tcp_port : ℕ
  pub last_seen : ℕ

-- A datagram after `json.loads`: `msg.get("identity_pub")`, and what reading the other two fields gives.
-- The fields have the types that a beacon gives them.
pub data Datagram : Type 0 where
  beacon : Option Str → Result Str → Result ℕ → Datagram
  other_type : Datagram
  -- ValueError
  undecodable : Datagram
  -- A value that is not an object: `.get` raises AttributeError.
  not_a_dict : Datagram

-- `listening` says whether the thread of `_listen_loop` still runs.
pub record Discovery : Type 0 where
  pub identity_pub_hex : Str
  pub peers : Dict Str Peer
  pub listening : Bool

abbrev pub is_own : Option Str → Str → Bool
is_own none own = false
is_own (some key) own = key == own

abbrev pub add_peer : ℕ → Str → Option Str → Result Str → Result ℕ → Exec Discovery (Unit {0})
add_peer now host key_field username_field port_field = do
  key ← lift (or_raise key_field key_error)
  username ← lift username_field
  tcp_port ← lift port_field
  let peer : Peer = record {
    username = username;
    identity_pub = key;
    host = host;
    tcp_port = tcp_port;
    last_seen = now;
  }
  modify (λ d. record d { peers = insert key peer d.peers })

-- One turn of `_listen_loop`, at a time, on a datagram from a host.
unfoldable pub hear : ℕ → Str → Datagram → Exec Discovery (Unit {0})
hear now host (beacon key username port) d =
    if is_own key d.identity_pub_hex then (ok tt, d) else add_peer now host key username port d
hear now host other_type d = (ok tt, d)
hear now host undecodable d = (ok tt, d)
hear now host not_a_dict d = (err attribute_error, d)

abbrev pub peer_timeout : ℕ
peer_timeout = 15

abbrev pub is_fresh : ℕ → Str × Peer → Bool
is_fresh now (key, peer) = not (ltb (peer.last_seen + peer_timeout) now)

-- One turn of `_reap_loop`.
unfoldable pub reap : ℕ → Discovery → Discovery
reap now d = record d { peers = keep (is_fresh now) d.peers }

-- `snapshot`
unfoldable pub snapshot : Discovery → List Peer
snapshot d = values d.peers

-- What happens to a running instance. An exception ends the listening thread.
pub data Event : Type 0 where
  hears : ℕ → Str → Datagram → Event
  reaps : ℕ → Event

abbrev pub ended : Result (Unit {0}) → Discovery → Discovery
ended (ok tt) d = d
ended (err e) d = record d { listening = false }

abbrev pub heard : Bool → Result (Unit {0}) × Discovery → Discovery → Discovery
heard true (result, d') d = ended result d'
heard false turn d = d

abbrev pub perform : Event → Discovery → Discovery
perform (hears now host datagram) d = heard d.listening (hear now host datagram d) d
perform (reaps now) d = reap now d

unfoldable pub run : List Event → Discovery → Discovery
run [] d = d
run (e ∷ events) d = run events (perform e d)
