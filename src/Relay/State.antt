-- ===== src/Relay/State.antt =====
-- The state of haven/relay_server.py: the queue table, the registered clients, and what has gone over
-- the wire. `created_at` is written and never read, so rows have none. A payload is the JSON text that
-- the queue stores; `json.loads` of it gives back the value that was dumped.
use haven_e2e_messenger.Prelude.{
  ℕ, Bytes, Str, Bool, true, false, List, [], ◌∷◌, ◌++◌, nat_eq, contains,
}
use haven_e2e_messenger.Prelude.Errors.{ok, err, os_error}
use haven_e2e_messenger.Prelude.Exec.{Exec}
use haven_e2e_messenger.Prelude.Dict.{Dict}

abbrev pub Payload : Type 0
Payload = Str

-- The two subclasses of `ClientHandle`. The number is the object's identity.
pub data Transport : Type 0 where
  tcp ws : Transport

pub record ClientHandle : Type 0 where
  pub serial : ℕ
  pub transport : Transport

-- What the relay sends.
pub data ServerFrame : Type 0 where
  challenge : Bytes → Bytes → ServerFrame
  proof_failed : ServerFrame
  registered : ServerFrame
  relay : Str → Payload → ℕ → ServerFrame

pub record Row : Type 0 where
  pub id : ℕ
  pub recipient : Str
  pub sender : Str
  pub payload : Payload

-- `last_id` is AUTOINCREMENT's counter, `broken` the connections whose socket fails or was closed, and
-- `wire` what was sent, each frame with the serial of its connection.
pub record RelayServer : Type 0 where
  pub queue : List Row
  pub last_id : ℕ
  pub clients : Dict Str ClientHandle
  pub broken : List ℕ
  pub wire : List (ℕ × ServerFrame)

abbrev pub empty : RelayServer
empty = record { queue = []; last_id = 0; clients = []; broken = []; wire = [] }

abbrev pub transmit : ℕ → ServerFrame → RelayServer → RelayServer
transmit serial frame s = record s { wire = s.wire ++ ((serial, frame) ∷ []) }

abbrev send_by : Transport → Bool → ℕ → ServerFrame → Exec RelayServer (Unit {0})
send_by tcp true serial frame s = (err os_error, s)
send_by tcp false serial frame s = (ok tt, transmit serial frame s)
send_by ws true serial frame s = (ok tt, s)
send_by ws false serial frame s = (ok tt, transmit serial frame s)

-- `ClientHandle.send`: a broken TCP socket raises OSError, and a broken WebSocket loses the frame, for
-- its send is not waited for.
unfoldable pub send : ClientHandle → ServerFrame → Exec RelayServer (Unit {0})
send handle frame s =
    send_by handle.transport (contains handle.serial s.broken) handle.serial frame s

-- `ClientHandle.close`, which swallows its errors.
unfoldable pub close : ClientHandle → Exec RelayServer (Unit {0})
close handle s = (ok tt, record s { broken = handle.serial ∷ s.broken })
