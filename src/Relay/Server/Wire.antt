-- ===== src/Relay/Server/Wire.antt =====
-- What the deliveries of haven/relay_server.py put on the wire, frame by frame.
use haven_e2e_messenger.Prelude.{
  ◌≡◌, refl, ℕ, suc, Str, false, Option, none, some, List, [], ◌∷◌, ◌++◌, append_assoc, append-nil,
  contains, nat_eq, bytes_eq, if◌then◌else◌, arith,
}
use haven_e2e_messenger.Prelude.Errors.{ok}
use haven_e2e_messenger.Prelude.Dict.{lookup, lookup-insert}
use haven_e2e_messenger.Relay.State.{
  Payload, ClientHandle, ServerFrame, registered, relay, Row, RelayServer, send, close,
}
use haven_e2e_messenger.Relay.Server.{
  relay_to, enqueue, try_deliver, deliver_to, deliver_rows, flush_queue, rows_for, register_client,
  same_handle, open_connection, handle_frame,
}

-- What reaches a recipient: the frame at the connection registered for it, if that one works.
abbrev reaching : Option ClientHandle → List ℕ → ServerFrame → List (ℕ × ServerFrame)
reaching none broken frame = []
reaching (some h) broken frame = if contains h.serial broken then [] else (h.serial, frame) ∷ []

abbrev pub deliveries : RelayServer → Str → ServerFrame → List (ℕ × ServerFrame)
deliveries s to frame = reaching (lookup to s.clients) s.broken frame

abbrev pub put_on_wire : List (ℕ × ServerFrame) → RelayServer → RelayServer
put_on_wire frames s = record s { wire = s.wire ++ frames }

deliver_to_lem :
    (found : Option ClientHandle) (sender : Str) (p : Payload) (id : ℕ) (s : RelayServer)
    → deliver_to found sender p id s
      ≡ (ok tt, put_on_wire (reaching found s.broken (relay sender p id)) s)
unfolding send
deliver_to_lem none sender p id s = rw append-nil
deliver_to_lem (some h) sender p id s = ground (arith, append-nil s.wire)

pub try_deliver_lem :
    (to sender : Str) (p : Payload) (id : ℕ) (s : RelayServer)
    → try_deliver to sender p id s ≡ (ok tt, put_on_wire (deliveries s to (relay sender p id)) s)
unfolding try_deliver
try_deliver_lem to sender p id s = deliver_to_lem (lookup to s.clients) sender p id s

-- The frames of several rows, each if it reaches.
abbrev pub deliveries_of : RelayServer → Str → List Row → List (ℕ × ServerFrame)
deliveries_of s to [] = []
deliveries_of s to (r ∷ rows) =
    deliveries s to (relay r.sender r.payload r.id) ++ deliveries_of s to rows

deliveries_of-put_on_wire :
    (frames : List (ℕ × ServerFrame)) (s : RelayServer) (to : Str) (rows : List Row)
    → deliveries_of (put_on_wire frames s) to rows ≡ deliveries_of s to rows
deliveries_of-put_on_wire frames s to [] = refl
deliveries_of-put_on_wire frames s to (r ∷ rows) = rw (deliveries_of-put_on_wire frames s to rows)

pub deliver_rows_lem :
    (to : Str) (rows : List Row) (s : RelayServer)
    → deliver_rows to rows s ≡ (ok tt, put_on_wire (deliveries_of s to rows) s)
unfolding deliver_rows
deliver_rows_lem to [] s = rw append-nil
deliver_rows_lem to (r ∷ rows) s =
    let first = deliveries s to (relay r.sender r.payload r.id) in
    rw (try_deliver_lem to r.sender r.payload r.id s) (
      rw (deliver_rows_lem to rows (put_on_wire first s))
        (rw (deliveries_of-put_on_wire first s to rows) (rw append_assoc)))

-- A sent message is queued under the next id, and goes at once, with that id and the sender's identity,
-- to the connection registered for its recipient, if there is one and it works; to no other.
pub handle_frame_relays :
    (to sender : Str) (p : Payload) (s : RelayServer)
    → handle_frame (relay_to (ok to) (ok p)) sender s ≡ (
      ok tt,
      record s {
        queue =
            s.queue
            ++ (record { id = suc s.last_id; recipient = to; sender = sender; payload = p } ∷ []);
        last_id = suc s.last_id;
        wire = s.wire ++ deliveries s to (relay sender p (suc s.last_id));
      },
    )
unfolding handle_frame enqueue
handle_frame_relays to sender p s = rw try_deliver_lem

abbrev pub frames_on : ClientHandle → List Row → List (ℕ × ServerFrame)
frames_on h [] = []
frames_on h (r ∷ rows) = (h.serial, relay r.sender r.payload r.id) ∷ frames_on h rows

deliveries_of-frames_on :
    (to : Str) (h : ClientHandle) (rows : List Row) (s : RelayServer)
    → lookup to s.clients ≡ some h
    → contains h.serial s.broken ≡ false
    → deliveries_of s to rows ≡ frames_on h rows
deliveries_of-frames_on to h [] s there works = refl
deliveries_of-frames_on to h (r ∷ rows) s there works =
    rw (deliveries_of-frames_on to h rows s there works, there, works)

register_client_keeps :
    (identity : Str) (h : ClientHandle) (s : RelayServer)
    → contains h.serial s.broken ≡ false
    → same_handle (lookup identity s.clients) (some h) ≡ false
    → let (r, t) = register_client identity h s in
      (r ≡ ok tt)
      × (t.queue ≡ s.queue)
      × (t.wire ≡ s.wire)
      × (lookup identity t.clients ≡ some h)
      × (contains h.serial t.broken ≡ false)
unfolding register_client close
register_client_keeps identity h s works new =
    ground (arith, lookup-insert identity identity h s.clients)

send_lem :
    (h : ClientHandle) (f : ServerFrame) (s : RelayServer)
    → contains h.serial s.broken ≡ false
    → send h f s ≡ (ok tt, put_on_wire ((h.serial, f) ∷ []) s)
unfolding send
send_lem h f s works = ground arith

-- A client that connects by a working connection, other than the one registered before, is told that
-- it is registered, and then gets every message queued for it, in the order of the queue.
pub open_connection_flushes :
    (identity : Str) (h : ClientHandle) (s : RelayServer)
    → contains h.serial s.broken ≡ false
    → same_handle (lookup identity s.clients) (some h) ≡ false
    → let (r, t) = open_connection identity h s in
      (r ≡ ok tt)
      × (t.wire ≡ s.wire ++ ((h.serial, registered) ∷ frames_on h (rows_for identity s.queue)))
      × (t.queue ≡ s.queue)
unfolding open_connection flush_queue
open_connection_flushes identity h s works new =
    let (done, queue, wire, there, works') = register_client_keeps identity h s works new in
    let t = (register_client identity h s).1 in
    let u = put_on_wire ((h.serial, registered) ∷ []) t in
    rw done (
      rw (send_lem h registered t works') (
        rw (deliver_rows_lem identity (rows_for identity t.queue) u) (
          rw (deliveries_of-frames_on identity h (rows_for identity t.queue) u there works')
            (rw queue (rw wire (refl, append_assoc s.wire _ _, refl))))))
