-- ===== src/Relay/Server/Retention.antt =====
-- How long the relay of haven/relay_server.py keeps a message, and under which id.
use haven_e2e_messenger.Prelude.{
  ◌≡◌, ◌≢◌, refl, ℕ, suc, ◌≤◌, ◌<◌, Str, Bool, false, not, List, [], ◌∷◌, ◌++◌, ◌⊎◌, inl, inr, keep,
  All, ◌==◌, nat_eq, arith, subst, sym, ap,
}
use haven_e2e_messenger.Prelude.Errors.{ok}
use haven_e2e_messenger.Relay.State.{Payload, Row, RelayServer, empty}
use haven_e2e_messenger.Relay.Server.{relay_to, ack, Event, sends, handle_frame, delete_queued, run}
use haven_e2e_messenger.Relay.Server.Mailbox.{Mailbox, view, post, post_all, run_is_mailbox}

abbrev pub Queued : Row → List Row → Type 0
Queued r [] = ⊥
Queued r (x ∷ rows) = (x ≡ r) ⊎ Queued r rows

-- Whether an event is the acknowledgement of an id.
abbrev pub acknowledges : ℕ → Event → Bool
acknowledges id (sends sender (ack (ok msg_id))) = id == msg_id
acknowledges id _ = false

Queued-append_last : (r : Row) (rows : List Row) → Queued r (rows ++ (r ∷ []))
Queued-append_last r [] = inl refl
Queued-append_last r (x ∷ rows) = inr (Queued-append_last r rows)

Queued-append : (r x : Row) (rows : List Row) → Queued r rows → Queued r (rows ++ (x ∷ []))
Queued-append r x [] h = absurd h
Queued-append r x (y ∷ rows) (inl e) = inl e
Queued-append r x (y ∷ rows) (inr h) = inr (Queued-append r x rows h)

abbrev without_id : ℕ → List Row → List Row
without_id msg_id = keep (λ (r : Row). not (r.id == msg_id))

Queued-without_id :
    (r : Row) (msg_id : ℕ) (rows : List Row)
    → (r.id == msg_id) ≡ false
    → Queued r rows
    → Queued r (without_id msg_id rows)
Queued-without_id r msg_id [] h q = absurd q
Queued-without_id r msg_id (x ∷ rows) h q = ground (arith, Queued-without_id r msg_id rows h)

Queued-post :
    (r : Row) (e : Event) (m : Mailbox)
    → acknowledges r.id e ≡ false
    → Queued r m.rows
    → Queued r (post e m).rows
Queued-post r (sends sender (relay_to (ok to) (ok p))) m h q = Queued-append r _ m.rows q
Queued-post r (sends sender (ack (ok msg_id))) m h q = Queued-without_id r msg_id m.rows h q
Queued-post r _ m h q = q

Queued-post_all :
    (r : Row) (events : List Event) (m : Mailbox)
    → All (λ e. acknowledges r.id e ≡ false) events
    → Queued r m.rows
    → Queued r (post_all events m).rows
Queued-post_all r [] m h q = q
Queued-post_all r (e ∷ events) m (h, hs) q =
    Queued-post_all r events (post e m) hs (Queued-post r e m h q)

-- A message that a client sends is in the queue, under the next id, for as long as no client
-- acknowledges that id, whatever else happens.
pub message_stays_until_acknowledged :
    (sender to : Str) (p : Payload) (events : List Event) (s : RelayServer)
    → All (λ e. acknowledges (suc s.last_id) e ≡ false) events
    → Queued
        (record { id = suc s.last_id; recipient = to; sender = sender; payload = p })
        (run (sends sender (relay_to (ok to) (ok p)) ∷ events) s).queue
message_stays_until_acknowledged sender to p events s h =
    rw
      (ap (λ (m : Mailbox). m.rows)
        (run_is_mailbox (sends sender (relay_to (ok to) (ok p)) ∷ events) s))
      (Queued-post_all _ events _ h (Queued-append_last _ s.queue))

-- The ids rise along the rows, between two bounds.
abbrev pub Ascending : ℕ → ℕ → List Row → Type 0
Ascending lo hi [] = lo ≤ hi
Ascending lo hi (r ∷ rows) = (lo < r.id) × Ascending r.id hi rows

Ascending-weaken :
    (lo lo' hi : ℕ) (rows : List Row) → lo' ≤ lo → Ascending lo hi rows → Ascending lo' hi rows
Ascending-weaken lo lo' hi [] h a = omega arith
Ascending-weaken lo lo' hi (r ∷ rows) h a = (omega arith, a.1)

Ascending-append :
    (lo hi : ℕ) (rows : List Row) (r : Row)
    → r.id ≡ suc hi
    → Ascending lo hi rows
    → Ascending lo (suc hi) (rows ++ (r ∷ []))
Ascending-append lo hi [] r e a = (omega arith, omega arith)
Ascending-append lo hi (x ∷ rows) r e a = (a.0, Ascending-append x.id hi rows r e a.1)

Ascending-without_id :
    (msg_id lo hi : ℕ) (rows : List Row)
    → Ascending lo hi rows
    → Ascending lo hi (without_id msg_id rows)
Ascending-without_id msg_id lo hi [] a = a
Ascending-without_id msg_id lo hi (r ∷ rows) a = ground (
  arith,
  Ascending-without_id msg_id r.id hi rows a.1,
  Ascending-weaken r.id lo hi (without_id msg_id rows),
)

Ascending-post :
    (e : Event) (m : Mailbox)
    → Ascending 0 m.last m.rows
    → Ascending 0 (post e m).last (post e m).rows
Ascending-post (sends sender (relay_to (ok to) (ok p))) m a =
    Ascending-append 0 m.last m.rows _ refl a
Ascending-post (sends sender (ack (ok msg_id))) m a = Ascending-without_id msg_id 0 m.last m.rows a
Ascending-post _ m a = a

Ascending-post_all :
    (events : List Event) (m : Mailbox)
    → Ascending 0 m.last m.rows
    → Ascending 0 (post_all events m).last (post_all events m).rows
Ascending-post_all [] m a = a
Ascending-post_all (e ∷ events) m a = Ascending-post_all events (post e m) (Ascending-post e m a)

-- On a relay that began with an empty queue, the ids in the queue rise strictly from the oldest message
-- to the newest, and none is above the last id given.
pub run-Ascending :
    (events : List Event) → Ascending 0 (run events empty).last_id (run events empty).queue
run-Ascending events =
    subst (λ (m : Mailbox). Ascending 0 m.last m.rows) (sym (run_is_mailbox events empty))
      (Ascending-post_all events (view empty) (omega arith))

without_id-gone : (msg_id : ℕ) (rows : List Row) → All (λ r. r.id ≢ msg_id) (without_id msg_id rows)
without_id-gone msg_id [] = tt
without_id-gone msg_id (r ∷ rows) = ground (arith, without_id-gone msg_id rows)

-- An acknowledgement takes the message with its id out of the queue whoever sends it: the relay does
-- not ask whether the sender is the recipient of that message.
pub anyone_can_acknowledge :
    (anyone : Str) (msg_id : ℕ) (s : RelayServer)
    → All (λ r. r.id ≢ msg_id) (handle_frame (ack (ok msg_id)) anyone s).1.queue
unfolding handle_frame delete_queued
anyone_can_acknowledge anyone msg_id s = without_id-gone msg_id s.queue
