-- ===== src/Relay/Server/Mailbox.antt =====
-- What the queue of haven/relay_server.py holds, whatever the connections do: an abstract mailbox.
use haven_e2e_messenger.Prelude.{
  ◌≡◌, refl, ap, ℕ, suc, Str, not, Option, some, List, [], ◌∷◌, ◌++◌, keep, ◌==◌, nat_eq, arith,
  ◌∙◌,
}
use haven_e2e_messenger.Prelude.Errors.{ok, err}
use haven_e2e_messenger.Prelude.Exec.{bind-keeps}
use haven_e2e_messenger.Relay.Server.Wire.{deliver_rows_lem, handle_frame_relays}
use haven_e2e_messenger.Relay.State.{
  registered, ClientHandle, Row, RelayServer, send, close, ServerFrame,
}
use haven_e2e_messenger.Relay.Server.{
  ClientFrame, relay_to, ack, Event, connects, sends, leaves, breaks, delete_queued, flush_queue,
  register_client, unregister_client, handle_frame, open_connection, perform, run,
}

-- The mailbox: the rows, and the last id that was given.
pub record Mailbox : Type 0 where
  pub rows : List Row
  pub last : ℕ

abbrev pub view : RelayServer → Mailbox
view s = record { rows = s.queue; last = s.last_id }

-- A message that was sent is put at the end under the next id; an acknowledgement takes its id out;
-- nothing else changes the mailbox.
abbrev pub post : Event → Mailbox → Mailbox
post (sends sender (relay_to (ok to) (ok payload))) m = record {
  rows =
      m.rows
      ++ (record { id = suc m.last; recipient = to; sender = sender; payload = payload } ∷ []);
  last = suc m.last;
}
post (sends sender (ack (ok msg_id))) m = record m {
  rows = keep (λ (r : Row). not (r.id == msg_id)) m.rows;
}
post _ m = m

abbrev pub post_all : List Event → Mailbox → Mailbox
post_all [] m = m
post_all (e ∷ events) m = post_all events (post e m)

view-send : (h : ClientHandle) (f : ServerFrame) (s : RelayServer) → view (send h f s).1 ≡ view s
unfolding send
view-send h f s = ground arith

view-register_client :
    (identity : Str) (h : ClientHandle) (s : RelayServer)
    → view (register_client identity h s).1 ≡ view s
unfolding register_client close
view-register_client identity h s = ground arith

view-unregister_client :
    (identity : Str) (h : Option ClientHandle) (s : RelayServer)
    → view (unregister_client identity h s).1 ≡ view s
unfolding unregister_client
view-unregister_client identity h s = ground arith

view-flush_queue : (identity : Str) (s : RelayServer) → view (flush_queue identity s).1 ≡ view s
unfolding flush_queue
view-flush_queue identity s = rw deliver_rows_lem

view-open_connection :
    (identity : Str) (h : ClientHandle) (s : RelayServer)
    → view (open_connection identity h s).1 ≡ view s
unfolding open_connection
view-open_connection identity h =
    bind-keeps view (register_client identity h) _ (view-register_client identity h) (λ _.
      bind-keeps view (send h registered) _ (view-send h registered)
        (λ _. view-flush_queue identity))

view-handle_frame :
    (identity : Str) (f : ClientFrame) (s : RelayServer)
    → view (handle_frame f identity s).1 ≡ post (sends identity f) (view s)
unfolding handle_frame delete_queued
view-handle_frame identity (relay_to (ok to) (ok p)) s = rw handle_frame_relays
view-handle_frame identity (relay_to (ok to) (err e)) s = refl
view-handle_frame identity (relay_to (err e) payload) s = refl
view-handle_frame identity (ack (ok id)) s = refl
view-handle_frame identity (ack (err e)) s = refl
view-handle_frame identity ClientFrame.other_type s = refl
view-handle_frame identity ClientFrame.not_a_dict s = refl

view-perform : (e : Event) (s : RelayServer) → view (perform e s).1 ≡ post e (view s)
unfolding perform close
view-perform (connects identity h) s = view-open_connection identity h s
view-perform (sends identity f) s = view-handle_frame identity f s
view-perform (leaves identity h) s =
    bind-keeps view (unregister_client identity (some h)) _
      (view-unregister_client identity (some h)) (λ _ _. refl) s
view-perform (breaks serial) s = refl

-- The server's queue is the abstract mailbox: whatever connections come, go and break, in whatever
-- order, and whether or not a message reaches anybody, the queue holds what was sent and not
-- acknowledged, in the order in which it was sent.
pub run_is_mailbox :
    (events : List Event) (s : RelayServer) → view (run events s) ≡ post_all events (view s)
unfolding run
run_is_mailbox [] s = refl
run_is_mailbox (e ∷ events) s =
    run_is_mailbox events (perform e s).1 ∙ ap (post_all events) (view-perform e s)
