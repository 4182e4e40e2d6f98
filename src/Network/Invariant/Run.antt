-- ===== src/Network/Invariant/Run.antt =====
-- The connections of haven/network.py stay sound over every run.
use haven_e2e_messenger.Prelude.{Str, Bytes, none, List, [], ◌∷◌, bytes_eq}
use haven_e2e_messenger.Prelude.Errors.{Result, is_key_or_value}
use haven_e2e_messenger.Prelude.Dict.{lookup, erase}
use haven_e2e_messenger.Prelude.Exec.{try_pass-Preserves}
use haven_e2e_messenger.Crypto.Primitives.{Primitives}
use haven_e2e_messenger.Crypto.Hex.{hex}
use haven_e2e_messenger.Storage.Tables.{StoreTools}
use haven_e2e_messenger.Network.State.{
  Frame, hello, hello_ack, msg, other_type, not_a_dict, NetworkManager, bytes_of,
}
use haven_e2e_messenger.Network.Messages.{Drawn, handle_incoming_msg}
use haven_e2e_messenger.Network.Relayed.{
  attach_relay, detach_relay, handle_relay_hello, handle_relay_hello_ack, dispatch, on_relay_frame,
}
use haven_e2e_messenger.Network.Invariant.{
  Event, attaches, detaches, connects_relay, is_relayed, accepts, hails, is_answered, reads, ends,
  sends, stops, breaks, goes_offline, perform, run, IsSound, drop_connection-IsSound, stop-IsSound,
}
use haven_e2e_messenger.Network.Invariant.Steps.{
  Holds, lift_then, connect_relay-Holds, answer_hello-Holds, accept_ack-Holds,
}
use haven_e2e_messenger.Network.Invariant.Handlers.{
  handle_incoming_msg-Holds, send_text-Holds, handle_turn-Holds, open_inbound-Holds,
  hail_peer-Holds, take_answer-Holds,
}

module _ (P : Primitives) (T : StoreTools) where
  handle_relay_hello-Holds :
      (ephemeral : Bytes) (relay_key : Str) (their_pub : Bytes) (u h : Result Str)
      → Holds P (handle_relay_hello P ephemeral relay_key their_pub u h)
  unfolding handle_relay_hello
  handle_relay_hello-Holds ephemeral relay_key their_pub u h s v =
      answer_hello-Holds P ephemeral their_pub u h (lookup relay_key s.relays) s v

  handle_relay_hello_ack-Holds :
      (relay_key : Str) (their_pub : Bytes) (u h : Result Str)
      → Holds P (handle_relay_hello_ack P relay_key their_pub u h)
  unfolding handle_relay_hello_ack
  handle_relay_hello_ack-Holds relay_key their_pub u h s v =
      accept_ack-Holds P relay_key their_pub u h (lookup (hex their_pub) s.pending)
        (record s { pending = erase (hex their_pub) s.pending }) v

  dispatch-Holds :
      (drawn : Drawn) (ephemeral : Bytes) (relay_key : Str) (sender : Bytes) (frame : Frame)
      → Holds P (dispatch P T drawn ephemeral relay_key sender frame)
  dispatch-Holds drawn ephemeral relay_key sender (hello u i h) =
      try_pass-Preserves (IsSound P) is_key_or_value
        (handle_relay_hello P ephemeral relay_key sender u h)
        (handle_relay_hello-Holds ephemeral relay_key sender u h)
  dispatch-Holds drawn ephemeral relay_key sender (hello_ack u i h) =
      try_pass-Preserves (IsSound P) is_key_or_value (handle_relay_hello_ack P relay_key sender u h)
        (handle_relay_hello_ack-Holds relay_key sender u h)
  dispatch-Holds drawn ephemeral relay_key sender (msg i n c kind) =
      try_pass-Preserves (IsSound P) is_key_or_value
        (handle_incoming_msg P T drawn sender none i n c kind)
        (handle_incoming_msg-Holds P T drawn sender none i n c kind)
  dispatch-Holds drawn ephemeral relay_key sender other_type = λ s v. v
  dispatch-Holds drawn ephemeral relay_key sender not_a_dict = λ s v. v

  on_relay_frame-Holds :
      (drawn : Drawn) (ephemeral : Bytes) (relay_key sender : Str) (frame : Frame)
      → Holds P (on_relay_frame P T drawn ephemeral relay_key sender frame)
  unfolding on_relay_frame
  on_relay_frame-Holds drawn ephemeral relay_key sender frame =
      lift_then P (bytes_of sender) _
        λ sender_pub. dispatch-Holds drawn ephemeral relay_key sender_pub frame

  perform-IsSound : (e : Event) (s : NetworkManager) → IsSound P s → IsSound P (perform P T e s)
  unfolding attach_relay detach_relay
  perform-IsSound (attaches relay_key client) s v = v
  perform-IsSound (detaches relay_key) s v = v
  perform-IsSound (connects_relay ephemeral to relay_key) s v =
      connect_relay-Holds P ephemeral to relay_key s v
  perform-IsSound (is_relayed drawn ephemeral relay_key sender frame) s v =
      on_relay_frame-Holds drawn ephemeral relay_key sender frame s v
  perform-IsSound (accepts sock ephemeral first) s v =
      open_inbound-Holds P T sock ephemeral first s v
  perform-IsSound (hails sock ephemeral connect) s v =
      hail_peer-Holds P T sock ephemeral connect s v
  perform-IsSound (is_answered sock ephemeral first) s v =
      take_answer-Holds P T sock ephemeral first s v
  perform-IsSound (reads drawn id their_pub frame) s v =
      handle_turn-Holds P T drawn id their_pub frame s v
  perform-IsSound (ends id fp) s v = drop_connection-IsSound P id fp s v
  perform-IsSound (sends drawn fp body kind) s v = send_text-Holds P T drawn fp body kind s v
  perform-IsSound stops s v = stop-IsSound P s v
  perform-IsSound (breaks sock) s v = v
  perform-IsSound (goes_offline clients) s v = v

  -- Whatever peers and relays send, whatever fails, and in whatever order the threads run between their
  -- reads of a socket: each current connection exists and stands under its own fingerprint, each
  -- connection's fingerprint is that of this side's identity key and its peer's, and no number is used
  -- twice. Conditions: so it was at the start, and what a thread does from one read to the next is not
  -- interrupted.
  pub connections_stay-IsSound :
      (events : List Event) (s : NetworkManager) → IsSound P s → IsSound P (run P T events s)
  unfolding run
  connections_stay-IsSound [] s v = v
  connections_stay-IsSound (e ∷ events) s v =
      connections_stay-IsSound events (perform P T e s) (perform-IsSound e s v)
