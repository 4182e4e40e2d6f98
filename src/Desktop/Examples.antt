-- ===== src/Desktop/Examples.antt =====
-- The desktop client of haven/gui.py on a toy network.
use haven_e2e_messenger.Prelude.{
  ◌≡◌, refl, Str, text, Bool, true, none, some, List, [], ◌∷◌, ◌++◌, contains, bytes_eq, bytes_dec,
  arith, if◌then◌else◌, inl,
}
use haven_e2e_messenger.Prelude.Errors.{Result, ok, err, value_error, os_error, connection_error}
use haven_e2e_messenger.Prelude.Exec.{Exec}
use haven_e2e_messenger.Prelude.Dict.{Dict, lookup, insert}
use haven_e2e_messenger.Discovery.{Peer}
use haven_e2e_messenger.Desktop.Routes.{
  Meta, ContactRow, refresh_contacts, refresh_peer_list, direct, over_relay, attempt_connect,
  resolve_route,
}
use haven_e2e_messenger.Desktop.Routes.Choice.{seen_peer_loses_relay}
use haven_e2e_messenger.Desktop.Sending.{
  Message, ChatApp, waiting, Event, sends, fires, changes, send_content, flush_pending, run,
}
use haven_e2e_messenger.Desktop.Sending.Timers.{IsTimed, waiting_messages_are_watched}
use haven_e2e_messenger.Desktop.Sending.Ending.{rounds, waiting_ends}
use haven_e2e_messenger.Desktop.Sending.Stranded.{IsStranded, raising_send_strands_queue}
use haven_e2e_messenger.Ai.{buffer, feed}
use haven_e2e_messenger.Desktop.Windows
use haven_e2e_messenger.Desktop.Windows.{
  CallWindows, turns, toggles, feeds, feed_block, close_call_window, active, ended,
  open_call_window, handle_call_state, toggle_captions, on_remote_audio_chunk,
}
use haven_e2e_messenger.Desktop.Windows.Tidy.{
  IsTidyFor, closed_calls_have_no_captions, late_block_stays,
}
use haven_e2e_messenger.Prelude.{Bytes, inr, ◌==◌, Bool-cases}
use haven_e2e_messenger.Prelude.Dict.{has_key}
use haven_e2e_messenger.Prelude.Decimal.{pos}
use haven_e2e_messenger.Crypto.Hex.{hex}
use haven_e2e_messenger.Identity.Cards.{make_contact_card, parse_contact_card}
use haven_e2e_messenger.Desktop.Contacts.{Contacts, add_contact_by_card}
use haven_e2e_messenger.Desktop.Contacts.Reached.{card_leads_over_relay}
use haven_e2e_messenger.Settings.{missing, list_relays, relay_key}
use haven_e2e_messenger.Prelude.Decimal.{decimal}

abbrev hex_only : Str → Result Str
hex_only [] = err value_error
hex_only (c ∷ s) = ok (c ∷ s)

abbrev bob_row : ContactRow
bob_row = record {
  fingerprint_ = text "bb";
  username = text "bob";
  identity_hex = text "bb";
  host = none;
  port = none;
  verified = true;
  relay_host = some (text "r");
  relay_port = some 9;
}

abbrev seen : Str → Peer
seen key = record {
  username = text "bob";
  identity_pub = key;
  host = text "10.0.0.2";
  tcp_port = 7000;
  last_seen = 1;
}

abbrev contacts : Dict Str Meta
contacts = refresh_contacts (bob_row ∷ []) []

abbrev relays : Dict Str Bool
relays = (text "r:9", true) ∷ []

-- Before bob was seen, his relay is the way to him.
relay_is_used : attempt_connect (text "bb") contacts relays ≡ over_relay (text "bb") (text "r:9")
unfolding attempt_connect refresh_contacts lookup insert relay_key decimal bytes_dec
relay_is_used = refl

route_is_found : resolve_route (text "bb") contacts ≡ some (none, none, some (text "r:9"))
unfolding resolve_route refresh_contacts insert relay_key decimal bytes_dec
route_is_found = refl

seen_peer_loses_relay_example :
    attempt_connect
      (text "bb")
      (refresh_peer_list hex_only (seen (text "bb") ∷ seen (text "cc") ∷ []) contacts).1
      relays
    ≡ direct (text "10.0.0.2") 7000
seen_peer_loses_relay_example =
    seen_peer_loses_relay hex_only (seen (text "bb")) (text "bb") (seen (text "cc") ∷ []) contacts
      relays 49 (text "0.0.0.2") 6999 refl refl refl (ground arith)

-- The connected contacts, and what was sent to whom.
abbrev Toy : Type 0
Toy = List Str × List (Str × Message)

abbrev toy_connected : Str → Toy → Bool
toy_connected fp net = contains fp net.0

abbrev toy_send : Str → Message → Exec Toy (Unit {0})
toy_send fp m net =
    if contains fp net.0
    then (ok tt, (net.0, net.1 ++ ((fp, m) ∷ [])))
    else (err connection_error, net)

abbrev broken_send : Str → Message → Exec Toy (Unit {0})
broken_send fp m net = (err os_error, net)

abbrev idle : ChatApp Toy
idle = record {
  net = ([], []);
  open_fingerprint = some (text "bb");
  open_group_id = none;
  pending_sends = [];
  timers = [];
  connecting = [];
  group_messages = [];
  shown = [];
}

abbrev hello : Message
hello = (text "hello", text "text")

abbrev bye : Message
bye = (text "bye", text "text")

abbrev goes_up : Toy → Toy
goes_up net = (text "bb" ∷ [], net.1)

abbrev evening : List (Event Toy)
evening = sends hello ∷ fires 0 ∷ sends bye ∷ changes goes_up ∷ fires 0 ∷ []

evening_sends :
    (run toy_connected toy_send evening idle).net.1 ≡ (text "bb", hello) ∷ (text "bb", bye) ∷ []
unfolding send_content flush_pending lookup insert bytes_dec
evening_sends = refl

waiting_messages_are_watched_example :
    IsTimed toy_connected toy_send (run toy_connected toy_send evening idle)
unfolding send_content flush_pending lookup insert bytes_dec
waiting_messages_are_watched_example =
    waiting_messages_are_watched toy_connected toy_send evening idle
      (refl, (refl, (refl, (refl, (refl, tt))))) (tt, λ fp. inl refl)

abbrev stays : Toy → Toy
stays net = net

-- Hello waits, with one attempt left.
abbrev last_try : ChatApp Toy
last_try = record idle {
  pending_sends = (text "bb", hello ∷ []) ∷ [];
  timers = (text "bb", 1) ∷ [];
}

last_try-IsTimed : IsTimed toy_connected toy_send last_try
unfolding lookup
last_try-IsTimed = (
  (omega arith, tt),
  λ fp. elim (Bool-cases (fp == text "bb")) [
    | inl same ↦ inr (inl (ground arith))
    | inr other ↦ inl (rw other refl)
  ],
)

waiting_ends_example :
    waiting
      (text "bb")
      (run toy_connected toy_send (rounds toy_connected toy_send (stays ∷ stays ∷ [])) last_try)
    ≡ []
unfolding flush_pending lookup insert bytes_dec
waiting_ends_example =
    waiting_ends toy_connected toy_send (stays ∷ stays ∷ []) last_try
      (refl, (refl, (refl, (refl, tt)))) last_try-IsTimed (omega arith) (text "bb")

abbrev queued_up : ChatApp Toy
queued_up = record idle { net = (text "bb" ∷ [], []); pending_sends = (text "bb", hello ∷ []) ∷ [] }

raising_send_strands_queue_example : IsStranded toy_connected broken_send (text "bb") (hello ∷ []) (
    run toy_connected broken_send evening
      (flush_pending toy_connected broken_send (text "bb") 19 queued_up).1)
unfolding lookup bytes_dec
raising_send_strands_queue_example =
    raising_send_strands_queue toy_connected broken_send (text "bb") 19 hello [] os_error queued_up
      evening refl refl refl (λ h. h) (tt, (tt, (tt, (tt, (tt, tt)))))

abbrev bob_key : Bytes
bob_key =
    1 ∷ 2 ∷ 3 ∷ 4 ∷ 5 ∷ 6 ∷ 7 ∷ 8 ∷ 9 ∷ 10 ∷ 11 ∷ 12 ∷ 13 ∷ 14 ∷ 15 ∷ 16 ∷ 17 ∷ 18 ∷ 19 ∷ 20 ∷ 21
    ∷ 22 ∷ 23 ∷ 24 ∷ 25 ∷ 26 ∷ 27 ∷ 28 ∷ 29 ∷ 30 ∷ 31 ∷ 32 ∷ []

abbrev no_contacts : Contacts
no_contacts = record { settings = missing; peer_meta = []; started = []; upserts = [] }

card_leads_over_relay_example :
    let s' =
      add_contact_by_card true
        (text "bb")
        (text "bob")
        bob_key
        (some (text "r"))
        (some 9)
        no_contacts in
    (parse_contact_card (make_contact_card (text "bob") bob_key (some (text "r")) (some 9))
      ≡ ok (record {
        username = text "bob";
        identity_pub = bob_key;
        relay_host = some (text "r");
        relay_port = some (pos 9);
      }))
    × (attempt_connect (text "bb") s'.peer_meta relays
        ≡ over_relay (hex bob_key) (relay_key (text "r") 9))
    × (has_key (relay_key (text "r") 9) (list_relays s'.settings).0 ≡ true)
unfolding relay_key decimal lookup bytes_dec
card_leads_over_relay_example =
    card_leads_over_relay (text "bob") 1
      (2 ∷ 3 ∷ 4 ∷ 5 ∷ 6 ∷ 7 ∷ 8 ∷ 9 ∷ 10 ∷ 11 ∷ 12 ∷ 13 ∷ 14 ∷ 15 ∷ 16 ∷ 17 ∷ 18 ∷ 19 ∷ 20 ∷ 21
        ∷ 22 ∷ 23 ∷ 24 ∷ 25 ∷ 26 ∷ 27 ∷ 28 ∷ 29 ∷ 30 ∷ 31 ∷ 32 ∷ [])
      114 [] 8 true (text "bb") relays no_contacts (ground arith) (ground arith) (ground arith) refl
      tt (inl refl) refl

abbrev quiet : CallWindows
quiet = record {
  call_windows = [];
  call_started_at = [];
  captions_enabled_for = [];
  captioner = record {
    buffer_seconds = 1;
    sample_rate = 4;
    target_lang = some (text "en");
    buffers = [];
    started = [];
  };
  translate_target_lang = some (text "en");
}

abbrev a_call : List Windows.Event
a_call = Windows.opens (text "bb") ∷ turns 5 (text "bb") active ∷ toggles (text "bb") true ∷ []

call_is_heard :
    buffer
      (text "bb")
      (on_remote_audio_chunk (text "bb") (1 ∷ 2 ∷ []) (Windows.run a_call quiet)).captioner
    ≡ 1 ∷ 2 ∷ []
unfolding open_call_window handle_call_state toggle_captions on_remote_audio_chunk feed lookup
    insert bytes_dec
call_is_heard = refl

closed_calls_have_no_captions_example :
    IsTidyFor
      (text "bb")
      (Windows.run (a_call ++ (turns 9 (text "bb") ended ∷ feeds (text "bb") (3 ∷ []) ∷ [])) quiet)
unfolding lookup
closed_calls_have_no_captions_example =
    closed_calls_have_no_captions
      (a_call ++ (turns 9 (text "bb") ended ∷ feeds (text "bb") (3 ∷ []) ∷ [])) (text "bb") quiet
      (inr (refl, refl))

late_block_stays_example :
    buffer
      (text "bb")
      (Windows.run (turns 12 (text "cc") active ∷ feeds (text "cc") (7 ∷ []) ∷ []) (
        feed_block
          (text "bb")
          (3 ∷ [])
          (close_call_window (text "bb") (Windows.run a_call quiet)))).captioner
    ≡ 3 ∷ []
unfolding open_call_window handle_call_state toggle_captions feed insert bytes_dec
late_block_stays_example =
    late_block_stays (text "bb") (3 ∷ [])
      (turns 12 (text "cc") active ∷ feeds (text "cc") (7 ∷ []) ∷ []) (Windows.run a_call quiet)
      (ground arith) (ground arith, (ground arith, tt))
