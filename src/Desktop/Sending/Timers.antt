-- ===== src/Desktop/Sending/Timers.antt =====
-- The timers behind the messages that wait in haven/gui.py.
use haven_e2e_messenger.Prelude.{
  ◌≡◌, ◌⊎◌, refl, sym, ℕ, zero, suc, ◌≤◌, Str, Bool, Option, none, some, List, [], ◌∷◌, ◌++◌, ◌==◌,
  bytes_eq, All, arith, Bool-cases, inl, inr,
}
use haven_e2e_messenger.Prelude.Errors.{Result, ok, Result-cases}
use haven_e2e_messenger.Prelude.Exec.{Exec}
use haven_e2e_messenger.Prelude.Dict.{lookup-insert}
use haven_e2e_messenger.Desktop.Sending.Places.{
  HasTimer, IsShort, HasTimer-append, All-snoc, Picks, pick-Picks,
}
use haven_e2e_messenger.Desktop.Sending.{
  Message, Shown, sending, redrawn, show, ChatApp, waiting, enqueue, start_if_first, show_if_open,
  set_waiting, is_open, try_again, send_to_contact, send_to_open, send_content, send_all,
  send_direct, flush_queue, flush_pending, pick, Event, sends, opens, fires, polls_connect, changes,
  fire, perform, run,
}

module _ {N : Type 0} (is_connected : Str → N → Bool)
    (send_text : Str → Message → Exec N (Unit {0})) where
  -- A queue that is not empty has a timer, but perhaps that of one contact.
  abbrev TimedBut : Str → ChatApp N → Type 0
  TimedBut fp app = (g : Str) → (g ≡ fp) ⊎ (waiting g app ≡ []) ⊎ HasTimer g app.timers

  -- Every queue that is not empty has a timer, and no timer has more than 20 attempts left.
  abbrev pub IsTimed : ChatApp N → Type 0
  IsTimed app =
      All IsShort app.timers × ((fp : Str) → (waiting fp app ≡ []) ⊎ HasTimer fp app.timers)

  abbrev pub fire_result : Option ((Str × ℕ) × List (Str × ℕ)) → ChatApp N → Result (Unit {0})
  fire_result none app = ok tt
  fire_result (some ((fp, attempts_left), others)) app =
      (flush_pending is_connected send_text fp attempts_left (record app { timers = others })).0

  -- What the call of `_flush_pending` in this event gives, where there is one.
  abbrev pub flush_result : Event N → ChatApp N → Result (Unit {0})
  flush_result (fires place) app = fire_result (pick place app.timers) app
  flush_result (polls_connect fp) app = (flush_pending is_connected send_text fp 0 app).0
  flush_result (sends m) app = ok tt
  flush_result (opens fp group_id) app = ok tt
  flush_result (changes f) app = ok tt

  -- In this run no `_flush_pending` raises, so the messages that it sends are sent.
  abbrev pub FlushesWell : List (Event N) → ChatApp N → Type 0
  FlushesWell [] app = Unit
  FlushesWell (e ∷ events) app =
      (flush_result e app ≡ ok tt) × FlushesWell events (perform is_connected send_text e app)

  -- Emptying the queue of a contact, or setting its timer, leaves nothing without a timer.
  emptied-IsTimed :
      (fp : Str) (app : ChatApp N)
      → All IsShort app.timers
      → TimedBut fp app
      → IsTimed (set_waiting fp [] app)
  emptied-IsTimed fp app short but = (
    short,
    λ g. elim (but g) [
      | inl same ↦ inl (ground (arith, lookup-insert g fp [] app.pending_sends))
      | inr (inl empty) ↦ inl (ground (arith, lookup-insert g fp [] app.pending_sends))
      | inr (inr timed) ↦ inr timed
    ],
  )

  -- Sending without an exception changes only the network.
  pub send_all-sent :
      (fp : Str) (queued : List Message) (app : ChatApp N)
      → (send_all is_connected send_text fp queued app).0 ≡ ok tt
      → (net : N) × (send_all is_connected send_text fp queued app
          ≡ (ok tt, record app { net = net }))
  send_all-sent fp [] app fine = (app.net, refl)
  send_all-sent fp (m ∷ queued) app fine = elim (Result-cases (send_text fp m app.net).0) [
    | inl (e, raised) ↦ absurd (ground arith)
    | inr (done, sent) ↦
        let (net, rest) =
          send_all-sent fp queued (record app { net = (send_text fp m app.net).1 })
            (rw sent at fine) in
        (net, rw sent rest)
  ]

  show_if_open-IsTimed :
      (fp : Str) (what : Shown) (app : ChatApp N) → IsTimed app → IsTimed (show_if_open fp what app)
  show_if_open-IsTimed fp what app v = elim (Bool-cases (is_open app.open_fingerprint fp)) [
    | inl open_ ↦ rw open_ v
    | inr closed ↦ rw closed v
  ]

  try_again-IsTimed :
      (fp : Str) (k : ℕ) (app : ChatApp N)
      → k ≤ 20
      → All IsShort app.timers
      → TimedBut fp app
      → IsTimed (try_again is_connected send_text fp k app)
  try_again-IsTimed fp zero app few short but =
      show_if_open-IsTimed fp _ (set_waiting fp [] app) (emptied-IsTimed fp app short but)
  try_again-IsTimed fp (suc k) app few short but = (
    All-snoc (fp, k) app.timers short (omega arith),
    λ g. elim (but g) [
      | inl same ↦ inr (HasTimer-append g app.timers ((fp, k) ∷ []) (inr (inl same)))
      | inr (inl empty) ↦ inl empty
      | inr (inr timed) ↦ inr (HasTimer-append g app.timers ((fp, k) ∷ []) (inl timed))
    ],
  )

  flush_queue-IsTimed :
      (fp : Str) (k : ℕ) (queued : List Message) (app : ChatApp N)
      → queued ≡ waiting fp app
      → (flush_queue is_connected send_text fp k queued app).0 ≡ ok tt
      → k ≤ 20
      → All IsShort app.timers
      → TimedBut fp app
      → IsTimed (flush_queue is_connected send_text fp k queued app).1
  flush_queue-IsTimed fp k [] app same fine few short but = (
    short,
    λ g. elim (but g) [
      | inl here ↦ inl (rw here (sym same))
      | inr (inl empty) ↦ inl empty
      | inr (inr timed) ↦ inr timed
    ],
  )
  flush_queue-IsTimed fp k (m ∷ queued) app same fine few short but =
      elim (Bool-cases (is_connected fp app.net)) [
        | inl there ↦ elim (Result-cases (send_all is_connected send_text fp (m ∷ queued) app).0) [
          | inl (e, raised) ↦ absurd (ground arith)
          | inr (done, all_sent) ↦
              let (net, sent) = send_all-sent fp (m ∷ queued) app all_sent in
              rw there (
                rw sent (
                  show_if_open-IsTimed fp redrawn (set_waiting fp [] (record app { net = net }))
                    (emptied-IsTimed fp (record app { net = net }) short but)))
        ]
        | inr gone ↦ rw gone (try_again-IsTimed fp k app few short but)
      ]

  flush_pending-IsTimed :
      (fp : Str) (k : ℕ) (app : ChatApp N)
      → (flush_pending is_connected send_text fp k app).0 ≡ ok tt
      → k ≤ 20
      → All IsShort app.timers
      → TimedBut fp app
      → IsTimed (flush_pending is_connected send_text fp k app).1
  unfolding flush_pending
  flush_pending-IsTimed fp k app fine few short but =
      flush_queue-IsTimed fp k (waiting fp app) app refl fine few short but

  but_one : (fp : Str) (app : ChatApp N) → IsTimed app → TimedBut fp app
  but_one fp app (short, timed) g = inr (timed g)

  enqueue-IsTimed :
      (fp : Str) (m : Message) (app : ChatApp N) → IsTimed app → IsTimed (enqueue fp m app)
  enqueue-IsTimed fp m app (short, timed) = behind_queue (waiting fp app) refl
    where
      behind_queue :
          (queued : List Message)
          → waiting fp app ≡ queued
          → IsTimed (
              start_if_first fp queued
                (show (sending m) (set_waiting fp (waiting fp app ++ (m ∷ [])) app)))
      behind_queue [] same = (
        All-snoc (fp, 20) app.timers short (omega arith),
        λ g. elim (timed g) [
          | inl empty ↦ elim (Bool-cases (g == fp)) [
            | inl here ↦
                inr (HasTimer-append g app.timers ((fp, 20) ∷ []) (inr (inl (ground arith))))
            | inr other ↦
                inl (
                  ground (arith, lookup-insert g fp (waiting fp app ++ (m ∷ [])) app.pending_sends))
          ]
          | inr there ↦ inr (HasTimer-append g app.timers ((fp, 20) ∷ []) (inl there))
        ],
      )
      behind_queue (first ∷ queued) same = (
        short,
        λ g. elim (timed g) [
          | inl empty ↦
              inl
                (ground (arith, lookup-insert g fp (waiting fp app ++ (m ∷ [])) app.pending_sends))
          | inr there ↦ inr there
        ],
      )

  send_direct-IsTimed :
      (fp : Str) (m : Message) (app : ChatApp N)
      → IsTimed app
      → IsTimed (send_direct is_connected send_text fp m app).1
  send_direct-IsTimed fp m app v = elim (Result-cases (send_text fp m app.net).0) [
    | inl (e, raised) ↦ rw raised v
    | inr (done, sent) ↦ rw sent v
  ]

  send_to_contact-IsTimed :
      (fp : Option Str) (m : Message) (app : ChatApp N)
      → IsTimed app
      → IsTimed (send_to_contact is_connected send_text fp m app).1
  send_to_contact-IsTimed none m app v = v
  send_to_contact-IsTimed (some fp) m app v = elim (Bool-cases (is_connected fp app.net)) [
    | inl there ↦ rw there (send_direct-IsTimed fp m app v)
    | inr gone ↦ rw gone (enqueue-IsTimed fp m app v)
  ]

  send_to_open-IsTimed :
      (group_id : Option Str) (m : Message) (app : ChatApp N)
      → IsTimed app
      → IsTimed (send_to_open is_connected send_text group_id m app).1
  send_to_open-IsTimed (some group_id) m app v = v
  send_to_open-IsTimed none m app v = send_to_contact-IsTimed app.open_fingerprint m app v

  fire-IsTimed :
      (o : Option ((Str × ℕ) × List (Str × ℕ))) (app : ChatApp N)
      → fire_result o app ≡ ok tt
      → Picks app.timers o
      → IsTimed app
      → IsTimed (fire is_connected send_text o app)
  fire-IsTimed none app fine picked v = v
  fire-IsTimed (some ((fp, k), others)) app fine (shorter, kept) (short, timed) =
      let (few, rest) = shorter short in
      flush_pending-IsTimed fp k (record app { timers = others }) fine few rest
        (λ g. elim (timed g) [
          | inl empty ↦ inr (inl empty)
          | inr there ↦ elim (kept g there) [ inl same ↦ inl same | inr still ↦ inr (inr still) ]
        ])

  perform-IsTimed :
      (e : Event N) (app : ChatApp N)
      → flush_result e app ≡ ok tt
      → IsTimed app
      → IsTimed (perform is_connected send_text e app)
  unfolding send_content
  perform-IsTimed (sends m) app fine v = send_to_open-IsTimed app.open_group_id m app v
  perform-IsTimed (opens fp group_id) app fine v = v
  perform-IsTimed (fires place) app fine v =
      fire-IsTimed (pick place app.timers) app fine (pick-Picks place app.timers) v
  perform-IsTimed (polls_connect fp) app fine v =
      flush_pending-IsTimed fp 0 app fine (omega arith) v.0 (but_one fp app v)
  perform-IsTimed (changes f) app fine v = v

  -- No message waits for nothing: after any sendings, firings of timers, new connections and changes of
  -- the network, every contact with messages waiting has a timer set that will try again, and no timer
  -- has more than 20 attempts left. Conditions: it held at the start, and no call of `_flush_pending`
  -- raises in this run.
  pub waiting_messages_are_watched :
      (events : List (Event N)) (app : ChatApp N)
      → FlushesWell events app
      → IsTimed app
      → IsTimed (run is_connected send_text events app)
  waiting_messages_are_watched [] app well v = v
  waiting_messages_are_watched (e ∷ events) app (fine, well) v =
      waiting_messages_are_watched events (perform is_connected send_text e app) well
        (perform-IsTimed e app fine v)
