-- ===== src/Desktop/Sending/Stranded.antt =====
-- What an exception of `send_text` does to the messages that wait in haven/gui.py.
use haven_e2e_messenger.Prelude.{
  ◌≡◌, ◌≢◌, ◌⊎◌, refl, sym, ap, ◌∙◌, ℕ, zero, suc, Str, Bool, true, Option, none, some, List, [],
  ◌∷◌, ◌++◌, bytes_eq, Bool-cases, inl, inr, arith, All, subst, bytes_dec, append_assoc, append-nil,
}
use haven_e2e_messenger.Prelude.Errors.{Exn, Result, ok, err, Result-cases}
use haven_e2e_messenger.Prelude.Exec.{Exec, lift, ◌>>◌}
use haven_e2e_messenger.Prelude.Dict.{lookup-insert, lookup-insert_same}
use haven_e2e_messenger.Desktop.Sending.Places.{
  HasTimer, HasTimer-append_cases, WerePicked, pick-WerePicked,
}
use haven_e2e_messenger.Desktop.Sending.{
  Message, Shown, sending, done_flushing, redrawn, show, ChatApp, waiting, enqueue, start_if_first,
  show_if_open, set_waiting, is_open, try_again, send_to_contact, send_to_open, send_content,
  send_all, send_direct, flush_queue, flush_pending, pick, Event, sends, opens, fires,
  polls_connect, changes, fire, perform, run,
}

module _ {N : Type 0} (is_connected : Str → N → Bool)
    (send_text : Str → Message → Exec N (Unit {0})) where
  -- Sending a queue changes only the network, also where it raises.
  send_all-net :
      (fp : Str) (queued : List Message) (app : ChatApp N)
      → (r : Result (Unit {0})) × (net : N) × (send_all is_connected send_text fp queued app
          ≡ (r, record app { net = net }))
  send_all-net fp [] app = (ok tt, app.net, refl)
  send_all-net fp (m ∷ queued) app = elim (Result-cases (send_text fp m app.net).0) [
    | inl (e, raised) ↦ (err e, (send_text fp m app.net).1, rw raised refl)
    | inr (done, sent) ↦
        let (r, net, rest) =
          send_all-net fp queued (record app { net = (send_text fp m app.net).1 }) in
        (r, net, rw sent rest)
  ]

  -- The queue of a contact stays, and it gets no timer.
  abbrev Spares : Str → ChatApp N → ChatApp N → Type 0
  Spares fp app app' =
      (waiting fp app' ≡ waiting fp app) × (HasTimer fp app'.timers → HasTimer fp app.timers)

  set_waiting-Spares :
      (fp g : Str) (queued : List Message) (what : Shown) (app : ChatApp N)
      → fp ≢ g
      → Spares fp app (show_if_open g what (set_waiting g queued app))
  set_waiting-Spares fp g queued what app other =
      elim (Bool-cases (is_open app.open_fingerprint g)) [
        | inl open_ ↦ rw open_ (ground (arith, lookup-insert fp g queued app.pending_sends), λ h. h)
        | inr closed ↦
            rw closed (ground (arith, lookup-insert fp g queued app.pending_sends), λ h. h)
      ]

  not_last : {fp g : Str} {A : Type 0} → fp ≢ g → A ⊎ (fp ≡ g) → A
  not_last other (inl a) = a
  not_last other (inr same) = absurd (other same)

  try_again-Spares :
      (fp g : Str) (k : ℕ) (app : ChatApp N)
      → fp ≢ g
      → Spares fp app (try_again is_connected send_text g k app)
  try_again-Spares fp g zero app other = set_waiting-Spares fp g [] _ app other
  try_again-Spares fp g (suc k) app other =
      (refl, λ h. not_last other (HasTimer-append_cases fp app.timers g k h))

  flush_queue-Spares :
      (fp g : Str) (k : ℕ) (queued : List Message) (app : ChatApp N)
      → fp ≢ g
      → Spares fp app (flush_queue is_connected send_text g k queued app).1
  flush_queue-Spares fp g k [] app other = (refl, λ h. h)
  flush_queue-Spares fp g k (m ∷ queued) app other = elim (Bool-cases (is_connected g app.net)) [
    | inl there ↦
        let (r, net, sent) = send_all-net g (m ∷ queued) app in
        rw there (rw sent (after_sending r net))
    | inr gone ↦ rw gone (try_again-Spares fp g k app other)
  ]
    where
      after_sending :
          (r : Result (Unit {0})) (net : N)
          → Spares fp app
              ((lift r >> done_flushing is_connected send_text g) (record app { net = net })).1
      after_sending (err e) net = (refl, λ h. h)
      after_sending (ok tt) net =
          set_waiting-Spares fp g [] redrawn (record app { net = net }) other

  -- The queue begins with these messages, and no timer is set for it.
  abbrev pub IsStranded : Str → List Message → ChatApp N → Type 0
  IsStranded fp queued app =
      ((more : List Message) × (waiting fp app ≡ queued ++ more)) × (¬ HasTimer fp app.timers)

  Spares-IsStranded :
      (fp : Str) (queued : List Message) (app app' : ChatApp N)
      → Spares fp app app'
      → IsStranded fp queued app
      → IsStranded fp queued app'
  Spares-IsStranded fp queued app app' (kept, untimed) ((more, begins), none_set) =
      ((more, kept ∙ begins), λ h. none_set (untimed h))

  flush-IsStranded :
      (fp g : Str) (k : ℕ) (queued : List Message) (app : ChatApp N)
      → fp ≢ g
      → IsStranded fp queued app
      → IsStranded fp queued (flush_pending is_connected send_text g k app).1
  unfolding flush_pending
  flush-IsStranded fp g k queued app other v =
      Spares-IsStranded fp queued app (flush_queue is_connected send_text g k (waiting g app) app).1
        (flush_queue-Spares fp g k (waiting g app) app other) v

  -- A message that joins a queue with messages in it sets no timer.
  start_if_first-Spares :
      (fp g : Str) (queued : List Message) (app : ChatApp N)
      → fp ≢ g
      → Spares fp app (start_if_first g queued app)
  start_if_first-Spares fp g [] app other =
      (refl, λ h. not_last other (HasTimer-append_cases fp app.timers g 20 h))
  start_if_first-Spares fp g (m ∷ queued) app other = (refl, λ h. h)

  enqueue_own-IsStranded :
      (fp : Str) (m first : Message) (queued : List Message) (app : ChatApp N)
      → IsStranded fp (first ∷ queued) app
      → IsStranded fp (first ∷ queued) (enqueue fp m app)
  enqueue_own-IsStranded fp m first queued app ((more, begins), none_set) = rw begins (
      rw (lookup-insert_same fp (first ∷ (queued ++ more) ++ (m ∷ [])) app.pending_sends)
        ((more ++ (m ∷ []), ap (λ l. first ∷ l) (append_assoc queued more (m ∷ []))), none_set))

  enqueue_other-IsStranded :
      (fp g : Str) (m : Message) (queued : List Message) (app : ChatApp N)
      → fp ≢ g
      → IsStranded fp queued app
      → IsStranded fp queued (enqueue g m app)
  enqueue_other-IsStranded fp g m queued app other v =
      let grown = waiting g app ++ (m ∷ []) in
      let app' = show (sending m) (set_waiting g grown app) in
      Spares-IsStranded fp queued app' (start_if_first g (waiting g app) app')
        (start_if_first-Spares fp g (waiting g app) app' other)
        (Spares-IsStranded fp queued app app'
          (ground (arith, lookup-insert fp g grown app.pending_sends), λ h. h) v)

  send_direct-IsStranded :
      (fp g : Str) (m : Message) (queued : List Message) (app : ChatApp N)
      → IsStranded fp queued app
      → IsStranded fp queued (send_direct is_connected send_text g m app).1
  send_direct-IsStranded fp g m queued app v = elim (Result-cases (send_text g m app.net).0) [
    | inl (e, raised) ↦ rw raised v
    | inr (done, sent) ↦ rw sent v
  ]

  send_to_contact-IsStranded :
      (to : Option Str) (fp : Str) (m first : Message) (queued : List Message) (app : ChatApp N)
      → IsStranded fp (first ∷ queued) app
      → IsStranded fp (first ∷ queued) (send_to_contact is_connected send_text to m app).1
  send_to_contact-IsStranded none fp m first queued app v = v
  send_to_contact-IsStranded (some g) fp m first queued app v =
      elim (Bool-cases (is_connected g app.net)) [
        | inl there ↦ rw there (send_direct-IsStranded fp g m (first ∷ queued) app v)
        | inr gone ↦ rw gone (elim (bytes_dec fp g) [
          | yes same ↦
              subst (λ to. IsStranded fp (first ∷ queued) (enqueue to m app)) same
                (enqueue_own-IsStranded fp m first queued app v)
          | no other ↦ enqueue_other-IsStranded fp g m (first ∷ queued) app other v
        ])
      ]

  send_to_open-IsStranded :
      (group_id : Option Str) (fp : Str) (m first : Message) (queued : List Message)
      (app : ChatApp N)
      → IsStranded fp (first ∷ queued) app
      → IsStranded fp (first ∷ queued) (send_to_open is_connected send_text group_id m app).1
  send_to_open-IsStranded (some group_id) fp m first queued app v = v
  send_to_open-IsStranded none fp m first queued app v =
      send_to_contact-IsStranded app.open_fingerprint fp m first queued app v

  fire-IsStranded :
      (o : Option ((Str × ℕ) × List (Str × ℕ))) (fp : Str) (queued : List Message) (app : ChatApp N)
      → WerePicked app.timers o
      → IsStranded fp queued app
      → IsStranded fp queued (fire is_connected send_text o app)
  fire-IsStranded none fp queued app was v = v
  fire-IsStranded (some ((g, k), others)) fp queued app (was, kept) (begins, none_set) =
      flush-IsStranded fp g k queued (record app { timers = others })
        (λ same. none_set (subst (λ key. HasTimer key app.timers) (sym same) was))
        (begins, λ h. none_set (kept fp h))

  -- An event other than a new connection of the contact.
  abbrev pub IsElse : Str → Event N → Type 0
  IsElse fp (polls_connect g) = fp ≢ g
  IsElse fp _ = Unit

  perform-IsStranded :
      (e : Event N) (fp : Str) (first : Message) (queued : List Message) (app : ChatApp N)
      → IsElse fp e
      → IsStranded fp (first ∷ queued) app
      → IsStranded fp (first ∷ queued) (perform is_connected send_text e app)
  unfolding send_content
  perform-IsStranded (sends m) fp first queued app ok_ v =
      send_to_open-IsStranded app.open_group_id fp m first queued app v
  perform-IsStranded (opens to group_id) fp first queued app ok_ v = v
  perform-IsStranded (fires place) fp first queued app ok_ v =
      fire-IsStranded (pick place app.timers) fp (first ∷ queued) app
        (pick-WerePicked place app.timers) v
  perform-IsStranded (polls_connect g) fp first queued app other v =
      flush-IsStranded fp g 0 (first ∷ queued) app other v
  perform-IsStranded (changes f) fp first queued app ok_ v = v

  run-IsStranded :
      (events : List (Event N)) (fp : Str) (first : Message) (queued : List Message)
      (app : ChatApp N)
      → All (IsElse fp) events
      → IsStranded fp (first ∷ queued) app
      → IsStranded fp (first ∷ queued) (run is_connected send_text events app)
  run-IsStranded [] fp first queued app others v = v
  run-IsStranded (e ∷ events) fp first queued app (other, others) v =
      run-IsStranded events fp first queued (perform is_connected send_text e app) others
        (perform-IsStranded e fp first queued app other v)

  -- An exception of `send_text` strands a queue: if the first of the waiting messages raises when their
  -- timer has fired, then they all stay in the queue and no timer is set for them, whatever the user
  -- sends, whichever timers fire and however the network changes, until the contact connects anew.
  pub raising_send_strands_queue :
      (fp : Str) (k : ℕ) (first : Message) (queued : List Message) (e : Exn) (app : ChatApp N)
      (events : List (Event N))
      → waiting fp app ≡ first ∷ queued
      → is_connected fp app.net ≡ true
      → (send_text fp first app.net).0 ≡ err e
      → ¬ HasTimer fp app.timers
      → All (IsElse fp) events
      → IsStranded fp
          (first ∷ queued)
          (run is_connected send_text events (flush_pending is_connected send_text fp k app).1)
  unfolding flush_pending
  raising_send_strands_queue fp k first queued e app events begins there raised none_set others =
      run-IsStranded events fp first queued (flush_pending is_connected send_text fp k app).1 others
        (rw begins
          (rw there (rw raised (([], begins ∙ sym (append-nil (first ∷ queued))), none_set))))
