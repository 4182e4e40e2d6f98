-- ===== src/Desktop/Sending/Ending.antt =====
-- The waiting of messages in haven/gui.py ends.
use haven_e2e_messenger.Prelude.{
  ◌≡◌, refl, ℕ, zero, suc, ◌+◌, ◌≤◌, Str, Bool, List, [], ◌∷◌, ◌++◌, Bool-cases, inl, inr, arith,
  length,
}
use haven_e2e_messenger.Prelude.Errors.{ok, Result-cases}
use haven_e2e_messenger.Prelude.Exec.{Exec}
use haven_e2e_messenger.Desktop.Sending.{
  Message, ChatApp, Event, changes, fires, waiting, set_waiting, show_if_open, redrawn, Shown,
  is_open, try_again, flush_queue, flush_pending, send_all, fire, pick, perform, run,
}
use haven_e2e_messenger.Desktop.Sending.Places.{HasTimer}
use haven_e2e_messenger.Desktop.Sending.Timers.{
  IsTimed, FlushesWell, fire_result, send_all-sent, waiting_messages_are_watched,
}

-- How often the timers can fire: each fires now, and once for each attempt left.
abbrev pub firings_left : List (Str × ℕ) → ℕ
firings_left [] = 0
firings_left ((fp, attempts_left) ∷ timers) = suc attempts_left + firings_left timers

firings_left-snoc :
    (timers : List (Str × ℕ)) (fp : Str) (k : ℕ)
    → firings_left (timers ++ ((fp, k) ∷ [])) ≡ firings_left timers + suc k
firings_left-snoc [] fp k = omega arith
firings_left-snoc ((key, j) ∷ timers) fp k = omega (arith, firings_left-snoc timers fp k)

no_firings_left :
    (fp : Str) (timers : List (Str × ℕ)) → firings_left timers ≤ 0 → HasTimer fp timers → ⊥
no_firings_left fp [] none_left there = there
no_firings_left fp ((key, k) ∷ timers) none_left there = absurd (omega arith)

module _ {N : Type 0} (is_connected : Str → N → Bool)
    (send_text : Str → Message → Exec N (Unit {0})) where
  -- The timers fire one after the other in the order in which they were set, for all wait equally long;
  -- what other threads do to the network stands before each.
  abbrev pub rounds : List (N → N) → List (Event N)
  rounds [] = []
  rounds (f ∷ fs) = changes f ∷ fires 0 ∷ rounds fs

  shown-timers :
      (fp : Str) (what : Shown) (app : ChatApp N) → (show_if_open fp what app).timers ≡ app.timers
  shown-timers fp what app = elim (Bool-cases (is_open app.open_fingerprint fp)) [
    | inl open_ ↦ rw open_ refl
    | inr closed ↦ rw closed refl
  ]

  try_again-firings :
      (fp : Str) (k : ℕ) (app : ChatApp N)
      → firings_left (try_again is_connected send_text fp k app).timers
        ≤ firings_left app.timers + k
  try_again-firings fp zero app = rw (shown-timers fp _ (set_waiting fp [] app)) (omega arith)
  try_again-firings fp (suc k) app = omega (arith, firings_left-snoc app.timers fp k)

  flush_queue-firings :
      (fp : Str) (k : ℕ) (queued : List Message) (app : ChatApp N)
      → (flush_queue is_connected send_text fp k queued app).0 ≡ ok tt
      → firings_left (flush_queue is_connected send_text fp k queued app).1.timers
        ≤ firings_left app.timers + k
  flush_queue-firings fp k [] app fine = omega arith
  flush_queue-firings fp k (m ∷ queued) app fine = elim (Bool-cases (is_connected fp app.net)) [
    | inl there ↦ elim (Result-cases (send_all is_connected send_text fp (m ∷ queued) app).0) [
      | inl (e, raised) ↦ absurd (ground arith)
      | inr (done, all_sent) ↦
          let (net, sent) = send_all-sent is_connected send_text fp (m ∷ queued) app all_sent in
          let redrawn_app = set_waiting fp [] (record app { net = net }) in
          rw there (rw sent (rw (shown-timers fp redrawn redrawn_app) (omega arith)))
    ]
    | inr gone ↦ rw gone (try_again-firings fp k app)
  ]

  fire-firings :
      (timers : List (Str × ℕ)) (n : ℕ) (app : ChatApp N)
      → fire_result is_connected send_text (pick 0 timers) app ≡ ok tt
      → timers ≡ app.timers
      → firings_left timers ≤ suc n
      → firings_left (fire is_connected send_text (pick 0 timers) app).timers ≤ n
  unfolding flush_pending
  fire-firings [] n app fine same few = rw (← same) (omega arith)
  fire-firings ((fp, k) ∷ timers) n app fine same few =
      let app' : ChatApp N = record app { timers = timers } in
      omega (arith, flush_queue-firings fp k (waiting fp app') app' fine)

  rounds-firings :
      (fs : List (N → N)) (app : ChatApp N)
      → FlushesWell is_connected send_text (rounds fs) app
      → firings_left app.timers ≤ length fs
      → firings_left (run is_connected send_text (rounds fs) app).timers ≤ 0
  rounds-firings [] app well enough = enough
  rounds-firings (f ∷ fs) app (_, (fine, well)) enough =
      let app' : ChatApp N = record app { net = f app.net } in
      rounds-firings fs (perform is_connected send_text (fires 0) app') well
        (fire-firings app.timers (length fs) app' fine refl enough)

  -- Messages do not wait forever: when the timers have fired as often as they have attempts left, and
  -- each once more, whatever happens to the network in between, then no contact has a message waiting.
  -- Conditions: every contact with messages waiting has a timer at the start, and no call of
  -- `_flush_pending` raises in this run.
  pub waiting_ends :
      (fs : List (N → N)) (app : ChatApp N)
      → FlushesWell is_connected send_text (rounds fs) app
      → IsTimed is_connected send_text app
      → firings_left app.timers ≤ length fs
      → (fp : Str) → waiting fp (run is_connected send_text (rounds fs) app) ≡ []
  waiting_ends fs app well timed enough fp =
      let (_, still_timed) =
        waiting_messages_are_watched is_connected send_text (rounds fs) app well timed in
      elim (still_timed fp) [
        | inl empty ↦ empty
        | inr there ↦ absurd (no_firings_left fp _ (rounds-firings fs app well enough) there)
      ]
