-- ===== src/Desktop/Sending.antt =====
-- Sending from haven/gui.py: `_send_content`, `_flush_pending` and the timers that repeat it. The network
-- is a parameter: whether a contact is connected, and `send_text`, which may raise.
pub mod Places
pub mod Timers
pub mod Ending
pub mod Stranded
use haven_e2e_messenger.Prelude.{
  ℕ, zero, suc, Str, text, Bool, true, false, Option, none, some, List, [], ◌∷◌, ◌++◌, ◌==◌,
  bytes_eq, if◌then◌else◌,
}
use haven_e2e_messenger.Prelude.Errors.{Result, ok, err}
use haven_e2e_messenger.Prelude.Exec.{Exec, skip, ◌>>=◌, ◌>>◌}
use haven_e2e_messenger.Prelude.Dict.{Dict, lookup, insert}

-- A text and its kind.
abbrev pub Message : Type 0
Message = Str × Str

-- What the chat window is told: a line or an attachment of one's own, a note, or to draw itself anew.
pub data Shown : Type 0 where
  own sending : Message → Shown
  note : Str → Shown
  redrawn : Shown

-- The part of ChatApp that sending reads and writes. `connecting` has the contacts for which
-- `_attempt_connect` was called, `group_messages` what went to the group manager, and `timers` the calls
-- of `_flush_pending` that `after` will make, each with its attempts left.
pub record ChatApp (N : Type 0) : Type 0 where
  pub net : N
  pub open_fingerprint : Option Str
  pub open_group_id : Option Str
  pub pending_sends : Dict Str (List Message)
  pub timers : List (Str × ℕ)
  pub connecting : List Str
  pub group_messages : List (Str × Message)
  pub shown : List Shown

abbrev pub or_no_messages : Option (List Message) → List Message
or_no_messages none = []
or_no_messages (some queued) = queued

abbrev pub is_open : Option Str → Str → Bool
is_open none fp = false
is_open (some key) fp = fp == key

module _ {N : Type 0} where
  abbrev pub waiting : Str → ChatApp N → List Message
  waiting fp app = or_no_messages (lookup fp app.pending_sends)

  abbrev pub show : Shown → ChatApp N → ChatApp N
  show what app = record app { shown = app.shown ++ (what ∷ []) }

  abbrev pub show_if_open : Str → Shown → ChatApp N → ChatApp N
  show_if_open fp what app = if is_open app.open_fingerprint fp then show what app else app

  abbrev pub set_waiting : Str → List Message → ChatApp N → ChatApp N
  set_waiting fp queued app = record app { pending_sends = insert fp queued app.pending_sends }

  -- `self.after(300, lambda: self._flush_pending(fp, attempts_left))`
  abbrev pub after : Str → ℕ → ChatApp N → ChatApp N
  after fp attempts_left app = record app { timers = app.timers ++ ((fp, attempts_left) ∷ []) }

  abbrev pub start_connecting : Str → ChatApp N → ChatApp N
  start_connecting fp app = record app { connecting = app.connecting ++ (fp ∷ []) }

  abbrev pub with_net : Result (Unit {0}) × N → ChatApp N → Result (Unit {0}) × ChatApp N
  with_net (result, net) app = (result, record app { net = net })

  -- Queueing without a session: the first message of a queue starts a connection and the timer.
  abbrev pub start_if_first : Str → List Message → ChatApp N → ChatApp N
  start_if_first fp [] app = after fp 20 (start_connecting fp app)
  start_if_first fp (m ∷ queued) app = app

  abbrev pub enqueue : Str → Message → ChatApp N → ChatApp N
  enqueue fp m app =
      start_if_first fp (waiting fp app)
        (show (sending m) (set_waiting fp (waiting fp app ++ (m ∷ [])) app))

abbrev pub behind :
    Str × ℕ → Option ((Str × ℕ) × List (Str × ℕ)) → Option ((Str × ℕ) × List (Str × ℕ))
behind t none = none
behind t (some (found, others)) = some (found, t ∷ others)

-- The timer at a place among those that are set, and the others.
abbrev pub pick : ℕ → List (Str × ℕ) → Option ((Str × ℕ) × List (Str × ℕ))
pick place [] = none
pick zero (t ∷ timers) = some (t, timers)
pick (suc place) (t ∷ timers) = behind t (pick place timers)

-- What happens to the window: the user sends something or opens a chat, a timer fires, an event of a
-- new connection is read from the queue, or other threads change the network.
pub data Event (N : Type 0) : Type 0 where
  sends : Message → Event N
  opens : Option Str → Option Str → Event N
  fires : ℕ → Event N
  polls_connect : Str → Event N
  changes : (N → N) → Event N

module _ {N : Type 0} (is_connected : Str → N → Bool)
    (send_text : Str → Message → Exec N (Unit {0})) where
  abbrev pub send_to : Str → Message → Exec (ChatApp N) (Unit {0})
  send_to fp m app = with_net (send_text fp m app.net) app

  abbrev pub send_direct : Str → Message → Exec (ChatApp N) (Unit {0})
  send_direct fp m = do send_to fp m; λ app. (ok tt, show (own m) app)

  abbrev pub send_to_contact : Option Str → Message → Exec (ChatApp N) (Unit {0})
  send_to_contact none m app = (ok tt, app)
  send_to_contact (some fp) m app =
      if is_connected fp app.net then send_direct fp m app else (ok tt, enqueue fp m app)

  abbrev pub send_to_open : Option Str → Message → Exec (ChatApp N) (Unit {0})
  send_to_open none m app = send_to_contact app.open_fingerprint m app
  send_to_open (some group_id) m app = (
    ok tt,
    show (own m) (record app { group_messages = app.group_messages ++ ((group_id, m) ∷ []) }),
  )

  -- `_send_content`
  unfoldable pub send_content : Message → Exec (ChatApp N) (Unit {0})
  send_content m app = send_to_open app.open_group_id m app

  abbrev pub send_all : Str → List Message → Exec (ChatApp N) (Unit {0})
  send_all fp [] = skip
  send_all fp (m ∷ queued) = send_to fp m >> send_all fp queued

  abbrev pub done_flushing : Str → Exec (ChatApp N) (Unit {0})
  done_flushing fp app = (ok tt, show_if_open fp redrawn (set_waiting fp [] app))

  abbrev pub give_up : Str → ChatApp N → ChatApp N
  give_up fp app =
      show_if_open fp (note (text "Couldn't deliver — no route to this contact right now."))
        (set_waiting fp [] app)

  abbrev pub try_again : Str → ℕ → ChatApp N → ChatApp N
  try_again fp zero app = give_up fp app
  try_again fp (suc attempts_left) app = after fp attempts_left app

  abbrev pub flush_queue : Str → ℕ → List Message → Exec (ChatApp N) (Unit {0})
  flush_queue fp attempts_left [] app = (ok tt, app)
  flush_queue fp attempts_left (m ∷ queued) app =
      if is_connected fp app.net
      then (send_all fp (m ∷ queued) >> done_flushing fp) app
      else (ok tt, try_again fp attempts_left app)

  -- `_flush_pending`
  unfoldable pub flush_pending : Str → ℕ → Exec (ChatApp N) (Unit {0})
  flush_pending fp attempts_left app = flush_queue fp attempts_left (waiting fp app) app

  abbrev pub fire : Option ((Str × ℕ) × List (Str × ℕ)) → ChatApp N → ChatApp N
  fire none app = app
  fire (some ((fp, attempts_left), others)) app =
      (flush_pending fp attempts_left (record app { timers = others })).1

  -- Tk reports an exception of a callback and goes on with the state that it left.
  abbrev pub perform : Event N → ChatApp N → ChatApp N
  perform (sends m) app = (send_content m app).1
  perform (opens fp group_id) app = record app { open_fingerprint = fp; open_group_id = group_id }
  perform (fires place) app = fire (pick place app.timers) app
  perform (polls_connect fp) app = (flush_pending fp 0 app).1
  perform (changes f) app = record app { net = f app.net }

  abbrev pub run : List (Event N) → ChatApp N → ChatApp N
  run [] app = app
  run (e ∷ events) app = run events (perform e app)
