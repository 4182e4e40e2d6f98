-- ===== src/Desktop/Windows/Tidy.antt =====
-- What a closed call window of haven/gui.py leaves behind.
use haven_e2e_messenger.Prelude.{
  ◌≡◌, ◌≢◌, ◌⊎◌, refl, ap, leb, ◌∙◌, ◌<◌, All, length, ℕ, Str, Bytes, Bool, true, false, ◌||◌,
  Option, none, some, List, [], ◌∷◌, ◌++◌, contains, ◌==◌, bytes_eq, if◌then◌else◌, arith,
  Bool-cases, inl, inr, drop,
}
use haven_e2e_messenger.Prelude.Dict.{
  lookup, has_key, lookup-insert, lookup-insert_same, lookup-erase,
}
use haven_e2e_messenger.Ai.{Captioner, buffer, needed, feed, reset}
use haven_e2e_messenger.Desktop.Windows.{
  CallWindows, open_call_window, close_call_window, discard, CallState, active, ended, rejected,
  other_state, handle_call_state, add_fp, enable, toggle_captions, Event, opens, turns, toggles,
  feeds, feed_block, toggle_if_open, perform, run,
}

-- A contact without a window has no captions and no start of a call.
abbrev pub IsTidyFor : Str → CallWindows → Type 0
IsTidyFor fp w =
    (has_key fp w.call_windows ≡ true)
    ⊎ ((contains fp w.captions_enabled_for ≡ false) × (lookup fp w.call_started_at ≡ none))

contains-discard :
    (fp g : Str) (fps : List Str)
    → contains g (discard fp fps) ≡ (if g == fp then false else contains g fps)
contains-discard fp g [] = ground arith
contains-discard fp g (other ∷ fps) = ground (arith, contains-discard fp g fps)

contains-snoc :
    (fp g : Str) (fps : List Str) → contains g (fps ++ (fp ∷ [])) ≡ (contains g fps || (g == fp))
contains-snoc fp g [] = ground arith
contains-snoc fp g (other ∷ fps) = ground (arith, contains-snoc fp g fps)

contains-add_fp :
    (fp g : Str) (fps : List Str)
    → contains g (add_fp fp fps) ≡ (if g == fp then true else contains g fps)
contains-add_fp fp g fps = ground (arith, contains-snoc fp g fps)

buffer-reset :
    (fp g : Str) (c : Captioner) → buffer g (reset fp c) ≡ (if g == fp then [] else buffer g c)
unfolding reset
buffer-reset fp g c = ground (arith, lookup-erase g fp c.buffers)

enable-captioner :
    (lang : Option Str) (fp g : Str) (w : CallWindows)
    → buffer g (enable lang fp w).captioner ≡ buffer g w.captioner
enable-captioner none fp g w = refl
enable-captioner (some []) fp g w = refl
enable-captioner (some (c ∷ lang)) fp g w = refl

open-IsTidyFor :
    (fp g : Str) (w : CallWindows) → IsTidyFor g w → IsTidyFor g (open_call_window fp w)
unfolding open_call_window
open-IsTidyFor fp g w v = ground (arith, lookup-insert g fp false w.call_windows)

close-IsTidyFor :
    (fp g : Str) (w : CallWindows) → IsTidyFor g w → IsTidyFor g (close_call_window fp w)
unfolding close_call_window
close-IsTidyFor fp g w v = ground (
  arith,
  lookup-erase g fp w.call_windows,
  lookup-erase g fp w.call_started_at,
  contains-discard fp g w.captions_enabled_for,
)

handle_call_state-IsTidyFor :
    (now : ℕ) (fp g : Str) (state : CallState) (w : CallWindows)
    → IsTidyFor g w
    → IsTidyFor g (handle_call_state now fp state w)
unfolding handle_call_state open_call_window
handle_call_state-IsTidyFor now fp g active w v =
    ground
      (arith, lookup-insert g fp false w.call_windows, lookup-insert g fp now w.call_started_at)
handle_call_state-IsTidyFor now fp g ended w v = close-IsTidyFor fp g w v
handle_call_state-IsTidyFor now fp g rejected w v = close-IsTidyFor fp g w v
handle_call_state-IsTidyFor now fp g other_state w v = v

enable-IsTidyFor :
    (lang : Option Str) (fp g : Str) (w : CallWindows)
    → IsTidyFor g w
    → IsTidyFor g (enable lang fp w)
enable-IsTidyFor none fp g w v = v
enable-IsTidyFor (some []) fp g w v = v
enable-IsTidyFor (some (c ∷ lang)) fp g w v =
    ground
      (arith, lookup-insert g fp true w.call_windows, contains-add_fp fp g w.captions_enabled_for)

toggle-IsTidyFor :
    (fp g : Str) (value : Bool) (w : CallWindows)
    → IsTidyFor g w
    → IsTidyFor g (toggle_captions fp value w)
unfolding toggle_captions
toggle-IsTidyFor fp g true w v = enable-IsTidyFor w.translate_target_lang fp g w v
toggle-IsTidyFor fp g false w v =
    ground
      (arith, lookup-insert g fp false w.call_windows, contains-discard fp g w.captions_enabled_for)

toggle_if_open-IsTidyFor :
    (fp g : Str) (value : Bool) (w : CallWindows)
    → IsTidyFor g w
    → IsTidyFor g (toggle_if_open fp value w)
toggle_if_open-IsTidyFor fp g value w v = elim (Bool-cases (has_key fp w.call_windows)) [
  | inl open_ ↦ rw open_ (toggle-IsTidyFor fp g value w v)
  | inr closed ↦ rw closed v
]

perform-IsTidyFor :
    (e : Event) (g : Str) (w : CallWindows) → IsTidyFor g w → IsTidyFor g (perform e w)
perform-IsTidyFor (opens fp) g w v = open-IsTidyFor fp g w v
perform-IsTidyFor (turns now fp state) g w v = handle_call_state-IsTidyFor now fp g state w v
perform-IsTidyFor (toggles fp value) g w v = toggle_if_open-IsTidyFor fp g value w v
perform-IsTidyFor (feeds fp pcm_bytes) g w v = v

-- However windows open and close, the states of calls change, boxes are ticked and threads feed audio: a
-- contact without a call window has no captions and no running clock. Condition: it held at the start.
pub closed_calls_have_no_captions :
    (events : List Event) (fp : Str) (w : CallWindows)
    → IsTidyFor fp w
    → IsTidyFor fp (run events w)
closed_calls_have_no_captions [] fp w v = v
closed_calls_have_no_captions (e ∷ events) fp w v =
    closed_calls_have_no_captions events fp (perform e w) (perform-IsTidyFor e fp w v)

abbrev IsOther : Str → Event → Type 0
IsOther fp (opens g) = Unit
IsOther fp (turns now g state) = fp ≢ g
IsOther fp (toggles g value) = fp ≢ g
IsOther fp (feeds g pcm_bytes) = fp ≢ g

buffer-feed :
    (fp g : Str) (pcm_bytes : Bytes) (c : Captioner)
    → g ≢ fp
    → buffer g (feed fp pcm_bytes c) ≡ buffer g c
unfolding feed
buffer-feed fp g pcm_bytes c other = ground (
  arith,
  lookup-insert g fp (buffer fp c ++ pcm_bytes) c.buffers,
  lookup-insert g fp (drop (needed c) (buffer fp c ++ pcm_bytes)) c.buffers,
)

buffer-perform :
    (e : Event) (fp : Str) (w : CallWindows)
    → IsOther fp e
    → buffer fp (perform e w).captioner ≡ buffer fp w.captioner
unfolding open_call_window handle_call_state close_call_window toggle_captions
buffer-perform (opens g) fp w other = ground arith
buffer-perform (turns now g active) fp w other = ground arith
buffer-perform (turns now g ended) fp w other = ground (arith, buffer-reset g fp w.captioner)
buffer-perform (turns now g rejected) fp w other = ground (arith, buffer-reset g fp w.captioner)
buffer-perform (turns now g other_state) fp w other = refl
buffer-perform (toggles g true) fp w other = elim (Bool-cases (has_key g w.call_windows)) [
  | inl open_ ↦ rw open_ (enable-captioner w.translate_target_lang g fp w)
  | inr closed ↦ rw closed refl
]
buffer-perform (toggles g false) fp w other = ground (arith, buffer-reset g fp w.captioner)
buffer-perform (feeds g pcm_bytes) fp w other = buffer-feed g fp pcm_bytes w.captioner other

buffer-run :
    (events : List Event) (fp : Str) (w : CallWindows)
    → All (IsOther fp) events
    → buffer fp (run events w).captioner ≡ buffer fp w.captioner
buffer-run [] fp w others = refl
buffer-run (e ∷ events) fp w (other, others) =
    buffer-run events fp (perform e w) others ∙ buffer-perform e fp w other

buffer-first :
    (fp : Str) (pcm_bytes : Bytes) (c : Captioner)
    → buffer fp c ≡ []
    → length pcm_bytes < needed c
    → buffer fp (feed fp pcm_bytes c) ≡ pcm_bytes
unfolding feed
buffer-first fp pcm_bytes c empty short =
    let all : buffer fp c ++ pcm_bytes ≡ pcm_bytes = ap (λ before. before ++ pcm_bytes) empty in
    elim (Bool-cases (leb (needed c) (length pcm_bytes))) [
      | inl full ↦ absurd (ground arith)
      | inr fits ↦ rw all (rw fits (rw (lookup-insert_same fp pcm_bytes c.buffers) refl))
    ]

-- A call that is closed between a network thread's test whether captions are wanted and its `feed`
-- leaves audio behind: the thread's block, if it is shorter than a piece, is all that the contact's buffer
-- then holds, and it stays there whatever windows open and whatever happens to other contacts.
pub late_block_stays :
    (fp : Str) (pcm_bytes : Bytes) (events : List Event) (w : CallWindows)
    → length pcm_bytes < needed w.captioner
    → All (IsOther fp) events
    → buffer fp (run events (feed_block fp pcm_bytes (close_call_window fp w))).captioner
      ≡ pcm_bytes
unfolding close_call_window reset
late_block_stays fp pcm_bytes events w short others =
    buffer-run events fp (feed_block fp pcm_bytes (close_call_window fp w)) others
    ∙ buffer-first fp pcm_bytes (reset fp w.captioner)
        (ground (arith, buffer-reset fp fp w.captioner)) short
