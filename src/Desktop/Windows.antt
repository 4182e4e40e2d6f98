-- ===== src/Desktop/Windows.antt =====
-- The call windows of haven/gui.py and the captions in them.
pub mod Tidy
use haven_e2e_messenger.Prelude.{
  ℕ, Str, Bytes, Bool, true, false, not, Option, none, some, List, [], ◌∷◌, ◌++◌, keep, contains,
  ◌==◌, bytes_eq, if◌then◌else◌,
}
use haven_e2e_messenger.Prelude.Dict.{Dict, has_key, insert, erase}
use haven_e2e_messenger.Ai.{Captioner, feed, reset}

-- What ChatApp keeps for its calls. A window stands with whether its box for captions is ticked.
pub record CallWindows : Type 0 where
  pub call_windows : Dict Str Bool
  pub call_started_at : Dict Str ℕ
  pub captions_enabled_for : List Str
  pub captioner : Captioner
  pub translate_target_lang : Option Str

-- `_open_call_window`
unfoldable pub open_call_window : Str → CallWindows → CallWindows
open_call_window fp w =
    if has_key fp w.call_windows
    then w
    else record w { call_windows = insert fp false w.call_windows }

abbrev pub discard : Str → List Str → List Str
discard fp = keep (λ other. not (other == fp))

-- `_close_call_window`
unfoldable pub close_call_window : Str → CallWindows → CallWindows
close_call_window fp w = record w {
  call_windows = erase fp w.call_windows;
  call_started_at = erase fp w.call_started_at;
  captions_enabled_for = discard fp w.captions_enabled_for;
  captioner = reset fp w.captioner;
}

-- The states that `_handle_call_state` tells apart.
pub data CallState : Type 0 where
  active ended rejected other_state : CallState

-- `_handle_call_state`
unfoldable pub handle_call_state : ℕ → Str → CallState → CallWindows → CallWindows
handle_call_state now fp active w =
    open_call_window fp (record w { call_started_at = insert fp now w.call_started_at })
handle_call_state now fp ended w = close_call_window fp w
handle_call_state now fp rejected w = close_call_window fp w
handle_call_state now fp other_state w = w

abbrev pub add_fp : Str → List Str → List Str
add_fp fp fps = if contains fp fps then fps else fps ++ (fp ∷ [])

abbrev pub enable : Option Str → Str → CallWindows → CallWindows
enable (some (c ∷ lang)) fp w = record w {
  call_windows = insert fp true w.call_windows;
  captions_enabled_for = add_fp fp w.captions_enabled_for;
}
enable _ fp w = w

-- `toggle_captions`, to the value that the box has been given; its window is open.
unfoldable pub toggle_captions : Str → Bool → CallWindows → CallWindows
toggle_captions fp true w = enable w.translate_target_lang fp w
toggle_captions fp false w = record w {
  call_windows = insert fp false w.call_windows;
  captions_enabled_for = discard fp w.captions_enabled_for;
  captioner = reset fp w.captioner;
}

-- What a network thread does when it has found that captions are wanted.
abbrev pub feed_block : Str → Bytes → CallWindows → CallWindows
feed_block fp pcm_bytes w = record w { captioner = feed fp pcm_bytes w.captioner }

-- `_on_remote_audio_chunk_threaded`, where nothing comes between its test and its `feed`.
unfoldable pub on_remote_audio_chunk : Str → Bytes → CallWindows → CallWindows
on_remote_audio_chunk fp pcm_bytes w =
    if contains fp w.captions_enabled_for then feed_block fp pcm_bytes w else w

-- What happens to the windows: one is opened for a call that is made or taken, the state of a call
-- changes, a box is ticked or cleared, or a network thread that has found captions wanted, now or at any
-- time before, feeds its block of audio.
pub data Event : Type 0 where
  opens : Str → Event
  turns : ℕ → Str → CallState → Event
  toggles : Str → Bool → Event
  feeds : Str → Bytes → Event

-- A box can be ticked only where there is a window.
abbrev pub toggle_if_open : Str → Bool → CallWindows → CallWindows
toggle_if_open fp value w = if has_key fp w.call_windows then toggle_captions fp value w else w

abbrev pub perform : Event → CallWindows → CallWindows
perform (opens fp) w = open_call_window fp w
perform (turns now fp state) w = handle_call_state now fp state w
perform (toggles fp value) w = toggle_if_open fp value w
perform (feeds fp pcm_bytes) w = feed_block fp pcm_bytes w

abbrev pub run : List Event → CallWindows → CallWindows
run [] w = w
run (e ∷ events) w = run events (perform e w)
