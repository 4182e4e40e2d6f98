-- ===== src/Calls/State.antt =====
-- The state of `CallManager` of haven/calls.py, and starting and stopping the media threads.
use haven_e2e_messenger.Prelude.{
  ℕ, suc, Str, Bytes, Bool, false, ◌&&◌, Option, none, some, List, [], ◌∷◌, ◌++◌, bytes_eq,
}
use haven_e2e_messenger.Prelude.Errors.{Exn, Result, ok, err, key_error}
use haven_e2e_messenger.Prelude.Exec.{Exec, raise, modify, skip}
use haven_e2e_messenger.Prelude.Dict.{Dict, lookup, insert, erase}

pub data CallState : Type 0 where
  ringing_out ringing_in active : CallState

-- What `on_call_state` is told.
pub data Notice : Type 0 where
  told_ringing_out told_active told_ended told_rejected : Notice

-- A call frame. A field that is read is the value that reading it gives, or the exception; `get` gives
-- the truth value that the code tests. A media frame carries its sequence number and its payload, which
-- is read through base64.
pub data CallFrame : Type 0 where
  call_offer : Result Str → Bool → CallFrame
  call_answer : Result Str → Bool → CallFrame
  call_reject : Result Str → CallFrame
  call_end : Result Str → CallFrame
  call_audio : Result Str → ℕ → Result Bytes → CallFrame
  call_video : Result Str → ℕ → Result Bytes → CallFrame
  other_type : CallFrame
  malformed : Exn → CallFrame

-- The dict that a call is. `stop_event` is the identity of the event object, from `_start_media` on.
pub record Call : Type 0 where
  pub call_id : Str
  pub video : Bool
  pub state : CallState
  pub stop_event : Option ℕ
  pub muted : Bool
  pub play_queue : Option (List Bytes)
  pub audio_seq : ℕ
  pub video_seq : ℕ
  pub received_audio : List Bytes
  pub received_video : List Bytes

-- The capture threads that were started for a peer, which run until their event is set.
pub record Capture : Type 0 where
  pub event : ℕ
  pub fingerprint : Str
  pub microphone : Bool
  pub camera : Bool

-- `events` counts the event objects made, `stopped` are those that were set.
pub record CallManager : Type 0 where
  pub has_audio : Bool
  pub has_video : Bool
  pub calls : Dict Str Call
  pub events : ℕ
  pub captures : List Capture
  pub stopped : List ℕ
  pub sent : List (Str × CallFrame)
  pub notices : List (Str × Notice)

abbrev pub new_call : Str → Bool → CallState → Call
new_call call_id video state = record {
  call_id = call_id;
  video = video;
  state = state;
  stop_event = none;
  muted = false;
  play_queue = none;
  audio_seq = 0;
  video_seq = 0;
  received_audio = [];
  received_video = [];
}

abbrev pub set_call : Str → Call → Exec CallManager (Unit {0})
set_call fingerprint call = modify (λ s. record s { calls = insert fingerprint call s.calls })

abbrev pub pop_call : Str → Exec CallManager (Option Call)
pop_call fingerprint s =
    (ok (lookup fingerprint s.calls), record s { calls = erase fingerprint s.calls })

-- `_notify_state`
abbrev pub notify_state : Str → Notice → Exec CallManager (Unit {0})
notify_state fingerprint notice =
    modify (λ s. record s { notices = s.notices ++ ((fingerprint, notice) ∷ []) })

-- `net.send_text(…, kind="call")`, on what the network answers.
abbrev pub send_text : Result (Unit {0}) → Str → CallFrame → Exec CallManager (Unit {0})
send_text (ok _) fingerprint frame =
    modify (λ s. record s { sent = s.sent ++ ((fingerprint, frame) ∷ []) })
send_text (err e) fingerprint frame = raise e

abbrev pub with_media : ℕ → Call → Call
with_media event call = record call { stop_event = some event; muted = false; play_queue = some [] }

abbrev pub media_of : Str → Bool → Option Call → Exec CallManager (Unit {0})
media_of fingerprint video none = raise key_error
media_of fingerprint video (some call) = modify λ s. record s {
  calls = insert fingerprint (with_media s.events call) s.calls;
  events = suc s.events;
  captures =
      s.captures
      ++ (record {
        event = s.events;
        fingerprint = fingerprint;
        microphone = s.has_audio;
        camera = video && s.has_video;
      }
          ∷ []);
}

-- `_start_media`
unfoldable pub start_media : Str → Bool → Exec CallManager (Unit {0})
start_media fingerprint video s = media_of fingerprint video (lookup fingerprint s.calls) s

-- `_stop_media`
abbrev pub stop_media : Option ℕ → Exec CallManager (Unit {0})
stop_media none = skip
stop_media (some event) = modify (λ s. record s { stopped = event ∷ s.stopped })
