-- ===== src/Calls/Manager.antt =====
-- The operations of `CallManager` of haven/calls.py: signalling, and sending and taking media frames.
use haven_e2e_messenger.Prelude.{
  ◌+◌, Str, Bytes, Bool, true, false, Option, none, some, List, [], ◌∷◌, ◌++◌, bytes_eq,
  if◌then◌else◌, ◌==◌,
}
use haven_e2e_messenger.Prelude.Errors.{Exn, Result, ok, connection_error, is_key_or_value}
use haven_e2e_messenger.Prelude.Exec.{Exec, pure, raise, lift, skip, try_pass, ◌>>=◌, ◌>>◌}
use haven_e2e_messenger.Prelude.Dict.{lookup}
use haven_e2e_messenger.Calls.State.{
  ringing_out, ringing_in, active, told_ringing_out, told_active, told_ended, told_rejected,
  CallFrame, call_offer, call_answer, call_reject, call_end, call_audio, call_video, other_type,
  malformed, Call, CallManager, new_call, set_call, pop_call, notify_state, send_text, start_media,
  stop_media,
}

abbrev pub is_connection : Exn → Bool
is_connection connection_error = true
is_connection _ = false

-- `start_call`, on the id that os.urandom gives and what the network answers to the offer.
unfoldable pub start_call : Result (Unit {0}) → Str → Str → Bool → Exec CallManager Str
start_call answer call_id fingerprint video = do
  set_call fingerprint (new_call call_id video ringing_out)
  send_text answer fingerprint (call_offer (ok call_id) video)
  notify_state fingerprint told_ringing_out
  pure call_id

abbrev pub when_call :
    Option Call → (Call → Exec CallManager (Unit {0})) → Exec CallManager (Unit {0})
when_call none f = skip
when_call (some call) f = f call

abbrev pub with_call : Str → (Call → Exec CallManager (Unit {0})) → Exec CallManager (Unit {0})
with_call fingerprint f s = when_call (lookup fingerprint s.calls) f s

abbrev pub activate : Str → Call → Exec CallManager (Unit {0})
activate fingerprint call = do
  set_call fingerprint (record call { state = active })
  start_media fingerprint call.video
  notify_state fingerprint told_active

-- `accept_call`, where nothing else happens to the calls while the answer is sent: the class has no lock.
unfoldable pub accept_call : Result (Unit {0}) → Str → Exec CallManager (Unit {0})
accept_call answer fingerprint = with_call fingerprint λ call.
    send_text answer fingerprint (call_answer (ok call.call_id) true) >> activate fingerprint call

-- `reject_call`
unfoldable pub reject_call : Result (Unit {0}) → Str → Exec CallManager (Unit {0})
reject_call answer fingerprint = do
  found ← pop_call fingerprint
  when_call found
      λ call. try_pass is_connection (send_text answer fingerprint (call_reject (ok call.call_id)))
  notify_state fingerprint told_rejected

-- `hangup`
unfoldable pub hangup : Result (Unit {0}) → Str → Exec CallManager (Unit {0})
hangup answer fingerprint = do
  found ← pop_call fingerprint
  when_call found λ call.
      stop_media call.stop_event
      >> try_pass is_connection (send_text answer fingerprint (call_end (ok call.call_id)))
  notify_state fingerprint told_ended

-- `set_muted`
unfoldable pub set_muted : Str → Bool → Exec CallManager (Unit {0})
set_muted fingerprint muted =
    with_call fingerprint (λ call. set_call fingerprint (record call { muted = muted }))

-- `_on_offer`
unfoldable pub on_offer : Str → Result Str → Bool → Exec CallManager (Unit {0})
on_offer fingerprint call_id_field video = do
  call_id ← lift call_id_field
  set_call fingerprint (new_call call_id video ringing_in)

-- For the call that a frame names, and for no other.
abbrev pub when_same :
    Str → Result Str → (Call → Exec CallManager (Unit {0})) → Exec CallManager (Unit {0})
when_same fingerprint call_id_field f =
    with_call fingerprint
      λ call. lift call_id_field >>= λ call_id. if call.call_id == call_id then f call else skip

abbrev pub answered : Str → Call → Bool → Exec CallManager (Unit {0})
answered fingerprint call true = activate fingerprint call
answered fingerprint call false = do pop_call fingerprint; notify_state fingerprint told_rejected

-- `_on_answer`
unfoldable pub on_answer : Str → Result Str → Bool → Exec CallManager (Unit {0})
on_answer fingerprint call_id_field accepted =
    when_same fingerprint call_id_field (λ call. answered fingerprint call accepted)

-- `send_audio_chunk`
unfoldable pub send_audio_chunk : Result (Unit {0}) → Str → Bytes → Exec CallManager (Unit {0})
send_audio_chunk answer fingerprint pcm_bytes = with_call fingerprint λ call.
    set_call fingerprint (record call { audio_seq = call.audio_seq + 1 })
    >> send_text answer fingerprint (call_audio (ok call.call_id) call.audio_seq (ok pcm_bytes))

-- `send_video_frame`
unfoldable pub send_video_frame : Result (Unit {0}) → Str → Bytes → Exec CallManager (Unit {0})
send_video_frame answer fingerprint jpeg_bytes = with_call fingerprint λ call.
    set_call fingerprint (record call { video_seq = call.video_seq + 1 })
    >> send_text answer fingerprint (call_video (ok call.call_id) call.video_seq (ok jpeg_bytes))

abbrev pub queued : Bytes → Option (List Bytes) → Option (List Bytes)
queued pcm none = none
queued pcm (some chunks) = some (chunks ++ (pcm ∷ []))

-- `_on_audio`
unfoldable pub on_audio : Str → Result Str → Result Bytes → Exec CallManager (Unit {0})
on_audio fingerprint call_id_field pcm_field = when_same fingerprint call_id_field λ call.
    lift pcm_field >>= λ pcm. set_call fingerprint (record call {
      play_queue = queued pcm call.play_queue;
      received_audio = call.received_audio ++ (pcm ∷ []);
    })

-- `_on_video`
unfoldable pub on_video : Str → Result Str → Result Bytes → Exec CallManager (Unit {0})
on_video fingerprint call_id_field jpeg_field = when_same fingerprint call_id_field λ call.
    lift jpeg_field >>= λ jpeg_bytes.
    set_call fingerprint (record call { received_video = call.received_video ++ (jpeg_bytes ∷ []) })

abbrev pub dispatch : Str → CallFrame → Exec CallManager (Unit {0})
dispatch fingerprint (call_offer id video) = on_offer fingerprint id video
dispatch fingerprint (call_answer id accepted) = on_answer fingerprint id accepted
dispatch fingerprint (call_reject id) = do
  pop_call fingerprint
  notify_state fingerprint told_rejected
dispatch fingerprint (call_end id) = do
  found ← pop_call fingerprint
  when_call found (λ call. stop_media call.stop_event)
  notify_state fingerprint told_ended
dispatch fingerprint (call_audio id seq pcm) = on_audio fingerprint id pcm
dispatch fingerprint (call_video id seq jpeg) = on_video fingerprint id jpeg
dispatch fingerprint other_type = skip
dispatch fingerprint (malformed e) = raise e

-- `handle_incoming`
unfoldable pub handle_incoming : Str → CallFrame → Exec CallManager (Unit {0})
handle_incoming fingerprint frame = try_pass is_key_or_value (dispatch fingerprint frame)
