-- ===== src/Calls/Invariant/Run.antt =====
-- Runs of haven/calls.py: what the user does, what the capture threads send and what peers send.
use haven_e2e_messenger.Prelude.{refl, ◌+◌, Str, Bytes, Bool, true, List, [], ◌∷◌, ◌++◌, bytes_eq}
use haven_e2e_messenger.Prelude.Errors.{Result, ok, err, is_key_or_value}
use haven_e2e_messenger.Prelude.Exec.{
  Exec, lift, ◌>>=◌, ◌>>◌, try_pass, try_pass-Preserves, Preserves, bind-Preserves,
}
use haven_e2e_messenger.Calls.State.{
  CallFrame, call_offer, call_answer, call_reject, call_end, call_audio, call_video, other_type,
  malformed, Call, CallManager, new_call, ringing_in, ringing_out, set_call, pop_call, send_text,
  stop_media, notify_state, told_ended, told_rejected, Notice,
}
use haven_e2e_messenger.Calls.Manager.{
  start_call, accept_call, reject_call, hangup, set_muted, send_audio_chunk, send_video_frame,
  handle_incoming, on_offer, on_answer, on_audio, on_video, when_call, dispatch, queued,
  is_connection,
}
use haven_e2e_messenger.Calls.Invariant.{
  Holds, IsConsistent, set_call-Preserves, send_text-Preserves, stop_media-Preserves,
  when_call-Preserves, with_call-Preserves, activate-Preserves, answered-Preserves,
  when_same-Preserves, insert-IsConsistent, erase-IsConsistent,
}

-- One thing that happens, from its beginning to its end; where the network is asked, with what it answers.
pub data Happening : Type 0 where
  starts : Result (Unit {0}) → Str → Str → Bool → Happening
  accepts : Result (Unit {0}) → Str → Happening
  rejects : Result (Unit {0}) → Str → Happening
  hangs_up : Result (Unit {0}) → Str → Happening
  mutes : Str → Bool → Happening
  captures_audio : Result (Unit {0}) → Str → Bytes → Happening
  captures_video : Result (Unit {0}) → Str → Bytes → Happening
  receives : Str → CallFrame → Happening

abbrev happen : Happening → CallManager → CallManager
happen (starts answer id fingerprint video) s = (start_call answer id fingerprint video s).1
happen (accepts answer fingerprint) s = (accept_call answer fingerprint s).1
happen (rejects answer fingerprint) s = (reject_call answer fingerprint s).1
happen (hangs_up answer fingerprint) s = (hangup answer fingerprint s).1
happen (mutes fingerprint muted) s = (set_muted fingerprint muted s).1
happen (captures_audio answer fingerprint pcm) s = (send_audio_chunk answer fingerprint pcm s).1
happen (captures_video answer fingerprint jpeg) s = (send_video_frame answer fingerprint jpeg s).1
happen (receives fingerprint frame) s = (handle_incoming fingerprint frame s).1

unfoldable pub run_calls : List Happening → CallManager → CallManager
run_calls [] s = s
run_calls (h ∷ happenings) s = run_calls happenings (happen h s)

start_call-Preserves :
    (answer : Result (Unit {0})) (id fingerprint : Str) (video : Bool)
    → Preserves Holds (start_call answer id fingerprint video)
unfolding start_call
start_call-Preserves (ok _) id fingerprint video s v =
    insert-IsConsistent fingerprint (new_call id video ringing_out) s.calls refl v
start_call-Preserves (err e) id fingerprint video s v =
    insert-IsConsistent fingerprint (new_call id video ringing_out) s.calls refl v

accept_call-Preserves :
    (answer : Result (Unit {0})) (fingerprint : Str)
    → Preserves Holds (accept_call answer fingerprint)
unfolding accept_call
accept_call-Preserves answer fingerprint = with_call-Preserves fingerprint _ λ call h.
    bind-Preserves Holds (send_text answer fingerprint (call_answer (ok call.call_id) true)) _
      (send_text-Preserves answer fingerprint (call_answer (ok call.call_id) true))
      (λ _. activate-Preserves fingerprint call)

pop_call-Preserves : (fingerprint : Str) → Preserves Holds (pop_call fingerprint)
pop_call-Preserves fingerprint s v = erase-IsConsistent fingerprint s.calls v

-- Popping a call and then dealing with it, as three places do.
popped-Preserves :
    (fingerprint : Str) (f : Call → Exec CallManager (Unit {0})) (notice : Notice)
    → ((call : Call) → Preserves Holds (f call))
    → Preserves Holds
        (pop_call fingerprint >>= λ found. when_call found f >> notify_state fingerprint notice)
popped-Preserves fingerprint f notice keeps =
    bind-Preserves Holds (pop_call fingerprint)
      (λ found. when_call found f >> notify_state fingerprint notice)
      (pop_call-Preserves fingerprint)
      (λ found.
        bind-Preserves Holds (when_call found f) (λ _. notify_state fingerprint notice)
          (when_call-Preserves found f keeps) (λ _ s v. v))

reject_call-Preserves :
    (answer : Result (Unit {0})) (fingerprint : Str)
    → Preserves Holds (reject_call answer fingerprint)
unfolding reject_call
reject_call-Preserves answer fingerprint =
    popped-Preserves fingerprint
      (λ call.
        try_pass is_connection (send_text answer fingerprint (call_reject (ok call.call_id))))
      told_rejected
      (λ call.
        try_pass-Preserves Holds is_connection
          (send_text answer fingerprint (call_reject (ok call.call_id)))
          (send_text-Preserves answer fingerprint (call_reject (ok call.call_id))))

hangup-Preserves :
    (answer : Result (Unit {0})) (fingerprint : Str) → Preserves Holds (hangup answer fingerprint)
unfolding hangup
hangup-Preserves answer fingerprint =
    popped-Preserves fingerprint
      (λ call.
        stop_media call.stop_event
        >> try_pass is_connection (send_text answer fingerprint (call_end (ok call.call_id))))
      told_ended
      (λ call.
        bind-Preserves Holds (stop_media call.stop_event)
          (λ _. try_pass is_connection (send_text answer fingerprint (call_end (ok call.call_id))))
          (stop_media-Preserves call.stop_event)
          (λ _.
            try_pass-Preserves Holds is_connection
              (send_text answer fingerprint (call_end (ok call.call_id)))
              (send_text-Preserves answer fingerprint (call_end (ok call.call_id)))))

set_muted-Preserves :
    (fingerprint : Str) (muted : Bool) → Preserves Holds (set_muted fingerprint muted)
unfolding set_muted
set_muted-Preserves fingerprint muted =
    with_call-Preserves fingerprint _
      λ call h. set_call-Preserves fingerprint (record call { muted = muted }) h

send_audio_chunk-Preserves :
    (answer : Result (Unit {0})) (fingerprint : Str) (pcm : Bytes)
    → Preserves Holds (send_audio_chunk answer fingerprint pcm)
unfolding send_audio_chunk
send_audio_chunk-Preserves answer fingerprint pcm = with_call-Preserves fingerprint _ λ call h.
    bind-Preserves Holds (set_call fingerprint (record call { audio_seq = call.audio_seq + 1 }))
      (λ _. send_text answer fingerprint (call_audio (ok call.call_id) call.audio_seq (ok pcm)))
      (set_call-Preserves fingerprint (record call { audio_seq = call.audio_seq + 1 }) h)
      (λ _.
        send_text-Preserves answer fingerprint
          (call_audio (ok call.call_id) call.audio_seq (ok pcm)))

send_video_frame-Preserves :
    (answer : Result (Unit {0})) (fingerprint : Str) (jpeg : Bytes)
    → Preserves Holds (send_video_frame answer fingerprint jpeg)
unfolding send_video_frame
send_video_frame-Preserves answer fingerprint jpeg = with_call-Preserves fingerprint _ λ call h.
    bind-Preserves Holds (set_call fingerprint (record call { video_seq = call.video_seq + 1 }))
      (λ _. send_text answer fingerprint (call_video (ok call.call_id) call.video_seq (ok jpeg)))
      (set_call-Preserves fingerprint (record call { video_seq = call.video_seq + 1 }) h)
      (λ _.
        send_text-Preserves answer fingerprint
          (call_video (ok call.call_id) call.video_seq (ok jpeg)))

dispatch-Preserves :
    (fingerprint : Str) (frame : CallFrame) → Preserves Holds (dispatch fingerprint frame)
unfolding on_offer on_answer on_audio on_video
dispatch-Preserves fingerprint (call_offer id video) =
    bind-Preserves Holds (lift id) _ (λ s v. v)
      (λ call_id. set_call-Preserves fingerprint (new_call call_id video ringing_in) refl)
dispatch-Preserves fingerprint (call_answer id accepted) =
    when_same-Preserves fingerprint id _ (λ call h. answered-Preserves fingerprint call accepted)
dispatch-Preserves fingerprint (call_reject id) = pop_call-Preserves fingerprint
dispatch-Preserves fingerprint (call_end id) =
    popped-Preserves fingerprint (λ call. stop_media call.stop_event) told_ended
      (λ call. stop_media-Preserves call.stop_event)
dispatch-Preserves fingerprint (call_audio id seq pcm) =
    when_same-Preserves fingerprint id _ λ call h.
      bind-Preserves Holds (lift pcm) _ (λ s v. v)
        (λ pcm.
          set_call-Preserves fingerprint
            (record call {
              play_queue = queued pcm call.play_queue;
              received_audio = call.received_audio ++ (pcm ∷ []);
            })
            h)
dispatch-Preserves fingerprint (call_video id seq jpeg) =
    when_same-Preserves fingerprint id _ λ call h.
      bind-Preserves Holds (lift jpeg) _ (λ s v. v)
        (λ jpeg.
          set_call-Preserves fingerprint
            (record call { received_video = call.received_video ++ (jpeg ∷ []) }) h)
dispatch-Preserves fingerprint other_type = λ s v. v
dispatch-Preserves fingerprint (malformed e) = λ s v. v

happen-Preserves : (h : Happening) (s : CallManager) → Holds s → Holds (happen h s)
unfolding handle_incoming
happen-Preserves (starts answer id fingerprint video) =
    start_call-Preserves answer id fingerprint video
happen-Preserves (accepts answer fingerprint) = accept_call-Preserves answer fingerprint
happen-Preserves (rejects answer fingerprint) = reject_call-Preserves answer fingerprint
happen-Preserves (hangs_up answer fingerprint) = hangup-Preserves answer fingerprint
happen-Preserves (mutes fingerprint muted) = set_muted-Preserves fingerprint muted
happen-Preserves (captures_audio answer fingerprint pcm) =
    send_audio_chunk-Preserves answer fingerprint pcm
happen-Preserves (captures_video answer fingerprint jpeg) =
    send_video_frame-Preserves answer fingerprint jpeg
happen-Preserves (receives fingerprint frame) =
    try_pass-Preserves Holds is_key_or_value (dispatch fingerprint frame)
      (dispatch-Preserves fingerprint frame)

-- However calls are started, accepted, rejected, ended, muted and used, whatever peers send and whether
-- or not the network takes what is sent: a call is active just when its media have started. Conditions:
-- this held before, and each operation and each frame's handling ends before the next begins.
pub run_calls-IsConsistent :
    (happenings : List Happening) (s : CallManager)
    → IsConsistent s.calls
    → IsConsistent (run_calls happenings s).calls
unfolding run_calls
run_calls-IsConsistent [] s v = v
run_calls-IsConsistent (h ∷ happenings) s v =
    run_calls-IsConsistent happenings (happen h s) (happen-Preserves h s v)
