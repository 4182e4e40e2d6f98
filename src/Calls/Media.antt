-- ===== src/Calls/Media.antt =====
-- When the media threads of haven/calls.py start and stop.
use haven_e2e_messenger.Prelude.{
  ◌≡◌, refl, ℕ, Str, Bool, true, ◌&&◌, none, some, [], ◌∷◌, ◌++◌, bytes_eq, ==_refl, ◌⊎◌, inl, inr,
}
use haven_e2e_messenger.Prelude.Errors.{Result, ok, err, connection_error}
use haven_e2e_messenger.Prelude.Dict.{lookup, insert, lookup-insert_same, lookup-erase_self}
use haven_e2e_messenger.Calls.State.{
  ringing_in, active, told_ended, call_offer, call_answer, Call, CallManager, new_call, with_media,
  start_media,
}
use haven_e2e_messenger.Calls.Manager.{handle_incoming, on_offer, on_answer, hangup}

-- A peer that offers a call and then answers it itself makes the call active and starts the capture
-- threads for it, although nobody accepted it, whatever the state was before.
pub caller_answers_own_call :
    (fingerprint call_id : Str) (video : Bool) (s : CallManager)
    → let offered = (handle_incoming fingerprint (call_offer (ok call_id) video) s).1 in
      let s' = (handle_incoming fingerprint (call_answer (ok call_id) true) offered).1 in
      (lookup fingerprint s'.calls ≡ some (with_media s.events (new_call call_id video active)))
      × (s'.captures
          ≡ s.captures
            ++ (record {
              event = s.events;
              fingerprint = fingerprint;
              microphone = s.has_audio;
              camera = video && s.has_video;
            }
                ∷ []))
unfolding handle_incoming on_offer on_answer start_media
caller_answers_own_call fingerprint call_id video s =
    let ringing = new_call call_id video ringing_in in
    let live = new_call call_id video active in
    let calls1 = insert fingerprint ringing s.calls in
    let calls2 = insert fingerprint live calls1 in
    rw (lookup-insert_same fingerprint ringing s.calls) (
      rw (==_refl call_id) (
        rw (lookup-insert_same fingerprint live calls1)
          (lookup-insert_same fingerprint (with_media s.events live) calls2, refl)))

-- Hanging up ends the call for good, also where the network has no connection any more: the call is
-- gone, its capture threads are told to stop, and the interface is told that it has ended.
pub hangup_stops_media :
    (fingerprint : Str) (call : Call) (event : ℕ) (answer : Result (Unit {0})) (s : CallManager)
    → lookup fingerprint s.calls ≡ some call
    → call.stop_event ≡ some event
    → (answer ≡ ok tt) ⊎ (answer ≡ err connection_error)
    → let (r, s') = hangup answer fingerprint s in
      (r ≡ ok tt)
      × (lookup fingerprint s'.calls ≡ none)
      × (s'.stopped ≡ event ∷ s.stopped)
      × (s'.notices ≡ s.notices ++ ((fingerprint, told_ended) ∷ []))
unfolding hangup
hangup_stops_media fingerprint call event answer s there live (inl sent) =
    rw there (rw live (rw sent (refl, lookup-erase_self fingerprint s.calls, refl, refl)))
hangup_stops_media fingerprint call event answer s there live (inr lost) =
    rw there (rw live (rw lost (refl, lookup-erase_self fingerprint s.calls, refl, refl)))

-- A peer that offers another call during a call makes the capture threads of the first one run on:
-- hanging up then stops nothing, and no call is left for that peer.
pub second_offer_leaks_media :
    (fingerprint call_id : Str) (video : Bool) (answer : Result (Unit {0})) (s : CallManager)
    → (answer ≡ ok tt) ⊎ (answer ≡ err connection_error)
    → let s' =
        (hangup answer fingerprint
          (handle_incoming fingerprint (call_offer (ok call_id) video) s).1).1 in
      (s'.captures ≡ s.captures) × (s'.stopped ≡ s.stopped) × (lookup fingerprint s'.calls ≡ none)
unfolding hangup handle_incoming on_offer
second_offer_leaks_media fingerprint call_id video answer s (inl sent) =
    let ringing = new_call call_id video ringing_in in
    rw (lookup-insert_same fingerprint ringing s.calls)
      (rw sent (refl, refl, lookup-erase_self fingerprint (insert fingerprint ringing s.calls)))
second_offer_leaks_media fingerprint call_id video answer s (inr lost) =
    let ringing = new_call call_id video ringing_in in
    rw (lookup-insert_same fingerprint ringing s.calls)
      (rw lost (refl, refl, lookup-erase_self fingerprint (insert fingerprint ringing s.calls)))
