-- ===== src/Calls/Invariant.antt =====
-- A call of haven/calls.py is active just when it has its stop event, whatever happens.
pub mod Run
use haven_e2e_messenger.Prelude.{
  ◌≡◌, refl, sym, subst, ==_refl, ℕ, suc, Str, Bytes, Bool, true, false, ◌&&◌, Option, none, some,
  List, [], ◌∷◌, ◌++◌, bytes_eq, if◌then◌else◌, ◌==◌, arith, All, Option-cases, inl, inr,
}
use haven_e2e_messenger.Prelude.Errors.{Exn, Result, ok, err}
use haven_e2e_messenger.Prelude.Exec.{
  Exec, lift, skip, pure, ◌>>=◌, ◌>>◌, try_pass, try_pass-Preserves, Preserves, bind-Preserves,
}
use haven_e2e_messenger.Prelude.Dict.{Dict, lookup, insert, erase, lookup-insert_same}
use haven_e2e_messenger.Calls.State.{
  CallState, ringing_in, ringing_out, active, CallFrame, call_offer, call_answer, call_reject,
  call_end, call_audio, call_video, other_type, malformed, Call, CallManager, new_call, start_media,
  set_call, pop_call, send_text, stop_media, notify_state, with_media, told_ended, told_rejected,
  told_ringing_out,
}
use haven_e2e_messenger.Calls.Manager.{
  start_call, accept_call, reject_call, hangup, set_muted, send_audio_chunk, send_video_frame,
  handle_incoming, on_offer, on_answer, on_audio, on_video, when_call, with_call, when_same,
  activate, answered, dispatch,
}

abbrev pub is_active : CallState → Bool
is_active active = true
is_active _ = false

abbrev pub has_event : Option ℕ → Bool
has_event none = false
has_event (some _) = true

abbrev pub IsConsistent : Dict Str Call → Type 0
IsConsistent [] = Unit
IsConsistent ((fingerprint, call) ∷ calls) =
    (has_event call.stop_event ≡ is_active call.state) × IsConsistent calls

insert-IsConsistent :
    (fingerprint : Str) (call : Call) (calls : Dict Str Call)
    → has_event call.stop_event ≡ is_active call.state
    → IsConsistent calls
    → IsConsistent (insert fingerprint call calls)
unfolding insert
insert-IsConsistent fingerprint call [] h v = (h, tt)
insert-IsConsistent fingerprint call (c ∷ calls) h v =
    ground (arith, insert-IsConsistent fingerprint call calls h)

erase-IsConsistent :
    (fingerprint : Str) (calls : Dict Str Call)
    → IsConsistent calls
    → IsConsistent (erase fingerprint calls)
unfolding erase
erase-IsConsistent fingerprint [] v = tt
erase-IsConsistent fingerprint (c ∷ calls) v = ground (arith, erase-IsConsistent fingerprint calls)

lookup-IsConsistent :
    (fingerprint : Str) (call : Call) (calls : Dict Str Call)
    → IsConsistent calls
    → lookup fingerprint calls ≡ some call
    → has_event call.stop_event ≡ is_active call.state
unfolding lookup
lookup-IsConsistent fingerprint call [] v h = ground arith
lookup-IsConsistent fingerprint call (c ∷ calls) v h =
    ground (arith, lookup-IsConsistent fingerprint call calls)

insert-insert :
    (fingerprint : Str) (new old : Call) (calls : Dict Str Call)
    → insert fingerprint new (insert fingerprint old calls) ≡ insert fingerprint new calls
unfolding insert
insert-insert fingerprint new old [] = ground (arith, ==_refl fingerprint)
insert-insert fingerprint new old (c ∷ calls) =
    ground (arith, ==_refl fingerprint, insert-insert fingerprint new old calls)

abbrev pub Holds : CallManager → Type 0
Holds s = IsConsistent s.calls

set_call-Preserves :
    (fingerprint : Str) (call : Call)
    → has_event call.stop_event ≡ is_active call.state
    → Preserves Holds (set_call fingerprint call)
set_call-Preserves fingerprint call h s v = insert-IsConsistent fingerprint call s.calls h v

send_text-Preserves :
    (answer : Result (Unit {0})) (fingerprint : Str) (frame : CallFrame)
    → Preserves Holds (send_text answer fingerprint frame)
send_text-Preserves (ok _) fingerprint frame s v = v
send_text-Preserves (err e) fingerprint frame s v = v

stop_media-Preserves : (event : Option ℕ) → Preserves Holds (stop_media event)
stop_media-Preserves none s v = v
stop_media-Preserves (some event) s v = v

when_call-Preserves :
    (found : Option Call) (f : Call → Exec CallManager (Unit {0}))
    → ((call : Call) → Preserves Holds (f call))
    → Preserves Holds (when_call found f)
when_call-Preserves none f keeps s v = v
when_call-Preserves (some call) f keeps s v = keeps call s v

-- What is done with a call that is there may use that it is consistent.
with_call-Preserves :
    (fingerprint : Str) (f : Call → Exec CallManager (Unit {0}))
    → ((call : Call) → has_event call.stop_event ≡ is_active call.state → Preserves Holds (f call))
    → Preserves Holds (with_call fingerprint f)
with_call-Preserves fingerprint f keeps s v = elim (Option-cases (lookup fingerprint s.calls)) [
  | inl gone ↦ rw gone v
  | inr (call, there) ↦
      rw there (keeps call (lookup-IsConsistent fingerprint call s.calls v there) s v)
]

activate-Preserves : (fingerprint : Str) (call : Call) → Preserves Holds (activate fingerprint call)
unfolding start_media
activate-Preserves fingerprint call s v =
    let live = record call { state = active } in
    rw (lookup-insert_same fingerprint live s.calls) (
      subst IsConsistent (sym (insert-insert fingerprint (with_media s.events live) live s.calls))
        (insert-IsConsistent fingerprint (with_media s.events live) s.calls refl v))

answered-Preserves :
    (fingerprint : Str) (call : Call) (accepted : Bool)
    → Preserves Holds (answered fingerprint call accepted)
answered-Preserves fingerprint call true s v = activate-Preserves fingerprint call s v
answered-Preserves fingerprint call false s v = erase-IsConsistent fingerprint s.calls v

if-Preserves :
    (b : Bool) (m : Exec CallManager (Unit {0}))
    → Preserves Holds m
    → Preserves Holds (if b then m else skip)
if-Preserves true m keeps = keeps
if-Preserves false m keeps = λ s v. v

when_same-Preserves :
    (fingerprint : Str) (id : Result Str) (f : Call → Exec CallManager (Unit {0}))
    → ((call : Call) → has_event call.stop_event ≡ is_active call.state → Preserves Holds (f call))
    → Preserves Holds (when_same fingerprint id f)
when_same-Preserves fingerprint id f keeps = with_call-Preserves fingerprint _ λ call h.
    bind-Preserves Holds (lift id) _ (λ s v. v)
      (λ call_id. if-Preserves (call.call_id == call_id) (f call) (keeps call h))
