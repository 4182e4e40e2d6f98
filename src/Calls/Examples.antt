-- ===== src/Calls/Examples.antt =====
-- Calls of haven/calls.py between two peers, and the theorems about calls at concrete inputs.
use haven_e2e_messenger.Prelude.{bytes_dec}
use haven_e2e_messenger.Prelude.{
  ◌≡◌, refl, Str, text, true, false, none, List, [], ◌∷◌, ◌++◌, bytes_eq, inr,
}
use haven_e2e_messenger.Prelude.Errors.{ok, err, connection_error}
use haven_e2e_messenger.Prelude.Dict.{lookup}
use haven_e2e_messenger.Calls.State.{
  active, call_offer, call_answer, Call, CallManager, new_call, with_media, told_ended,
}
use haven_e2e_messenger.Calls.Manager.{hangup}
use haven_e2e_messenger.Calls.Media.{hangup_stops_media}
use haven_e2e_messenger.Calls.Invariant.Run.{Happening, starts, accepts, hangs_up, receives}

abbrev fp : Str
fp = text "12345"

abbrev idle : CallManager
idle = record {
  has_audio = true;
  has_video = false;
  calls = [];
  events = 0;
  captures = [];
  stopped = [];
  sent = [];
  notices = [];
}

abbrev live : Call
live = with_media 0 (new_call (text "c1") true active)

abbrev talking : CallManager
talking = record idle { calls = (fp, live) ∷ []; events = 1 }

hangup_stops_media_example :
    let (r, s') = hangup (err connection_error) fp talking in
    (r ≡ ok tt)
    × (lookup fp s'.calls ≡ none)
    × (s'.stopped ≡ 0 ∷ [])
    × (s'.notices ≡ [] ++ ((fp, told_ended) ∷ []))
unfolding lookup bytes_dec
hangup_stops_media_example =
    hangup_stops_media fp live 0 (err connection_error) talking refl refl (inr refl)

abbrev story : List Happening
story =
    starts (ok tt) (text "c1") fp true
    ∷ receives fp (call_answer (ok (text "c1")) true)
    ∷ receives fp (call_offer (ok (text "c2")) false)
    ∷ accepts (err connection_error) fp
    ∷ hangs_up (err connection_error) fp
    ∷ []
