-- ===== src/Network/Waiting/Ending.antt =====
-- The worker of `send_when_ready` in haven/network.py comes to an end.
use haven_e2e_messenger.Prelude.{
  ◌≡◌, refl, ℕ, ◌+◌, ◌*◌, ◌≤◌, ◌<◌, Str, Bool, true, false, Option, none, List, [], ◌∷◌, length,
  ltb, arith, Bool-cases, inl, inr,
}
use haven_e2e_messenger.Prelude.Errors.{Result, ok, err}
use haven_e2e_messenger.Crypto.Primitives.{Primitives}
use haven_e2e_messenger.Storage.Tables.{StoreTools}
use haven_e2e_messenger.Network.State.{NetworkManager}
use haven_e2e_messenger.Network.Messages.{is_connected, send_text}
use haven_e2e_messenger.Network.Waiting.{Poll, Report, worker, reported}

-- The turns read times from `start` on, each at least one interval after the last.
abbrev pub IsPaced : ℕ → ℕ → List Poll → Type 0
IsPaced interval start [] = Unit
IsPaced interval start (p ∷ polls) = (start ≤ p.now) × IsPaced interval (p.now + interval) polls

-- Every turn was used and nothing has been reported or raised.
abbrev pub still_waiting : Result (Option Report) → Bool
still_waiting (ok none) = true
still_waiting _ = false

reported-ends :
    (r : Result (Unit {0})) (s : NetworkManager) → still_waiting (reported r s).0 ≡ false
reported-ends (ok tt) s = refl
reported-ends (err e) s = ground arith

module _ (P : Primitives) (T : StoreTools) (deadline : ℕ) (fp body kind : Str) where
  -- The worker does not wait for ever: it sends, reports a failure or a timeout, or raises what sending
  -- raises, in as many turns as fit between the start and the deadline and one more. Conditions: each
  -- turn comes at least one interval after the last, and the start lies before the deadline and one
  -- interval.
  pub send_when_ready_ends :
      (interval start : ℕ) (polls : List Poll) (s : NetworkManager)
      → IsPaced interval start polls
      → start < deadline + interval
      → deadline + interval ≤ start + interval * length polls
      → still_waiting (worker P T deadline fp body kind polls s).0 ≡ false
  unfolding worker
  send_when_ready_ends interval start [] s paced soon enough = absurd (grind arith)
  send_when_ready_ends interval start (p ∷ polls) s (later, paced) soon enough =
      let t = p.others s in
      elim (Bool-cases (ltb p.now deadline)) [
        | inl early ↦ rw early (elim (Bool-cases (is_connected fp t)) [
          | inl ready ↦ rw ready (
              reported-ends (send_text P T p.drawn fp body kind t).0
                (send_text P T p.drawn fp body kind t).1)
          | inr not_ready ↦ rw not_ready (
              send_when_ready_ends interval (p.now + interval) polls t paced (ground arith)
                (grind arith))
        ])
        | inr late ↦ rw late refl
      ]
