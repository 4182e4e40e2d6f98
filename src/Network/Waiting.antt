-- ===== src/Network/Waiting.antt =====
-- `send_when_ready` of haven/network.py: the loop of its worker, which polls for a connection.
pub mod Ending
use haven_e2e_messenger.Prelude.{
  ℕ, zero, suc, ◌+◌, Str, Bool, true, false, Option, none, some, List, [], ◌∷◌, if◌then◌else◌, ltb,
}
use haven_e2e_messenger.Prelude.Errors.{Exn, Result, ok, err, connection_error}
use haven_e2e_messenger.Prelude.Exec.{Exec, pure, raise, gets, modify, skip, ◌>>=◌, ◌>>◌}
use haven_e2e_messenger.Crypto.Primitives.{Primitives}
use haven_e2e_messenger.Storage.Tables.{StoreTools}
use haven_e2e_messenger.Network.State.{NetworkManager, Net}
use haven_e2e_messenger.Network.Messages.{Drawn, send_text, is_connected}

-- One turn: the time that it reads, what the other threads did since the last turn, and what a send
-- draws.
pub record Poll : Type 0 where
  pub now : ℕ
  pub others : NetworkManager → NetworkManager
  pub drawn : Drawn

-- The call of `on_result`: sent, a ConnectionError, or no session in time.
pub data Report : Type 0 where
  delivered failed timed_out : Report

-- `except ConnectionError`
abbrev pub reported : Result (Unit {0}) → Net (Option Report)
reported (ok tt) = pure (some delivered)
reported (err connection_error) = pure (some failed)
reported (err e) = raise e

module _ (P : Primitives) (T : StoreTools) (deadline : ℕ) (fp body kind : Str) where
  abbrev pub attempt : Drawn → Net (Option Report)
  attempt drawn s = let (result, s') = send_text P T drawn fp body kind s in reported result s'

  -- `worker`: what it reports, or none where it is still waiting after these turns.
  unfoldable pub worker : List Poll → Net (Option Report)
  unfolding is_connected
  worker [] = pure none
  worker (p ∷ polls) = do
    modify p.others
    ready ← gets (is_connected fp)
    let rest = worker polls
    if ltb p.now deadline then if ready then attempt p.drawn else rest else pure (some timed_out)
