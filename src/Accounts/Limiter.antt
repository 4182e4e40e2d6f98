-- ===== src/Accounts/Limiter.antt =====
-- `class SimpleRateLimiter` of webapp/accounts_server.py. Times are natural numbers of some unit; where
-- a clock runs backwards, `now - t` is 0 here and negative there, and below the window in both.
pub mod Window
use haven_e2e_messenger.Prelude.{
  ℕ, ◌-◌, Str, bytes_eq, List, [], ◌∷◌, ◌++◌, Option, none, some, keep, length, ltb, leb,
  if◌then◌else◌,
}
use haven_e2e_messenger.Prelude.Errors.{Result, ok, err, http_exception}
use haven_e2e_messenger.Prelude.Exec.{Exec}
use haven_e2e_messenger.Prelude.Dict.{Dict, lookup, insert}

pub record SimpleRateLimiter : Type 0 where
  pub max_attempts : ℕ
  pub window_seconds : ℕ
  pub attempts : Dict Str (List ℕ)

-- `self._attempts.get(key, [])`
abbrev pub or_empty : Option (List ℕ) → List ℕ
or_empty none = []
or_empty (some times) = times

abbrev pub recent : ℕ → ℕ → List ℕ → List ℕ
recent now window = keep (λ t. ltb (now - t) window)

-- `check`, at the time that `time.time()` gives.
unfoldable pub check : ℕ → Str → Exec SimpleRateLimiter (Unit {0})
check now key l =
    let attempts = recent now l.window_seconds (or_empty (lookup key l.attempts)) in
    if leb l.max_attempts (length attempts)
    then (err (http_exception 429), l)
    else (ok tt, record l { attempts = insert key (attempts ++ (now ∷ [])) l.attempts })
