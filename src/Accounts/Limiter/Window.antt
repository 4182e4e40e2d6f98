-- ===== src/Accounts/Limiter/Window.antt =====
-- The limit of `SimpleRateLimiter` of webapp/accounts_server.py holds in every window.
use haven_e2e_messenger.Prelude.{
  ◌≡◌, refl, sym, ap, ◌∙◌, ℕ, ◌+◌, ◌≤◌, Str, false, bytes_eq, ◌==◌, List, [], ◌∷◌, ◌++◌, length,
  length-append, leb, arith, Bool-cases, inl, inr,
}
use haven_e2e_messenger.Prelude.Errors.{Result, ok, err}
use haven_e2e_messenger.Prelude.Dict.{lookup, lookup-insert, lookup-insert_same}
use haven_e2e_messenger.Accounts.Limiter.{SimpleRateLimiter, or_empty, recent, check}

-- The times at which calls of `check` for one key were let through, in order, with the limiter that
-- they leave behind.
abbrev admit : Result (Unit {0}) → ℕ → List ℕ → List ℕ
admit (ok _) now past = past ++ (now ∷ [])
admit (err _) now past = past

unfoldable pub admitted : Str → List ℕ → SimpleRateLimiter → List ℕ → List ℕ × SimpleRateLimiter
admitted key [] l past = (past, l)
admitted key (now ∷ times) l past =
    let (r, l') = check now key l in admitted key times l' (admit r now past)

-- Times that do not run backwards.
abbrev pub Rising : ℕ → List ℕ → Type 0
Rising lo [] = Unit
Rising lo (t ∷ times) = (lo ≤ t) × Rising t times

recent-recent :
    (a b window : ℕ) (times : List ℕ)
    → a ≤ b
    → recent b window (recent a window times) ≡ recent b window times
recent-recent a b window [] h = refl
recent-recent a b window (t ∷ times) h = ground (arith, recent-recent a b window times)

recent-append :
    (now window : ℕ) (xs ys : List ℕ)
    → recent now window (xs ++ ys) ≡ recent now window xs ++ recent now window ys
recent-append now window [] ys = refl
recent-append now window (x ∷ xs) ys = ground (arith, recent-append now window xs ys)

length-recent : (now window : ℕ) (times : List ℕ) → length (recent now window times) ≤ length times
length-recent now window [] = omega arith
length-recent now window (t ∷ times) = ground (arith, length-recent now window times)

-- What the limiter stores agrees with the whole past wherever it matters from `last` on, and the past
-- keeps the limit at `last`.
record IsFaithful (key : Str) (last : ℕ) (past : List ℕ) (l : SimpleRateLimiter) : Type 0 where
  stored :
      (now : ℕ)
      → last ≤ now
      → recent now l.window_seconds (or_empty (lookup key l.attempts))
        ≡ recent now l.window_seconds past
  limited : length (recent last l.window_seconds past) ≤ l.max_attempts

-- The limit goes on holding as time passes.
recent_later :
    (a b window : ℕ) (past : List ℕ)
    → a ≤ b
    → length (recent b window past) ≤ length (recent a window past)
recent_later a b window past h =
    rw (← recent-recent a b window past h) (length-recent b window (recent a window past))

-- One more call that is let through, on the stored times.
stored_next :
    (now t window : ℕ) (kept past : List ℕ)
    → now ≤ t
    → recent t window kept ≡ recent t window past
    → recent t window (recent now window kept ++ (now ∷ [])) ≡ recent t window (past ++ (now ∷ []))
stored_next now t window kept past h same =
    recent-append t window (recent now window kept) (now ∷ [])
    ∙ ap (λ l. l ++ recent t window (now ∷ [])) (recent-recent now t window kept h ∙ same)
    ∙ sym (recent-append t window past (now ∷ []))

length_next :
    (now window : ℕ) (past : List ℕ)
    → length (recent now window (past ++ (now ∷ []))) ≤ length (recent now window past) + 1
length_next now window past = rw (recent-append now window past (now ∷ [])) (
    rw (length-append (recent now window past) (recent now window (now ∷ [])))
      (omega (arith, length-recent now window (now ∷ []))))

check-IsFaithful :
    (key : Str) (last now : ℕ) (past : List ℕ) (l : SimpleRateLimiter)
    → last ≤ now
    → IsFaithful key last past l
    → IsFaithful key now (admit (check now key l).0 now past) (check now key l).1
unfolding check
check-IsFaithful key last now past l later v =
    let kept = or_empty (lookup key l.attempts) in
    let attempts = recent now l.window_seconds kept in
    elim (Bool-cases (leb l.max_attempts (length attempts))) [
      | inl full ↦ rw full (record {
        stored = λ t h. v.stored t (omega arith);
        limited = omega (arith, v.limited, recent_later last now l.window_seconds past later);
      })
      | inr room ↦ rw room (record {
        stored = λ t h.
            rw (lookup-insert_same key (attempts ++ (now ∷ [])) l.attempts)
              (stored_next now t l.window_seconds kept past h (v.stored t (omega arith)));
        limited = ground (
          arith,
          length_next now l.window_seconds past,
          ap (λ (x : List ℕ). length x) (v.stored now later),
        );
      })
    ]

-- The last of the times, or the one before them.
abbrev pub last_time : ℕ → List ℕ → ℕ
last_time last [] = last
last_time last (t ∷ times) = last_time t times

admitted-IsFaithful :
    (key : Str) (times : List ℕ) (last : ℕ) (past : List ℕ) (l : SimpleRateLimiter)
    → Rising last times
    → IsFaithful key last past l
    → let (all, l') = admitted key times l past in IsFaithful key (last_time last times) all l'
unfolding admitted
admitted-IsFaithful key [] last past l h v = v
admitted-IsFaithful key (now ∷ times) last past l (h, hs) v =
    admitted-IsFaithful key times now _ _ hs (check-IsFaithful key last now past l h v)

max_attempts-admitted :
    (key : Str) (times : List ℕ) (past : List ℕ) (l : SimpleRateLimiter)
    → ((admitted key times l past).1.max_attempts ≡ l.max_attempts)
      × ((admitted key times l past).1.window_seconds ≡ l.window_seconds)
unfolding admitted check
max_attempts-admitted key [] past l = (refl, refl)
max_attempts-admitted key (now ∷ times) past l =
    let (a, b) =
      max_attempts-admitted key times (admit (check now key l).0 now past) (check now key l).1 in
    ground arith

-- For a key that the limiter has not seen, however often `check` is called at times that do not run
-- backwards, at every later time at most `max_attempts` of the calls that it let through lie within the
-- window before that time.
pub window_limit :
    (key : Str) (times : List ℕ) (now : ℕ) (l : SimpleRateLimiter)
    → or_empty (lookup key l.attempts) ≡ []
    → Rising 0 times
    → last_time 0 times ≤ now
    → length (recent now l.window_seconds (admitted key times l []).0) ≤ l.max_attempts
window_limit key times now l unseen rising later =
    let v : IsFaithful key 0 [] l = record { stored = λ t h. rw unseen; limited = omega arith } in
    let w = admitted-IsFaithful key times 0 [] l rising v in
    let (same_max, same_window) = max_attempts-admitted key times [] l in
    omega (
      arith,
      rw same_max at (rw same_window at w.limited),
      recent_later (last_time 0 times) now l.window_seconds (admitted key times l []).0 later,
    )

-- A call for one key changes neither what is stored for another key nor whether its calls pass.
pub keys_are_independent :
    (now later : ℕ) (key other : Str) (l : SimpleRateLimiter)
    → (other == key) ≡ false
    → (check later other (check now key l).1).0 ≡ (check later other l).0
unfolding check
keys_are_independent now later key other l h = ground (
  arith,
  lookup-insert other key
      (recent now l.window_seconds (or_empty (lookup key l.attempts)) ++ (now ∷ [])) l.attempts,
)
