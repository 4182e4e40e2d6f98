-- ===== src/Prelude/Exec.antt =====
-- Methods that change an object and may raise. What was written before a raise stays written, so
-- the new state stands beside the exception too.
use mathlib.Core.Bool.{Bool, true, false}
use mathlib.Core.Path.{◌≡◌, refl, ap, ◌∙◌}
use native.Mathlib.Omega.{arith}
use haven_e2e_messenger.Prelude.Errors.{Exn, Result, ok, err}

abbrev pub Exec : Type 0 → Type 0 → Type 0
Exec S A = S → Result A × S

module _ {S A : Type 0} where
  abbrev pub pure : A → Exec S A
  pure a s = (ok a, s)

  abbrev pub raise : Exn → Exec S A
  raise e s = (err e, s)

  abbrev pub lift : Result A → Exec S A
  lift r s = (r, s)

  abbrev pub gets : (S → A) → Exec S A
  gets f s = (ok (f s), s)

module _ {S : Type 0} where
  abbrev pub modify : (S → S) → Exec S (Unit {0})
  modify f s = (ok tt, f s)

  abbrev pub skip : Exec S (Unit {0})
  skip s = (ok tt, s)

module _ {S A B : Type 0} where
  abbrev pub resume : Result A → (A → Exec S B) → Exec S B
  resume (ok a) f s = f a s
  resume (err e) f s = (err e, s)

  infixl 5 ◌>>=◌ ◌>>◌
  abbrev pub ◌>>=◌ : Exec S A → (A → Exec S B) → Exec S B
  ◌>>=◌ m f s = let (r, s') = m s in resume r f s'

  abbrev pub ◌>>◌ : Exec S A → Exec S B → Exec S B
  m >> k = m >>= λ _. k

module _ {S : Type 0} where
  abbrev pub caught : Bool → Exn → Exec S (Unit {0})
  caught true e s = (ok tt, s)
  caught false e s = (err e, s)

  abbrev pub handled : (Exn → Bool) → Result (Unit {0}) → Exec S (Unit {0})
  handled p (ok tt) s = (ok tt, s)
  handled p (err e) s = caught (p e) e s

  -- `try: m; except those of p: pass`
  abbrev pub try_pass : (Exn → Bool) → Exec S (Unit {0}) → Exec S (Unit {0})
  try_pass p m s = let (r, s') = m s in handled p r s'

-- What both parts of a sequence leave alone, the sequence leaves alone, whether or not they raise.
module _ {S A B V : Type 0} (f : S → V) where
  resume-keeps :
      (r : Result A) (k : A → Exec S B)
      → ((a : A) (s : S) → f (k a s).1 ≡ f s)
      → (s : S) → f (resume r k s).1 ≡ f s
  resume-keeps (ok a) k keeps s = keeps a s
  resume-keeps (err e) k keeps s = refl

  pub bind-keeps :
      (m : Exec S A) (k : A → Exec S B)
      → ((s : S) → f (m s).1 ≡ f s)
      → ((a : A) (s : S) → f (k a s).1 ≡ f s)
      → (s : S) → f ((m >>= k) s).1 ≡ f s
  bind-keeps m k keeps_m keeps_k s = let (r, t) = m s in resume-keeps r k keeps_k t ∙ keeps_m s

-- A sequence whose first part returned goes on with its second.
module _ {S A B : Type 0} where
  pub bind_returned :
      (m : Exec S A) (k : A → Exec S B) (s : S) {a : A} {t : S}
      → m s ≡ (ok a, t)
      → (m >>= k) s ≡ k a t
  bind_returned m k s h = ap (λ (p : Result A × S). resume p.0 k p.1) h

  pub lift_returned :
      (r : Result A) (k : A → Exec S B) (s : S) {a : A} → r ≡ ok a → (lift r >>= k) s ≡ k a s
  lift_returned r k s h = ap (λ (x : Result A). resume x k s) h

module _ {S : Type 0} where
  pub try_pass-returned :
      (p : Exn → Bool) (m : Exec S (Unit {0})) (s : S) {t : S}
      → m s ≡ (ok tt, t)
      → try_pass p m s ≡ (ok tt, t)
  try_pass-returned p m s h = ap (λ (x : Result (Unit {0}) × S). handled p x.0 x.1) h

-- A sequence that returns is a first part that returned and the second part after it.
module _ {S A B : Type 0} where
  resume-ok :
      (r : Result A) (k : A → Exec S B) (s : S) {b : B}
      → (resume r k s).0 ≡ ok b
      → (a : A) × (r ≡ ok a) × (resume r k s ≡ k a s)
  resume-ok (ok a) k s h = (a, refl, refl)
  resume-ok (err e) k s h = ground arith

  pub bind-ok :
      (m : Exec S A) (k : A → Exec S B) (s : S) {b : B}
      → ((m >>= k) s).0 ≡ ok b
      → (a : A) × ((m s).0 ≡ ok a) × ((m >>= k) s ≡ k a (m s).1)
  bind-ok m k s h = resume-ok (m s).0 k (m s).1 h

-- What each step keeps true, whether or not it raises, a sequence keeps true.
abbrev pub Preserves : {S A : Type 0} → (S → Type 0) → Exec S A → Type 0
Preserves {S = S} P m = (s : S) → P s → P (m s).1

module _ {S A B : Type 0} (P : S → Type 0) where
  resume-Preserves :
      (r : Result A) (k : A → Exec S B) → ((a : A) → Preserves P (k a)) → Preserves P (resume r k)
  resume-Preserves (ok a) k keeps s p = keeps a s p
  resume-Preserves (err e) k keeps s p = p

  pub bind-Preserves :
      (m : Exec S A) (k : A → Exec S B)
      → Preserves P m
      → ((a : A) → Preserves P (k a))
      → Preserves P (m >>= k)
  bind-Preserves m k keeps_m keeps_k s p = resume-Preserves (m s).0 k keeps_k (m s).1 (keeps_m s p)

module _ {S : Type 0} (P : S → Type 0) where
  caught-Preserves : (b : Bool) (e : Exn) → Preserves P (caught b e)
  caught-Preserves true e s p = p
  caught-Preserves false e s p = p

  handled-Preserves : (p : Exn → Bool) (r : Result (Unit {0})) → Preserves P (handled p r)
  handled-Preserves p (ok tt) s h = h
  handled-Preserves p (err e) s h = caught-Preserves (p e) e s h

  pub try_pass-Preserves :
      (p : Exn → Bool) (m : Exec S (Unit {0})) → Preserves P m → Preserves P (try_pass p m)
  try_pass-Preserves p m keeps s h = handled-Preserves p (m s).0 (m s).1 (keeps s h)
