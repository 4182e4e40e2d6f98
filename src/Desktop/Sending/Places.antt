-- ===== src/Desktop/Sending/Places.antt =====
-- The timers that haven/gui.py has set, and those that fire.
use haven_e2e_messenger.Prelude.{
  ◌≡◌, ◌⊎◌, refl, ℕ, zero, suc, ◌≤◌, Str, Option, none, some, List, [], ◌∷◌, ◌++◌, All, inl, inr,
}
use haven_e2e_messenger.Desktop.Sending.{pick, behind}

-- A timer is set for the contact.
abbrev pub HasTimer : Str → List (Str × ℕ) → Type 0
HasTimer fp [] = ⊥
HasTimer fp ((key, k) ∷ timers) = (fp ≡ key) ⊎ HasTimer fp timers

abbrev pub IsShort : Str × ℕ → Type 0
IsShort (key, k) = k ≤ 20

pub HasTimer-append :
    (fp : Str) (timers more : List (Str × ℕ))
    → HasTimer fp timers ⊎ HasTimer fp more
    → HasTimer fp (timers ++ more)
HasTimer-append fp [] more (inl h) = absurd h
HasTimer-append fp [] more (inr h) = h
HasTimer-append fp (t ∷ timers) more (inl (inl here)) = inl here
HasTimer-append fp (t ∷ timers) more (inl (inr there)) =
    inr (HasTimer-append fp timers more (inl there))
HasTimer-append fp (t ∷ timers) more (inr h) = inr (HasTimer-append fp timers more (inr h))

pub All-snoc :
    (t : Str × ℕ) (timers : List (Str × ℕ))
    → All IsShort timers
    → IsShort t
    → All IsShort (timers ++ (t ∷ []))
All-snoc t [] v h = (h, tt)
All-snoc t (u ∷ timers) (here, v) h = (here, All-snoc t timers v h)

-- What is taken off the timers, and what is left, is what was there.
abbrev pub Picks : List (Str × ℕ) → Option ((Str × ℕ) × List (Str × ℕ)) → Type 0
Picks timers none = Unit
Picks timers (some ((key, k), others)) =
    (All IsShort timers → (k ≤ 20) × All IsShort others)
    × ((fp : Str) → HasTimer fp timers → (fp ≡ key) ⊎ HasTimer fp others)

behind-Picks :
    (t : Str × ℕ) (timers : List (Str × ℕ)) (o : Option ((Str × ℕ) × List (Str × ℕ)))
    → Picks timers o
    → Picks (t ∷ timers) (behind t o)
behind-Picks t timers none v = tt
behind-Picks (name, n) timers (some ((key, k), others)) (short, kept) = (
  λ v. let (here, later) = v in let (one, rest) = short later in (one, (here, rest)),
  λ fp h. elim h [
    | inl same ↦ inr (inl same)
    | inr deep ↦ elim (kept fp deep) [ inl same ↦ inl same | inr rest ↦ inr (inr rest) ]
  ],
)

pub pick-Picks : (place : ℕ) (timers : List (Str × ℕ)) → Picks timers (pick place timers)
pick-Picks place [] = tt
pick-Picks zero ((key, k) ∷ timers) = (λ v. v, λ fp h. h)
pick-Picks (suc place) (t ∷ timers) =
    behind-Picks t timers (pick place timers) (pick-Picks place timers)

pub HasTimer-append_cases :
    (fp : Str) (timers : List (Str × ℕ)) (key : Str) (k : ℕ)
    → HasTimer fp (timers ++ ((key, k) ∷ []))
    → HasTimer fp timers ⊎ (fp ≡ key)
HasTimer-append_cases fp [] key k (inl same) = inr same
HasTimer-append_cases fp [] key k (inr h) = absurd h
HasTimer-append_cases fp (t ∷ timers) key k (inl here) = inl (inl here)
HasTimer-append_cases fp (t ∷ timers) key k (inr there) =
    elim (HasTimer-append_cases fp timers key k there) [
      | inl deep ↦ inl (inr deep)
      | inr last ↦ inr last
    ]

-- A timer that fires was set, and those that stay were set.
abbrev pub WerePicked : List (Str × ℕ) → Option ((Str × ℕ) × List (Str × ℕ)) → Type 0
WerePicked timers none = Unit
WerePicked timers (some ((key, k), others)) =
    HasTimer key timers × ((fp : Str) → HasTimer fp others → HasTimer fp timers)

behind-WerePicked :
    (t : Str × ℕ) (timers : List (Str × ℕ)) (o : Option ((Str × ℕ) × List (Str × ℕ)))
    → WerePicked timers o
    → WerePicked (t ∷ timers) (behind t o)
behind-WerePicked t timers none v = tt
behind-WerePicked (name, n) timers (some ((key, k), others)) (was, kept) =
    (inr was, λ fp h. elim h [ inl same ↦ inl same | inr deep ↦ inr (kept fp deep) ])

pub pick-WerePicked : (place : ℕ) (timers : List (Str × ℕ)) → WerePicked timers (pick place timers)
pick-WerePicked place [] = tt
pick-WerePicked zero ((key, k) ∷ timers) = (inl refl, λ fp h. inr h)
pick-WerePicked (suc place) (t ∷ timers) =
    behind-WerePicked t timers (pick place timers) (pick-WerePicked place timers)
