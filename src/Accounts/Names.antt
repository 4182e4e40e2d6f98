-- ===== src/Accounts/Names.antt =====
-- The usernames of webapp/accounts_server.py: `USERNAME_RE`, `_validate_username` and `str.lower`.
-- Texts are ASCII: `lower` maps A-Z and leaves every other code point as it is.
use haven_e2e_messenger.Prelude.{
  ◌≡◌, refl, ℕ, ◌+◌, Str, Bool, true, false, ◌&&◌, ◌||◌, [], ◌∷◌, ◌++◌, length, leb, eqb, map,
  if◌then◌else◌, arith, ap, sym, ◌⊎◌, inl, inr,
}
use haven_e2e_messenger.Prelude.Errors.{Result, ok, err, value_error}

abbrev is_upper : ℕ → Bool
is_upper c = leb 65 c && leb c 90

abbrev is_lower : ℕ → Bool
is_lower c = leb 97 c && leb c 122

abbrev is_digit : ℕ → Bool
is_digit c = leb 48 c && leb c 57

abbrev pub is_letter : ℕ → Bool
is_letter c = is_upper c || is_lower c

unfoldable pub is_name_char : ℕ → Bool
is_name_char c = is_letter c || is_digit c || eqb c 95

unfoldable pub lower_char : ℕ → ℕ
lower_char c = if is_upper c then c + 32 else c

unfoldable pub lower : Str → Str
unfolding lower_char
lower = map lower_char

abbrev pub all_name_chars : Str → Bool
all_name_chars [] = true
all_name_chars (c ∷ s) = is_name_char c && all_name_chars s

-- `$` also matches before a newline that ends the text.
unfoldable pub drop_last_newline : Str → Str
drop_last_newline [] = []
drop_last_newline (c ∷ []) = if eqb c 10 then [] else c ∷ []
drop_last_newline (c ∷ d ∷ s) = c ∷ drop_last_newline (d ∷ s)

abbrev pub matches_whole : Str → Bool
matches_whole [] = false
matches_whole (c ∷ s) = is_letter c && all_name_chars s && leb 2 (length s) && leb (length s) 23

-- `USERNAME_RE.match`, for ^[A-Za-z][A-Za-z0-9_]{2,23}$.
unfoldable pub matches_username_re : Str → Bool
unfolding drop_last_newline is_name_char
matches_username_re username = matches_whole (drop_last_newline username)

-- `_validate_username`
unfoldable pub validate_username : Str → Result Str
unfolding matches_username_re
validate_username username = if matches_username_re username then ok username else err value_error

lower_char_idem : (c : ℕ) → lower_char (lower_char c) ≡ lower_char c
unfolding lower_char
lower_char_idem c = ground arith

pub lower_idem : (s : Str) → lower (lower s) ≡ lower s
unfolding lower
lower_idem [] = refl
lower_idem (c ∷ s) = cc (lower_char_idem c, lower_idem s)

drop_last_newline-append : (s : Str) → drop_last_newline (s ++ (10 ∷ [])) ≡ s
unfolding drop_last_newline
drop_last_newline-append [] = refl
drop_last_newline-append (c ∷ []) = refl
drop_last_newline-append (c ∷ d ∷ s) = ap (λ l. c ∷ l) (drop_last_newline-append (d ∷ s))

name_char-ne-newline : (c : ℕ) → is_name_char c ≡ true → eqb c 10 ≡ false
unfolding is_name_char
name_char-ne-newline c h = ground arith

drop_last_newline-all_name_chars : (s : Str) → all_name_chars s ≡ true → drop_last_newline s ≡ s
unfolding drop_last_newline
drop_last_newline-all_name_chars [] h = refl
drop_last_newline-all_name_chars (c ∷ []) h = ground (arith, name_char-ne-newline c)
drop_last_newline-all_name_chars (c ∷ d ∷ s) h =
    ground (arith, drop_last_newline-all_name_chars (d ∷ s))

matches_whole-all_name_chars : (s : Str) → matches_whole s ≡ true → all_name_chars s ≡ true
unfolding is_name_char
matches_whole-all_name_chars [] h = refl
matches_whole-all_name_chars (c ∷ s) h = ground arith

drop_last_newline-cases :
    (s : Str) → (drop_last_newline s ≡ s) ⊎ (drop_last_newline s ++ (10 ∷ []) ≡ s)
unfolding drop_last_newline
drop_last_newline-cases [] = inl refl
drop_last_newline-cases (c ∷ []) = ground arith
drop_last_newline-cases (c ∷ d ∷ s) = elim (drop_last_newline-cases (d ∷ s)) [
  | inl same ↦ inl (ap (λ l. c ∷ l) same)
  | inr cut ↦ inr (ap (λ l. c ∷ l) cut)
]

-- An accepted username is a letter followed by 2 to 23 letters, digits and underscores, or such a text
-- with a newline at its end.
pub accepted_usernames :
    (username : Str)
    → validate_username username ≡ ok username
    → (matches_whole username ≡ true)
      ⊎ ((name : Str) × (username ≡ name ++ (10 ∷ [])) × (matches_whole name ≡ true))
unfolding validate_username
accepted_usernames username h = elim (drop_last_newline-cases username) [
  | inl same ↦ inl (ground arith)
  | inr cut ↦ inr (drop_last_newline username, sym cut, ground arith)
]

-- A letter followed by 2 to 23 letters, digits and underscores is accepted as a username, and so is
-- the same text with a newline at its end.
pub newline_is_accepted :
    (username : Str)
    → matches_whole username ≡ true
    → (validate_username username ≡ ok username)
      × (validate_username (username ++ (10 ∷ [])) ≡ ok (username ++ (10 ∷ [])))
unfolding validate_username
newline_is_accepted username h = (
  rw (drop_last_newline-all_name_chars username (matches_whole-all_name_chars username h), h),
  rw (drop_last_newline-append username, h),
)
