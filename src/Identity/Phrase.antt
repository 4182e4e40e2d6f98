-- ===== src/Identity/Phrase.antt =====
-- haven/recovery.py. Texts are ASCII, as the word list is; the list is a parameter.
use haven_e2e_messenger.Prelude.{
  ℕ, zero, suc, ◌+◌, ◌*◌, ◌%◌, Str, List, [], ◌∷◌, ◌++◌, if◌then◌else◌, map,
}
use haven_e2e_messenger.Prelude.Decimal.{is_white}
use haven_e2e_messenger.Accounts.Names.{lower}

abbrev flush : Str → List Str → List Str
flush [] words = words
flush (c ∷ word) words = (c ∷ word) ∷ words

-- The word that a text begins with, and the words after it.
abbrev pieces : Str → Str × List Str
pieces [] = ([], [])
pieces (c ∷ s) =
    let (word, words) = pieces s in if is_white c then ([], flush word words) else (c ∷ word, words)

-- `s.split()`
unfoldable pub split : Str → List Str
split s = let (word, words) = pieces s in flush word words

-- `" ".join(words)`
unfoldable pub join : List Str → Str
join [] = []
join (word ∷ []) = word
join (word ∷ next ∷ words) = word ++ (32 ∷ join (next ∷ words))

-- `normalize_phrase`. What `strip` drops, `split` drops as well.
unfoldable pub normalize_phrase : Str → Str
normalize_phrase phrase = join (split (lower phrase))

abbrev nth_word : ℕ → List Str → Str
nth_word i [] = []
nth_word zero (word ∷ words) = word
nth_word (suc i) (word ∷ words) = nth_word i words

-- `generate_recovery_phrase`, on the pairs of bytes that os.urandom gives, one for each word.
unfoldable pub generate_recovery_phrase : List Str → List (ℕ × ℕ) → Str
generate_recovery_phrase wordlist drawn =
    join (map (λ (d : ℕ × ℕ). nth_word ((d.0 * 256 + d.1) % 2048) wordlist) drawn)
