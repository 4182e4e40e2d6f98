-- ===== src/Ai/Examples.antt =====
-- Runs of haven/ai.py on small inputs.
use haven_e2e_messenger.Prelude.{
  ◌≡◌, refl, ◌<◌, Str, Bytes, text, none, some, List, [], ◌∷◌, ◌++◌, Option, length, All, arith,
  bytes_dec,
}
use haven_e2e_messenger.Prelude.Errors.{Result, ok, err, os_error}
use haven_e2e_messenger.Prelude.Dict.{lookup, insert}
use haven_e2e_messenger.Ai.{
  Argos, Captioner, buffer, feed, translate, ensure_pair_installed, process,
}
use haven_e2e_messenger.Ai.Captions.{feeds, audio, audio_of, HasLength, captions_hear_everything}

-- One second of four samples: a piece has eight bytes.
abbrev slow : Captioner
slow = record {
  buffer_seconds = 1;
  sample_rate = 4;
  target_lang = some (text "en");
  buffers = [];
  started = [];
}

abbrev blocks : List (Str × Bytes)
blocks =
    (text "a", 1 ∷ 2 ∷ 3 ∷ 4 ∷ 5 ∷ [])
    ∷ (text "b", 9 ∷ 9 ∷ [])
    ∷ (text "a", 6 ∷ 7 ∷ 8 ∷ 9 ∷ [])
    ∷ []

blocks_cut : (feeds blocks slow).started ≡ (text "a", 1 ∷ 2 ∷ 3 ∷ 4 ∷ 5 ∷ 6 ∷ 7 ∷ 8 ∷ []) ∷ []
unfolding feed insert lookup bytes_dec
blocks_cut = refl

captions_hear_everything_example :
    (audio (text "a") (feeds blocks slow) ≡ audio (text "a") slow ++ audio_of (text "a") blocks)
    × All (HasLength 8) (feeds blocks slow).started
    × (length (buffer (text "a") (feeds blocks slow)) < 8)
unfolding lookup
captions_hear_everything_example =
    captions_hear_everything 8 (text "a") blocks slow refl tt (omega arith)
      (omega arith, (omega arith, (omega arith, tt)))

abbrev online : Argos
online = record {
  installed_packages = ok [];
  available_packages = ok ((text "es", text "en") ∷ []);
  download_and_install = λ key. ok tt;
  translate_text = λ words key. ok (text "hello");
}

abbrev offline : Argos
offline = record {
  installed_packages = ok [];
  available_packages = err os_error;
  download_and_install = λ key. err os_error;
  translate_text = λ words key. ok (text "hello");
}

abbrev hears : Bytes → Result (Str × Option Str)
hears chunk = ok (text "hola", some (text "es"))

-- The package is installed at its first use and is not looked for again.
installed_once :
    translate online (text "hola") (text "es", text "en") []
    ≡ (ok (text "hello"), (text "es", text "en") ∷ [])
unfolding translate ensure_pair_installed bytes_dec
installed_once = refl

found_again :
    process offline hears slow [] ((text "es", text "en") ∷ [])
    ≡ (some (text "hola", text "hello", some (text "es")), (text "es", text "en") ∷ [])
unfolding process translate ensure_pair_installed bytes_dec
found_again = refl

-- Without the index nothing is shown, and nothing is raised.
not_found : process offline hears slow [] [] ≡ (none, [])
unfolding process translate ensure_pair_installed bytes_dec
not_found = refl
