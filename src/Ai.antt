-- ===== src/Ai.antt =====
-- haven/ai.py: offline translation and the captions of a call. argostranslate and faster-whisper are
-- parameters.
pub mod Captions
mod Examples
use haven_e2e_messenger.Prelude.{
  ℕ, ◌*◌, ◌-◌, Bytes, Str, Bool, true, false, ◌&&◌, not, Option, none, some, List, [], ◌∷◌, ◌++◌,
  take, drop, length, Eq, contains, ◌==◌, bytes_eq, leb, if◌then◌else◌,
}
use haven_e2e_messenger.Prelude.Errors.{Result, ok, err, runtime_error}
use haven_e2e_messenger.Prelude.Exec.{Exec, pure, raise, lift, modify, skip, ◌>>=◌, ◌>>◌}
use haven_e2e_messenger.Prelude.Dict.{Dict, lookup, insert, erase}

-- A pair of language codes.
abbrev pub Pair : Type 0
Pair = Str × Str

abbrev pub has_pair : Pair → List Pair → Bool
has_pair (from_code, to_code) [] = false
has_pair (from_code, to_code) ((f, t) ∷ pairs) =
    let rest = has_pair (from_code, to_code) pairs in
    if (f == from_code) && (t == to_code) then true else rest

-- What argostranslate gives: the packages that are installed, those of the updated index, the
-- installation of one, and a translation.
pub record Argos : Type 0 where
  pub installed_packages : Result (List Pair)
  pub available_packages : Result (List Pair)
  pub download_and_install : Pair → Result (Unit {0})
  pub translate_text : Str → Pair → Result Str

-- The state of Translator is the set `_installed_pairs`.
abbrev pub note_installed : Pair → Exec (List Pair) (Unit {0})
note_installed key = modify (λ pairs. if has_pair key pairs then pairs else pairs ++ (key ∷ []))

abbrev pub fetch_pair : Argos → Pair → Exec (List Pair) (Unit {0})
fetch_pair A key = do
  available ← lift A.available_packages
  if has_pair key available
      then (do lift (A.download_and_install key); note_installed key)
      else raise runtime_error

-- `Translator.ensure_pair_installed`
unfoldable pub ensure_pair_installed : Argos → Pair → Exec (List Pair) (Unit {0})
ensure_pair_installed A key pairs =
    if has_pair key pairs
    then (ok tt, pairs)
    else (do
      installed ← lift A.installed_packages
      if has_pair key installed then note_installed key else fetch_pair A key)
        pairs

-- `Translator.translate`
unfoldable pub translate : Argos → Str → Pair → Exec (List Pair) Str
translate A [] key = pure []
translate A (c ∷ words) (from_code, to_code) =
    if from_code == to_code
    then pure (c ∷ words)
    else ensure_pair_installed A (from_code, to_code)
      >> lift (A.translate_text (c ∷ words) (from_code, to_code))

-- LiveCallCaptioner; `started` has what its threads were started on, in the order of their starts. In what
-- order the threads then reach the transcriber is up to its lock.
pub record Captioner : Type 0 where
  pub buffer_seconds : ℕ
  pub sample_rate : ℕ
  pub target_lang : Option Str
  pub buffers : Dict Str Bytes
  pub started : List (Str × Bytes)

abbrev pub needed : Captioner → ℕ
needed c = c.buffer_seconds * c.sample_rate * 2

abbrev pub or_no_bytes : Option Bytes → Bytes
or_no_bytes none = []
or_no_bytes (some bytes) = bytes

abbrev pub buffer : Str → Captioner → Bytes
buffer fp c = or_no_bytes (lookup fp c.buffers)

-- `LiveCallCaptioner.feed`
unfoldable pub feed : Str → Bytes → Captioner → Captioner
feed fp pcm_bytes c =
    let buf = buffer fp c ++ pcm_bytes in
    if leb (needed c) (length buf)
    then record c {
      buffers = insert fp (drop (needed c) buf) c.buffers;
      started = c.started ++ ((fp, take (needed c) buf) ∷ []);
    }
    else record c { buffers = insert fp buf c.buffers }

-- `LiveCallCaptioner.reset`
unfoldable pub reset : Str → Captioner → Captioner
reset fp c = record c { buffers = erase fp c.buffers }

-- A call of `on_caption`: the text, its translation and the language that was detected.
abbrev pub Caption : Type 0
Caption = Str × Str × Option Str

abbrev pub into_target : Argos → Option Str → Str × Option Str → Exec (List Pair) Str
into_target A (some (t ∷ target)) (words, some (d ∷ detected)) =
    if (d ∷ detected) == (t ∷ target)
    then pure words
    else translate A words (d ∷ detected, t ∷ target)
into_target A target (words, detected) = pure words

-- `LiveCallCaptioner._process` up to its `except`, on what the transcriber gives.
abbrev pub caption_of : Argos → Option Str → Str × Option Str → Exec (List Pair) (Option Caption)
caption_of A target ([], detected) = pure none
caption_of A target (c ∷ words, detected) = do
  translated ← into_target A target (c ∷ words, detected)
  pure (some (c ∷ words, translated, detected))

abbrev pub or_no_caption : Result (Option Caption) → Option Caption
or_no_caption (ok shown) = shown
or_no_caption (err e) = none

-- `LiveCallCaptioner._process`: the caption that is shown, if any.
unfoldable pub process :
    Argos
    → (Bytes → Result (Str × Option Str))
    → Captioner
    → Bytes
    → List Pair
    → Option Caption × List Pair
process A transcribe c chunk pairs =
    let (result, pairs') = (lift (transcribe chunk) >>= caption_of A c.target_lang) pairs in
    (or_no_caption result, pairs')
