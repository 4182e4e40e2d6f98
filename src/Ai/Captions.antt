-- ===== src/Ai/Captions.antt =====
-- The audio that LiveCallCaptioner of haven/ai.py transcribes.
use haven_e2e_messenger.Prelude.{
  ◌≡◌, refl, sym, ap, ◌∙◌, ℕ, zero, suc, ◌<◌, ◌≤◌, Bytes, Str, List, [], ◌∷◌, ◌++◌, take, drop,
  length, ◌==◌, bytes_eq, leb, if◌then◌else◌, All, arith, Bool-cases, inl, inr, append_assoc,
  append-nil, length-append, length-take, length-drop,
}
use haven_e2e_messenger.Prelude.Dict.{lookup-insert}
use haven_e2e_messenger.Ai.{Captioner, needed, buffer, feed}

abbrev pub feeds : List (Str × Bytes) → Captioner → Captioner
feeds [] c = c
feeds ((fp, pcm_bytes) ∷ blocks) c = feeds blocks (feed fp pcm_bytes c)

-- The bytes of one contact, put together.
abbrev pub audio_of : Str → List (Str × Bytes) → Bytes
audio_of fp [] = []
audio_of fp ((key, bytes) ∷ blocks) =
    let rest = audio_of fp blocks in if fp == key then bytes ++ rest else rest

audio_of-append :
    (fp : Str) (xs ys : List (Str × Bytes))
    → audio_of fp (xs ++ ys) ≡ audio_of fp xs ++ audio_of fp ys
audio_of-append fp [] ys = refl
audio_of-append fp ((key, bytes) ∷ xs) ys =
    ground (arith, audio_of-append fp xs ys, append_assoc bytes (audio_of fp xs) (audio_of fp ys))

take-drop : (n : ℕ) (xs : Bytes) → take n xs ++ drop n xs ≡ xs
take-drop zero xs = refl
take-drop (suc n) [] = refl
take-drop (suc n) (x ∷ xs) = ap (λ l. x ∷ l) (take-drop n xs)

-- All audio of a contact that is not lost: what the threads were started on, then what is in the buffer.
abbrev pub audio : Str → Captioner → Bytes
audio fp c = audio_of fp c.started ++ buffer fp c

feed-audio :
    (fp key : Str) (pcm_bytes : Bytes) (c : Captioner)
    → audio fp (feed key pcm_bytes c) ≡ audio fp c ++ (if fp == key then pcm_bytes else [])
unfolding feed
feed-audio fp key pcm_bytes c =
    let buf = buffer key c ++ pcm_bytes in
    ground (
      arith,
      lookup-insert fp key buf c.buffers,
      lookup-insert fp key (drop (needed c) buf) c.buffers,
      audio_of-append fp c.started ((key, take (needed c) buf) ∷ []),
      take-drop (needed c) buf,
      append-nil (take (needed c) buf),
      append-nil (audio_of fp c.started),
      append-nil (audio_of fp c.started ++ buffer fp c),
      append_assoc (audio_of fp c.started) (take (needed c) buf) (drop (needed c) buf),
      append_assoc (audio_of fp c.started) (buffer fp c) pcm_bytes,
    )

feeds-audio :
    (fp : Str) (blocks : List (Str × Bytes)) (c : Captioner)
    → audio fp (feeds blocks c) ≡ audio fp c ++ audio_of fp blocks
feeds-audio fp [] c = sym (append-nil (audio fp c))
feeds-audio fp ((key, pcm_bytes) ∷ blocks) c = ground (
  arith,
  feeds-audio fp blocks (feed key pcm_bytes c),
  feed-audio fp key pcm_bytes c,
  append-nil (audio fp c),
  append_assoc (audio fp c) pcm_bytes (audio_of fp blocks),
)

feed-needed :
    (key : Str) (pcm_bytes : Bytes) (c : Captioner) → needed (feed key pcm_bytes c) ≡ needed c
unfolding feed
feed-needed key pcm_bytes c = ground arith

-- Every transcribed piece has the length of a full buffer, and every buffer is shorter.
abbrev pub HasLength : ℕ → Str × Bytes → Type 0
HasLength n (fp, bytes) = length bytes ≡ n

abbrev pub IsShort : ℕ → Str → Captioner → Type 0
IsShort n fp c = length (buffer fp c) < n

abbrev IsCut : ℕ → Str → Captioner → Type 0
IsCut n fp c = (needed c ≡ n) × All (HasLength n) c.started × IsShort n fp c

All-snoc :
    (n : ℕ) (xs : List (Str × Bytes)) (fp : Str) (bytes : Bytes)
    → All (HasLength n) xs
    → length bytes ≡ n
    → All (HasLength n) (xs ++ ((fp, bytes) ∷ []))
All-snoc n [] fp bytes v h = (h, tt)
All-snoc n (x ∷ xs) fp bytes (here, later) h = (here, All-snoc n xs fp bytes later h)

feed-started :
    (n : ℕ) (key : Str) (pcm_bytes : Bytes) (c : Captioner)
    → needed c ≡ n
    → All (HasLength n) c.started
    → All (HasLength n) (feed key pcm_bytes c).started
unfolding feed
feed-started n key pcm_bytes c same v =
    let buf = buffer key c ++ pcm_bytes in
    elim (Bool-cases (leb (needed c) (length buf))) [
      | inl full ↦ rw full (
          All-snoc n c.started key (take (needed c) buf) v
            (length-take (needed c) buf (ground arith) ∙ same))
      | inr short ↦ rw short v
    ]

feed-IsShort :
    (n : ℕ) (fp key : Str) (pcm_bytes : Bytes) (c : Captioner)
    → needed c ≡ n
    → IsShort n fp c
    → length pcm_bytes ≤ n
    → IsShort n fp (feed key pcm_bytes c)
unfolding feed
feed-IsShort n fp key pcm_bytes c same short small =
    let buf = buffer key c ++ pcm_bytes in
    elim (Bool-cases (leb (needed c) (length buf))) [
      | inl full ↦ rw full (
          ground (
            arith,
            lookup-insert fp key (drop (needed c) buf) c.buffers,
            length-append (buffer key c) pcm_bytes,
            length-drop (needed c) buf (ground arith),
          ))
      | inr fits ↦ rw fits (ground (arith, lookup-insert fp key buf c.buffers))
    ]

feeds-IsCut :
    (n : ℕ) (fp : Str) (blocks : List (Str × Bytes)) (c : Captioner)
    → All (λ (block : Str × Bytes). length block.1 ≤ n) blocks
    → IsCut n fp c
    → IsCut n fp (feeds blocks c)
feeds-IsCut n fp [] c small v = v
feeds-IsCut n fp ((key, pcm_bytes) ∷ blocks) c (one, small) (same, whole, short) =
    feeds-IsCut n fp blocks (feed key pcm_bytes c) small (
      feed-needed key pcm_bytes c ∙ same,
      feed-started n key pcm_bytes c same whole,
      feed-IsShort n fp key pcm_bytes c same short one,
    )

-- Nothing of a contact's audio is lost, doubled or reordered when it is cut into the pieces for the threads
-- that transcribe: however the blocks of several contacts mix, the pieces, in the order in which their
-- threads are started, and the rest in the buffer are what was there before with the fed blocks behind it.
-- Every piece has exactly the length wanted, and the rest is shorter. Conditions: no block is longer than
-- that, and at the start the same held of the pieces and of the rest.
pub captions_hear_everything :
    (n : ℕ) (fp : Str) (blocks : List (Str × Bytes)) (c : Captioner)
    → needed c ≡ n
    → All (HasLength n) c.started
    → length (buffer fp c) < n
    → All (λ (block : Str × Bytes). length block.1 ≤ n) blocks
    → let c' = feeds blocks c in
      (audio fp c' ≡ audio fp c ++ audio_of fp blocks)
      × All (HasLength n) c'.started
      × (length (buffer fp c') < n)
captions_hear_everything n fp blocks c same whole short small =
    let (_, whole', short') = feeds-IsCut n fp blocks c small (same, whole, short) in
    (feeds-audio fp blocks c, whole', short')
