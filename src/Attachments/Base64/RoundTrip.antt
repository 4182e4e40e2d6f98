-- ===== src/Attachments/Base64/RoundTrip.antt =====
-- Base64 is read back as it was written, and its length.
use haven_e2e_messenger.Prelude.{
  ◌≡◌, refl, ap, ◌∙◌, ℕ, ◌+◌, ◌*◌, ◌/◌, ◌%◌, ◌<◌, Bytes, Str, false, Option, some, [], ◌∷◌, eqb,
  length, All, arith,
}
use haven_e2e_messenger.Crypto.Hex.{IsByte}
use haven_e2e_messenger.Attachments.Base64.{
  is_ascii, ltb, true, b64_char, b64_value, b64encode, b64decode, Reading, reading, read_value,
  after_step, with_byte, read_on,
}

b64_value-b64_char :
    (v : ℕ) → v < 64 → (b64_value (b64_char v) ≡ some v) × (eqb (b64_char v) 61 ≡ false)
unfolding b64_value b64_char
b64_value-b64_char v small = ground arith

read_on-char :
    (v : ℕ) (s : Str) (r : Reading)
    → v < 64
    → read_on (b64_char v ∷ s) r ≡ after_step (read_value r v) (read_on s)
unfolding read_on
read_on-char v s r small =
    let (value, other) = b64_value-b64_char v small in rw other (rw value refl)

-- A whole group of four characters.
read_on-group :
    (v w x y : ℕ) (s : Str)
    → v < 64
    → w < 64
    → x < 64
    → y < 64
    → read_on (b64_char v ∷ b64_char w ∷ b64_char x ∷ b64_char y ∷ s) (reading 0 0 0)
      ≡ with_byte
          (v * 4 + w / 16)
          (with_byte (w % 16 * 16 + x / 4) (with_byte (x % 4 * 64 + y) (read_on s (reading 0 0 0))))
read_on-group v w x y s hv hw hx hy =
    read_on-char v (b64_char w ∷ b64_char x ∷ b64_char y ∷ s) (reading 0 0 0) hv
    ∙ read_on-char w (b64_char x ∷ b64_char y ∷ s) (reading 1 v 0) hw
    ∙ ap (with_byte (v * 4 + w / 16)) (
        read_on-char x (b64_char y ∷ s) (reading 2 (w % 16) 0) hx
        ∙ ap (with_byte (w % 16 * 16 + x / 4)) (read_on-char y s (reading 3 (x % 4) 0) hy))

two_pads : (left : ℕ) → read_on (61 ∷ 61 ∷ []) (reading 2 left 0) ≡ some []
unfolding read_on
two_pads left = refl

one_pad : (left : ℕ) → read_on (61 ∷ []) (reading 3 left 0) ≡ some []
unfolding read_on
one_pad left = refl

-- `b64decode` reads back what `b64encode` wrote.
read_on-b64encode : (bs : Bytes) → All IsByte bs → read_on (b64encode bs) (reading 0 0 0) ≡ some bs
unfolding b64encode
read_on-b64encode [] v = unfold read_on in refl
read_on-b64encode (a ∷ []) (ha, v) =
    read_on-char (a / 4) (b64_char (a % 4 * 16) ∷ 61 ∷ 61 ∷ []) (reading 0 0 0) (omega arith)
    ∙ read_on-char (a % 4 * 16) (61 ∷ 61 ∷ []) (reading 1 (a / 4) 0) (omega arith)
    ∙ rw (two_pads (a % 4 * 16 % 16)) (ap (λ (n : ℕ). some (n ∷ [])) (omega arith))
read_on-b64encode (a ∷ b ∷ []) (ha, (hb, v)) =
    read_on-char (a / 4) (b64_char (a % 4 * 16 + b / 16) ∷ b64_char (b % 16 * 4) ∷ 61 ∷ [])
      (reading 0 0 0) (omega arith)
    ∙ read_on-char (a % 4 * 16 + b / 16) (b64_char (b % 16 * 4) ∷ 61 ∷ []) (reading 1 (a / 4) 0)
        (omega arith)
    ∙ ap (with_byte (a / 4 * 4 + (a % 4 * 16 + b / 16) / 16)) (
        read_on-char (b % 16 * 4) (61 ∷ []) (reading 2 ((a % 4 * 16 + b / 16) % 16) 0)
          (omega arith))
    ∙ rw (one_pad (b % 16 * 4 % 4)) (two (omega arith) (omega arith))
  where
    two : {x y : ℕ} → x ≡ a → y ≡ b → ◌≡◌ {A = Option Bytes} (some (x ∷ y ∷ [])) (some (a ∷ b ∷ []))
    two p q = rw (p, q) refl
read_on-b64encode (a ∷ b ∷ c ∷ bs) (ha, (hb, (hc, v))) =
    read_on-group (a / 4) (a % 4 * 16 + b / 16) (b % 16 * 4 + c / 64) (c % 64) (b64encode bs)
      (omega arith) (omega arith) (omega arith) (omega arith)
    ∙ rw (read_on-b64encode bs v) (three (omega arith) (omega arith) (omega arith))
  where
    three :
        {x y z : ℕ}
        → x ≡ a
        → y ≡ b
        → z ≡ c
        → ◌≡◌ {A = Option Bytes} (some (x ∷ y ∷ z ∷ bs)) (some (a ∷ b ∷ c ∷ bs))
    three p q r = rw (p, q, r) refl

b64_char-ascii : (v : ℕ) → ltb (b64_char v) 128 ≡ true
unfolding b64_char
b64_char-ascii v = ground arith

is_ascii-b64encode : (bs : Bytes) → is_ascii (b64encode bs) ≡ true
unfolding b64encode
is_ascii-b64encode [] = refl
is_ascii-b64encode (a ∷ []) = ground (arith, b64_char-ascii (a / 4), b64_char-ascii (a % 4 * 16))
is_ascii-b64encode (a ∷ b ∷ []) = ground (
  arith,
  b64_char-ascii (a / 4),
  b64_char-ascii (a % 4 * 16 + b / 16),
  b64_char-ascii (b % 16 * 4),
)
is_ascii-b64encode (a ∷ b ∷ c ∷ bs) =
    rw
      (
        b64_char-ascii (a / 4),
        b64_char-ascii (a % 4 * 16 + b / 16),
        b64_char-ascii (b % 16 * 4 + c / 64),
        b64_char-ascii (c % 64),
      )
      (is_ascii-b64encode bs)

pub b64decode-b64encode : (bs : Bytes) → All IsByte bs → b64decode (b64encode bs) ≡ some bs
unfolding b64decode
b64decode-b64encode bs v = rw (is_ascii-b64encode bs) (read_on-b64encode bs v)

-- Three bytes become four characters.
pub length-b64encode : (bs : Bytes) → length (b64encode bs) ≡ (length bs + 2) / 3 * 4
unfolding b64encode
length-b64encode [] = refl
length-b64encode (a ∷ []) = refl
length-b64encode (a ∷ b ∷ []) = refl
length-b64encode (a ∷ b ∷ c ∷ bs) = omega (arith, length-b64encode bs)
