-- ===== src/Attachments/Base64.antt =====
-- `base64.b64encode` and `base64.b64decode`, by which haven/attachments.py writes a file into JSON.
pub mod RoundTrip
use haven_e2e_messenger.Prelude.{
  ℕ, zero, suc, ◌+◌, ◌-◌, ◌*◌, ◌/◌, ◌%◌, Bytes, Str, Bool, true, false, ◌&&◌, Option, none, some,
  List, [], ◌∷◌, ◌++◌, ltb, leb, eqb, if◌then◌else◌,
}

-- The 64 characters A-Z, a-z, 0-9, + and /.
unfoldable pub b64_char : ℕ → ℕ
b64_char v =
    if ltb v 26
    then 65 + v
    else if ltb v 52
    then 71 + v
    else if ltb v 62
    then v - 4
    else if eqb v 62
    then 43
    else 47

unfoldable pub b64_value : ℕ → Option ℕ
b64_value c =
    if leb 65 c && leb c 90
    then some (c - 65)
    else if leb 97 c && leb c 122
    then some (c - 71)
    else if leb 48 c && leb c 57
    then some (c + 4)
    else if eqb c 43
    then some 62
    else if eqb c 47
    then some 63
    else none

-- `b64encode`, 61 being the padding.
unfoldable pub b64encode : Bytes → Str
b64encode [] = []
b64encode (a ∷ []) = b64_char (a / 4) ∷ b64_char (a % 4 * 16) ∷ 61 ∷ 61 ∷ []
b64encode (a ∷ b ∷ []) =
    b64_char (a / 4) ∷ b64_char (a % 4 * 16 + b / 16) ∷ b64_char (b % 16 * 4) ∷ 61 ∷ []
b64encode (a ∷ b ∷ c ∷ bs) =
    b64_char (a / 4)
    ∷ b64_char (a % 4 * 16 + b / 16)
    ∷ b64_char (b % 16 * 4 + c / 64)
    ∷ b64_char (c % 64)
    ∷ b64encode bs

-- Between two characters: the characters of a group that were read, the bits of theirs that no byte has
-- yet, and the paddings since.
pub record Reading : Type 0 where
  pub quad_pos : ℕ
  pub leftchar : ℕ
  pub pads : ℕ

-- What a character does: it may end the reading, give a byte, or change only the state.
pub data Step : Type 0 where
  stops : Step
  gives : ℕ → Reading → Step
  goes_on : Reading → Step

abbrev pub reading : ℕ → ℕ → ℕ → Reading
reading quad_pos leftchar pads = record { quad_pos = quad_pos; leftchar = leftchar; pads = pads }

abbrev pub read_pad : Reading → Step
read_pad r =
    if leb 2 r.quad_pos
    then (if leb 4 (r.quad_pos + r.pads + 1)
        then stops
        else goes_on (record r { pads = r.pads + 1 }))
    else goes_on r

-- The bits of `leftchar` and those of the value do not meet, so `|` is a sum.
abbrev pub read_value : Reading → ℕ → Step
read_value r v =
    if eqb r.quad_pos 0
    then goes_on (reading 1 v 0)
    else if eqb r.quad_pos 1
    then gives (r.leftchar * 4 + v / 16) (reading 2 (v % 16) 0)
    else if eqb r.quad_pos 2
    then gives (r.leftchar * 16 + v / 4) (reading 3 (v % 4) 0)
    else gives (r.leftchar * 64 + v) (reading 0 0 0)

-- A character outside the alphabet is left out.
abbrev pub read_or_skip : Reading → Option ℕ → Step
read_or_skip r none = goes_on r
read_or_skip r (some v) = read_value r v

abbrev pub read_char : Reading → ℕ → Step
read_char r c = if eqb c 61 then read_pad r else read_or_skip r (b64_value c)

abbrev pub with_byte : ℕ → Option Bytes → Option Bytes
with_byte b none = none
with_byte b (some bs) = some (b ∷ bs)

abbrev pub after_step : Step → (Reading → Option Bytes) → Option Bytes
after_step stops rest = some []
after_step (gives b r) rest = with_byte b (rest r)
after_step (goes_on r) rest = rest r

-- `b64decode` from a state on; none is binascii.Error, a ValueError.
unfoldable pub read_on : Str → Reading → Option Bytes
read_on [] r = if eqb r.quad_pos 0 then some [] else none
read_on (c ∷ s) r = after_step (read_char r c) (read_on s)

abbrev pub is_ascii : Str → Bool
is_ascii [] = true
is_ascii (c ∷ s) = ltb c 128 && is_ascii s

-- A text with other characters than ASCII's is refused before it is read, with a ValueError as well.
unfoldable pub b64decode : Str → Option Bytes
b64decode s = if is_ascii s then read_on s (reading 0 0 0) else none
