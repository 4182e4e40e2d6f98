-- ===== src/Attachments.antt =====
-- haven/attachments.py: files sent as messages. The paths stand for the files, JSON is a parameter.
pub mod Base64
pub mod Sizes
mod Examples
use haven_e2e_messenger.Prelude.{
  ℕ, ◌*◌, ◌<◌, Bytes, Str, text, Bool, true, false, Option, none, some, [], ◌∷◌, ◌≡◌, ◌==◌,
  bytes_eq, length, ltb, if◌then◌else◌,
}
use haven_e2e_messenger.Prelude.Errors.{
  Result, ok, err, or_raise, value_error, attachment_too_large, ◌>>=◌,
}
use haven_e2e_messenger.Attachments.Base64.{b64encode, b64decode}

-- A file under a path: its last part, the MIME type that `mimetypes.guess_type` gives, and the bytes.
pub record LocalFile : Type 0 where
  pub basename : Str
  pub guessed : Option Str
  pub content : Bytes

-- JSON: writing the three fields; parsing, and reading each of them.
pub record AttachmentJson : Type 0 where
  pub dumps : Str → Str → Str → Str
  pub loads : Str → Result (Result Str × Result Str × Result Str)

-- JSON reads back what it wrote.
abbrev pub LoadsBack : AttachmentJson → Type 0
LoadsBack J =
    (filename mime data_b64 : Str)
    → J.loads (J.dumps filename mime data_b64) ≡ ok (ok filename, ok mime, ok data_b64)

abbrev pub max_attachment_bytes : ℕ
max_attachment_bytes = 8 * 1024 * 1024

-- `guess_type(…)[0] or default`
abbrev pub or_default : Option Str → Str → Str
or_default (some (c ∷ mime)) default = c ∷ mime
or_default _ default = default

abbrev pub mime_of : LocalFile → Str
mime_of file = or_default file.guessed (text "application/octet-stream")

-- What `decode_attachment` returns.
pub record Attachment : Type 0 where
  pub filename : Str
  pub mime : Str
  pub data_ : Bytes

module _ (J : AttachmentJson) where
  abbrev pub encode_file : LocalFile → Result Str
  encode_file file =
      if ltb max_attachment_bytes (length file.content)
      then err attachment_too_large
      else ok (J.dumps file.basename (mime_of file) (b64encode file.content))

  -- `encode_attachment`, on what opening the path gives.
  unfoldable pub encode_attachment : Result LocalFile → Result Str
  encode_attachment path = path >>= encode_file

  -- `decode_attachment`
  unfoldable pub decode_attachment : Str → Result Attachment
  decode_attachment body = do
    (filename_field, mime_field, data_field) ← J.loads body
    filename ← filename_field
    mime ← mime_field
    data_b64 ← data_field
    content ← or_raise (b64decode data_b64) value_error
    ok (record { filename = filename; mime = mime; data_ = content })

-- `guess_kind`
unfoldable pub guess_kind : Option Str → Str
guess_kind guessed = if or_default guessed [] == text "image/gif" then text "gif" else text "image"
