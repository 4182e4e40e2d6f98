-- ===== src/Attachments/Sizes.antt =====
-- What haven/attachments.py accepts, and what comes back from it.
use haven_e2e_messenger.Prelude.{
  ◌≡◌, refl, ◌*◌, ◌<◌, ◌≤◌, Str, length, ltb, if◌then◌else◌, All, arith, Bool-cases, inl, inr,
}
use haven_e2e_messenger.Prelude.Errors.{Result, ok, err, attachment_too_large, ◌>>=◌}
use haven_e2e_messenger.Crypto.Hex.{IsByte}
use haven_e2e_messenger.Attachments.Base64.{b64encode}
use haven_e2e_messenger.Attachments.Base64.RoundTrip.{b64decode-b64encode, length-b64encode}
use haven_e2e_messenger.Attachments.{
  LocalFile, AttachmentJson, LoadsBack, Attachment, max_attachment_bytes, mime_of,
  encode_attachment, decode_attachment,
}

-- The attachment of a file of at most 8 MiB, and the refusal of a larger one.
abbrev pub attachment_of : LocalFile → Result Attachment
attachment_of file =
    if ltb max_attachment_bytes (length file.content)
    then err attachment_too_large
    else ok (record { filename = file.basename; mime = mime_of file; data_ = file.content })

-- A file that was encoded is decoded to its name, its MIME type (or application/octet-stream where none
-- was guessed) and its very bytes, unless it is larger than 8 MiB, when encoding refuses it. Conditions:
-- JSON reads back what it wrote, and the file consists of bytes.
pub decode_attachment-encode_attachment :
    (J : AttachmentJson) (file : LocalFile)
    → LoadsBack J
    → All IsByte file.content
    → (encode_attachment J (ok file) >>= decode_attachment J) ≡ attachment_of file
unfolding encode_attachment decode_attachment
decode_attachment-encode_attachment J file back bytes =
    elim (Bool-cases (ltb max_attachment_bytes (length file.content))) [
      | inl large ↦ rw large refl
      | inr fits ↦ rw fits (
          rw (back file.basename (mime_of file) (b64encode file.content))
            (rw (b64decode-b64encode file.content bytes) refl))
    ]

-- The data of a file that is accepted take at most 22369624 characters once they are written in base64
-- and that in hexadecimal, as a ciphertext travels; that is below the 32 MiB that the relay allows for a
-- frame. Condition: the file was accepted.
pub accepted_data_fits :
    (J : AttachmentJson) (file : LocalFile) (body : Str)
    → encode_attachment J (ok file) ≡ ok body
    → (2 * length (b64encode file.content) ≤ 22369624)
      × (2 * length (b64encode file.content) < 32 * 1024 * 1024)
unfolding encode_attachment
accepted_data_fits J file body accepted =
    elim (Bool-cases (ltb max_attachment_bytes (length file.content))) [
      | inl large ↦ absurd (ground arith)
      | inr fits ↦
          let small : length file.content ≤ 8388608 = ground arith in
          (
            omega (arith, length-b64encode file.content),
            omega (arith, length-b64encode file.content),
          )
    ]
