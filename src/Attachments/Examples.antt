-- ===== src/Attachments/Examples.antt =====
-- A small file of haven/attachments.py. The toy JSON puts its fields after their lengths.
use haven_e2e_messenger.Prelude.{
  ◌≡◌, refl, Str, text, none, some, [], ◌∷◌, ◌++◌, length, take, drop, arith, bytes_dec,
}
use haven_e2e_messenger.Prelude.{take-append, drop-append}
use haven_e2e_messenger.Prelude.Errors.{Result, ok, err, value_error, ◌>>=◌}
use haven_e2e_messenger.Attachments.{
  LocalFile, AttachmentJson, LoadsBack, encode_attachment, decode_attachment, guess_kind,
}
use haven_e2e_messenger.Attachments.Base64.{b64encode, b64decode, read_on, b64_char, b64_value}
use haven_e2e_messenger.Attachments.Sizes.{attachment_of, decode_attachment-encode_attachment}

abbrev toy_dumps : Str → Str → Str → Str
toy_dumps filename mime data_b64 = length filename ∷ length mime ∷ filename ++ (mime ++ data_b64)

abbrev toy_loads : Str → Result (Result Str × Result Str × Result Str)
toy_loads (n ∷ k ∷ s) = ok (ok (take n s), ok (take k (drop n s)), ok (drop k (drop n s)))
toy_loads _ = err value_error

abbrev toy_json : AttachmentJson
toy_json = record { dumps = toy_dumps; loads = toy_loads }

toy-LoadsBack : LoadsBack toy_json
toy-LoadsBack filename mime data_b64 = rw (take-append filename (mime ++ data_b64)) (
    rw (drop-append filename (mime ++ data_b64))
      (rw (take-append mime data_b64) (rw (drop-append mime data_b64) refl)))

abbrev cat : LocalFile
cat = record {
  basename = text "cat.gif";
  guessed = some (text "image/gif");
  content = 0 ∷ 255 ∷ 16 ∷ 77 ∷ [];
}

cat_in_base64 : b64encode cat.content ≡ text "AP8QTQ=="
unfolding b64encode b64_char
cat_in_base64 = refl

-- Line breaks are left out, and a missing padding is an error.
lines_are_read : b64decode (10 ∷ text "AP8Q" ++ (10 ∷ text "TQ==")) ≡ some cat.content
unfolding b64decode read_on b64_value
lines_are_read = refl

padding_is_wanted : b64decode (text "AP8QTQ=") ≡ none
unfolding b64decode read_on b64_value
padding_is_wanted = refl

cat_is_a_gif : guess_kind cat.guessed ≡ text "gif"
unfolding guess_kind bytes_dec
cat_is_a_gif = refl

decode_attachment-encode_attachment_example :
    (encode_attachment toy_json (ok cat) >>= decode_attachment toy_json) ≡ attachment_of cat
decode_attachment-encode_attachment_example =
    decode_attachment-encode_attachment toy_json cat toy-LoadsBack (ground arith)
