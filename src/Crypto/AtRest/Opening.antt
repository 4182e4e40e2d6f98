-- ===== src/Crypto/AtRest/Opening.antt =====
-- What was encrypted for the disk opens again under the same key.
use haven_e2e_messenger.Prelude.{
  ◌≡◌, sym, ap, ◌∙◌, ℕ, Bytes, ◌++◌, take, drop, length, take-append, drop-append,
}
use haven_e2e_messenger.Prelude.Errors.{ok}
use haven_e2e_messenger.Crypto.Primitives.{Primitives, SealOpens}
use haven_e2e_messenger.Crypto.AtRest.{
  encrypt_authenticated, decrypt_authenticated, CtrMode, CtrOpens, encrypt_deniable,
  decrypt_deniable,
}

pub take-prefix : (n : ℕ) (xs ys : Bytes) → length xs ≡ n → take n (xs ++ ys) ≡ xs
take-prefix n xs ys h = sym (ap (λ k. take k (xs ++ ys)) h) ∙ take-append xs ys

pub drop-prefix : (n : ℕ) (xs ys : Bytes) → length xs ≡ n → drop n (xs ++ ys) ≡ ys
drop-prefix n xs ys h = sym (ap (λ k. drop k (xs ++ ys)) h) ∙ drop-append xs ys

module _ (P : Primitives) (opens : SealOpens P) where
  pub decrypt-encrypt :
      (nonce key plain aad : Bytes)
      → length nonce ≡ 12
      → decrypt_authenticated P key (encrypt_authenticated P nonce key plain aad) aad ≡ ok plain
  unfolding decrypt_authenticated encrypt_authenticated
  decrypt-encrypt nonce key plain aad h =
      let sealed = P.seal key nonce plain aad in
      ap (λ n. P.unseal key n (drop 12 (nonce ++ sealed)) aad) (take-prefix 12 nonce sealed h)
      ∙ ap (λ c. P.unseal key nonce c aad) (drop-prefix 12 nonce sealed h)
      ∙ opens key nonce plain aad

module _ (M : CtrMode) (opens : CtrOpens M) where
  pub decrypt_deniable-encrypt_deniable :
      (iv key plain : Bytes)
      → length iv ≡ 16
      → decrypt_deniable M key (encrypt_deniable M iv key plain) ≡ plain
  unfolding decrypt_deniable encrypt_deniable
  decrypt_deniable-encrypt_deniable iv key plain h =
      let sealed = M.encryptor key iv plain in
      ap (λ i. M.decryptor key i (drop 16 (iv ++ sealed))) (take-prefix 16 iv sealed h)
      ∙ ap (λ c. M.decryptor key iv c) (drop-prefix 16 iv sealed h)
      ∙ opens key iv plain
