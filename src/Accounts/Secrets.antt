-- ===== src/Accounts/Secrets.antt =====
-- `_hash_secret` and `_verify_secret` of webapp/accounts_server.py, over argon2-cffi and bcrypt as
-- parameters.
use haven_e2e_messenger.Prelude.{
  ◌≡◌, Str, Bytes, text, Bool, true, false, ◌&&◌, Option, none, some, [], ◌∷◌, eqb, if◌then◌else◌,
  arith,
}
use haven_e2e_messenger.Prelude.Errors.{Result, ok, err}

pub record Hashers : Type 0 where
  -- `PasswordHasher().hash(secret)`, on the salt that it draws.
  pub argon_hash : Bytes → Str → Str
  -- Whether `PasswordHasher().verify(stored, secret)` returns; false for a mismatch or a bad hash.
  pub argon_verify : Str → Str → Bool
  -- `bcrypt.checkpw(secret, stored)`, with ValueError for a malformed hash.
  pub bcrypt_check : Str → Str → Result Bool
  -- The salt drawn for `_DUMMY_HASH`.
  pub dummy_salt : Bytes

abbrev pub starts_with : Str → Str → Bool
starts_with [] s = true
starts_with (p ∷ ps) [] = false
starts_with (p ∷ ps) (c ∷ s) = eqb p c && starts_with ps s

unfoldable pub is_argon : Str → Bool
is_argon stored = starts_with (text "$argon2") stored

-- argon2-cffi: a hash names its algorithm first, and verifies the secret that it was made from.
pub record HashVerifies (H : Hashers) : Type 0 where
  pub named : (salt : Bytes) (secret : Str) → is_argon (H.argon_hash salt secret) ≡ true
  pub verifies :
      (salt : Bytes) (secret : Str) → H.argon_verify (H.argon_hash salt secret) secret ≡ true

module _ (H : Hashers) where
  abbrev pub hash_secret : Bytes → Str → Str
  hash_secret salt secret = H.argon_hash salt secret

  abbrev legacy : Bytes → Str → Result Bool → Bool × Option Str
  legacy salt secret (ok true) = (true, some (hash_secret salt secret))
  legacy salt secret (ok false) = (false, none)
  legacy salt secret (err e) = (false, none)

  -- `_verify_secret`, on the salt that an upgrade would draw: whether the secret is right, and the hash
  -- that replaces a bcrypt hash.
  unfoldable pub verify_secret : Bytes → Str → Str → Bool × Option Str
  verify_secret salt stored_hash secret =
      if is_argon stored_hash
      then (H.argon_verify stored_hash secret, none)
      else legacy salt secret (H.bcrypt_check stored_hash secret)

  -- What a hash was made from verifies against it, and needs no upgrade.
  pub verify_secret-hash_secret :
      HashVerifies H
      → (drawn salt : Bytes) (secret : Str)
      → verify_secret drawn (hash_secret salt secret) secret ≡ (true, none)
  unfolding verify_secret
  verify_secret-hash_secret laws drawn salt secret =
      ground (arith, laws.named salt secret, laws.verifies salt secret)

  -- An upgrade is offered for a right secret alone, and is a hash of that very secret.
  pub verify_secret_upgrade :
      (drawn : Bytes) (stored secret upgraded : Str)
      → (verify_secret drawn stored secret).1 ≡ some upgraded
      → ((verify_secret drawn stored secret).0 ≡ true)
        × (is_argon stored ≡ false)
        × (upgraded ≡ hash_secret drawn secret)
  unfolding verify_secret
  verify_secret_upgrade drawn stored secret upgraded h = ground arith
