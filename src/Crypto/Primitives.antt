-- ===== src/Crypto/Primitives.antt =====
-- What haven/crypto.py takes from `cryptography`, `hashlib` and `hmac`, as parameters, with the
-- documented laws that the program relies on. A private key is its raw 32 bytes.
use haven_e2e_messenger.Prelude.{Bytes, ◌≡◌}
use haven_e2e_messenger.Prelude.Errors.{Result, ok}

pub record Primitives : Type 0 where
  -- `private_key.public_key().public_bytes_raw()`
  pub public_key : Bytes → Bytes
  -- `priv.exchange(X25519PublicKey.from_public_bytes(pub))`, which refuses a malformed key.
  pub exchange : Bytes → Bytes → Result Bytes
  pub sha256 : Bytes → Bytes
  pub hmac_sha256 : Bytes → Bytes → Bytes
  -- HKDF-SHA256 with the salt "haven-v1" and 32 bytes of output, from key material and info.
  pub hkdf_derive : Bytes → Bytes → Bytes
  -- `AESGCM(key).encrypt(nonce, plaintext, aad)`
  pub seal : Bytes → Bytes → Bytes → Bytes → Bytes
  -- `AESGCM(key).decrypt(nonce, ciphertext, aad)`, which raises InvalidTag.
  pub unseal : Bytes → Bytes → Bytes → Bytes → Result Bytes

-- RFC 7748: the two sides of an exchange compute the same secret.
abbrev pub ExchangeAgrees : Primitives → Type 0
ExchangeAgrees P = (a b : Bytes) → P.exchange a (P.public_key b) ≡ P.exchange b (P.public_key a)

-- AES-GCM: what was sealed opens under the same key, nonce and associated data.
abbrev pub SealOpens : Primitives → Type 0
SealOpens P =
    (key nonce plain aad : Bytes) → P.unseal key nonce (P.seal key nonce plain aad) aad ≡ ok plain

-- AES-GCM is deterministic for one nonce: a ciphertext that opens is the one that sealing gives.
abbrev pub UnsealIsExact : Primitives → Type 0
UnsealIsExact P =
    (key nonce sealed plain aad : Bytes)
    → P.unseal key nonce sealed aad ≡ ok plain
    → sealed ≡ P.seal key nonce plain aad
