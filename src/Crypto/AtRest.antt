-- ===== src/Crypto/AtRest.antt =====
-- The ciphers of haven/crypto.py for what stands on a disk: `encrypt_authenticated` and
-- `decrypt_authenticated`, on the nonce that os.urandom gives, and `encrypt_deniable` and
-- `decrypt_deniable`, on its IV.
pub mod Opening
use haven_e2e_messenger.Prelude.{Bytes, ◌++◌, ◌≡◌, take, drop}
use haven_e2e_messenger.Prelude.Errors.{Result}
use haven_e2e_messenger.Crypto.Primitives.{Primitives}

module _ (P : Primitives) where
  unfoldable pub encrypt_authenticated : Bytes → Bytes → Bytes → Bytes → Bytes
  encrypt_authenticated nonce key plaintext aad = nonce ++ P.seal key nonce plaintext aad

  unfoldable pub decrypt_authenticated : Bytes → Bytes → Bytes → Result Bytes
  decrypt_authenticated key blob aad = P.unseal key (take 12 blob) (drop 12 blob) aad

-- `Cipher(AES(key), CTR(iv))`, encrypting and decrypting, by key, IV and text.
pub record CtrMode : Type 0 where
  pub encryptor : Bytes → Bytes → Bytes → Bytes
  pub decryptor : Bytes → Bytes → Bytes → Bytes

-- CTR decrypts what it encrypted under the same key and IV.
abbrev pub CtrOpens : CtrMode → Type 0
CtrOpens M = (key iv plain : Bytes) → M.decryptor key iv (M.encryptor key iv plain) ≡ plain

module _ (M : CtrMode) where
  unfoldable pub encrypt_deniable : Bytes → Bytes → Bytes → Bytes
  encrypt_deniable iv key plaintext = iv ++ M.encryptor key iv plaintext

  unfoldable pub decrypt_deniable : Bytes → Bytes → Bytes
  decrypt_deniable key blob = M.decryptor key (take 16 blob) (drop 16 blob)
