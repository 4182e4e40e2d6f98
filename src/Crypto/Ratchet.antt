-- ===== src/Crypto/Ratchet.antt =====
-- haven/crypto.py: `ratchet_step`, `RatchetSession` and `SenderKeyChain`. What these methods wrote
-- before a raise stays written, so each returns the new state beside its result.
pub mod Steps
pub mod Forgery
pub mod Wire
use haven_e2e_messenger.Prelude.{
  Bytes, ℕ, ◌+◌, ◌*◌, ◌/◌, ◌%◌, ◌^◌, List, [], ◌∷◌, ◌++◌, Bool, ltb, eqb, if◌then◌else◌,
}
use haven_e2e_messenger.Prelude.Errors.{Exn, value_error, struct_error, Result, ok, err, ◌>>=◌}
use haven_e2e_messenger.Prelude.Exec.{Exec}
use haven_e2e_messenger.Crypto.Primitives.{Primitives}

-- A message as it goes over the wire: the dict that `encrypt` returns.
pub record Envelope : Type 0 where
  pub index : ℕ
  pub nonce : Bytes
  pub ciphertext : Bytes

-- The message key and the next chain key.
unfoldable pub ratchet_step : Primitives → Bytes → Bytes × Bytes
ratchet_step P chain_key = (P.hmac_sha256 chain_key (1 ∷ []), P.hmac_sha256 chain_key (2 ∷ []))

abbrev pub u64_mod : ℕ
u64_mod = 2 ^ 64

-- The eight bytes of an index, the highest first.
unfoldable pub u64_bytes : ℕ → Bytes
u64_bytes n =
    (n / 2 ^ 56 % 256)
    ∷ (n / 2 ^ 48 % 256)
    ∷ (n / 2 ^ 40 % 256)
    ∷ (n / 2 ^ 32 % 256)
    ∷ (n / 2 ^ 24 % 256)
    ∷ (n / 2 ^ 16 % 256)
    ∷ (n / 2 ^ 8 % 256)
    ∷ (n % 256)
    ∷ []

-- `struct.pack(">Q", index)`, with struct.error where the index does not fit.
unfoldable pub pack_u64 : ℕ → Result Bytes
pack_u64 n = if ltb n u64_mod then ok (u64_bytes n) else err struct_error

-- The tail that `encrypt` and `decrypt` share: the associated data ends in the packed index.
module _ (P : Primitives) where
  unfoldable pub seal_at : Bytes → ℕ → Bytes → Bytes → Bytes → Result Envelope
  seal_at message_key index nonce plaintext aad = do
    packed ← pack_u64 index
    ok (record {
      index = index;
      nonce = nonce;
      ciphertext = P.seal message_key nonce plaintext (aad ++ packed);
    })

  unfoldable pub unseal_at : Bytes → Envelope → Bytes → Result Bytes
  unseal_at message_key envelope aad = do
    packed ← pack_u64 envelope.index
    P.unseal message_key envelope.nonce envelope.ciphertext (aad ++ packed)

pub record RatchetSession : Type 0 where
  pub send_chain_key : Bytes
  pub recv_chain_key : Bytes
  pub send_index : ℕ
  pub recv_index : ℕ

pub record SenderKeyChain : Type 0 where
  pub chain_key : Bytes
  pub index : ℕ

module _ (P : Primitives) where
  -- `RatchetSession.encrypt`, on the nonce that os.urandom gave.
  unfoldable pub session_encrypt : Bytes → Bytes → Bytes → Exec RatchetSession Envelope
  unfolding ratchet_step seal_at
  session_encrypt nonce plaintext aad s =
      let (message_key, next_chain_key) = ratchet_step P s.send_chain_key in
      (
        seal_at P message_key s.send_index nonce plaintext aad,
        record s { send_chain_key = next_chain_key; send_index = s.send_index + 1 },
      )

  -- `RatchetSession.decrypt`
  unfoldable pub session_decrypt : Envelope → Bytes → Exec RatchetSession Bytes
  unfolding ratchet_step unseal_at
  session_decrypt envelope aad s =
      if eqb envelope.index s.recv_index
      then (let (message_key, next_chain_key) = ratchet_step P s.recv_chain_key in
          (
            unseal_at P message_key envelope aad,
            record s { recv_chain_key = next_chain_key; recv_index = s.recv_index + 1 },
          ))
      else (err value_error, s)

  -- `SenderKeyChain.encrypt`
  unfoldable pub chain_encrypt : Bytes → Bytes → Bytes → Exec SenderKeyChain Envelope
  unfolding ratchet_step seal_at
  chain_encrypt nonce plaintext aad c =
      let (message_key, next_chain_key) = ratchet_step P c.chain_key in
      (
        seal_at P message_key c.index nonce plaintext aad,
        record { chain_key = next_chain_key; index = c.index + 1 },
      )

  -- `SenderKeyChain.decrypt`
  unfoldable pub chain_decrypt : Envelope → Bytes → Exec SenderKeyChain Bytes
  unfolding ratchet_step unseal_at
  chain_decrypt envelope aad c =
      if eqb envelope.index c.index
      then (let (message_key, next_chain_key) = ratchet_step P c.chain_key in
          (
            unseal_at P message_key envelope aad,
            record { chain_key = next_chain_key; index = c.index + 1 },
          ))
      else (err value_error, c)
