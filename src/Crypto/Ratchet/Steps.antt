-- ===== src/Crypto/Ratchet/Steps.antt =====
-- One step of a chain and of a session of haven/crypto.py.
use haven_e2e_messenger.Prelude.{◌≡◌, ◌<◌, ◌+◌, ◌++◌, refl, Bytes, ℕ, arith}
use haven_e2e_messenger.Prelude.Errors.{ok}
use haven_e2e_messenger.Crypto.Primitives.{Primitives, SealOpens}
use haven_e2e_messenger.Crypto.Ratchet.{
  Envelope, ratchet_step, u64_mod, u64_bytes, pack_u64, RatchetSession, SenderKeyChain,
  session_encrypt, session_decrypt, chain_encrypt, chain_decrypt,
}

-- The two halves of a session, each a chain.
abbrev pub send_half : RatchetSession → SenderKeyChain
send_half s = record { chain_key = s.send_chain_key; index = s.send_index }

abbrev pub recv_half : RatchetSession → SenderKeyChain
recv_half s = record { chain_key = s.recv_chain_key; index = s.recv_index }

abbrev pub with_send : RatchetSession → SenderKeyChain → RatchetSession
with_send s c = record s { send_chain_key = c.chain_key; send_index = c.index }

abbrev pub with_recv : RatchetSession → SenderKeyChain → RatchetSession
with_recv s c = record s { recv_chain_key = c.chain_key; recv_index = c.index }

pub pack_u64-ok : (n : ℕ) → n < u64_mod → pack_u64 n ≡ ok (u64_bytes n)
unfolding pack_u64
pack_u64-ok n h = ground arith

module _ (P : Primitives) where
  -- A session sends as a sender-key chain does from its sending half, and keeps its receiving half.
  pub session_encrypt_lem :
      (nonce plain aad : Bytes) (s : RatchetSession)
      → let (r, c) = chain_encrypt P nonce plain aad (send_half s) in
        session_encrypt P nonce plain aad s ≡ (r, with_send s c)
  unfolding session_encrypt chain_encrypt
  session_encrypt_lem nonce plain aad s = refl

  -- A session receives as a sender-key chain does into its receiving half, and keeps its sending half.
  pub session_decrypt_lem :
      (e : Envelope) (aad : Bytes) (s : RatchetSession)
      → let (r, c) = chain_decrypt P e aad (recv_half s) in
        session_decrypt P e aad s ≡ (r, with_recv s c)
  unfolding session_decrypt chain_decrypt
  session_decrypt_lem e aad s = ground arith

module _ (P : Primitives) (opens : SealOpens P) where
  -- Below 2^64 messages, encrypting yields an envelope, and a copy of the chain as it stood before
  -- decrypts that envelope to the plaintext and ends where the sender ends.
  pub chain_decrypt-chain_encrypt :
      (nonce plain aad : Bytes) (c : SenderKeyChain)
      → c.index < u64_mod
      → (e : Envelope) × (c' : SenderKeyChain) × (chain_encrypt P nonce plain aad c ≡ (ok e, c'))
        × (chain_decrypt P e aad c ≡ (ok plain, c'))
        × (c'.index ≡ c.index + 1)
  unfolding chain_encrypt chain_decrypt
  chain_decrypt-chain_encrypt nonce plain aad c h = (
    record {
      index = c.index;
      nonce = nonce;
      ciphertext = P.seal (ratchet_step P c.chain_key).0 nonce plain (aad ++ u64_bytes c.index);
    },
    record { chain_key = (ratchet_step P c.chain_key).1; index = c.index + 1 },
    rw (pack_u64-ok c.index h),
    ground (
      arith,
      pack_u64-ok c.index h,
      opens (ratchet_step P c.chain_key).0 nonce plain (aad ++ u64_bytes c.index),
    ),
    refl,
  )
