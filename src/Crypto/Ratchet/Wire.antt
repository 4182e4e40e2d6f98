-- ===== src/Crypto/Ratchet/Wire.antt =====
-- An envelope of haven/crypto.py consists of bytes, so it survives its hexadecimal form.
use haven_e2e_messenger.Prelude.{◌≡◌, ap, subst, ℕ, Bytes, ◌++◌, All}
use haven_e2e_messenger.Prelude.Errors.{Result, ok, err, ◌>>=◌}
use haven_e2e_messenger.Crypto.Primitives.{Primitives}
use haven_e2e_messenger.Crypto.Hex.{IsByte}
use haven_e2e_messenger.Crypto.Ratchet.{
  Envelope, SenderKeyChain, chain_encrypt, ratchet_step, pack_u64,
}

ok_inj : {a b : Envelope} → (let r : Result Envelope = ok a in r ≡ ok b) → a ≡ b
ok_inj h = cc

-- AES-GCM's output on bytes is bytes.
abbrev pub SealsBytes : Primitives → Type 0
SealsBytes P =
    (key nonce plain aad : Bytes) → All IsByte plain → All IsByte (P.seal key nonce plain aad)

module _ (P : Primitives) (seals : SealsBytes P) (nonce plain aad : Bytes)
    (nonce_bytes : All IsByte nonce) (plain_bytes : All IsByte plain) where
  abbrev pub HasBytes : Envelope → Type 0
  HasBytes e = All IsByte e.nonce × All IsByte e.ciphertext

  sealed-HasBytes :
      (key : Bytes) (index : ℕ) (packed : Result Bytes) (e : Envelope)
      → (packed >>= λ p.
          ok (record {
            index = index;
            nonce = nonce;
            ciphertext = P.seal key nonce plain (aad ++ p);
          }))
        ≡ ok e
      → HasBytes e
  sealed-HasBytes key index (err x) e h = absurd (cc)
  sealed-HasBytes key index (ok p) e h =
      subst HasBytes (ok_inj h) (nonce_bytes, seals key nonce plain (aad ++ p) plain_bytes)

  pub chain_encrypt-HasBytes :
      (c c' : SenderKeyChain) (e : Envelope)
      → chain_encrypt P nonce plain aad c ≡ (ok e, c')
      → HasBytes e
  unfolding chain_encrypt ratchet_step
  chain_encrypt-HasBytes c c' e h =
      sealed-HasBytes (ratchet_step P c.chain_key).0 c.index (pack_u64 c.index) e
        (ap (λ (x : Result Envelope × SenderKeyChain). x.0) h)
