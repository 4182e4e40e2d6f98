-- ===== src/Crypto/Ratchet/Forgery.antt =====
-- What `decrypt` of haven/crypto.py does with envelopes that are late, repeated or forged.
use haven_e2e_messenger.Prelude.{◌≡◌, ◌≢◌, ◌++◌, Bytes, arith}
use haven_e2e_messenger.Prelude.Errors.{Exn, ok, err, value_error}
use haven_e2e_messenger.Crypto.Primitives.{Primitives, UnsealIsExact}
use haven_e2e_messenger.Crypto.Ratchet.{
  Envelope, SenderKeyChain, u64_bytes, pack_u64, ratchet_step, seal_at, chain_encrypt,
  chain_decrypt,
}

module _ (P : Primitives) (aad : Bytes) (c : SenderKeyChain) (e : Envelope) where
  -- An envelope with any index but the expected one is refused, and the chain stays as it was.
  pub out_of_order_refused : e.index ≢ c.index → chain_decrypt P e aad c ≡ (err value_error, c)
  unfolding chain_decrypt
  out_of_order_refused h = ground arith

  -- An envelope that was accepted is refused when it comes again, and changes nothing then.
  pub replay_refused :
      (plain : Bytes)
      → (chain_decrypt P e aad c).0 ≡ ok plain
      → let after = (chain_decrypt P e aad c).1 in
        chain_decrypt P e aad after ≡ (err value_error, after)
  unfolding chain_decrypt
  replay_refused plain h = ground arith

  -- If sealing is exact, the only envelope that a chain accepts with a given nonce is the one that the
  -- sender's `encrypt` gives for the plaintext it opens to, at the same point of the chain.
  pub accepted_is_genuine :
      UnsealIsExact P
      → (plain : Bytes) → (chain_decrypt P e aad c).0 ≡ ok plain
      → chain_encrypt P e.nonce plain aad c ≡ (ok e, (chain_decrypt P e aad c).1)
  unfolding chain_decrypt chain_encrypt pack_u64
  accepted_is_genuine exact plain h = ground (
    arith,
    exact (ratchet_step P c.chain_key).0 e.nonce e.ciphertext plain (aad ++ u64_bytes e.index),
  )

module _ (P : Primitives) (aad : Bytes) (c : SenderKeyChain) (forged : Envelope) where
  -- A forged envelope with the expected index is not accepted, but it moves the chain on as the genuine
  -- message would: that genuine message is then refused, and the chain stands where its sender does.
  pub forged_costs_one_message :
      (x : Exn) (nonce plain sender_aad : Bytes) (genuine : Envelope)
      → forged.index ≡ c.index
      → (chain_decrypt P forged aad c).0 ≡ err x
      → (chain_encrypt P nonce plain sender_aad c).0 ≡ ok genuine
      → let after = (chain_decrypt P forged aad c).1 in
        (after ≡ (chain_encrypt P nonce plain sender_aad c).1)
        × (chain_decrypt P genuine aad after ≡ (err value_error, after))
  unfolding chain_decrypt chain_encrypt seal_at pack_u64
  forged_costs_one_message x nonce plain sender_aad genuine i f g = ground arith
