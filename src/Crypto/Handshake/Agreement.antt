-- ===== src/Crypto/Handshake/Agreement.antt =====
-- The two sides of the handshake of haven/crypto.py compute the same secrets.
use haven_e2e_messenger.Prelude.{◌≡◌, Bytes, Bool, true, false, refl, not}
use haven_e2e_messenger.Crypto.Primitives.{Primitives, ExchangeAgrees}
use haven_e2e_messenger.Crypto.Keys.{
  from_private_bytes, dh_proof, compute_shared_root_key, derive_chain_keys,
}

module _ (P : Primitives) (agrees : ExchangeAgrees P) where
  -- The proof that a client computes with its private key and the server's ephemeral public key is
  -- the one that the server computes with its ephemeral private key and the claimed public key.
  pub dh_proof_agrees :
      (a b nonce : Bytes)
      → dh_proof P a (P.public_key b) nonce ≡ dh_proof P b (P.public_key a) nonce
  unfolding dh_proof
  dh_proof_agrees a b nonce = simp (agrees a b)

  -- Initiator and responder derive one root key from their four key pairs.
  pub root_key_agrees :
      (i e j f : Bytes)
      → let initiator = from_private_bytes P i in
        let initiator_ephemeral = from_private_bytes P e in
        let responder = from_private_bytes P j in
        let responder_ephemeral = from_private_bytes P f in
        compute_shared_root_key P true initiator initiator_ephemeral responder.public_bytes
          responder_ephemeral.public_bytes
        ≡ compute_shared_root_key P false responder responder_ephemeral initiator.public_bytes
            initiator_ephemeral.public_bytes
  unfolding compute_shared_root_key from_private_bytes
  root_key_agrees i e j f = rw (agrees i f, agrees e j, agrees e f)

-- What one side sends with, the other receives with, whichever of them began.
pub chain_keys_cross :
    (P : Primitives) (root : Bytes) (b : Bool)
    → let (send, receive) = derive_chain_keys P root b in
      derive_chain_keys P root (not b) ≡ (receive, send)
unfolding derive_chain_keys
chain_keys_cross P root true = refl
chain_keys_cross P root false = refl
