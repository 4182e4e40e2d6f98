-- ===== src/Relay/Handshake/Possession.antt =====
-- The handshake of haven/relay_server.py registers exactly who proves possession.
use haven_e2e_messenger.Prelude.{
  ◌≡◌, refl, ap, Option, Bytes, Str, none, some, List, [], ◌∷◌, All, arith, Option-cases, inl, inr,
}
use haven_e2e_messenger.Prelude.Errors.{ok, err}
use haven_e2e_messenger.Crypto.Primitives.{Primitives, ExchangeAgrees}
use haven_e2e_messenger.Crypto.Hex.{hex, fromhex, IsByte, fromhex-hex}
use haven_e2e_messenger.Crypto.Keys.{from_private_bytes, dh_proof}
use haven_e2e_messenger.Crypto.Handshake.{dh_proof_agrees}
use haven_e2e_messenger.Relay.State.{ServerFrame, challenge}
use haven_e2e_messenger.Relay.Handshake.{
  InitFrame, register_init, ProofFrame, register, do_handshake_sync, check_proof,
}

module _ (P : Primitives) (ephemeral nonce : Bytes) where
  -- A client that holds the private key of the identity it claims, and answers the challenge with its
  -- own computation of the proof, is registered under that identity after one challenge.
  pub holder_is_registered :
      ExchangeAgrees P
      → (key : Bytes) (username proof : Str) → All IsByte (P.public_key key)
      → dh_proof P key (P.public_key ephemeral) nonce ≡ ok proof
      → do_handshake_sync P ephemeral nonce
          (register_init (ok (hex (P.public_key key))) (some username))
          (register (some proof))
        ≡ ok
            (challenge (P.public_key ephemeral) nonce ∷ [], some (hex (P.public_key key), username))
  unfolding do_handshake_sync
  holder_is_registered agrees key username proof bytes made =
      rw (fromhex-hex (P.public_key key) bytes)
        (ground (arith, made, dh_proof_agrees P agrees key ephemeral nonce))

  check_proof-some :
      (claimed_hex : Str) (claimed : Bytes) (name : Str) (resp : ProofFrame)
      (before : List ServerFrame) (identity username : Str) (sent : List ServerFrame)
      → check_proof P ephemeral nonce claimed_hex claimed name resp before
        ≡ ok (sent, some (identity, username))
      → (proof : Str) × (claimed_hex ≡ identity)
        × (resp ≡ register (some proof))
        × (dh_proof P ephemeral claimed nonce ≡ ok proof)
  unfolding from_private_bytes
  check_proof-some claimed_hex claimed name ProofFrame.not_a_dict before identity username sent h =
      cc
  check_proof-some claimed_hex claimed name ProofFrame.other_type before identity username sent h =
      cc
  check_proof-some claimed_hex claimed name (register none) before identity username sent h =
      absurd (ground arith)
  check_proof-some claimed_hex claimed name (register (some proof)) before identity username sent
        h =
      (proof, ground arith, refl, ground arith)

  -- Whoever is registered under an identity sent that identity in its first frame, in hex, and in its
  -- second the proof that the relay computes from its ephemeral key, that identity and the nonce.
  pub registered_holds_key :
      (init : InitFrame) (resp : ProofFrame) (identity username : Str) (sent : List ServerFrame)
      → do_handshake_sync P ephemeral nonce init resp ≡ ok (sent, some (identity, username))
      → (name : Option Str) × (claimed : Bytes) × (proof : Str) × (init
          ≡ register_init (ok identity) name)
        × (fromhex identity ≡ some claimed)
        × (resp ≡ register (some proof))
        × (dh_proof P ephemeral claimed nonce ≡ ok proof)
  unfolding do_handshake_sync
  registered_holds_key InitFrame.not_a_dict resp identity username sent h = cc
  registered_holds_key InitFrame.other_type resp identity username sent h = cc
  registered_holds_key (register_init (err e) name) resp identity username sent h = cc
  registered_holds_key (register_init (ok claimed_hex) name) resp identity username sent h =
      elim (Option-cases (fromhex claimed_hex)) [
        | inl malformed ↦ absurd (ground arith)
        | inr (claimed, decoded) ↦
            let (proof, same, answered, proved) =
              check_proof-some claimed_hex claimed _ resp _ identity username sent
                (rw decoded at h) in
            (
              name,
              claimed,
              proof,
              ap (λ sent_hex. register_init (ok sent_hex) name) same,
              rw (← same) decoded,
              answered,
              proved,
            )
      ]
