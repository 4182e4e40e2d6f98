-- ===== src/Crypto/Examples.antt =====
-- Tests of the definitions of haven/crypto.py on toy primitives, and the theorems at concrete inputs.
use haven_e2e_messenger.Prelude.{◌≡◌, refl, text, true, false, List, [], ◌∷◌, length, arith}
use haven_e2e_messenger.Prelude.Errors.{ok, err, invalid_tag, value_error}
use haven_e2e_messenger.Crypto.Hex.{hex}
use haven_e2e_messenger.Crypto.Keys.{
  from_private_bytes, compute_shared_root_key, derive_chain_keys, fingerprint,
}
use haven_e2e_messenger.Crypto.Handshake.{root_key_agrees, chain_keys_cross}
use haven_e2e_messenger.Crypto.Ratchet.{
  Envelope, SenderKeyChain, u64_bytes, pack_u64, chain_encrypt, chain_decrypt,
}
use haven_e2e_messenger.Crypto.Ratchet.Forgery.{
  out_of_order_refused, accepted_is_genuine, forged_costs_one_message,
}
use haven_e2e_messenger.Crypto.Delivery.{
  Conversation, Event, alice_sends, bob_sends, alice_receives, bob_receives, begin, run,
}
use haven_e2e_messenger.Crypto.Delivery.Flow.{IsPrefixUpTo}
use haven_e2e_messenger.Crypto.Toy.{toy, toy-ExchangeAgrees, toy-SealOpens, toy-UnsealIsExact}
use haven_e2e_messenger.Crypto.Delivery.Reliable.{delivery_reliable}

hex_runs : hex (0 ∷ 171 ∷ 16 ∷ []) ≡ text "00ab10"
unfolding hex
hex_runs = refl

pack_runs : pack_u64 258 ≡ ok (0 ∷ 0 ∷ 0 ∷ 0 ∷ 0 ∷ 0 ∷ 1 ∷ 2 ∷ [])
unfolding pack_u64 u64_bytes
pack_runs = refl

fingerprint_runs :
    fingerprint toy ((2 ∷ []) ∷ (1 ∷ []) ∷ []) ≡ text "00258 00000 00000 00000 00000 00000"
unfolding fingerprint
fingerprint_runs = refl

root_key_agrees_example :
    compute_shared_root_key toy true
      (from_private_bytes toy (1 ∷ []))
      (from_private_bytes toy (2 ∷ []))
      (from_private_bytes toy (3 ∷ [])).public_bytes
      (from_private_bytes toy (4 ∷ [])).public_bytes
    ≡ compute_shared_root_key toy false
        (from_private_bytes toy (3 ∷ []))
        (from_private_bytes toy (4 ∷ []))
        (from_private_bytes toy (1 ∷ [])).public_bytes
        (from_private_bytes toy (2 ∷ [])).public_bytes
root_key_agrees_example = root_key_agrees toy toy-ExchangeAgrees (1 ∷ []) (2 ∷ []) (3 ∷ []) (4 ∷ [])

chain_keys_cross_example :
    derive_chain_keys toy (5 ∷ []) false
    ≡ ((derive_chain_keys toy (5 ∷ []) true).1, (derive_chain_keys toy (5 ∷ []) true).0)
chain_keys_cross_example = chain_keys_cross toy (5 ∷ []) true

abbrev chain : SenderKeyChain
chain = record { chain_key = 1 ∷ []; index = 4 }

abbrev genuine : Envelope
genuine = record { index = 4; nonce = []; ciphertext = 7 ∷ 65 ∷ [] }

abbrev tampered : Envelope
tampered = record { index = 4; nonce = []; ciphertext = 6 ∷ 65 ∷ [] }

abbrev late : Envelope
late = record { index = 3; nonce = []; ciphertext = 7 ∷ 65 ∷ [] }

out_of_order_refused_example : chain_decrypt toy late [] chain ≡ (err value_error, chain)
out_of_order_refused_example = out_of_order_refused toy [] chain late (omega arith)

accepted_is_genuine_example :
    chain_encrypt toy [] (65 ∷ []) [] chain ≡ (ok genuine, (chain_decrypt toy genuine [] chain).1)
unfolding chain_decrypt pack_u64
accepted_is_genuine_example =
    accepted_is_genuine toy [] chain genuine toy-UnsealIsExact (65 ∷ []) refl

forged_costs_one_message_example :
    ((chain_decrypt toy tampered [] chain).1 ≡ (chain_encrypt toy [] (65 ∷ []) [] chain).1)
    × (chain_decrypt toy genuine [] (chain_decrypt toy tampered [] chain).1
        ≡ (err value_error, (chain_decrypt toy tampered [] chain).1))
unfolding chain_decrypt chain_encrypt pack_u64
forged_costs_one_message_example =
    forged_costs_one_message toy [] chain tampered invalid_tag [] (65 ∷ []) [] genuine refl refl
      refl

abbrev talk : List Event
talk =
    alice_sends [] (65 ∷ [])
    ∷ bob_sends [] (66 ∷ [])
    ∷ alice_sends [] (67 ∷ [])
    ∷ bob_receives
    ∷ alice_receives
    ∷ []

delivery_reliable_example :
    (y : Conversation) × (run toy (1 ∷ []) (2 ∷ []) talk (begin toy (5 ∷ [])) ≡ ok y)
    × IsPrefixUpTo (length y.to_bob) y.got_bob y.sent_alice
    × IsPrefixUpTo (length y.to_alice) y.got_alice y.sent_bob
delivery_reliable_example =
    delivery_reliable toy (1 ∷ []) (2 ∷ []) toy-SealOpens (5 ∷ []) talk (omega arith)
