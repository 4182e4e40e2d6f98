-- ===== src/Crypto/Delivery/Reliable.antt =====
-- Every interleaving of sends and deliveries hands each peer what the other sent, in order.
use haven_e2e_messenger.Prelude.{
  ◌≡◌, refl, ◌≤◌, ◌+◌, ℕ, suc, Bytes, List, [], ◌∷◌, ◌++◌, length, arith,
}
use haven_e2e_messenger.Prelude.Errors.{ok}
use haven_e2e_messenger.Crypto.Primitives.{Primitives, SealOpens}
use haven_e2e_messenger.Crypto.Keys.{derive_chain_keys}
use haven_e2e_messenger.Crypto.Ratchet.{Envelope, u64_mod}
use haven_e2e_messenger.Crypto.Ratchet.Steps.{
  send_half, recv_half, with_send, with_recv, session_encrypt_lem, session_decrypt_lem,
}
use haven_e2e_messenger.Crypto.Delivery.{
  Conversation, Event, alice_sends, bob_sends, alice_receives, bob_receives, start_session, begin,
  deliver_alice, deliver_bob, step, run,
}
use haven_e2e_messenger.Crypto.Delivery.Flow.{
  Flow, IsPrefixUpTo, Flow-IsPrefixUpTo, Flow-send, Flow-receive,
}

module _ (P : Primitives) (alice_pub bob_pub : Bytes) where
  -- Both directions flow.
  pub record IsReliable (x : Conversation) : Type 0 where
    pub bob_side :
        Flow P alice_pub x.got_bob x.sent_alice x.to_bob (recv_half x.bob) (send_half x.alice)
    pub alice_side :
        Flow P bob_pub x.got_alice x.sent_bob x.to_alice (recv_half x.alice) (send_half x.bob)

  -- The indices of both senders stay below 2^64 for `n` more sends.
  abbrev HasRoom : ℕ → Conversation → Type 0
  HasRoom n x = (x.alice.send_index + n ≤ u64_mod) × (x.bob.send_index + n ≤ u64_mod)

  begin-IsReliable : (root_key : Bytes) → IsReliable (begin P root_key)
  unfolding start_session derive_chain_keys
  begin-IsReliable root_key = record { bob_side = ([], refl, refl); alice_side = ([], refl, refl) }

  module _ (opens : SealOpens P) where
    abbrev StepsOn : Event → ℕ → Conversation → Type 0
    StepsOn e n x =
        (y : Conversation) × (step P alice_pub bob_pub e x ≡ ok y) × IsReliable y × HasRoom n y

    alice_sends-StepsOn :
        (nonce plain : Bytes) (n : ℕ) (x : Conversation)
        → HasRoom (suc n) x
        → IsReliable x
        → StepsOn (alice_sends nonce plain) n x
    unfolding step
    alice_sends-StepsOn nonce plain n x room v =
        let (e, c, made, next, flow) =
          Flow-send P alice_pub opens nonce plain x.got_bob x.sent_alice x.to_bob (recv_half x.bob)
            (send_half x.alice) (omega arith) v.bob_side in
        (
          record x {
            alice = with_send x.alice c;
            to_bob = x.to_bob ++ (e ∷ []);
            sent_alice = x.sent_alice ++ (plain ∷ []);
          },
          rw (session_encrypt_lem P nonce plain alice_pub x.alice, made),
          record { bob_side = flow; alice_side = v.alice_side },
          (omega arith, omega arith),
        )

    bob_sends-StepsOn :
        (nonce plain : Bytes) (n : ℕ) (x : Conversation)
        → HasRoom (suc n) x
        → IsReliable x
        → StepsOn (bob_sends nonce plain) n x
    unfolding step
    bob_sends-StepsOn nonce plain n x room v =
        let (e, c, made, next, flow) =
          Flow-send P bob_pub opens nonce plain x.got_alice x.sent_bob x.to_alice
            (recv_half x.alice) (send_half x.bob) (omega arith) v.alice_side in
        (
          record x {
            bob = with_send x.bob c;
            to_alice = x.to_alice ++ (e ∷ []);
            sent_bob = x.sent_bob ++ (plain ∷ []);
          },
          rw (session_encrypt_lem P nonce plain bob_pub x.bob, made),
          record { bob_side = v.bob_side; alice_side = flow },
          (omega arith, omega arith),
        )

    deliver_bob-ok :
        (flight : List Envelope) (n : ℕ) (x : Conversation)
        → Flow P alice_pub x.got_bob x.sent_alice flight (recv_half x.bob) (send_half x.alice)
        → HasRoom (suc n) x
        → IsReliable x
        → (y : Conversation) × (deliver_bob P alice_pub bob_pub x flight ≡ ok y)
          × IsReliable y
          × HasRoom n y
    deliver_bob-ok [] n x flow room v = (x, refl, v, (omega arith, omega arith))
    deliver_bob-ok (e ∷ flight) n x flow room v =
        let (p, c, opened, rest) =
          Flow-receive P alice_pub e x.got_bob x.sent_alice flight (recv_half x.bob)
            (send_half x.alice) flow in
        (
          record x { bob = with_recv x.bob c; to_bob = flight; got_bob = x.got_bob ++ (p ∷ []) },
          rw (session_decrypt_lem P e alice_pub x.bob, opened),
          record { bob_side = rest; alice_side = v.alice_side },
          (omega arith, omega arith),
        )

    deliver_alice-ok :
        (flight : List Envelope) (n : ℕ) (x : Conversation)
        → Flow P bob_pub x.got_alice x.sent_bob flight (recv_half x.alice) (send_half x.bob)
        → HasRoom (suc n) x
        → IsReliable x
        → (y : Conversation) × (deliver_alice P alice_pub bob_pub x flight ≡ ok y)
          × IsReliable y
          × HasRoom n y
    deliver_alice-ok [] n x flow room v = (x, refl, v, (omega arith, omega arith))
    deliver_alice-ok (e ∷ flight) n x flow room v =
        let (p, c, opened, rest) =
          Flow-receive P bob_pub e x.got_alice x.sent_bob flight (recv_half x.alice)
            (send_half x.bob) flow in
        (
          record x {
            alice = with_recv x.alice c;
            to_alice = flight;
            got_alice = x.got_alice ++ (p ∷ []);
          },
          rw (session_decrypt_lem P e bob_pub x.alice, opened),
          record { alice_side = rest; bob_side = v.bob_side },
          (omega arith, omega arith),
        )

    step-StepsOn :
        (e : Event) (n : ℕ) (x : Conversation) → HasRoom (suc n) x → IsReliable x → StepsOn e n x
    unfolding step
    step-StepsOn (alice_sends nonce plain) n x room v = alice_sends-StepsOn nonce plain n x room v
    step-StepsOn (bob_sends nonce plain) n x room v = bob_sends-StepsOn nonce plain n x room v
    step-StepsOn alice_receives n x room v = deliver_alice-ok x.to_alice n x v.alice_side room v
    step-StepsOn bob_receives n x room v = deliver_bob-ok x.to_bob n x v.bob_side room v

    run-IsReliable :
        (events : List Event) (x : Conversation)
        → HasRoom (length events) x
        → IsReliable x
        → (y : Conversation) × (run P alice_pub bob_pub events x ≡ ok y) × IsReliable y
    unfolding run
    run-IsReliable [] x room v = (x, refl, v)
    run-IsReliable (e ∷ events) x room v =
        let (y, stepped, w, room') = step-StepsOn e (length events) x room v in
        let (z, ran, u) = run-IsReliable events y room' w in (z, rw (stepped, ran), u)

    -- From one root key, whatever up to 2^64 sends and deliveries of the two peers come in whatever
    -- order, none of them raises, and what each peer has got is a prefix of what the other sent, short of
    -- it by as many messages as are on their way.
    pub delivery_reliable :
        (root_key : Bytes) (events : List Event)
        → length events ≤ u64_mod
        → (y : Conversation) × (run P alice_pub bob_pub events (begin P root_key) ≡ ok y)
          × IsPrefixUpTo (length y.to_bob) y.got_bob y.sent_alice
          × IsPrefixUpTo (length y.to_alice) y.got_alice y.sent_bob
    unfolding start_session
    delivery_reliable root_key events h =
        let (y, ran, v) =
          run-IsReliable events (begin P root_key) (omega arith, omega arith)
            (begin-IsReliable root_key) in
        (
          y,
          ran,
          Flow-IsPrefixUpTo P alice_pub y.to_bob y.got_bob y.sent_alice (recv_half y.bob)
              (send_half y.alice) v.bob_side,
          Flow-IsPrefixUpTo P bob_pub y.to_alice y.got_alice y.sent_bob (recv_half y.alice)
              (send_half y.bob) v.alice_side,
        )
