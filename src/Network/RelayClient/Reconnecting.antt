-- ===== src/Network/RelayClient/Reconnecting.antt =====
-- How the relay client of haven/relay_client.py reconnects, and what ends it for good.
use haven_e2e_messenger.Prelude.{
  ◌≡◌, refl, sym, ap, ◌∙◌, ℕ, zero, suc, ◌*◌, ◌≤◌, Str, true, List, [], ◌∷◌, ◌++◌, if◌then◌else◌,
  min, All, length, arith, append_assoc, append-nil,
}
use haven_e2e_messenger.Prelude.Errors.{Exn, Result, ok, err, is_socket_or_value}
use haven_e2e_messenger.Prelude.Exec.{Exec, lift, modify, bind-keeps}
use haven_e2e_messenger.Crypto.Hex.{hex}
use haven_e2e_messenger.Crypto.Keys.{dh_proof}
use haven_e2e_messenger.Network.State.{bytes_of}
use haven_e2e_messenger.Crypto.Primitives.{Primitives}
use haven_e2e_messenger.Storage.Tables.{StoreTools}
use haven_e2e_messenger.Network.RelayClient.{
  Reply, challenge, registered, relay, other_type, not_a_dict, Request, register_init, register,
  ack, Turn, Attempt, RelayClient, send, set_connected, deliver, handle_reply, serve, after_ack,
  after_challenge, connect_and_serve, run_forever, wait,
}

-- The seconds of n sleeps from a backoff on.
abbrev pub delays : ℕ → ℕ → List ℕ
delays backoff zero = []
delays backoff (suc n) = backoff ∷ delays (min (backoff * 2) 30) n

abbrev IsDelay : ℕ → Type 0
IsDelay d = (1 ≤ d) × (d ≤ 30)

module _ (P : Primitives) (T : StoreTools) (relay_key : Str) where
  -- The connection ends in an exception that the loop catches, as every connection does that was served
  -- until its socket failed.
  abbrev pub Fails : Attempt → Type 0
  Fails a =
      (c : RelayClient)
      → (e : Exn) × ((connect_and_serve P T relay_key a c).0 ≡ err e)
        × (is_socket_or_value e ≡ true)

  delays-IsDelay : (backoff n : ℕ) → IsDelay backoff → All IsDelay (delays backoff n)
  delays-IsDelay backoff zero h = tt
  delays-IsDelay backoff (suc n) h = (h, delays-IsDelay (min (backoff * 2) 30) n (ground arith))

  -- No part of a connection sleeps.
  abbrev Awake : {A : Type 0} → Exec RelayClient A → Type 0
  Awake m = (c : RelayClient) → (m c).1.slept ≡ c.slept

  send-Awake : (outcome : Result (Unit {0})) (request : Request) → Awake (send outcome request)
  send-Awake outcome request =
      bind-keeps RelayClient.slept (lift outcome)
        (λ _. modify (λ c. record c { sent = c.sent ++ (request ∷ []) })) (λ c. refl) (λ _ c. refl)

  handle_reply-Awake : (turn : Turn) (reply : Reply) → Awake (handle_reply P T relay_key turn reply)
  handle_reply-Awake turn (relay from_field payload_field msg_id_field) =
      bind-keeps RelayClient.slept (lift from_field) _ (λ c. refl)
        λ sender.
          bind-keeps RelayClient.slept (lift payload_field) _ (λ c. refl)
            λ payload.
              bind-keeps RelayClient.slept (lift msg_id_field) _ (λ c. refl)
                λ msg_id.
                  bind-keeps RelayClient.slept (deliver P T relay_key turn sender payload) _
                    (λ c. refl)
                    λ _.
                      bind-keeps RelayClient.slept (lift turn.ack_sent)
                        (λ _. modify (λ c. record c { sent = c.sent ++ (ack msg_id ∷ []) }))
                        (λ c. refl) (λ _ c. refl)
  handle_reply-Awake turn (challenge e n) = λ c. refl
  handle_reply-Awake turn registered = λ c. refl
  handle_reply-Awake turn other_type = λ c. refl
  handle_reply-Awake turn not_a_dict = λ c. refl

  serve-Awake : (turns : List Turn) → Awake (serve P T relay_key turns)
  unfolding serve
  serve-Awake [] = λ c. refl
  serve-Awake (turn ∷ turns) =
      bind-keeps RelayClient.slept (lift turn.reply) _ (λ c. refl)
        λ reply.
          bind-keeps RelayClient.slept (handle_reply P T relay_key turn reply)
            (λ _. serve P T relay_key turns) (handle_reply-Awake turn reply)
            (λ _. serve-Awake turns)

  after_ack-Awake : (a : Attempt) (reply : Reply) → Awake (after_ack P T relay_key a reply)
  after_ack-Awake a registered = λ c. serve-Awake a.turns (set_connected true c)
  after_ack-Awake a (challenge e n) = λ c. refl
  after_ack-Awake a (relay f p i) = λ c. refl
  after_ack-Awake a other_type = λ c. refl
  after_ack-Awake a not_a_dict = λ c. refl

  after_challenge-Awake :
      (a : Attempt) (reply : Reply) → Awake (after_challenge P T relay_key a reply)
  after_challenge-Awake a (challenge ephemeral_field nonce_field) =
      bind-keeps RelayClient.slept (lift ephemeral_field) _ (λ c. refl)
        λ ephemeral_hex.
          bind-keeps RelayClient.slept (lift (bytes_of ephemeral_hex)) _ (λ c. refl)
            λ ephemeral.
              bind-keeps RelayClient.slept (lift nonce_field) _ (λ c. refl)
                λ nonce_hex.
                  bind-keeps RelayClient.slept (lift (bytes_of nonce_hex)) _ (λ c. refl)
                    λ nonce c.
                      bind-keeps RelayClient.slept
                        (lift (dh_proof P c.net.identity.private_key ephemeral nonce)) _ (λ c. refl)
                        (λ proof.
                          bind-keeps RelayClient.slept (send a.proof_sent (register proof)) _
                            (send-Awake a.proof_sent (register proof))
                            λ _.
                              bind-keeps RelayClient.slept (lift a.second) _ (λ c. refl)
                                λ reply. after_ack-Awake a reply)
                        c
  after_challenge-Awake a registered = λ c. refl
  after_challenge-Awake a (relay f p i) = λ c. refl
  after_challenge-Awake a other_type = λ c. refl
  after_challenge-Awake a not_a_dict = λ c. refl

  connect_and_serve-Awake : (a : Attempt) → Awake (connect_and_serve P T relay_key a)
  unfolding connect_and_serve
  connect_and_serve-Awake a =
      bind-keeps RelayClient.slept (lift a.connects) _ (λ c. refl)
        λ _ c.
          bind-keeps RelayClient.slept
            (send a.init_sent (register_init (hex c.net.identity.public_bytes) c.net.username)) _
            (send-Awake a.init_sent
              (register_init (hex c.net.identity.public_bytes) c.net.username))
            (λ _.
              bind-keeps RelayClient.slept (lift a.first) _ (λ c. refl)
                λ reply. after_challenge-Awake a reply)
            c

  run_forever-failed :
      (backoff : ℕ) (a : Attempt) (attempts : List Attempt) (c : RelayClient) (e : Exn)
      → (connect_and_serve P T relay_key a c).0 ≡ err e
      → is_socket_or_value e ≡ true
      → run_forever P T relay_key backoff (a ∷ attempts) c
        ≡ run_forever P T relay_key
            (min (backoff * 2) 30)
            attempts
            (wait P T relay_key backoff (connect_and_serve P T relay_key a c).1)
  unfolding run_forever
  run_forever-failed backoff a attempts c e failed caught =
      let c' = (connect_and_serve P T relay_key a c).1 in
      let later =
        run_forever P T relay_key (min (backoff * 2) 30) attempts (wait P T relay_key backoff c') in
      ap
        (λ (r : Result (Unit {0})). elim r as (λ _. Result (Unit {0}) × RelayClient) [
          | ok done ↦ run_forever P T relay_key 2 attempts (wait P T relay_key 1 c')
          | err x ↦ if is_socket_or_value x then later else (err x, c')
        ])
        failed
      ∙ ap (λ b. if b then later else (err e, c')) caught

  -- Where every connection fails with an exception that the loop catches, be it after years of service,
  -- the client tries as often as it may, waits 30 seconds at most between two tries and one at least,
  -- and the waits only grow: after n tries they are the first n delays from the backoff it began with.
  pub reconnects_with_growing_delays :
      (attempts : List Attempt) (backoff : ℕ) (c : RelayClient)
      → All Fails attempts
      → IsDelay backoff
      → let (result, c') = run_forever P T relay_key backoff attempts c in
        (result ≡ ok tt)
        × (c'.slept ≡ c.slept ++ delays backoff (length attempts))
        × All IsDelay (delays backoff (length attempts))
  unfolding run_forever
  reconnects_with_growing_delays [] backoff c h fine = (refl, sym (append-nil c.slept), tt)
  reconnects_with_growing_delays (a ∷ attempts) backoff c (fails, h) fine =
      let (e, failed, caught) = fails c in
      let c' = wait P T relay_key backoff (connect_and_serve P T relay_key a c).1 in
      let step = run_forever-failed backoff a attempts c e failed caught in
      let (returned, slept, later) =
        reconnects_with_growing_delays attempts (min (backoff * 2) 30) c' h (ground arith) in
      (
        ap (λ (x : Result (Unit {0}) × RelayClient). x.0) step ∙ returned,
        ap (λ (x : Result (Unit {0}) × RelayClient). x.1.slept) step
            ∙ slept
            ∙ append_assoc (connect_and_serve P T relay_key a c).1.slept (backoff ∷ [])
                (delays (min (backoff * 2) 30) (length attempts))
            ∙ ap (λ l. l ++ delays backoff (suc (length attempts))) (connect_and_serve-Awake a c),
        (fine, later),
      )
