-- ===== src/Network/RelayClient/Registration.antt =====
-- The handshake of haven/relay_client.py against that of haven/relay_server.py, and the payloads that
-- end the client's thread.
use haven_e2e_messenger.Prelude.{
  ◌≡◌, refl, sym, ap, ◌∙◌, ℕ, ◌*◌, min, Str, Bytes, true, some, List, [], ◌∷◌, ◌++◌, All,
  if◌then◌else◌, append_assoc,
}
use haven_e2e_messenger.Prelude.Errors.{Result, ok, err, attribute_error, is_socket_or_value}
use haven_e2e_messenger.Crypto.Primitives.{Primitives, ExchangeAgrees}
use haven_e2e_messenger.Crypto.Hex.{hex, fromhex-hex, IsByte}
use haven_e2e_messenger.Crypto.Keys.{dh_proof}
use haven_e2e_messenger.Storage.Tables.{StoreTools}
use haven_e2e_messenger.Relay.Handshake
use haven_e2e_messenger.Relay.State
use haven_e2e_messenger.Relay.Handshake.{do_handshake_sync}
use haven_e2e_messenger.Relay.Handshake.Possession.{holder_is_registered}
use haven_e2e_messenger.Network.State.{not_a_dict}
use haven_e2e_messenger.Network.Relayed.{on_relay_frame}
use haven_e2e_messenger.Network.RelayClient.{
  challenge, registered, relay, register_init, register, Turn, Attempt, RelayClient, set_connected,
  serve, connect_and_serve, run_forever, wait,
}

-- A connection on which nothing fails before it is served.
abbrev pub opening : Bytes → Bytes → List Turn → Attempt
opening server_pub nonce turns = record {
  connects = ok tt;
  init_sent = ok tt;
  first = ok (challenge (ok (hex server_pub)) (ok (hex nonce)));
  proof_sent = ok tt;
  second = ok registered;
  turns = turns;
}

module _ (P : Primitives) (agrees : ExchangeAgrees P) (T : StoreTools) (relay_key : Str) where
  -- The client's two frames are the ones that the relay registers it for under its own identity and
  -- username, after one challenge; and told so, the client counts as connected and serves what comes.
  -- Conditions: its key pair is one, the exchange accepts the relay's key and is symmetric, and keys and
  -- the nonce consist of bytes.
  pub client_registers :
      (server_key nonce : Bytes) (turns : List Turn) (c : RelayClient) (proof : Str)
      → c.net.identity.public_bytes ≡ P.public_key c.net.identity.private_key
      → dh_proof P c.net.identity.private_key (P.public_key server_key) nonce ≡ ok proof
      → All IsByte (P.public_key c.net.identity.private_key)
      → All IsByte (P.public_key server_key)
      → All IsByte nonce
      → let me = hex c.net.identity.public_bytes in
        let told : RelayClient = record c {
          sent = c.sent ++ (register_init me c.net.username ∷ register proof ∷ []);
        } in
        (connect_and_serve P T relay_key (opening (P.public_key server_key) nonce turns) c
          ≡ serve P T relay_key turns (set_connected true told))
        × (do_handshake_sync P server_key nonce
              (Handshake.register_init (ok me) (some c.net.username))
              (Handshake.register (some proof))
            ≡ ok (State.challenge (P.public_key server_key) nonce ∷ [], some (me, c.net.username)))
  unfolding connect_and_serve
  client_registers server_key nonce turns c proof own made key_bytes server_bytes nonce_bytes = (
    rw (fromhex-hex (P.public_key server_key) server_bytes) (
        rw (fromhex-hex nonce nonce_bytes) (
          rw made (
            ap (λ l. serve P T relay_key turns (set_connected true (record c { sent = l })))
              (append_assoc c.sent
                (register_init (hex c.net.identity.public_bytes) c.net.username ∷ [])
                (register proof ∷ []))))),
    ap
          (λ p.
            do_handshake_sync P server_key nonce
              (Handshake.register_init (ok (hex p)) (some c.net.username))
              (Handshake.register (some proof)))
          own
        ∙ holder_is_registered P server_key nonce agrees c.net.identity.private_key c.net.username
            proof key_bytes made
        ∙ sym (
            ap
              (λ p.
                let done : Result (List State.ServerFrame × Handshake.Registration) = ok (
                  State.challenge (P.public_key server_key) nonce ∷ [],
                  some (hex p, c.net.username),
                ) in
                done)
              own),
  )

  serve-not_a_dict :
      (turn : Turn) (turns : List Turn) (sender : Bytes) (msg_id : ℕ) (c : RelayClient)
      → turn.reply ≡ ok (relay (ok (hex sender)) (ok not_a_dict) (ok msg_id))
      → All IsByte sender
      → serve P T relay_key (turn ∷ turns) c ≡ (err attribute_error, c)
  unfolding serve on_relay_frame
  serve-not_a_dict turn turns sender msg_id c here bytes =
      rw here (rw (fromhex-hex sender bytes) refl)

  -- A peer whose payload is no JSON object ends the client's thread for good: the AttributeError that its
  -- delivery raises is not among those that the loop catches, so no later connection is tried whatever
  -- the attempts left; the message stays unacknowledged and the client still counts as connected. The
  -- conditions are those of a registration, and that the sender's key consists of bytes.
  pub odd_payload_ends_client :
      (server_key nonce : Bytes) (turn : Turn) (turns : List Turn) (attempts : List Attempt)
      (backoff : ℕ) (sender : Bytes) (msg_id : ℕ) (c : RelayClient) (proof : Str)
      → turn.reply ≡ ok (relay (ok (hex sender)) (ok not_a_dict) (ok msg_id))
      → All IsByte sender
      → c.net.identity.public_bytes ≡ P.public_key c.net.identity.private_key
      → dh_proof P c.net.identity.private_key (P.public_key server_key) nonce ≡ ok proof
      → All IsByte (P.public_key c.net.identity.private_key)
      → All IsByte (P.public_key server_key)
      → All IsByte nonce
      → run_forever P T relay_key backoff
          (opening (P.public_key server_key) nonce (turn ∷ turns) ∷ attempts)
          c
        ≡ (
          err attribute_error,
          record c {
            connected = true;
            changes = c.changes ++ (true ∷ []);
            sent =
                c.sent
                ++ (register_init (hex c.net.identity.public_bytes) c.net.username
                    ∷ register proof
                    ∷ []);
          },
        )
  unfolding run_forever
  odd_payload_ends_client server_key nonce turn turns attempts backoff sender msg_id c proof here
        sender_bytes own made key_bytes server_bytes nonce_bytes =
      let told : RelayClient = record c {
        sent =
            c.sent
            ++ (register_init (hex c.net.identity.public_bytes) c.net.username
                ∷ register proof
                ∷ []);
      } in
      let a = opening (P.public_key server_key) nonce (turn ∷ turns) in
      let ends =
        (client_registers server_key nonce (turn ∷ turns) c proof own made key_bytes server_bytes
          nonce_bytes).0
        ∙ serve-not_a_dict turn turns sender msg_id (set_connected true told) here sender_bytes in
      ap
        (λ (x : Result (Unit {0}) × RelayClient).
          elim x.0 as (λ _. Result (Unit {0}) × RelayClient) [
            | ok done ↦ run_forever P T relay_key 2 attempts (wait P T relay_key 1 x.1)
            | err e ↦
                if is_socket_or_value e
                then run_forever P T relay_key (min (backoff * 2) 30) attempts
                    (wait P T relay_key backoff x.1)
                else (err e, x.1)
          ])
        ends
