-- ===== src/Crypto/Delivery.antt =====
-- Two peers with a session each, over two channels that deliver in order, as haven/network.py uses
-- haven/crypto.py. Sends and deliveries of both sides interleave in any order.
pub mod Flow
pub mod Reliable
use haven_e2e_messenger.Prelude.{Bytes, Bool, true, false, List, [], ◌∷◌, ◌++◌}
use haven_e2e_messenger.Prelude.Errors.{Result, ok, err, ◌>>=◌}
use haven_e2e_messenger.Crypto.Primitives.{Primitives}
use haven_e2e_messenger.Crypto.Keys.{derive_chain_keys}
use haven_e2e_messenger.Crypto.Ratchet.{Envelope, RatchetSession, session_encrypt, session_decrypt}

-- `alice` began the handshake. `sent_…` and `got_…` are the plaintexts in order, and the channels
-- hold what is on its way.
pub record Conversation : Type 0 where
  pub alice : RatchetSession
  pub bob : RatchetSession
  pub to_alice : List Envelope
  pub to_bob : List Envelope
  pub sent_alice : List Bytes
  pub sent_bob : List Bytes
  pub got_alice : List Bytes
  pub got_bob : List Bytes

pub data Event : Type 0 where
  alice_sends : Bytes → Bytes → Event
  bob_sends : Bytes → Bytes → Event
  alice_receives : Event
  bob_receives : Event

-- The session of `NetworkManager._derive_session`, from the root key.
unfoldable pub start_session : Primitives → Bytes → Bool → RatchetSession
start_session P root_key is_initiator =
    let (send_key, recv_key) = derive_chain_keys P root_key is_initiator in
    record { send_chain_key = send_key; recv_chain_key = recv_key; send_index = 0; recv_index = 0 }

abbrev pub begin : Primitives → Bytes → Conversation
begin P root_key = record {
  alice = start_session P root_key true;
  bob = start_session P root_key false;
  to_alice = [];
  to_bob = [];
  sent_alice = [];
  sent_bob = [];
  got_alice = [];
  got_bob = [];
}

module _ (P : Primitives) (alice_pub bob_pub : Bytes) where
  abbrev deliver_bob : Conversation → List Envelope → Result Conversation
  deliver_bob x [] = ok x
  deliver_bob x (e ∷ rest) =
      let (r, s) = session_decrypt P e alice_pub x.bob in
      r >>= λ plain. ok (record x { bob = s; to_bob = rest; got_bob = x.got_bob ++ (plain ∷ []) })

  abbrev deliver_alice : Conversation → List Envelope → Result Conversation
  deliver_alice x [] = ok x
  deliver_alice x (e ∷ rest) =
      let (r, s) = session_decrypt P e bob_pub x.alice in
      r >>= λ plain.
      ok (record x { alice = s; to_alice = rest; got_alice = x.got_alice ++ (plain ∷ []) })

  -- One event: a send of a plaintext under a nonce, or the delivery of the oldest envelope, if any.
  unfoldable pub step : Event → Conversation → Result Conversation
  step (alice_sends nonce plain) x =
      let (r, s) = session_encrypt P nonce plain alice_pub x.alice in
      r >>= λ e. ok (record x {
        alice = s;
        to_bob = x.to_bob ++ (e ∷ []);
        sent_alice = x.sent_alice ++ (plain ∷ []);
      })
  step (bob_sends nonce plain) x =
      let (r, s) = session_encrypt P nonce plain bob_pub x.bob in
      r >>= λ e. ok (record x {
        bob = s;
        to_alice = x.to_alice ++ (e ∷ []);
        sent_bob = x.sent_bob ++ (plain ∷ []);
      })
  step alice_receives x = deliver_alice x x.to_alice
  step bob_receives x = deliver_bob x x.to_bob

  unfoldable pub run : List Event → Conversation → Result Conversation
  run [] x = ok x
  run (e ∷ events) x = step e x >>= run events
