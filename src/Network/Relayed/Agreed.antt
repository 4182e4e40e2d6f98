-- ===== src/Network/Relayed/Agreed.antt =====
-- Two managers of haven/network.py that open a session over a relay, one of them first or both at once.
use haven_e2e_messenger.Prelude.{
  ◌≡◌, sym, ap, subst, ◌∙◌, ℕ, Str, Bytes, true, false, some, [], ◌∷◌, ◌++◌, bytes_eq, nat_eq, All,
}
use haven_e2e_messenger.Prelude.Errors.{Result, ok}
use haven_e2e_messenger.Prelude.Dict.{erase, has_key, lookup-insert_same}
use haven_e2e_messenger.Crypto.Primitives.{Primitives, ExchangeAgrees}
use haven_e2e_messenger.Crypto.Hex.{hex, IsByte}
use haven_e2e_messenger.Crypto.Keys.{KeyPair, from_private_bytes, compute_shared_root_key}
use haven_e2e_messenger.Crypto.Delivery.{start_session}
use haven_e2e_messenger.Storage.Tables.{StoreTools}
use haven_e2e_messenger.Network.State.{
  NetworkManager, by_relay, hello_of, ack_of, fingerprint_with, register_connection, register_peer,
}
use haven_e2e_messenger.Network.Messages.{Drawn, is_connected}
use haven_e2e_messenger.Network.Relayed.{connect_relay, on_relay_frame}
use haven_e2e_messenger.Network.Relayed.Opened.{
  IsOnline, Connected, registered-Connected, waiting, answered, connect_relay-waiting,
  on_relay_frame-hello, on_relay_frame-ack,
}

-- A manager whose key pair is one, that is online at that relay, and that has neither a session with
-- that peer nor begun one.
abbrev pub IsReady : Primitives → Str → ℕ → Bytes → NetworkManager → Type 0
IsReady P relay_key client their_pub s =
    (s.identity.public_bytes ≡ P.public_key s.identity.private_key)
    × IsOnline relay_key client s
    × (is_connected (fingerprint_with P their_pub s) s ≡ false)
    × (has_key (hex their_pub) s.pending ≡ false)

-- Public keys are bytes.
abbrev pub KeysAreBytes : Primitives → Type 0
KeysAreBytes P = (k : Bytes) → All IsByte (P.public_key k)

abbrev first : {A : Type 0} → Result A × NetworkManager → Result A
first (r, s) = r

abbrev second : {A : Type 0} → Result A × NetworkManager → NetworkManager
second (r, s) = s

module _ (P : Primitives) (agrees : ExchangeAgrees P) (bytes : KeysAreBytes P) (T : StoreTools)
    (key_a key_b : Str) (client_a client_b : ℕ) where
  -- The responder derives the root key that the initiator derives.
  root_agrees :
      (i j : KeyPair) (e f root : Bytes)
      → i.public_bytes ≡ P.public_key i.private_key
      → j.public_bytes ≡ P.public_key j.private_key
      → compute_shared_root_key P true i (from_private_bytes P e) j.public_bytes (P.public_key f)
        ≡ ok root
      → compute_shared_root_key P false j (from_private_bytes P f) i.public_bytes (P.public_key e)
        ≡ ok root
  unfolding compute_shared_root_key from_private_bytes
  root_agrees i j e f root own_i own_j h =
      rw (own_i, agrees f i.private_key, agrees j.private_key e, agrees f e)
        (sym (
            ap (λ p. compute_shared_root_key P true i (from_private_bytes P e) p (P.public_key f))
              own_j)
          ∙ h)

  public-IsByte :
      (s : NetworkManager)
      → s.identity.public_bytes ≡ P.public_key s.identity.private_key
      → All IsByte s.identity.public_bytes
  public-IsByte s own = rw own (bytes s.identity.private_key)

  -- One side connects over the relay, its hello reaches the other side, and the other side's answer
  -- comes back: no step raises, each sends the frame that the other then handles, and both have a
  -- current connection with the peer over the relay client that the frame came by, with the two sessions
  -- that begin on one root key, as initiator and as responder. Conditions: both are online and have
  -- nothing with each other yet, the exchange accepts their keys and is symmetric, and keys are bytes.
  pub relay_handshake_agrees :
      (drawn_a drawn_b : Drawn) (e f fresh root : Bytes) (alice bob : NetworkManager)
      → IsReady P key_a client_a bob.identity.public_bytes alice
      → IsReady P key_b client_b alice.identity.public_bytes bob
      → compute_shared_root_key P true alice.identity
          (from_private_bytes P e)
          bob.identity.public_bytes
          (P.public_key f)
        ≡ ok root
      → let greeting = hello_of alice (from_private_bytes P e) in
        let answer = ack_of bob (from_private_bytes P f) in
        let (began, alice1) = connect_relay P e bob.identity.public_bytes (some key_a) alice in
        let (heard, bob1) =
          on_relay_frame P T drawn_b f key_b (hex alice.identity.public_bytes) greeting bob in
        let (done, alice2) =
          on_relay_frame P T drawn_a fresh key_a (hex bob.identity.public_bytes) answer alice1 in
        (began ≡ ok (fingerprint_with P bob.identity.public_bytes alice))
        × (alice1.sent ≡ alice.sent ++ (by_relay client_a bob.identity.public_bytes greeting ∷ []))
        × (heard ≡ ok tt)
        × (bob1.sent ≡ bob.sent ++ (by_relay client_b alice.identity.public_bytes answer ∷ []))
        × (done ≡ ok tt)
        × Connected P alice.identity.public_bytes client_b (start_session P root false) bob1
        × Connected P bob.identity.public_bytes client_a (start_session P root true) alice2
  unfolding from_private_bytes
  relay_handshake_agrees drawn_a drawn_b e f fresh root alice bob (own_a, on_a, apart_a, idle_a)
        (own_b, on_b, apart_b, idle_b) agreed =
      let a_pub = alice.identity.public_bytes in
      let b_pub = bob.identity.public_bytes in
      let mine = from_private_bytes P e in
      let alice1 = waiting P e b_pub key_a client_a alice in
      let begins = connect_relay-waiting P e b_pub key_a client_a alice on_a apart_a idle_a in
      let hears =
        on_relay_frame-hello P T drawn_b f key_b client_b a_pub (P.public_key e) root alice.username
          (ok (hex a_pub)) bob on_b (public-IsByte alice own_a) (bytes e)
          (root_agrees alice.identity bob.identity e f root own_a own_b agreed) in
      let ends =
        ap
          (λ s.
            on_relay_frame P T drawn_a fresh key_a (hex b_pub) (ack_of bob (from_private_bytes P f))
              s)
          (ap second begins)
        ∙ on_relay_frame-ack P T drawn_a fresh key_a key_a client_a mine b_pub (P.public_key f) root
            bob.username (ok (hex b_pub)) alice1 on_a.0
            (lookup-insert_same (hex b_pub) (mine, key_a) alice.pending) (public-IsByte bob own_b)
            (bytes f) agreed in
      (
        ap first begins,
        ap (λ p. (second p).sent) begins,
        ap first hears,
        ap (λ p. (second p).sent) hears,
        ap first ends,
        subst (λ s. Connected P a_pub client_b (start_session P root false) s)
            (sym (ap second hears))
            (registered-Connected P client_b alice.username a_pub (start_session P root false) bob),
        subst (λ s. Connected P b_pub client_a (start_session P root true) s) (sym (ap second ends))
            (registered-Connected P client_a bob.username b_pub (start_session P root true)
              (record alice1 { pending = erase (hex b_pub) alice1.pending })),
      )

  -- One side of two that connect at once: it connects, answers the other's hello and takes the other's
  -- answer to its own.
  initiates :
      (drawn : Drawn) (key : Str) (client : ℕ) (e e' f f' fresh root root' : Bytes)
      (me them : NetworkManager)
      → IsReady P key client them.identity.public_bytes me
      → them.identity.public_bytes ≡ P.public_key them.identity.private_key
      → compute_shared_root_key P true me.identity
          (from_private_bytes P e)
          them.identity.public_bytes
          (P.public_key f')
        ≡ ok root
      → compute_shared_root_key P true them.identity
          (from_private_bytes P f)
          me.identity.public_bytes
          (P.public_key e')
        ≡ ok root'
      → let their_pub = them.identity.public_bytes in
        let (_, me1) = connect_relay P e their_pub (some key) me in
        let (_, me2) =
          on_relay_frame P T drawn e' key
            (hex their_pub)
            (hello_of them (from_private_bytes P f))
            me1 in
        let (_, me3) =
          on_relay_frame P T drawn fresh key
            (hex their_pub)
            (ack_of them (from_private_bytes P f'))
            me2 in
        Connected P their_pub client (start_session P root true) me3
  unfolding from_private_bytes register_peer register_connection
  initiates drawn key client e e' f f' fresh root root' me them (own, online, apart, idle) own'
        agreed agreed' =
      let their_key = them.identity.public_bytes in
      let name = them.username in
      let mine = from_private_bytes P e in
      let me1 = waiting P e their_key key client me in
      let me2 = answered P T e' their_key root' client name me1 in
      let begins = connect_relay-waiting P e their_key key client me online apart idle in
      let hears =
        on_relay_frame-hello P T drawn e' key client their_key (P.public_key f) root' name
          (ok (hex their_key)) me1 online (public-IsByte them own') (bytes f)
          (root_agrees them.identity me.identity f e' root' own' own agreed') in
      let ends =
        on_relay_frame-ack P T drawn fresh key key client mine their_key (P.public_key f') root name
          (ok (hex their_key)) me2 online.0
          (lookup-insert_same (hex their_key) (mine, key) me.pending) (public-IsByte them own')
          (bytes f') agreed in
      let greeting = hello_of them (from_private_bytes P f) in
      let answer = ack_of them (from_private_bytes P f') in
      let run =
        ap
          (λ s.
            on_relay_frame P T drawn fresh key (hex their_key) answer
              (on_relay_frame P T drawn e' key (hex their_key) greeting s).1)
          (ap second begins)
        ∙ ap (λ s. on_relay_frame P T drawn fresh key (hex their_key) answer s) (ap second hears)
        ∙ ends in
      subst (λ s. Connected P their_key client (start_session P root true) s) (sym (ap second run))
        (registered-Connected P client name their_key (start_session P root true)
          (record me2 { pending = erase (hex their_key) me2.pending }))

  -- Where both connect before either has the other's hello, and then each handles the other's hello and
  -- the other's answer, both end with a current session as initiator, on the root keys of two different
  -- exchanges: neither side is left with the responder's half of the other's session. The conditions are
  -- those of the handshake that one side begins, for both.
  pub both_connect_both_initiate :
      (drawn : Drawn) (e e' f f' fresh root_a root_b : Bytes) (alice bob : NetworkManager)
      → IsReady P key_a client_a bob.identity.public_bytes alice
      → IsReady P key_b client_b alice.identity.public_bytes bob
      → compute_shared_root_key P true alice.identity
          (from_private_bytes P e)
          bob.identity.public_bytes
          (P.public_key f')
        ≡ ok root_a
      → compute_shared_root_key P true bob.identity
          (from_private_bytes P f)
          alice.identity.public_bytes
          (P.public_key e')
        ≡ ok root_b
      → let a_pub = alice.identity.public_bytes in
        let b_pub = bob.identity.public_bytes in
        let (_, alice1) = connect_relay P e b_pub (some key_a) alice in
        let (_, bob1) = connect_relay P f a_pub (some key_b) bob in
        let (_, alice2) =
          on_relay_frame P T drawn e' key_a
            (hex b_pub)
            (hello_of bob (from_private_bytes P f))
            alice1 in
        let (_, bob2) =
          on_relay_frame P T drawn f' key_b
            (hex a_pub)
            (hello_of alice (from_private_bytes P e))
            bob1 in
        let (_, alice3) =
          on_relay_frame P T drawn fresh key_a
            (hex b_pub)
            (ack_of bob (from_private_bytes P f'))
            alice2 in
        let (_, bob3) =
          on_relay_frame P T drawn fresh key_b
            (hex a_pub)
            (ack_of alice (from_private_bytes P e'))
            bob2 in
        Connected P b_pub client_a (start_session P root_a true) alice3
        × Connected P a_pub client_b (start_session P root_b true) bob3
  unfolding from_private_bytes
  both_connect_both_initiate drawn e e' f f' fresh root_a root_b alice bob ready_a ready_b agreed_a
        agreed_b =
      (
        initiates drawn key_a client_a e e' f f' fresh root_a root_b alice bob ready_a ready_b.0
            agreed_a agreed_b,
        initiates drawn key_b client_b f f' e e' fresh root_b root_a bob alice ready_b ready_a.0
            agreed_b agreed_a,
      )
