-- ===== src/Network/Relayed/Opened.antt =====
-- One step each of a handshake over a relay in haven/network.py, where nothing goes wrong.
use haven_e2e_messenger.Prelude.{
  ◌≡◌, refl, ap, ◌∙◌, ℕ, Str, Bytes, Bool, true, false, some, [], ◌∷◌, ◌++◌, bytes_eq, nat_eq,
  contains, All,
}
use haven_e2e_messenger.Prelude.Errors.{Result, ok, or_raise, value_error, is_key_or_value}
use haven_e2e_messenger.Prelude.Exec.{
  gets, skip, ◌>>=◌, ◌>>◌, bind_returned, lift_returned, try_pass-returned,
}
use haven_e2e_messenger.Prelude.Dict.{lookup, insert, erase, has_key, lookup-insert_same}
use haven_e2e_messenger.Crypto.Primitives.{Primitives}
use haven_e2e_messenger.Crypto.Hex.{hex, fromhex-hex, IsByte}
use haven_e2e_messenger.Crypto.Keys.{KeyPair, from_private_bytes, compute_shared_root_key}
use haven_e2e_messenger.Crypto.Ratchet.{RatchetSession}
use haven_e2e_messenger.Crypto.Delivery.{start_session}
use haven_e2e_messenger.Storage.Tables.{StoreTools}
use haven_e2e_messenger.Network.State.{
  hello, hello_ack, relay, PeerConnection, NetworkManager, by_relay, hello_of, ack_of, current,
  peer, fingerprint_with, register_connection, register_peer, derive_session, bytes_of, send_to,
}
use haven_e2e_messenger.Network.Messages.{Drawn, is_connected}
use haven_e2e_messenger.Network.Relayed.{
  connect_relay, establish, handle_relay_hello, handle_relay_hello_ack, on_relay_frame,
}

-- A relay client is attached under that key and has a connection.
abbrev pub IsOnline : Str → ℕ → NetworkManager → Type 0
IsOnline relay_key client s =
    (lookup relay_key s.relays ≡ some client) × (contains client s.offline ≡ false)

-- The current connection to that peer goes over that relay client, and has that session.
abbrev pub Connected : Primitives → Bytes → ℕ → RatchetSession → NetworkManager → Type 0
Connected P their_pub client session s =
    (id : ℕ) × (conn : PeerConnection) × (current (fingerprint_with P their_pub s) s ≡ some id)
    × (peer id s ≡ some conn)
    × (conn.transport ≡ relay client)
    × (conn.fingerprint ≡ fingerprint_with P their_pub s)
    × (conn.identity_pub ≡ their_pub)
    × (conn.session ≡ session)

module _ (P : Primitives) where
  abbrev pub registered : ℕ → Str → Bytes → RatchetSession → NetworkManager → NetworkManager
  registered client name their_pub session s =
      (register_peer P (relay client) name their_pub session s).1

  pub registered-Connected :
      (client : ℕ) (name : Str) (their_pub : Bytes) (session : RatchetSession) (s : NetworkManager)
      → Connected P their_pub client session (registered client name their_pub session s)
  unfolding register_peer register_connection
  registered-Connected client name their_pub session s =
      let fp = fingerprint_with P their_pub s in
      let conn : PeerConnection = record {
        transport = relay client;
        fingerprint = fp;
        username = name;
        identity_pub = their_pub;
        session = session;
      } in
      (
        s.next_peer,
        conn,
        lookup-insert_same fp s.next_peer s.connections,
        lookup-insert_same s.next_peer conn s.peers,
        refl,
        refl,
        refl,
        refl,
      )

  derive_session-ok :
      (b : Bool) (identity mine : KeyPair) (their_pub their_ephemeral root : Bytes)
      → compute_shared_root_key P b identity mine their_pub their_ephemeral ≡ ok root
      → derive_session P b identity mine their_pub their_ephemeral ≡ ok (start_session P root b)
  unfolding derive_session
  derive_session-ok b identity mine their_pub their_ephemeral root agreed =
      rw (derive_session, agreed) refl

  establish-registered :
      (b : Bool) (mine : KeyPair) (their_pub their_ephemeral root : Bytes) (name : Str) (client : ℕ)
      (s : NetworkManager)
      → All IsByte their_ephemeral
      → compute_shared_root_key P b s.identity mine their_pub their_ephemeral ≡ ok root
      → establish P b mine their_pub (ok name) (ok (hex their_ephemeral)) client s
        ≡ (ok tt, registered client name their_pub (start_session P root b) s)
  unfolding derive_session register_peer
  establish-registered b mine their_pub their_ephemeral root name client s bytes agreed =
      lift_returned (bytes_of (hex their_ephemeral)) _ s
        (ap (λ o. or_raise o value_error) (fromhex-hex their_ephemeral bytes))
      ∙ lift_returned (derive_session P b s.identity mine their_pub their_ephemeral) _ s
          (derive_session-ok b s.identity mine their_pub their_ephemeral root agreed)

  -- The state of a manager that has sent its hello.
  abbrev pub waiting : Bytes → Bytes → Str → ℕ → NetworkManager → NetworkManager
  waiting ephemeral to relay_key client s =
      let mine = from_private_bytes P ephemeral in
      record s {
        pending = insert (hex to) (mine, relay_key) s.pending;
        sent = s.sent ++ (by_relay client to (hello_of s mine) ∷ []);
      }

  pub connect_relay-waiting :
      (ephemeral to : Bytes) (relay_key : Str) (client : ℕ) (s : NetworkManager)
      → IsOnline relay_key client s
      → is_connected (fingerprint_with P to s) s ≡ false
      → has_key (hex to) s.pending ≡ false
      → connect_relay P ephemeral to (some relay_key) s
        ≡ (ok (fingerprint_with P to s), waiting ephemeral to relay_key client s)
  unfolding connect_relay
  connect_relay-waiting ephemeral to relay_key client s (attached, online) apart idle =
      rw attached (rw apart (rw idle (rw online refl)))

  module _ (T : StoreTools) where
    -- The state of a manager that has answered a hello.
    abbrev pub answered : Bytes → Bytes → Bytes → ℕ → Str → NetworkManager → NetworkManager
    answered ephemeral their_pub root client name s =
        let mine = from_private_bytes P ephemeral in
        let s' = registered client name their_pub (start_session P root false) s in
        record s' { sent = s.sent ++ (by_relay client their_pub (ack_of s mine) ∷ []) }

    pub on_relay_frame-hello :
        (drawn : Drawn) (ephemeral : Bytes) (relay_key : Str) (client : ℕ)
        (their_pub their_ephemeral root : Bytes) (name : Str) (claimed : Result Str)
        (s : NetworkManager)
        → IsOnline relay_key client s
        → All IsByte their_pub
        → All IsByte their_ephemeral
        → compute_shared_root_key P false s.identity
            (from_private_bytes P ephemeral)
            their_pub
            their_ephemeral
          ≡ ok root
        → on_relay_frame P T drawn ephemeral relay_key
            (hex their_pub)
            (hello (ok name) claimed (ok (hex their_ephemeral)))
            s
          ≡ (ok tt, answered ephemeral their_pub root client name s)
    unfolding on_relay_frame handle_relay_hello register_peer register_connection
    on_relay_frame-hello drawn ephemeral relay_key client their_pub their_ephemeral root name
          claimed s (attached, online) key_bytes ephemeral_bytes agreed =
        let mine = from_private_bytes P ephemeral in
        rw (fromhex-hex their_pub key_bytes) (
          rw attached (
            try_pass-returned is_key_or_value
              (establish P false mine their_pub (ok name) (ok (hex their_ephemeral)) client
                >> (gets (λ s. ack_of s mine) >>= λ frame.
                    send_to client their_pub frame >>= λ sent. skip))
              s
              (bind_returned
                  (establish P false mine their_pub (ok name) (ok (hex their_ephemeral)) client) _ s
                  (establish-registered false mine their_pub their_ephemeral root name client s
                    ephemeral_bytes agreed)
                ∙ rw online refl)))

    pub on_relay_frame-ack :
        (drawn : Drawn) (fresh : Bytes) (relay_key expected : Str) (client : ℕ) (mine : KeyPair)
        (their_pub their_ephemeral root : Bytes) (name : Str) (claimed : Result Str)
        (s : NetworkManager)
        → lookup relay_key s.relays ≡ some client
        → lookup (hex their_pub) s.pending ≡ some (mine, expected)
        → All IsByte their_pub
        → All IsByte their_ephemeral
        → compute_shared_root_key P true s.identity mine their_pub their_ephemeral ≡ ok root
        → on_relay_frame P T drawn fresh relay_key
            (hex their_pub)
            (hello_ack (ok name) claimed (ok (hex their_ephemeral)))
            s
          ≡ (
            ok tt,
            registered client name their_pub
                (start_session P root true)
                (record s { pending = erase (hex their_pub) s.pending }),
          )
    unfolding on_relay_frame handle_relay_hello_ack
    on_relay_frame-ack drawn fresh relay_key expected client mine their_pub their_ephemeral root
          name claimed s attached began key_bytes ephemeral_bytes agreed =
        rw (fromhex-hex their_pub key_bytes) (
          rw began (
            rw attached (
              try_pass-returned is_key_or_value
                (establish P true mine their_pub (ok name) (ok (hex their_ephemeral)) client)
                (record s { pending = erase (hex their_pub) s.pending })
                (establish-registered true mine their_pub their_ephemeral root name client
                  (record s { pending = erase (hex their_pub) s.pending }) ephemeral_bytes
                  agreed))))
