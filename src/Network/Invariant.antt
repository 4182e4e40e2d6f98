-- ===== src/Network/Invariant.antt =====
-- What stays true of the connections of haven/network.py, whatever peers and relays send, and the
-- events of a running manager.
pub mod Steps
pub mod Handlers
pub mod Run
use haven_e2e_messenger.Prelude.{
  ◌≡◌, refl, sym, ap, ◌∙◌, ℕ, suc, ◌+◌, ◌<◌, Str, Bytes, Bool, true, false, Option, none, some,
  List, [], ◌∷◌, ◌++◌, ◌==◌, if◌then◌else◌, bytes_eq, nat_eq, arith, inl, inr, Bool-cases,
}
use haven_e2e_messenger.Prelude.Errors.{Result, ok, err}
use haven_e2e_messenger.Prelude.Dict.{
  Dict, values, lookup, insert, erase, lookup-insert, lookup-insert_same, lookup-insert_cases,
  lookup-erase,
}
use haven_e2e_messenger.Prelude.Exec.{Exec, Preserves}
use haven_e2e_messenger.Crypto.Primitives.{Primitives}
use haven_e2e_messenger.Crypto.Keys.{fingerprint}
use haven_e2e_messenger.Crypto.Ratchet.{RatchetSession}
use haven_e2e_messenger.Storage.Tables.{StoreTools}
use haven_e2e_messenger.Network.State.{
  Frame, Transport, direct, relay, close_by, PeerConnection, NetworkManager, close_sock,
  register_connection, register_peer, peer, current, close_old, close_peer, close, fingerprint_with,
}
use haven_e2e_messenger.Network.Messages.{Drawn, with_session, on_session, send_text}
use haven_e2e_messenger.Network.Relayed.{attach_relay, detach_relay, connect_relay, on_relay_frame}
use haven_e2e_messenger.Network.Direct.{
  open_inbound, hail_peer, take_answer, handle_turn, drop_connection, is_current, stop, close_each,
}

-- What the threads of a manager do, with what each draws. A step is what a thread does from one read of a
-- socket to the next, without another thread in between: a connection that is accepted is read later, frame
-- by frame, and ends at some time, and one that is made is answered later. Sockets and relay clients
-- fail by themselves.
pub data Event : Type 0 where
  attaches : Str → ℕ → Event
  detaches : Str → Event
  connects_relay : Bytes → Bytes → Option Str → Event
  is_relayed : Drawn → Bytes → Str → Str → Frame → Event
  accepts : ℕ → Bytes → Result Frame → Event
  hails : ℕ → Bytes → Result (Unit {0}) → Event
  is_answered : ℕ → Bytes → Result Frame → Event
  reads : Drawn → ℕ → Bytes → Frame → Event
  ends : ℕ → Str → Event
  sends : Drawn → Str → Str → Str → Event
  stops : Event
  breaks : ℕ → Event
  goes_offline : List ℕ → Event

module _ (P : Primitives) (T : StoreTools) where
  abbrev pub perform : Event → NetworkManager → NetworkManager
  perform (attaches relay_key client) s = attach_relay relay_key client s
  perform (detaches relay_key) s = detach_relay relay_key s
  perform (connects_relay ephemeral identity_pub relay_key) s =
      (connect_relay P ephemeral identity_pub relay_key s).1
  perform (is_relayed drawn ephemeral relay_key sender frame) s =
      (on_relay_frame P T drawn ephemeral relay_key sender frame s).1
  perform (accepts sock ephemeral first) s = (open_inbound P T sock ephemeral first s).1
  perform (hails sock ephemeral connect) s = (hail_peer P T sock ephemeral connect s).1
  perform (is_answered sock ephemeral first) s = (take_answer P T sock ephemeral first s).1
  perform (reads drawn id identity_pub frame) s = (handle_turn P T drawn id identity_pub frame s).1
  perform (ends id fp) s = drop_connection id fp s
  perform (sends drawn fp body kind) s = (send_text P T drawn fp body kind s).1
  perform stops s = stop s
  perform (breaks sock) s = close_sock sock s
  perform (goes_offline clients) s = record s { offline = clients }

  unfoldable pub run : List Event → NetworkManager → NetworkManager
  run [] s = s
  run (e ∷ events) s = run events (perform e s)

-- Each current connection exists and stands under its own fingerprint; each connection's fingerprint is
-- that of its peer's identity key; and numbers are not used twice.
pub record Sound (P : Primitives) (me : Bytes) (peers : Dict ℕ PeerConnection) (next : ℕ)
    (connections : Dict Str ℕ) : Type 0 where
  pub known :
      (fp : Str) (id : ℕ)
      → lookup fp connections ≡ some id
      → (conn : PeerConnection) × (lookup id peers ≡ some conn) × (conn.fingerprint ≡ fp)
  pub named :
      (id : ℕ) (conn : PeerConnection)
      → lookup id peers ≡ some conn
      → conn.fingerprint ≡ fingerprint P (me ∷ conn.identity_pub ∷ [])
  pub fresh : (id : ℕ) (conn : PeerConnection) → lookup id peers ≡ some conn → id < next

abbrev pub IsSound : Primitives → NetworkManager → Type 0
IsSound P s = Sound P s.identity.public_bytes s.peers s.next_peer s.connections

some_inj : {a b : PeerConnection} → some a ≡ some b → a ≡ b
some_inj h = cc

module _ (P : Primitives) where
  Sound-erase :
      (me : Bytes) (peers : Dict ℕ PeerConnection) (next : ℕ) (connections : Dict Str ℕ) (fp : Str)
      → Sound P me peers next connections
      → Sound P me peers next (erase fp connections)
  Sound-erase me peers next connections fp v = record {
    known = λ fp' id h. v.known fp' id (ground (arith, lookup-erase fp' fp connections));
    named = v.named;
    fresh = v.fresh;
  }

  Sound-register :
      (me : Bytes) (peers : Dict ℕ PeerConnection) (next : ℕ) (connections : Dict Str ℕ)
      (conn : PeerConnection)
      → conn.fingerprint ≡ fingerprint P (me ∷ conn.identity_pub ∷ [])
      → Sound P me peers next connections
      → Sound P me (insert next conn peers) (suc next) (insert conn.fingerprint next connections)
  Sound-register me peers next connections conn own v = record {
    known = λ fp id h. elim (lookup-insert_cases fp conn.fingerprint next id connections h) [
      | inl (same, new) ↦ (
        conn,
        ap (λ i. lookup i (insert next conn peers)) new ∙ lookup-insert_same next conn peers,
        sym same,
      )
      | inr old ↦
          let (c, at, own_name) = v.known fp id old in
          (c, ground (arith, lookup-insert id next conn peers, v.fresh id c at), own_name)
    ];
    named = λ id c h. elim (lookup-insert_cases id next conn c peers h) [
      | inl (same, new) ↦ rw new own
      | inr old ↦ v.named id c old
    ];
    fresh = λ id c h. elim (lookup-insert_cases id next conn c peers h) [
      | inl (same, new) ↦ omega arith
      | inr old ↦ omega (arith, v.fresh id c old)
    ];
  }

  Sound-session :
      (me : Bytes) (peers : Dict ℕ PeerConnection) (next : ℕ) (connections : Dict Str ℕ) (id : ℕ)
      (conn : PeerConnection) (session : RatchetSession)
      → lookup id peers ≡ some conn
      → Sound P me peers next connections
      → Sound P me (insert id (record conn { session = session }) peers) next connections
  Sound-session me peers next connections id conn session here v = record {
    known = λ fp id' h.
        let (c, at, own_name) = v.known fp id' h in
        elim (nat_eq.dec id' id) [
          | yes same ↦ (
            record conn { session = session },
            ap (λ i. lookup i (insert id (record conn { session = session }) peers)) same
                ∙ lookup-insert_same id (record conn { session = session }) peers,
            ap PeerConnection.fingerprint
                  (some_inj (sym here ∙ ap (λ i. lookup i peers) (sym same) ∙ at))
                ∙ own_name,
          )
          | no other ↦ (
            c,
            ground (arith, lookup-insert id' id (record conn { session = session }) peers),
            own_name,
          )
        ];
    named = λ id' c h.
        elim (lookup-insert_cases id' id (record conn { session = session }) c peers h) [
          | inl (same, new) ↦ rw new (v.named id conn here)
          | inr old ↦ v.named id' c old
        ];
    fresh = λ id' c h.
        elim (lookup-insert_cases id' id (record conn { session = session }) c peers h) [
          | inl (same, new) ↦ rw same (v.fresh id conn here)
          | inr old ↦ v.fresh id' c old
        ];
  }

  pub register_peer-IsSound :
      (transport : Transport) (username : Str) (identity_pub : Bytes) (session : RatchetSession)
      → Preserves (IsSound P) (register_peer P transport username identity_pub session)
  unfolding register_peer
  register_peer-IsSound transport username identity_pub session s v =
      Sound-register s.identity.public_bytes s.peers s.next_peer s.connections
        (record {
          transport = transport;
          fingerprint = fingerprint_with P identity_pub s;
          username = username;
          identity_pub = identity_pub;
          session = session;
        })
        refl v

  with_session-IsSound :
      (session : RatchetSession) (id : ℕ) (found : Option PeerConnection) (s : NetworkManager)
      → peer id s ≡ found
      → IsSound P s
      → IsSound P (with_session session id found s)
  with_session-IsSound session id none s h v = v
  with_session-IsSound session id (some conn) s h v =
      Sound-session s.identity.public_bytes s.peers s.next_peer s.connections id conn session h v

  pub on_session-IsSound :
      {A : Type 0} (id : ℕ) (conn : PeerConnection) (action : Exec RatchetSession A)
      → Preserves (IsSound P) (on_session id conn action)
  on_session-IsSound id conn action s v =
      with_session-IsSound (action conn.session).1 id (peer id s) s refl v

  pub drop_connection-IsSound :
      (id : ℕ) (fp : Str) (s : NetworkManager) → IsSound P s → IsSound P (drop_connection id fp s)
  drop_connection-IsSound id fp s v = elim (Bool-cases (is_current (current fp s) id)) [
    | inl now ↦ rw now (Sound-erase s.identity.public_bytes s.peers s.next_peer s.connections fp v)
    | inr replaced ↦ rw replaced v
  ]

  close_by-IsSound :
      (transport : Transport) (s : NetworkManager) → IsSound P s → IsSound P (close_by transport s)
  close_by-IsSound (direct sock) s v = v
  close_by-IsSound (relay client) s v = v

  close_peer-IsSound :
      (found : Option PeerConnection) (s : NetworkManager)
      → IsSound P s
      → IsSound P (close_peer found s)
  unfolding close
  close_peer-IsSound none s v = v
  close_peer-IsSound (some conn) s v = close_by-IsSound conn.transport s v

  close_each-IsSound :
      (ids : List ℕ) (s : NetworkManager) → IsSound P s → IsSound P (close_each ids s)
  close_each-IsSound [] s v = v
  close_each-IsSound (id ∷ ids) s v =
      close_each-IsSound ids (close_old (some id) s) (close_peer-IsSound (peer id s) s v)

  pub stop-IsSound : (s : NetworkManager) → IsSound P s → IsSound P (stop s)
  unfolding stop
  stop-IsSound s v = close_each-IsSound (values s.connections) s v
