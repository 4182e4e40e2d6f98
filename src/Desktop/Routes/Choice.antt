-- ===== src/Desktop/Routes/Choice.antt =====
-- Which way haven/gui.py chooses to a contact that was seen on the local network.
use haven_e2e_messenger.Prelude.{
  ◌≡◌, ◌≢◌, refl, ◌∙◌, ℕ, suc, Str, Bool, List, [], ◌∷◌, bytes_eq, All, arith, inl, inr, ◌++◌,
}
use haven_e2e_messenger.Prelude.Errors.{Exn, Result, ok, err, Result-cases}
use haven_e2e_messenger.Prelude.Dict.{Dict, lookup, insert, lookup-insert, lookup-insert_same}
use haven_e2e_messenger.Discovery.{Peer}
use haven_e2e_messenger.Desktop.Routes.{
  Meta, meta_of_peer, refresh_peer_list, direct, attempt_connect,
}

-- A peer whose fingerprint is another one, or has none.
abbrev pub IsOther : (Str → Result Str) → Str → Peer → Type 0
IsOther fingerprint_of fp p = fingerprint_of p.identity_pub ≢ ok fp

others-refresh :
    (fingerprint_of : Str → Result Str) (fp : Str) (peers : List Peer) (metas : Dict Str Meta)
    → All (IsOther fingerprint_of fp) peers
    → lookup fp (refresh_peer_list fingerprint_of peers metas).1 ≡ lookup fp metas
unfolding refresh_peer_list
others-refresh fingerprint_of fp [] metas v = refl
others-refresh fingerprint_of fp (p ∷ peers) metas (other, v) =
    elim (Result-cases (fingerprint_of p.identity_pub)) [
      | inl (e, raised) ↦ rw raised refl
      | inr (key, found) ↦
          let meta = meta_of_peer (lookup key metas) p in
          rw found (
            others-refresh fingerprint_of fp peers (insert key meta metas) v
            ∙ ground (arith, lookup-insert fp key meta metas))
    ]

-- Once a contact was seen on the local network, only its address there is tried: whatever relay it was
-- assigned before, whichever relays are connected and whichever other peers are refreshed after it, also
-- when one of them makes the refreshing raise.
pub seen_peer_loses_relay :
    (fingerprint_of : Str → Result Str) (p : Peer) (fp : Str) (later : List Peer)
    (metas : Dict Str Meta) (relays : Dict Str Bool) (c : ℕ) (host : Str) (port : ℕ)
    → fingerprint_of p.identity_pub ≡ ok fp
    → p.host ≡ c ∷ host
    → p.tcp_port ≡ suc port
    → All (IsOther fingerprint_of fp) later
    → attempt_connect fp (refresh_peer_list fingerprint_of (p ∷ later) metas).1 relays
      ≡ direct (c ∷ host) (suc port)
unfolding attempt_connect refresh_peer_list
seen_peer_loses_relay fingerprint_of p fp later metas relays c host port known at_host at_port
      others =
    let meta = meta_of_peer (lookup fp metas) p in
    rw known (
      rw (others-refresh fingerprint_of fp later (insert fp meta metas) others)
        (rw (lookup-insert_same fp meta metas) (rw at_host (rw at_port refl))))

abbrev pub HasIdentity : (Str → Result Str) → Peer → Type 0
HasIdentity fingerprint_of p = (fp : Str) × (fingerprint_of p.identity_pub ≡ ok fp)

-- A peer that announces an identity that is no hexadecimal makes every refreshing raise, and no peer
-- after it is entered. Condition: the peers before it announce proper ones.
pub odd_identity_stops_refresh :
    (fingerprint_of : Str → Result Str) (front later : List Peer) (p : Peer) (e : Exn)
    (metas : Dict Str Meta)
    → All (HasIdentity fingerprint_of) front
    → fingerprint_of p.identity_pub ≡ err e
    → refresh_peer_list fingerprint_of (front ++ (p ∷ later)) metas
      ≡ (err e, (refresh_peer_list fingerprint_of front metas).1)
unfolding refresh_peer_list
odd_identity_stops_refresh fingerprint_of [] later p e metas fine odd = rw odd refl
odd_identity_stops_refresh fingerprint_of (q ∷ front) later p e metas ((fp, known), fine) odd =
    rw known (
      odd_identity_stops_refresh fingerprint_of front later p e
        (insert fp (meta_of_peer (lookup fp metas) q) metas) fine odd)
