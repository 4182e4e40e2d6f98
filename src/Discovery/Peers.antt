-- ===== src/Discovery/Peers.antt =====
-- Which peers haven/discovery.py shows.
use haven_e2e_messenger.Prelude.{
  ◌≡◌, refl, sym, subst, ℕ, ◌+◌, ◌≤◌, Str, Bool, true, false, none, some, List, [], ◌∷◌, keep, ◌==◌,
  bytes_eq, ltb, All, arith, Bool-cases, inl, inr,
}
use haven_e2e_messenger.Prelude.Errors.{Result, ok, err, attribute_error}
use haven_e2e_messenger.Prelude.Dict.{Dict, lookup, lookup-insert}
use haven_e2e_messenger.Discovery.{
  Peer, Datagram, beacon, other_type, undecodable, not_a_dict, Discovery, hear, reap, is_fresh,
  Event, hears, reaps, perform, run, heard, ended,
}
use haven_e2e_messenger.Discovery.Heard.{WasHeard, All-keep, run-All, All-Enters, All-both}

keep-lookup-none :
    (now : ℕ) (key : Str) (peers : Dict Str Peer)
    → lookup key peers ≡ none
    → lookup key (keep (is_fresh now) peers) ≡ none
unfolding lookup
keep-lookup-none now key [] h = refl
keep-lookup-none now key ((k, p) ∷ peers) h = ground (arith, keep-lookup-none now key peers)

-- This side, and its key is not among the peers.
abbrev pub ShowsOthers : Str → Discovery → Type 0
ShowsOthers own d = (d.identity_pub_hex ≡ own) × (lookup own d.peers ≡ none)

hear-ShowsOthers :
    (own : Str) (now : ℕ) (host : Str) (datagram : Datagram) (d : Discovery)
    → ShowsOthers own d
    → ShowsOthers own (hear now host datagram d).1
unfolding hear
hear-ShowsOthers own now host (beacon none username port) d v = v
hear-ShowsOthers own now host (beacon (some key) (err e) port) d v =
    elim (Bool-cases (key == d.identity_pub_hex)) [
      | inl mine ↦ rw mine v
      | inr foreign ↦ rw foreign v
    ]
hear-ShowsOthers own now host (beacon (some key) (ok name) (err e)) d v =
    elim (Bool-cases (key == d.identity_pub_hex)) [
      | inl mine ↦ rw mine v
      | inr foreign ↦ rw foreign v
    ]
hear-ShowsOthers own now host (beacon (some key) (ok name) (ok port)) d (same, absent) =
    let peer : Peer = record {
      username = name;
      identity_pub = key;
      host = host;
      tcp_port = port;
      last_seen = now;
    } in
    elim (Bool-cases (key == d.identity_pub_hex)) [
      | inl mine ↦ rw mine (same, absent)
      | inr foreign ↦ rw foreign (same, ground (arith, lookup-insert own key peer d.peers))
    ]
hear-ShowsOthers own now host other_type d v = v
hear-ShowsOthers own now host undecodable d v = v
hear-ShowsOthers own now host not_a_dict d v = v

ended-ShowsOthers :
    (own : Str) (r : Result (Unit {0})) (d : Discovery)
    → ShowsOthers own d
    → ShowsOthers own (ended r d)
ended-ShowsOthers own (ok tt) d v = v
ended-ShowsOthers own (err e) d v = v

heard-ShowsOthers :
    (own : Str) (on : Bool) (turn : Result (Unit {0}) × Discovery) (d : Discovery)
    → ShowsOthers own turn.1
    → ShowsOthers own d
    → ShowsOthers own (heard on turn d)
heard-ShowsOthers own true (result, d') d v' v = ended-ShowsOthers own result d' v'
heard-ShowsOthers own false turn d v' v = v

reap-ShowsOthers :
    (own : Str) (now : ℕ) (d : Discovery) → ShowsOthers own d → ShowsOthers own (reap now d)
unfolding reap
reap-ShowsOthers own now d (same, absent) = (same, keep-lookup-none now own d.peers absent)

perform-ShowsOthers :
    (own : Str) (e : Event) (d : Discovery) → ShowsOthers own d → ShowsOthers own (perform e d)
perform-ShowsOthers own (hears now host datagram) d v =
    heard-ShowsOthers own d.listening (hear now host datagram d) d
      (hear-ShowsOthers own now host datagram d v) v
perform-ShowsOthers own (reaps now) d v = reap-ShowsOthers own now d v

run-ShowsOthers :
    (own : Str) (events : List Event) (d : Discovery)
    → ShowsOthers own d
    → ShowsOthers own (run events d)
unfolding run
run-ShowsOthers own [] d v = v
run-ShowsOthers own (e ∷ events) d v =
    run-ShowsOthers own events (perform e d) (perform-ShowsOthers own e d v)

abbrev pub IsRecent : ℕ → Str × Peer → Type 0
IsRecent now (key, p) = now ≤ p.last_seen + 15

keep-IsRecent : (now : ℕ) (peers : Dict Str Peer) → All (IsRecent now) (keep (is_fresh now) peers)
keep-IsRecent now [] = tt
keep-IsRecent now ((key, p) ∷ peers) = elim (Bool-cases (ltb (p.last_seen + 15) now)) [
  | inl stale ↦ rw stale (keep-IsRecent now peers)
  | inr fresh ↦ rw fresh (ground arith, keep-IsRecent now peers)
]

-- Whatever datagrams come and however often stale peers are removed, this side is never among its own
-- peers; and after a removal every peer that is left stands as its beacon gave it, a beacon that came in
-- the last 15 seconds. Conditions: at the start there are no peers, and the key is this side's.
pub others_are_kept_fresh :
    (own : Str) (events : List Event) (now : ℕ) (d : Discovery)
    → d.identity_pub_hex ≡ own
    → d.peers ≡ []
    → let d' = reap now (run events d) in
      (lookup own d'.peers ≡ none) × All (λ p. IsRecent now p × WasHeard events p) d'.peers
unfolding reap lookup
others_are_kept_fresh own events now d same nobody =
    let nothing : lookup own d.peers ≡ none = rw nobody refl in
    let reached = run events d in
    let entered =
      run-All (WasHeard events) events d (All-Enters events events (λ e at. at))
        (subst (All (WasHeard events)) (sym nobody) tt) in
    (
      (reap-ShowsOthers own now reached (run-ShowsOthers own events d (same, nothing))).1,
      All-both (IsRecent now) (WasHeard events) (keep (is_fresh now) reached.peers)
          (keep-IsRecent now reached.peers) (All-keep (WasHeard events) now reached.peers entered),
    )

-- The listening thread has ended and the key is not among the peers.
abbrev IsDeaf : Str → Discovery → Type 0
IsDeaf key d = (d.listening ≡ false) × (lookup key d.peers ≡ none)

heard-IsDeaf :
    (key : Str) (on : Bool) (turn : Result (Unit {0}) × Discovery) (d : Discovery)
    → on ≡ false
    → IsDeaf key d
    → IsDeaf key (heard on turn d)
heard-IsDeaf key true turn d off v = absurd (ground arith)
heard-IsDeaf key false turn d off v = v

odd-IsDeaf :
    (key : Str) (on : Bool) (d : Discovery)
    → d.listening ≡ on
    → lookup key d.peers ≡ none
    → IsDeaf key (heard on (err attribute_error, d) d)
odd-IsDeaf key true d on absent = (refl, absent)
odd-IsDeaf key false d off absent = (off, absent)

perform-IsDeaf : (key : Str) (e : Event) (d : Discovery) → IsDeaf key d → IsDeaf key (perform e d)
unfolding reap
perform-IsDeaf key (hears now host datagram) d (off, absent) =
    heard-IsDeaf key d.listening (hear now host datagram d) d off (off, absent)
perform-IsDeaf key (reaps now) d (off, absent) = (off, keep-lookup-none now key d.peers absent)

run-IsDeaf :
    (key : Str) (events : List Event) (d : Discovery) → IsDeaf key d → IsDeaf key (run events d)
unfolding run
run-IsDeaf key [] d v = v
run-IsDeaf key (e ∷ events) d v = run-IsDeaf key events (perform e d) (perform-IsDeaf key e d v)

-- One datagram that is JSON but no object ends the discovery: a peer that is not known by then is never
-- found, whatever beacons come.
pub odd_datagram_ends_discovery :
    (now : ℕ) (host key : Str) (events : List Event) (d : Discovery)
    → lookup key d.peers ≡ none
    → lookup key (run (hears now host not_a_dict ∷ events) d).peers ≡ none
unfolding run hear
odd_datagram_ends_discovery now host key events d absent =
    (run-IsDeaf key events (heard d.listening (err attribute_error, d) d)
      (odd-IsDeaf key d.listening d refl absent)).1
