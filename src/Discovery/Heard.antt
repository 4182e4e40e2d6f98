-- ===== src/Discovery/Heard.antt =====
-- Where the peers of haven/discovery.py come from: each was entered by a beacon.
use haven_e2e_messenger.Prelude.{
  ◌≡◌, refl, subst, ◌⊎◌, ℕ, Str, Bool, true, false, none, some, List, [], ◌∷◌, keep, ◌==◌, bytes_eq,
  All, arith, Bool-cases, inl, inr,
}
use haven_e2e_messenger.Prelude.Errors.{Result, ok, err}
use haven_e2e_messenger.Prelude.Dict.{Dict, insert}
use haven_e2e_messenger.Discovery.{
  Peer, Datagram, beacon, other_type, undecodable, not_a_dict, Discovery, hear, reap, is_fresh,
  Event, hears, reaps, perform, run, heard,
}

-- Every peer that this event enters satisfies the predicate.
abbrev pub Enters : (Str × Peer → Type 0) → Event → Type 0
Enters Q (hears now host (beacon (some key) (ok name) (ok port))) = Q (
  key,
  record { username = name; identity_pub = key; host = host; tcp_port = port; last_seen = now },
)
Enters Q e = Unit

module _ (Q : Str × Peer → Type 0) where
  All-insert :
      (key : Str) (p : Peer) (peers : Dict Str Peer)
      → Q (key, p)
      → All Q peers
      → All Q (insert key p peers)
  unfolding insert
  All-insert key p [] q all = (q, tt)
  All-insert key p ((k, old) ∷ peers) q (first, all) = elim (Bool-cases (key == k)) [
    | inl same ↦ rw same (subst (λ j. Q (j, p)) (ground arith) q, all)
    | inr other ↦ rw other (first, All-insert key p peers q all)
  ]

  pub All-keep : (now : ℕ) (peers : Dict Str Peer) → All Q peers → All Q (keep (is_fresh now) peers)
  All-keep now [] all = tt
  All-keep now ((k, p) ∷ peers) (q, all) = elim (Bool-cases (is_fresh now (k, p))) [
    | inl fresh ↦ rw fresh (q, All-keep now peers all)
    | inr stale ↦ rw stale (All-keep now peers all)
  ]

  hear-All :
      (now : ℕ) (host : Str) (datagram : Datagram) (d : Discovery)
      → Enters Q (hears now host datagram)
      → All Q d.peers
      → All Q (hear now host datagram d).1.peers
  unfolding hear
  hear-All now host (beacon none username port) d q all = all
  hear-All now host (beacon (some key) (ok name) (ok port)) d q all =
      elim (Bool-cases (key == d.identity_pub_hex)) [
        | inl mine ↦ rw mine all
        | inr foreign ↦ rw foreign (All-insert key _ d.peers q all)
      ]
  hear-All now host (beacon (some key) (err e) port) d q all =
      elim (Bool-cases (key == d.identity_pub_hex)) [
        | inl mine ↦ rw mine all
        | inr foreign ↦ rw foreign all
      ]
  hear-All now host (beacon (some key) (ok name) (err e)) d q all =
      elim (Bool-cases (key == d.identity_pub_hex)) [
        | inl mine ↦ rw mine all
        | inr foreign ↦ rw foreign all
      ]
  hear-All now host other_type d q all = all
  hear-All now host undecodable d q all = all
  hear-All now host not_a_dict d q all = all

  heard-All :
      (on : Bool) (turn : Result (Unit {0}) × Discovery) (d : Discovery)
      → All Q turn.1.peers
      → All Q d.peers
      → All Q (heard on turn d).peers
  heard-All true (ok tt, d') d all' all = all'
  heard-All true (err e, d') d all' all = all'
  heard-All false turn d all' all = all

  pub run-All :
      (events : List Event) (d : Discovery)
      → All (Enters Q) events
      → All Q d.peers
      → All Q (run events d).peers
  unfolding run reap
  run-All [] d enters all = all
  run-All (hears now host datagram ∷ events) d (q, enters) all =
      run-All events (perform (hears now host datagram) d) enters (
        heard-All d.listening (hear now host datagram d) d (hear-All now host datagram d q all) all)
  run-All (reaps now ∷ events) d (q, enters) all =
      run-All events (reap now d) enters (All-keep now d.peers all)

abbrev pub Occurs : Event → List Event → Type 0
Occurs e [] = ⊥
Occurs e (first ∷ events) = (e ≡ first) ⊎ Occurs e events

-- The peer's beacon came, with its name, host and port, at the time at which it was last seen.
abbrev pub WasHeard : List Event → Str × Peer → Type 0
WasHeard events (key, p) =
    Occurs (hears p.last_seen p.host (beacon (some key) (ok p.username) (ok p.tcp_port))) events

Enters-WasHeard : (events : List Event) (e : Event) → Occurs e events → Enters (WasHeard events) e
Enters-WasHeard events (hears now host (beacon (some key) (ok name) (ok port))) at = at
Enters-WasHeard events (hears now host (beacon none name port)) at = tt
Enters-WasHeard events (hears now host (beacon (some key) (err e) port)) at = tt
Enters-WasHeard events (hears now host (beacon (some key) (ok name) (err e))) at = tt
Enters-WasHeard events (hears now host other_type) at = tt
Enters-WasHeard events (hears now host undecodable) at = tt
Enters-WasHeard events (hears now host not_a_dict) at = tt
Enters-WasHeard events (reaps now) at = tt

pub All-Enters :
    (events some_events : List Event)
    → ((e : Event) → Occurs e some_events → Occurs e events)
    → All (Enters (WasHeard events)) some_events
All-Enters events [] within = tt
All-Enters events (e ∷ some_events) within = (
  Enters-WasHeard events e (within e (inl refl)),
  All-Enters events some_events (λ e' at. within e' (inr at)),
)

pub All-both :
    (A B : Str × Peer → Type 0) (peers : Dict Str Peer)
    → All A peers
    → All B peers
    → All (λ p. A p × B p) peers
All-both A B [] a b = tt
All-both A B (p ∷ peers) (a, more_a) (b, more_b) = ((a, b), All-both A B peers more_a more_b)
