-- ===== src/Discovery/Examples.antt =====
-- The peers of haven/discovery.py at concrete inputs.
use haven_e2e_messenger.Prelude.{
  ◌≡◌, refl, text, true, none, some, List, [], ◌∷◌, All, bytes_eq, bytes_dec,
}
use haven_e2e_messenger.Prelude.Errors.{ok}
use haven_e2e_messenger.Prelude.Dict.{lookup, insert}
use haven_e2e_messenger.Discovery.{
  Peer, beacon, Discovery, Event, hears, reaps, hear, reap, run, snapshot,
}
use haven_e2e_messenger.Discovery.Heard.{WasHeard}
use haven_e2e_messenger.Discovery.Peers.{IsRecent, others_are_kept_fresh}

abbrev alone : Discovery
alone = record { identity_pub_hex = text "aa"; peers = []; listening = true }

abbrev day : List Event
day =
    hears 1 (text "10.0.0.2") (beacon (some (text "bb")) (ok (text "bob")) (ok 7000))
    ∷ hears 2 (text "10.0.0.1") (beacon (some (text "aa")) (ok (text "ann")) (ok 7001))
    ∷ reaps 9
    ∷ []

abbrev bob : Peer
bob = record {
  username = text "bob";
  identity_pub = text "bb";
  host = text "10.0.0.2";
  tcp_port = 7000;
  last_seen = 1;
}

day_runs : snapshot (run day alone) ≡ bob ∷ []
unfolding snapshot run hear reap insert bytes_dec
day_runs = refl

others_are_kept_fresh_example :
    (lookup (text "aa") (reap 16 (run day alone)).peers ≡ none)
    × All (λ p. IsRecent 16 p × WasHeard day p) (reap 16 (run day alone)).peers
others_are_kept_fresh_example = others_are_kept_fresh (text "aa") day 16 alone refl refl
