-- ===== src/Groups/Examples.antt =====
-- Two members of one group of haven/groups.py, and the theorems about groups at concrete inputs.
use haven_e2e_messenger.Prelude.{
  ◌≡◌, refl, Str, Bytes, text, false, some, List, [], ◌∷◌, ◌++◌, arith, All, map, keep, ◌==◌,
  bytes_eq, bytes_dec,
}
use haven_e2e_messenger.Prelude.Errors.{Result, ok}
use haven_e2e_messenger.Prelude.Dict.{Dict, lookup, insert}
use haven_e2e_messenger.Crypto.Hex.{hex, fromhex, hex_value, hex_pair, is_space}
use haven_e2e_messenger.Crypto.Toy.{toy, toy-SealOpens}
use haven_e2e_messenger.Groups.State.{Group, GroupManager, fresh_chain}
use haven_e2e_messenger.Groups.Manager.{sender_key_of, remove_member}
use haven_e2e_messenger.Groups.Inbound.{handle_incoming}
use haven_e2e_messenger.Groups.Letters.{Readable, others, peer_of}
use haven_e2e_messenger.Groups.Messages.{SealsBytes}
use haven_e2e_messenger.Groups.Stream.{
  Draft, InSync, exchange_all, stored, addressed, group_messages_arrive,
}
use haven_e2e_messenger.Groups.Membership.{sender_key_is_kept}
use haven_e2e_messenger.Groups.Removal.{IsSpelled, notice, send_all, removed_is_left_out}

abbrev ann : Bytes
ann = 1 ∷ []

abbrev bob : Bytes
bob = 2 ∷ []

abbrev gid : Str
gid = text "ab"

abbrev same : Str → Bytes
same s = s

abbrev back : Bytes → Result Str
back b = ok b

abbrev trip : Group
trip = record {
  name = text "trip";
  members = (hex ann, text "Ann") ∷ (hex bob, text "Bob") ∷ [];
  my_chain = fresh_chain (9 ∷ []);
  peer_chains = [];
  removed = false;
}

abbrev trip_of_bob : Group
trip_of_bob = record trip {
  my_chain = fresh_chain (8 ∷ []);
  peer_chains = (hex ann, trip.my_chain) ∷ [];
}

abbrev manager : Bytes → Str → Dict Str Group → GroupManager
manager identity username groups = record {
  identity = identity;
  username = username;
  groups = groups;
  saved = groups;
  history = [];
  sent = [];
}

abbrev of_ann : GroupManager
of_ann = manager ann (text "Ann") ((gid, trip) ∷ [])

abbrev of_bob : GroupManager
of_bob = manager bob (text "Bob") ((gid, trip_of_bob) ∷ [])

trip-Readable : All Readable trip.members
unfolding hex fromhex is_space hex_pair hex_value
trip-Readable = ((ann, refl), ((bob, refl), tt))

trip-IsSpelled : All IsSpelled trip.members
unfolding hex fromhex is_space hex_pair hex_value
trip-IsSpelled = (((ann, refl), refl), (((bob, refl), refl), tt))

ann_has_trip : lookup gid of_ann.groups ≡ some trip
unfolding lookup bytes_dec
ann_has_trip = refl

bob_has_trip : lookup gid of_bob.groups ≡ some trip_of_bob
unfolding lookup bytes_dec
bob_has_trip = refl

bob_has_copy : lookup (hex ann) trip_of_bob.peer_chains ≡ some trip.my_chain
unfolding lookup bytes_dec hex
bob_has_copy = refl

bob_is_listed :
    keep (λ m. peer_of m == bob) (others (hex ann ∷ []) trip.members) ≡ (hex bob, text "Bob") ∷ []
unfolding hex fromhex bytes_dec is_space hex_pair hex_value
bob_is_listed = refl

abbrev in_sync : InSync gid of_ann of_bob
in_sync = record {
  sending = trip;
  receiving = trip_of_bob;
  is_sending = ann_has_trip;
  is_receiving = bob_has_trip;
  copied = bob_has_copy;
  readable = trip-Readable;
  entry = (hex bob, text "Bob");
  listed = bob_is_listed;
}

toy-SealsBytes : SealsBytes toy
toy-SealsBytes key nonce plain aad h = (omega arith, h)

abbrev drafts : List Draft
drafts =
    record { nonce = 5 ∷ []; body = text "hi"; kind = text "text" }
    ∷ record { nonce = 6 ∷ []; body = text "x"; kind = text "text" }
    ∷ []

group_messages_arrive_example :
    (exchange_all toy same back gid drafts (of_ann, of_bob)).1.history ≡ map (stored gid ann) drafts
group_messages_arrive_example =
    group_messages_arrive toy same back toy-SealOpens toy-SealsBytes gid drafts of_ann of_bob
      in_sync (omega arith)
      (
        ((omega arith, tt), ((omega arith, (omega arith, tt)), refl)),
        (((omega arith, tt), ((omega arith, tt), refl)), tt),
      )

removed_is_left_out_example :
    addressed bob (send_all toy same gid drafts (remove_member (7 ∷ []) gid bob of_ann).1).sent
    ≡ [] ++ notice bob gid (lookup (hex bob) trip.members)
unfolding lookup bytes_dec
removed_is_left_out_example =
    removed_is_left_out toy same (7 ∷ []) bob gid trip drafts of_ann refl trip-IsSpelled

abbrev newcomer : GroupManager
newcomer = manager bob (text "Bob") []

sender_key_is_kept_example :
    lookup gid
      (handle_incoming toy same back [] ann
        (sender_key_of gid (fresh_chain (4 ∷ [])))
        of_bob).1.groups
    ≡ some (record trip_of_bob {
      peer_chains = insert (hex ann) (fresh_chain (4 ∷ [])) trip_of_bob.peer_chains;
    })
unfolding lookup bytes_dec
sender_key_is_kept_example =
    sender_key_is_kept toy same back [] ann gid (fresh_chain (4 ∷ [])) trip_of_bob of_bob
      (omega arith, tt) refl
