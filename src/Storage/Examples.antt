-- ===== src/Storage/Examples.antt =====
-- The tables of haven/storage.py at concrete inputs, with toy texts for JSON.
use haven_e2e_messenger.Prelude.{
  ◌≡◌, refl, ℕ, Str, Bytes, text, true, false, none, some, List, [], ◌∷◌, ◌++◌, length, take, drop,
  map, ◌==◌, bytes_eq, if◌then◌else◌, take-append, drop-append, arith,
}
use haven_e2e_messenger.Prelude.Errors.{Result, ok, err, value_error}
use haven_e2e_messenger.Prelude.Dict.{Dict, lookup}
use haven_e2e_messenger.Crypto.Hex.{hex}
use haven_e2e_messenger.Crypto.Toy.{toy, toy-SealOpens}
use haven_e2e_messenger.Crypto.Keys.{KeyPair, from_private_bytes}
use haven_e2e_messenger.Crypto.Ratchet.{RatchetSession}
use haven_e2e_messenger.Groups.State.{Group}
use haven_e2e_messenger.Storage.Tables.{
  Contact, Tables, no_rows, Direction, incoming, outgoing, StoreTools, GroupState, ReadsSession,
  session_state, load_session, save_session, history,
}
use haven_e2e_messenger.Storage.Contacts.{upsert_contact}
use haven_e2e_messenger.Storage.Sessions.{load_session-save_session}
use haven_e2e_messenger.Storage.History.{Saved, save_all, saved_for, shown, history_shows_first}
use haven_e2e_messenger.Storage.GroupRows.{load_groups}
use haven_e2e_messenger.Storage.Restart.{persist_all, kept_groups, groups_survive_restart}

-- Numbers, the length of the first text, and both texts.
abbrev dump_toy : Str × Str × ℕ × ℕ → Bytes
dump_toy (a, b, i, j) = i ∷ j ∷ length a ∷ (a ++ b)

abbrev load_toy : Bytes → Result (Str × Str × ℕ × ℕ)
load_toy (i ∷ j ∷ n ∷ rest) = ok (take n rest, drop n rest, i, j)
load_toy _ = err value_error

-- A group without members, by the index and the key of its own chain.
abbrev dump_group_toy : GroupState → Bytes
dump_group_toy g = g.my_chain.1 ∷ g.my_chain.0

abbrev load_group_toy : Bytes → Result GroupState
load_group_toy [] = err value_error
load_group_toy (index ∷ key) =
    ok (record { members = []; my_chain = (key, index); peer_chains = []; removed = false })

abbrev tools : StoreTools
tools = record {
  utf8 = λ s. s;
  from_utf8 = λ b. ok b;
  dump_session = dump_toy;
  load_session_json = load_toy;
  dump_group = dump_group_toy;
  load_group_json = load_group_toy;
}

abbrev me : KeyPair
me = from_private_bytes toy (3 ∷ [])

abbrev nonce : Bytes
nonce = text "0123456789ab"

abbrev session : RatchetSession
session = record {
  send_chain_key = 1 ∷ 2 ∷ [];
  recv_chain_key = 3 ∷ [];
  send_index = 4;
  recv_index = 5;
}

session_reads : (s : RatchetSession) → ReadsSession tools (session_state s)
session_reads s =
    rw
      (
        take-append (hex s.send_chain_key) (hex s.recv_chain_key),
        drop-append (hex s.send_chain_key) (hex s.recv_chain_key),
      )
      refl

load_session-save_session_example :
    load_session toy me tools
      (text "ann")
      (save_session toy me tools nonce (text "bob") session no_rows)
    ≡ (if text "ann" == text "bob"
        then ok (some session)
        else load_session toy me tools (text "ann") no_rows)
load_session-save_session_example =
    load_session-save_session toy toy-SealOpens me tools nonce (text "bob") (text "ann") session
      no_rows refl (omega arith, (omega arith, tt)) (omega arith, tt) (session_reads session)

abbrev said : Str → Direction → Str → ℕ → Saved
said to direction body now = record {
  nonce = nonce;
  now = now;
  fingerprint = to;
  direction = direction;
  body = body;
  kind = text "text";
}

abbrev talk : List Saved
talk =
    said (text "bob") outgoing (text "hi") 1
    ∷ said (text "eve") incoming (text "psst") 2
    ∷ said (text "bob") incoming (text "ho") 3
    ∷ []

history_shows_first_example :
    history toy me tools (text "bob") 2 (save_all toy me tools talk no_rows)
    ≡ ok (map shown (take 2 (saved_for (text "bob") talk)))
history_shows_first_example =
    history_shows_first toy me tools toy-SealOpens (text "bob") 2 talk
      ((refl, refl), ((refl, refl), ((refl, refl), tt)))

abbrev late : Saved
late = said (text "bob") incoming (text "news") 4

abbrev club : Group
club = record {
  name = text "club";
  members = [];
  my_chain = record { chain_key = 7 ∷ 8 ∷ []; index = 9 };
  peer_chains = [];
  removed = false;
}

abbrev saves : List (Bytes × Str × Group)
saves =
    (nonce, text "g1", club)
    ∷ (nonce, text "g2", record club { name = text "band" })
    ∷ (nonce, text "g1", record club { name = text "choir" })
    ∷ []

groups_survive_restart_example :
    (groups : Dict Str Group) × (load_groups toy me tools (persist_all toy me tools saves no_rows)
      ≡ ok groups)
    × ((id : Str) → lookup id groups ≡ lookup id (kept_groups saves []))
groups_survive_restart_example =
    groups_survive_restart toy me tools toy-SealOpens saves no_rows
      (
        (refl, (omega arith, (omega arith, tt)), tt, refl),
        (
          (refl, (omega arith, (omega arith, tt)), tt, refl),
          ((refl, (omega arith, (omega arith, tt)), tt, refl), tt),
        ),
      )
      refl

abbrev bob : Contact
bob = record {
  username = text "bob";
  identity_pub = 1 ∷ [];
  host = some (text "10.0.0.2");
  port = some 7000;
  relay_host = none;
  relay_port = none;
  verified = true;
  added_at = 5;
}

abbrev knows_bob : Tables
knows_bob = record no_rows { contacts = (text "fp", bob) ∷ [] }

abbrev renamed : Tables
renamed =
    upsert_contact 9 (text "fp") (text "bobby") (2 ∷ []) none none (some (text "relay")) (some 80)
      knows_bob
