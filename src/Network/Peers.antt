-- ===== src/Network/Peers.antt =====
-- Two managers of haven/network.py on toy primitives.
use haven_e2e_messenger.Prelude.{ℕ, Str, text, false, [], ◌∷◌}
use haven_e2e_messenger.Prelude.Errors.{ok}
use haven_e2e_messenger.Crypto.Toy.{byte_toy}
use haven_e2e_messenger.Storage.Tables.{StoreTools, no_rows}
use haven_e2e_messenger.Network.State.{NetworkManager}
use haven_e2e_messenger.Network.Messages.{Drawn}

abbrev pub tools : StoreTools
tools = record {
  utf8 = λ s. s;
  from_utf8 = λ b. ok b;
  dump_session = λ s. [];
  load_session_json = λ b. ok ([], [], 0, 0);
  dump_group = λ g. [];
  load_group_json =
      λ b. ok (record { members = []; my_chain = ([], 0); peer_chains = []; removed = false });
}

abbrev pub drawn : Drawn
drawn = record { nonce = 1 ∷ []; session_nonce = 2 ∷ []; row_nonce = 3 ∷ []; now = 4 }

abbrev pub manager : ℕ → Str → NetworkManager
manager key username = record {
  identity = record { private_key = key ∷ []; public_bytes = byte_toy.public_key (key ∷ []) };
  username = username;
  peers = [];
  next_peer = 0;
  connections = [];
  relays = (text "r:1", key) ∷ [];
  pending = [];
  offline = [];
  broken = [];
  sent = [];
  store = no_rows;
  calls = [];
}

abbrev pub alice : NetworkManager
alice = manager 3 (text "alice")

abbrev pub bob : NetworkManager
bob = manager 5 (text "bob")
