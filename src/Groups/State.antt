-- ===== src/Groups/State.antt =====
-- The state of `GroupManager` of haven/groups.py, the control frames, and the helpers `_require_group`,
-- `_persist`, `_notify_update` and `_send_control`.
use haven_e2e_messenger.Prelude.{
  ℕ, Str, Bytes, Bool, Option, none, some, List, [], ◌∷◌, ◌++◌, if◌then◌else◌, bytes_eq, contains,
}
use haven_e2e_messenger.Prelude.Errors.{Exn, Result, or_raise, key_error, value_error}
use haven_e2e_messenger.Prelude.Exec.{Exec, raise, lift, gets, modify, skip, ◌>>=◌, ◌>>◌}
use haven_e2e_messenger.Prelude.Dict.{Dict, lookup, insert}
use haven_e2e_messenger.Crypto.Hex.{hex, fromhex}
use haven_e2e_messenger.Crypto.Ratchet.{SenderKeyChain}

-- A control frame after `json.loads`. A field is the value that reading it gives, with the default of
-- `get` where the code has one, or the exception that reading it raises: KeyError where it is missing.
-- Members are pairs of an identity key in hexadecimal and a username.
pub data Control : Type 0 where
  -- group_id, name, members, and the sender key's chain_key and index
  group_invite : Result Str → Result Str → Result (Dict Str Str) → Result Str → Result ℕ → Control
  -- group_id, chain_key, index
  group_sender_key : Result Str → Result Str → Result ℕ → Control
  -- group_id, kind, and the envelope's index, nonce and ciphertext
  group_msg : Result Str → Result Str → Result ℕ → Result Str → Result Str → Control
  -- group_id, and the member's identity_pub and username
  group_member_add : Result Str → Result Str → Result Str → Control
  -- group_id, member_identity_pub
  group_member_remove : Result Str → Result Str → Control
  -- Any other object.
  other_type : Control
  -- A text that json.loads refuses with ValueError, or whose value has no `get`.
  malformed : Exn → Control

-- The dict that a group is.
pub record Group : Type 0 where
  pub name : Str
  pub members : Dict Str Str
  pub my_chain : SenderKeyChain
  pub peer_chains : Dict Str SenderKeyChain
  pub removed : Bool

-- A row of `save_group_message`: group, sender, text and kind.
pub record GroupMessage : Type 0 where
  pub group_id : Str
  pub sender : Str
  pub body : Str
  pub kind : Str

-- What goes to `_ensure_route_and_send`. The network finds the route and waits for the connection.
pub record Outgoing : Type 0 where
  pub to : Bytes
  pub username_hint : Str
  pub frame : Control

-- `saved` is what the store holds of each group; `history` are the stored messages.
pub record GroupManager : Type 0 where
  pub identity : Bytes
  pub username : Str
  pub groups : Dict Str Group
  pub saved : Dict Str Group
  pub history : List GroupMessage
  pub sent : List Outgoing

abbrev pub my_pub_hex : GroupManager → Str
my_pub_hex s = hex s.identity

-- `SenderKeyChain(chain_key=os.urandom(32))`
abbrev pub fresh_chain : Bytes → SenderKeyChain
fresh_chain drawn = record { chain_key = drawn; index = 0 }

-- `_require_group`
abbrev pub require_group : Str → Exec GroupManager Group
require_group group_id s = (or_raise (lookup group_id s.groups) value_error, s)

-- `self.groups[group_id] = g`, and what a change of `g` in place does.
abbrev pub set_group : Str → Group → Exec GroupManager (Unit {0})
set_group group_id g = modify (λ s. record s { groups = insert group_id g s.groups })

abbrev pub save_group : Str → Option Group → Exec GroupManager (Unit {0})
save_group group_id none = raise key_error
save_group group_id (some g) = modify (λ s. record s { saved = insert group_id g s.saved })

-- `_persist`, and `_notify_update` after it, which redraws the list of groups.
abbrev pub persist : Str → Exec GroupManager (Unit {0})
persist group_id = gets (λ s. lookup group_id s.groups) >>= λ g. save_group group_id g

abbrev pub save_group_message : GroupMessage → Exec GroupManager (Unit {0})
save_group_message m = modify (λ s. record s { history = s.history ++ (m ∷ []) })

-- `_send_control`
abbrev pub send_control : Bytes → Str → Control → Exec GroupManager (Unit {0})
send_control identity_pub username_hint frame = modify λ s. record s {
  sent =
      s.sent ++ (record { to = identity_pub; username_hint = username_hint; frame = frame } ∷ []);
}

abbrev pub bytes_of : Str → Result Bytes
bytes_of s = or_raise (fromhex s) value_error

abbrev pub send_each : Bytes → Str → List Control → Exec GroupManager (Unit {0})
send_each identity_pub username_hint [] = skip
send_each identity_pub username_hint (frame ∷ frames) =
    send_control identity_pub username_hint frame >> send_each identity_pub username_hint frames

-- `for pub_hex, uname in members: if pub_hex in without: continue; send the frames`
unfoldable pub tell : List Str → List Control → Dict Str Str → Exec GroupManager (Unit {0})
tell without frames [] = skip
tell without frames ((pub_hex, uname) ∷ members) =
    let rest = tell without frames members in
    if contains pub_hex without
    then rest
    else (lift (bytes_of pub_hex) >>= λ identity_pub. send_each identity_pub uname frames >> rest)
