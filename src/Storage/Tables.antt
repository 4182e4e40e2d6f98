-- ===== src/Storage/Tables.antt =====
-- The tables of `class Store` of haven/storage.py, with the sessions and the messages in them. A table
-- with a primary key is a dict in the order of its rows; `updated_at` is written and never read, so rows
-- have none. Each method is one step: it holds the lock.
use haven_e2e_messenger.Prelude.{
  ℕ, Str, Bytes, text, Bool, Option, none, some, List, [], ◌∷◌, ◌++◌, ◌≡◌, ◌==◌, keep, take,
  bytes_eq,
}
use haven_e2e_messenger.Prelude.Errors.{Result, ok, or_raise, value_error, ◌>>=◌}
use haven_e2e_messenger.Prelude.Dict.{Dict, lookup, insert}
use haven_e2e_messenger.Crypto.Primitives.{Primitives}
use haven_e2e_messenger.Crypto.Hex.{hex, fromhex}
use haven_e2e_messenger.Crypto.Keys.{KeyPair, hkdf}
use haven_e2e_messenger.Crypto.AtRest.{encrypt_authenticated, decrypt_authenticated}
use haven_e2e_messenger.Crypto.Ratchet.{RatchetSession}

pub record Contact : Type 0 where
  pub username : Str
  pub identity_pub : Bytes
  pub host : Option Str
  pub port : Option ℕ
  pub relay_host : Option Str
  pub relay_port : Option ℕ
  pub verified : Bool
  pub added_at : ℕ

pub data Direction : Type 0 where
  incoming outgoing : Direction

pub record MessageRow : Type 0 where
  pub fingerprint : Str
  pub direction : Direction
  pub kind : Str
  pub encrypted_body : Bytes
  pub timestamp : ℕ

pub record GroupRow : Type 0 where
  pub name : Str
  pub encrypted_state : Bytes

pub record GroupMessageRow : Type 0 where
  pub group_id : Str
  pub sender_identity_pub : Str
  pub kind : Str
  pub encrypted_body : Bytes
  pub timestamp : ℕ

-- `_init_schema`
pub record Tables : Type 0 where
  pub contacts : Dict Str Contact
  pub sessions : Dict Str Bytes
  pub messages : List MessageRow
  pub groups : Dict Str GroupRow
  pub group_messages : List GroupMessageRow

abbrev pub no_rows : Tables
no_rows = record { contacts = []; sessions = []; messages = []; groups = []; group_messages = [] }

-- The dict that `GroupManager._persist` hands over: chains by their key in hexadecimal and their index.
pub record GroupState : Type 0 where
  pub members : Dict Str Str
  pub my_chain : Str × ℕ
  pub peer_chains : Dict Str (Str × ℕ)
  pub removed : Bool

-- UTF-8, and JSON for the two values that are stored: the session's two keys and two indices, and a
-- group's state. Reading may raise. Texts have no lone surrogates, the only ones that `.encode` refuses.
pub record StoreTools : Type 0 where
  pub utf8 : Str → Bytes
  pub from_utf8 : Bytes → Result Str
  pub dump_session : Str × Str × ℕ × ℕ → Bytes
  pub load_session_json : Bytes → Result (Str × Str × ℕ × ℕ)
  pub dump_group : GroupState → Bytes
  pub load_group_json : Bytes → Result GroupState

-- JSON reads back what it wrote.
abbrev pub ReadsSession : StoreTools → Str × Str × ℕ × ℕ → Type 0
ReadsSession T v = T.load_session_json (T.dump_session v) ≡ ok v

abbrev pub ReadsGroup : StoreTools → GroupState → Type 0
ReadsGroup T v = T.load_group_json (T.dump_group v) ≡ ok v

-- The dict that `save_session` dumps.
abbrev pub session_state : RatchetSession → Str × Str × ℕ × ℕ
session_state s = (hex s.send_chain_key, hex s.recv_chain_key, s.send_index, s.recv_index)

-- What `history` gives for a row.
pub record Entry : Type 0 where
  pub direction : Direction
  pub kind : Str
  pub body : Str
  pub ts : ℕ

abbrev pub raise_first : {A B : Type 0} → (A → Result B) → List A → Result (List B)
raise_first f [] = ok []
raise_first f (a ∷ rows) = let rest = raise_first f rows in f a >>= λ b. rest >>= λ bs. ok (b ∷ bs)

module _ (P : Primitives) (identity : KeyPair) where
  -- `self.storage_key`
  unfoldable pub storage_key : Bytes
  storage_key = hkdf P identity.private_key (text "local-storage-v1")

  module _ (T : StoreTools) where
    -- A value of the store under a key of its row, on a nonce.
    abbrev pub seal_row : Bytes → Str → Bytes → Bytes
    seal_row nonce aad plain = encrypt_authenticated P nonce storage_key plain (T.utf8 aad)

    abbrev pub open_row : Str → Bytes → Result Bytes
    open_row aad blob = decrypt_authenticated P storage_key blob (T.utf8 aad)

    -- `save_session`
    unfoldable pub save_session : Bytes → Str → RatchetSession → Tables → Tables
    save_session nonce fingerprint session t =
        let state = T.dump_session (session_state session) in
        record t { sessions = insert fingerprint (seal_row nonce fingerprint state) t.sessions }

    abbrev session_from : Str × Str × ℕ × ℕ → Result RatchetSession
    session_from (send_hex, recv_hex, send_index, recv_index) = do
      send_chain_key ← or_raise (fromhex send_hex) value_error
      recv_chain_key ← or_raise (fromhex recv_hex) value_error
      ok (record {
        send_chain_key = send_chain_key;
        recv_chain_key = recv_chain_key;
        send_index = send_index;
        recv_index = recv_index;
      })

    abbrev pub session_of : Str → Option Bytes → Result (Option RatchetSession)
    session_of fingerprint none = ok none
    session_of fingerprint (some blob) = do
      state ← open_row fingerprint blob
      fields ← T.load_session_json state
      session ← session_from fields
      ok (some session)

    -- `load_session`
    unfoldable pub load_session : Str → Tables → Result (Option RatchetSession)
    load_session fingerprint t = session_of fingerprint (lookup fingerprint t.sessions)

    -- `save_message`
    unfoldable pub save_message : Bytes → ℕ → Str → Direction → Str → Str → Tables → Tables
    save_message nonce now fingerprint direction plaintext kind t =
        let row : MessageRow = record {
          fingerprint = fingerprint;
          direction = direction;
          kind = kind;
          encrypted_body = seal_row nonce fingerprint (T.utf8 plaintext);
          timestamp = now;
        } in
        record t { messages = t.messages ++ (row ∷ []) }

    abbrev pub entry_of : Str → MessageRow → Result Entry
    entry_of fingerprint row = do
      plain ← open_row fingerprint row.encrypted_body
      body ← T.from_utf8 plain
      ok (record { direction = row.direction; kind = row.kind; body = body; ts = row.timestamp })

    -- `history`
    unfoldable pub history : Str → ℕ → Tables → Result (List Entry)
    history fingerprint limit t =
        raise_first (entry_of fingerprint)
          (take limit (keep (λ (row : MessageRow). row.fingerprint == fingerprint) t.messages))
