-- ===== src/Storage/History.antt =====
-- What the history of haven/storage.py shows of the messages that were saved.
use haven_e2e_messenger.Prelude.{
  ◌≡◌, refl, sym, ap, ◌∙◌, ℕ, zero, suc, ◌≤◌, Str, Bytes, List, [], ◌∷◌, ◌++◌, ◌==◌, bytes_eq, keep,
  take, length, map, All, All-take, take_within, arith, Bool-cases, inl, inr, append-nil,
  append_assoc,
}
use haven_e2e_messenger.Prelude.Errors.{ok}
use haven_e2e_messenger.Crypto.Primitives.{Primitives, SealOpens}
use haven_e2e_messenger.Crypto.Keys.{KeyPair}
use haven_e2e_messenger.Crypto.AtRest.Opening.{decrypt-encrypt}
use haven_e2e_messenger.Storage.Tables.{
  Tables, no_rows, MessageRow, Direction, StoreTools, Entry, entry_of, seal_row, raise_first,
  save_message, history, storage_key,
}

-- One call of `save_message`, with what it draws and reads.
pub record Saved : Type 0 where
  pub nonce : Bytes
  pub now : ℕ
  pub fingerprint : Str
  pub direction : Direction
  pub body : Str
  pub kind : Str

abbrev pub shown : Saved → Entry
shown m = record { direction = m.direction; kind = m.kind; body = m.body; ts = m.now }

-- The rows of one contact, and of one contact's messages among those saved.
abbrev pub rows_of : Str → List MessageRow → List MessageRow
rows_of fingerprint = keep (λ (row : MessageRow). row.fingerprint == fingerprint)

abbrev pub saved_for : Str → List Saved → List Saved
saved_for fingerprint = keep (λ (m : Saved). m.fingerprint == fingerprint)

module _ (P : Primitives) (identity : KeyPair) (T : StoreTools) where
  abbrev pub row_of : Saved → MessageRow
  row_of m = record {
    fingerprint = m.fingerprint;
    direction = m.direction;
    kind = m.kind;
    encrypted_body = seal_row P identity T m.nonce m.fingerprint (T.utf8 m.body);
    timestamp = m.now;
  }

  unfoldable pub save_all : List Saved → Tables → Tables
  save_all [] t = t
  save_all (m ∷ saved) t =
      save_all saved
        (save_message P identity T m.nonce m.now m.fingerprint m.direction m.body m.kind t)

  pub save_all-messages :
      (saved : List Saved) (t : Tables)
      → (save_all saved t).messages ≡ t.messages ++ map row_of saved
  unfolding save_all save_message
  save_all-messages [] t = sym (append-nil t.messages)
  save_all-messages (m ∷ saved) t =
      save_all-messages saved
        (save_message P identity T m.nonce m.now m.fingerprint m.direction m.body m.kind t)
      ∙ append_assoc t.messages (row_of m ∷ []) (map row_of saved)

  -- The history reads the messages alone.
  pub history-messages :
      (fingerprint : Str) (limit : ℕ) (t u : Tables)
      → t.messages ≡ u.messages
      → history P identity T fingerprint limit t ≡ history P identity T fingerprint limit u
  unfolding history
  history-messages fingerprint limit t u same =
      ap
        (λ rows.
          raise_first (entry_of P identity T fingerprint) (take limit (rows_of fingerprint rows)))
        same

  rows_of-map :
      (fingerprint : Str) (saved : List Saved)
      → rows_of fingerprint (map row_of saved) ≡ map row_of (saved_for fingerprint saved)
  rows_of-map fingerprint [] = refl
  rows_of-map fingerprint (m ∷ saved) = elim (Bool-cases (m.fingerprint == fingerprint)) [
    | inl same ↦ rw same (ap (λ l. row_of m ∷ l) (rows_of-map fingerprint saved))
    | inr other ↦ rw other (rows_of-map fingerprint saved)
  ]

  take-map : (n : ℕ) (saved : List Saved) → take n (map row_of saved) ≡ map row_of (take n saved)
  take-map zero saved = refl
  take-map (suc n) [] = refl
  take-map (suc n) (m ∷ saved) = ap (λ l. row_of m ∷ l) (take-map n saved)

  -- A text that UTF-8 takes, saved under a nonce of 12 bytes.
  abbrev pub IsStorable : Saved → Type 0
  IsStorable m = (length m.nonce ≡ 12) × (T.from_utf8 (T.utf8 m.body) ≡ ok m.body)

  module _ (opens : SealOpens P) where
    entry_of-row_of :
        (m : Saved) → IsStorable m → entry_of P identity T m.fingerprint (row_of m) ≡ ok (shown m)
    entry_of-row_of m (nonce_12, back) =
        let plain = T.utf8 m.body in
        rw
          (decrypt-encrypt P opens m.nonce (storage_key P identity) plain (T.utf8 m.fingerprint)
            nonce_12)
          (rw back refl)

    abbrev IsFor : Str → Saved → Type 0
    IsFor fingerprint m = IsStorable m × (m.fingerprint ≡ fingerprint)

    entry_of-IsFor :
        (fingerprint : Str) (m : Saved)
        → IsFor fingerprint m
        → entry_of P identity T fingerprint (row_of m) ≡ ok (shown m)
    entry_of-IsFor fingerprint m (storable, same) =
        ap (λ fp. entry_of P identity T fp (row_of m)) (sym same) ∙ entry_of-row_of m storable

    raise_first-map :
        (fingerprint : Str) (saved : List Saved)
        → All (IsFor fingerprint) saved
        → raise_first (entry_of P identity T fingerprint) (map row_of saved) ≡ ok (map shown saved)
    raise_first-map fingerprint [] h = refl
    raise_first-map fingerprint (m ∷ saved) (good, h) =
        rw (entry_of-IsFor fingerprint m good) (rw (raise_first-map fingerprint saved h) refl)

    saved_for-IsFor :
        (fingerprint : Str) (saved : List Saved)
        → All IsStorable saved
        → All (IsFor fingerprint) (saved_for fingerprint saved)
    saved_for-IsFor fingerprint [] h = tt
    saved_for-IsFor fingerprint (m ∷ saved) (good, h) =
        elim (Bool-cases (m.fingerprint == fingerprint)) [
          | inl same ↦ rw same ((good, ground arith), saved_for-IsFor fingerprint saved h)
          | inr other ↦ rw other (saved_for-IsFor fingerprint saved h)
        ]

    -- The history of a contact is the first `limit` of the messages that were saved for it, in the order
    -- of saving, with their texts, whatever was saved for others in between. Conditions: the texts
    -- encode, each nonce has 12 bytes, and what was sealed opens.
    pub history_shows_first :
        (fingerprint : Str) (limit : ℕ) (saved : List Saved)
        → All IsStorable saved
        → history P identity T fingerprint limit (save_all saved no_rows)
          ≡ ok (map shown (take limit (saved_for fingerprint saved)))
    unfolding history
    history_shows_first fingerprint limit saved h = rw (save_all-messages saved no_rows) (
        rw (rows_of-map fingerprint saved) (
          rw (take-map limit (saved_for fingerprint saved)) (
            raise_first-map fingerprint (take limit (saved_for fingerprint saved)) (
              All-take (IsFor fingerprint) limit (saved_for fingerprint saved)
                (saved_for-IsFor fingerprint saved h)))))

rows_of-append :
    (fingerprint : Str) (xs ys : List MessageRow)
    → rows_of fingerprint (xs ++ ys) ≡ rows_of fingerprint xs ++ rows_of fingerprint ys
rows_of-append fingerprint [] ys = refl
rows_of-append fingerprint (x ∷ xs) ys = ground (arith, rows_of-append fingerprint xs ys)

-- Once a contact has `limit` messages, a message that is saved for it later does not show in its
-- history, and nor does any other message.
pub newest_is_not_shown :
    (P : Primitives) (identity : KeyPair) (T : StoreTools) (limit : ℕ) (fingerprint : Str)
    (m : Saved) (t : Tables)
    → limit ≤ length (rows_of fingerprint t.messages)
    → history P identity T fingerprint limit
        (save_message P identity T m.nonce m.now m.fingerprint m.direction m.body m.kind t)
      ≡ history P identity T fingerprint limit t
unfolding history save_message
newest_is_not_shown P identity T limit fingerprint m t full =
    let rows = rows_of fingerprint t.messages in
    let new = row_of P identity T m ∷ [] in
    ap (raise_first (entry_of P identity T fingerprint)) (
      ap (take limit) (rows_of-append fingerprint t.messages new)
      ∙ take_within limit rows (rows_of fingerprint new) full)
