-- ===== src/Storage/Sessions.antt =====
-- A session of haven/storage.py comes back as it was saved.
use haven_e2e_messenger.Prelude.{
  ◌≡◌, refl, ap, ◌∙◌, ℕ, Str, Bytes, false, some, length, All, arith, ◌==◌, bytes_eq, if◌then◌else◌,
  Bool-cases, inl, inr,
}
use haven_e2e_messenger.Prelude.Errors.{ok}
use haven_e2e_messenger.Prelude.Dict.{lookup-insert, lookup-insert_same}
use haven_e2e_messenger.Crypto.Primitives.{Primitives, SealOpens}
use haven_e2e_messenger.Crypto.Hex.{fromhex-hex, IsByte}
use haven_e2e_messenger.Crypto.Keys.{KeyPair}
use haven_e2e_messenger.Crypto.AtRest.Opening.{decrypt-encrypt}
use haven_e2e_messenger.Crypto.Ratchet.{RatchetSession}
use haven_e2e_messenger.Storage.Tables.{
  Tables, StoreTools, ReadsSession, session_state, save_session, load_session, storage_key,
  session_of, seal_row,
}

module _ (P : Primitives) (opens : SealOpens P) (identity : KeyPair) (T : StoreTools) where
  load_session_same :
      (nonce : Bytes) (fingerprint : Str) (session : RatchetSession) (t : Tables)
      → length nonce ≡ 12
      → All IsByte session.send_chain_key
      → All IsByte session.recv_chain_key
      → ReadsSession T (session_state session)
      → load_session P identity T fingerprint
          (save_session P identity T nonce fingerprint session t)
        ≡ ok (some session)
  unfolding load_session save_session
  load_session_same nonce fingerprint session t nonce_12 send_bytes recv_bytes back =
      let fields : Str × Str × ℕ × ℕ = (session_state session) in
      let state = T.dump_session fields in
      rw (lookup-insert_same fingerprint (seal_row P identity T nonce fingerprint state) t.sessions)
        (rw
          (decrypt-encrypt P opens nonce (storage_key P identity) state (T.utf8 fingerprint)
            nonce_12)
          (rw back (
            rw (fromhex-hex session.send_chain_key send_bytes)
              (rw (fromhex-hex session.recv_chain_key recv_bytes) refl))))

  load_session_other :
      (nonce : Bytes) (fingerprint other : Str) (session : RatchetSession) (t : Tables)
      → (other == fingerprint) ≡ false
      → load_session P identity T other (save_session P identity T nonce fingerprint session t)
        ≡ load_session P identity T other t
  unfolding load_session save_session
  load_session_other nonce fingerprint other session t different =
      let state = T.dump_session (session_state session) in
      ap (session_of P identity T other) (
        lookup-insert other fingerprint (seal_row P identity T nonce fingerprint state) t.sessions
        ∙ rw different refl)

  -- A session that was saved for a contact is loaded for it with its keys and indices, and for every
  -- other contact what was loaded before is. Conditions: the nonce has 12 bytes, the keys consist of
  -- bytes, what was sealed opens and JSON reads back what it wrote.
  pub load_session-save_session :
      (nonce : Bytes) (fingerprint other : Str) (session : RatchetSession) (t : Tables)
      → length nonce ≡ 12
      → All IsByte session.send_chain_key
      → All IsByte session.recv_chain_key
      → ReadsSession T (session_state session)
      → load_session P identity T other (save_session P identity T nonce fingerprint session t)
        ≡ (if other == fingerprint then ok (some session) else load_session P identity T other t)
  load_session-save_session nonce fingerprint other session t nonce_12 send_bytes recv_bytes back =
      elim (Bool-cases (other == fingerprint)) [
        | inl same ↦
            rw same
              let saved = save_session P identity T nonce fingerprint session t in
                let e : other ≡ fingerprint = ground arith in
                ap (λ fp. load_session P identity T fp saved) e
                ∙ load_session_same nonce fingerprint session t nonce_12 send_bytes recv_bytes back
        | inr different ↦
            rw different (load_session_other nonce fingerprint other session t different)
      ]
