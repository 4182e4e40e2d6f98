-- ===== src/Crypto/Delivery/Flow.antt =====
-- One direction of a conversation: the receiver has what was sent, up to what is on its way.
use haven_e2e_messenger.Prelude.{
  ◌≡◌, refl, sym, ap, ◌∙◌, ◌<◌, ◌+◌, ℕ, suc, length, Bytes, List, [], ◌∷◌, ◌++◌, append_assoc,
}
use haven_e2e_messenger.Prelude.Errors.{ok}
use haven_e2e_messenger.Crypto.Primitives.{Primitives, SealOpens}
use haven_e2e_messenger.Crypto.Ratchet.{
  Envelope, SenderKeyChain, u64_mod, chain_encrypt, chain_decrypt,
}
use haven_e2e_messenger.Crypto.Ratchet.Steps.{chain_decrypt-chain_encrypt}

-- `got` is `sent` without its last `n` entries.
abbrev pub IsPrefixUpTo : ℕ → List Bytes → List Bytes → Type 0
IsPrefixUpTo n got sent = (rest : List Bytes) × (got ++ rest ≡ sent) × (length rest ≡ n)

module _ (P : Primitives) (aad : Bytes) where
  -- Decrypting the envelopes in order from the receiver's chain yields the plaintexts, and ends at
  -- the sender's chain.
  abbrev pub Pending : List Envelope → List Bytes → SenderKeyChain → SenderKeyChain → Type 0
  Pending [] [] r s = r ≡ s
  Pending (e ∷ es) (p ∷ ps) r s =
      (r' : SenderKeyChain) × (chain_decrypt P e aad r ≡ (ok p, r')) × Pending es ps r' s
  Pending _ _ r s = ⊥

  abbrev pub Flow :
      List Bytes → List Bytes → List Envelope → SenderKeyChain → SenderKeyChain → Type 0
  Flow got sent flight r s = (rest : List Bytes) × (got ++ rest ≡ sent) × Pending flight rest r s

  Pending-append :
      (e : Envelope) (p : Bytes) (s' : SenderKeyChain) (es : List Envelope) (ps : List Bytes)
      (r s : SenderKeyChain)
      → chain_decrypt P e aad s ≡ (ok p, s')
      → Pending es ps r s
      → Pending (es ++ (e ∷ [])) (ps ++ (p ∷ [])) r s'
  Pending-append e p s' [] [] r s h same = (s', rw same h, refl)
  Pending-append e p s' (f ∷ es) (q ∷ ps) r s h (r', d, rest) =
      (r', d, Pending-append e p s' es ps r' s h rest)
  Pending-append e p s' [] (q ∷ ps) r s h none_such = absurd none_such
  Pending-append e p s' (f ∷ es) [] r s h none_such = absurd none_such

  -- A send adds its plaintext to the flow.
  pub Flow-send :
      SealOpens P
      → (nonce plain : Bytes) (got sent : List Bytes) (flight : List Envelope)
        (r s : SenderKeyChain)
      → s.index < u64_mod
      → Flow got sent flight r s
      → (e : Envelope) × (s' : SenderKeyChain) × (chain_encrypt P nonce plain aad s ≡ (ok e, s'))
        × (s'.index ≡ s.index + 1)
        × Flow got (sent ++ (plain ∷ [])) (flight ++ (e ∷ [])) r s'
  Flow-send opens nonce plain got sent flight r s h (rest, whole, pending) =
      let (e, s', made, opened, next) = chain_decrypt-chain_encrypt P opens nonce plain aad s h in
      (
        e,
        s',
        made,
        next,
        (
          rest ++ (plain ∷ []),
          sym (append_assoc got rest (plain ∷ [])) ∙ ap (λ l. l ++ (plain ∷ [])) whole,
          Pending-append e plain s' flight rest r s opened pending,
        ),
      )

  -- The oldest envelope decrypts, and moves one plaintext to what the receiver has.
  pub Flow-receive :
      (e : Envelope) (got sent : List Bytes) (flight : List Envelope) (r s : SenderKeyChain)
      → Flow got sent (e ∷ flight) r s
      → (p : Bytes) × (r' : SenderKeyChain) × (chain_decrypt P e aad r ≡ (ok p, r'))
        × Flow (got ++ (p ∷ [])) sent flight r' s
  Flow-receive e got sent flight r s ([], whole, pending) = absurd pending
  Flow-receive e got sent flight r s (p ∷ rest, whole, (r', d, pending)) =
      (p, r', d, (rest, append_assoc got (p ∷ []) rest ∙ whole, pending))

  length-Pending :
      (es : List Envelope) (ps : List Bytes) (r s : SenderKeyChain)
      → Pending es ps r s
      → length ps ≡ length es
  length-Pending [] [] r s h = refl
  length-Pending (e ∷ es) (p ∷ ps) r s (r', d, h) = ap suc (length-Pending es ps r' s h)
  length-Pending [] (p ∷ ps) r s h = absurd h
  length-Pending (e ∷ es) [] r s h = absurd h

  pub Flow-IsPrefixUpTo :
      (flight : List Envelope) (got sent : List Bytes) (r s : SenderKeyChain)
      → Flow got sent flight r s
      → IsPrefixUpTo (length flight) got sent
  Flow-IsPrefixUpTo flight got sent r s (rest, whole, pending) =
      (rest, whole, length-Pending flight rest r s pending)
