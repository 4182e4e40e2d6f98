-- ===== src/Crypto/Keys.antt =====
-- haven/crypto.py: `KeyPair`, `_dh`, `_hkdf`, `dh_proof`, `compute_shared_root_key`,
-- `derive_chain_keys`, `fingerprint`.
use haven_e2e_messenger.Prelude.{
  Bytes, Str, text, ℕ, zero, suc, ◌+◌, ◌*◌, ◌/◌, ◌%◌, Bool, true, false, List, [], ◌∷◌, ◌++◌, take,
  ltb, if◌then◌else◌,
}
use haven_e2e_messenger.Prelude.Errors.{Result, ok, ◌>>=◌}
use haven_e2e_messenger.Crypto.Primitives.{Primitives}
use haven_e2e_messenger.Crypto.Hex.{hex}

pub record KeyPair : Type 0 where
  pub private_key : Bytes
  pub public_bytes : Bytes

module _ (P : Primitives) where
  -- `KeyPair.from_private_bytes`, and `KeyPair.generate` on the bytes that were drawn.
  unfoldable pub from_private_bytes : Bytes → KeyPair
  from_private_bytes raw = record { private_key = raw; public_bytes = P.public_key raw }

  abbrev pub dh : Bytes → Bytes → Result Bytes
  dh priv pub_bytes = P.exchange priv pub_bytes

  abbrev pub hkdf : Bytes → Bytes → Bytes
  hkdf key_material info = P.hkdf_derive key_material info

  unfoldable pub dh_proof : Bytes → Bytes → Bytes → Result Str
  dh_proof my_priv their_pub nonce = do
    shared ← dh my_priv their_pub
    ok (hex (P.hmac_sha256 shared nonce))

  unfoldable pub compute_shared_root_key : Bool → KeyPair → KeyPair → Bytes → Bytes → Result Bytes
  compute_shared_root_key true my_identity my_ephemeral their_identity_pub their_ephemeral_pub = do
    dh1 ← dh my_identity.private_key their_ephemeral_pub
    dh2 ← dh my_ephemeral.private_key their_identity_pub
    dh3 ← dh my_ephemeral.private_key their_ephemeral_pub
    ok (hkdf (dh1 ++ dh2 ++ dh3) (text "root"))
  compute_shared_root_key false my_identity my_ephemeral their_identity_pub their_ephemeral_pub = do
    dh1 ← dh my_ephemeral.private_key their_identity_pub
    dh2 ← dh my_identity.private_key their_ephemeral_pub
    dh3 ← dh my_ephemeral.private_key their_ephemeral_pub
    ok (hkdf (dh1 ++ dh2 ++ dh3) (text "root"))

  -- The send and the receive chain key of one side.
  unfoldable pub derive_chain_keys : Bytes → Bool → Bytes × Bytes
  derive_chain_keys root_key is_initiator =
      let initiator_to_responder = hkdf root_key (text "init->resp") in
      let responder_to_initiator = hkdf root_key (text "resp->init") in
      if is_initiator
      then (initiator_to_responder, responder_to_initiator)
      else (responder_to_initiator, initiator_to_responder)

-- Python's order on bytes.
unfoldable pub bytes_leb : Bytes → Bytes → Bool
bytes_leb [] bs = true
bytes_leb (a ∷ as') [] = false
bytes_leb (a ∷ as') (b ∷ bs) =
    let rest = bytes_leb as' bs in if ltb a b then true else if ltb b a then false else rest

-- `sorted` on a list of keys.
insert_sorted : Bytes → List Bytes → List Bytes
unfolding bytes_leb
insert_sorted k [] = k ∷ []
insert_sorted k (j ∷ js) = if bytes_leb k j then k ∷ j ∷ js else j ∷ insert_sorted k js

unfoldable pub sorted : List Bytes → List Bytes
unfolding insert_sorted
sorted [] = []
sorted (k ∷ ks) = insert_sorted k (sorted ks)

-- `b"".join`
unfoldable pub join_bytes : List Bytes → Bytes
join_bytes [] = []
join_bytes (k ∷ ks) = k ++ join_bytes ks

-- `int.from_bytes(_, "big")`
unfoldable pub from_big_endian : ℕ → Bytes → ℕ
from_big_endian n [] = n
from_big_endian n (b ∷ bs) = from_big_endian (n * 256 + b) bs

-- `f"{n:05d}"` for n below 100000.
unfoldable pub five_digits : ℕ → Str
five_digits n =
    (48 + n / 10000)
    ∷ (48 + n / 1000 % 10)
    ∷ (48 + n / 100 % 10)
    ∷ (48 + n / 10 % 10)
    ∷ (48 + n % 10)
    ∷ []

unfoldable pub number_groups : ℕ → ℕ → List Str
unfolding five_digits
number_groups zero numeric = []
number_groups (suc rounds) numeric =
    five_digits (numeric % 100000) ∷ number_groups rounds (numeric / 100000)

-- `" ".join`
unfoldable pub join_spaces : List Str → Str
join_spaces [] = []
join_spaces (g ∷ []) = g
join_spaces (g ∷ h ∷ gs) = g ++ (32 ∷ join_spaces (h ∷ gs))

unfoldable pub fingerprint : Primitives → List Bytes → Str
unfolding sorted join_bytes from_big_endian number_groups join_spaces
fingerprint P public_keys =
    let material = join_bytes (sorted public_keys) in
    let digest = P.sha256 material in
    let numeric = from_big_endian 0 (take 30 digest) in join_spaces (number_groups 6 numeric)
