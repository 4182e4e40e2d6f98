-- ===== src/Relay/Handshake.antt =====
-- The registration handshake of haven/relay_server.py.
pub mod Possession
use haven_e2e_messenger.Prelude.{
  Bytes, Str, ◌==◌, bytes_eq, Bool, true, false, Option, none, some, List, [], ◌∷◌, take,
  if◌then◌else◌,
}
use haven_e2e_messenger.Prelude.Errors.{
  Result, ok, err, attribute_error, value_error, or_raise, ◌>>=◌,
}
use haven_e2e_messenger.Crypto.Primitives.{Primitives}
use haven_e2e_messenger.Crypto.Hex.{fromhex}
use haven_e2e_messenger.Crypto.Keys.{KeyPair, from_private_bytes, dh_proof}
use haven_e2e_messenger.Relay.State.{ServerFrame, challenge, proof_failed}

-- The client's two frames. A field holds what reading it gives: its value, or the exception; a field
-- read by `.get` is an Option. `not_a_dict` is JSON of another kind, whose `.get` raises.
pub data InitFrame : Type 0 where
  register_init : Result Str → Option Str → InitFrame
  other_type : InitFrame
  not_a_dict : InitFrame

pub data ProofFrame : Type 0 where
  register : Option Str → ProofFrame
  other_type : ProofFrame
  not_a_dict : ProofFrame

-- What the handshake returns: the identity and the username, or none of either.
abbrev pub Registration : Type 0
Registration = Option (Str × Str)

-- `init.get("username", claimed_pub_hex[:8])`
abbrev name_or_prefix : Option Str → Str → Str
name_or_prefix none claimed = take 8 claimed
name_or_prefix (some name) claimed = name

abbrev proof_matches : Option Str → Str → Bool
proof_matches none expected = false
proof_matches (some proof) expected = proof == expected

module _ (P : Primitives) (ephemeral_raw nonce : Bytes) where
  abbrev check_proof :
      Str → Bytes → Str → ProofFrame → List ServerFrame → Result (List ServerFrame × Registration)
  check_proof claimed_hex claimed username not_a_dict sent = err attribute_error
  check_proof claimed_hex claimed username other_type sent = ok (sent, none)
  check_proof claimed_hex claimed username (register proof) sent = do
    expected ← dh_proof P (from_private_bytes P ephemeral_raw).private_key claimed nonce
    ok (
        if proof_matches proof expected
        then (sent, some (claimed_hex, username))
        else (proof_failed ∷ sent, none))

  -- `_do_handshake_sync`, on the bytes drawn for the ephemeral key and the nonce and on the frames that
  -- the two `recv` calls return. The result has the frames that were sent, the last
  -- one first; after a raise the caller closes the connection, and the result is the exception alone.
  unfoldable pub do_handshake_sync :
      InitFrame → ProofFrame → Result (List ServerFrame × Registration)
  unfolding from_private_bytes
  do_handshake_sync not_a_dict resp = err attribute_error
  do_handshake_sync other_type resp = ok ([], none)
  do_handshake_sync (register_init identity_pub username) resp = do
    claimed_hex ← identity_pub
    claimed ← or_raise (fromhex claimed_hex) value_error
    let ephemeral = from_private_bytes P ephemeral_raw
    check_proof claimed_hex claimed (name_or_prefix username claimed_hex) resp
        (challenge ephemeral.public_bytes nonce ∷ [])

  -- `_do_handshake_async` has the same statements between its awaits.
  abbrev pub do_handshake_async : InitFrame → ProofFrame → Result (List ServerFrame × Registration)
  do_handshake_async = do_handshake_sync
