-- ===== src/Groups/Letters.antt =====
-- Who gets what from the loops of haven/groups.py over the members of a group.
use haven_e2e_messenger.Prelude.{
  ◌≡◌, sym, ap, ◌∙◌, Str, Bytes, not, Option, none, some, List, [], ◌∷◌, ◌++◌, bytes_eq, All,
  contains, map, keep, append_assoc, append-nil, Bool-cases, inl, inr,
}
use haven_e2e_messenger.Prelude.Errors.{ok}
use haven_e2e_messenger.Prelude.Dict.{Dict}
use haven_e2e_messenger.Crypto.Hex.{fromhex}
use haven_e2e_messenger.Groups.State.{Control, GroupManager, Outgoing, tell}

-- A key that `bytes.fromhex` takes.
abbrev pub Readable : Str × Str → Type 0
Readable (pub_hex, uname) = (bs : Bytes) × (fromhex pub_hex ≡ some bs)

abbrev bytes_or_empty : Option Bytes → Bytes
bytes_or_empty none = []
bytes_or_empty (some bs) = bs

-- The peer that a member's key stands for.
abbrev pub peer_of : Str × Str → Bytes
peer_of (pub_hex, uname) = bytes_or_empty (fromhex pub_hex)

abbrev pub letter : Control → Str × Str → Outgoing
letter frame (pub_hex, uname) = record {
  to = peer_of (pub_hex, uname);
  username_hint = uname;
  frame = frame;
}

abbrev pub others : List Str → Dict Str Str → Dict Str Str
others without = keep (λ m. not (contains m.0 without))

abbrev pub with_sent : List Outgoing → GroupManager → GroupManager
with_sent more s = record s { sent = s.sent ++ more }

-- Every member that is not left out gets the frame once, in the order of the members.
pub tell_lem :
    (without : List Str) (frame : Control) (members : Dict Str Str) (s : GroupManager)
    → All Readable members
    → tell without (frame ∷ []) members s
      ≡ (ok tt, with_sent (map (letter frame) (others without members)) s)
unfolding tell
tell_lem without frame [] s r = ap (λ l. (ok tt, record s { sent = l })) (sym (append-nil s.sent))
tell_lem without frame ((pub_hex, uname) ∷ members) s ((bs, readable), r) =
    elim (Bool-cases (contains pub_hex without)) [
      | inl skipped ↦ rw skipped (tell_lem without frame members s r)
      | inr kept ↦
          let l : Outgoing = record { to = bs; username_hint = uname; frame = frame } in
          let rest = tell_lem without frame members (with_sent (l ∷ []) s) r in
          let more = map (letter frame) (others without members) in
          rw kept (
            rw readable (
              rest
              ∙ ap (λ all. (ok tt, record s { sent = all })) (append_assoc s.sent (l ∷ []) more)))
    ]
