-- ===== src/Network/Direct/Ending.antt =====
-- What `_read_loop` of haven/network.py leaves behind.
use haven_e2e_messenger.Prelude.{
  ◌≡◌, ◌≢◌, refl, sym, ap, ◌∙◌, ℕ, Str, Bytes, Bool, true, false, some, List, [], ◌∷◌, ◌++◌,
  bytes_eq, nat_eq, arith, Bool-cases, inl, inr,
}
use haven_e2e_messenger.Prelude.Errors.{Exn, Result, ok, err}
use haven_e2e_messenger.Prelude.Exec.{Exec, try_pass, caught, handled}
use haven_e2e_messenger.Prelude.Dict.{lookup-erase}
use haven_e2e_messenger.Crypto.Primitives.{Primitives}
use haven_e2e_messenger.Storage.Tables.{StoreTools}
use haven_e2e_messenger.Network.State.{NetworkManager, Callback, on_status, disconnected, current}
use haven_e2e_messenger.Network.Direct.{
  Arriving, is_read_error, read_turns, read_loop, drop_connection, is_current,
}

caught-err :
    (b : Bool) (e x : Exn) (s : NetworkManager) → (caught b x s).0 ≡ err e → (x ≡ e) × (b ≡ false)
caught-err true e x s h = absurd (ground arith)
caught-err false e x s h = (ground arith, refl)

handled-caught :
    (p : Exn → Bool) (r : Result (Unit {0})) (s : NetworkManager) (e : Exn)
    → (handled p r s).0 ≡ err e
    → p e ≡ false
handled-caught p (ok tt) s e h = absurd (ground arith)
handled-caught p (err x) s e h = let (same, off) = caught-err (p x) e x s h in ap p (sym same) ∙ off

try_pass-caught :
    (p : Exn → Bool) (m : Exec NetworkManager (Unit {0})) (s : NetworkManager) (e : Exn)
    → (try_pass p m s).0 ≡ err e
    → p e ≡ false
try_pass-caught p m s e h = handled-caught p (m s).0 (m s).1 e h

drop_connection-current :
    (id : ℕ) (fp : Str) (s : NetworkManager) → current fp (drop_connection id fp s) ≢ some id
drop_connection-current id fp s h = elim (Bool-cases (is_current (current fp s) id)) [
  | inl now ↦ ground (arith, lookup-erase fp fp s.connections)
  | inr replaced ↦ ground arith
]

-- However the frames of a direct connection end, its reader ends: the connection is no longer the
-- current one of its peer, a newer one stays current, the last callback reports the peer disconnected,
-- and no exception goes on that the reader means to catch.
pub read_loop_ends :
    (P : Primitives) (T : StoreTools) (id : ℕ) (their_pub : Bytes) (fp : Str) (arriving : Arriving)
    (s : NetworkManager)
    → let (result, s') = read_loop P T id their_pub fp arriving s in
      (current fp s' ≢ some id)
      × ((before : List Callback) × (s'.calls ≡ before ++ (on_status fp disconnected ∷ [])))
      × ((e : Exn) → result ≡ err e → is_read_error e ≡ false)
unfolding read_loop
read_loop_ends P T id their_pub fp arriving s =
    let turns = read_turns P T id their_pub arriving in
    let s1 = (try_pass is_read_error turns s).1 in
    (
      drop_connection-current id fp s1,
      (s1.calls, refl),
      λ e h. try_pass-caught is_read_error turns s e h,
    )
