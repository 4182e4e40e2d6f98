-- ===== src/Prelude/Errors.antt =====
-- The exceptions that the modelled code raises, and computations that may raise.
use Prim.Native.Nat.{ℕ}
use mathlib.Core.Bool.{Bool, true, false}
use mathlib.Core.Option.{Option, none, some}
use mathlib.Core.Path.{◌≡◌, refl}
use mathlib.Core.Logic.{◌⊎◌, inl, inr}

-- `invalid_tag` is cryptography's InvalidTag and `struct_error` is struct.error: neither is a
-- subclass of ValueError. ConnectionError is a subclass of OSError.
pub data Exn : Type 0 where
  key_error value_error type_error attribute_error : Exn
  connection_error os_error invalid_tag struct_error username_taken : Exn
  -- The exceptions of haven/identity.py.
  wrong_password account_exists no_such_account invalid_recovery_phrase : Exn
  -- The exception of haven/backup.py.
  restore_failed : Exn
  -- The exception of haven/attachments.py.
  attachment_too_large : Exn
  -- ConnectionClosed of the websockets library.
  connection_closed : Exn
  -- The exception of contact cards.
  invalid_contact_card : Exn
  -- The exception of haven/ai.py.
  runtime_error : Exn
  -- FastAPI's HTTPException, by its status.
  http_exception : ℕ → Exn

-- What a call returns, or the exception that it raises.
pub data Result {ℓ} (A : Type ℓ) : Type ℓ where
  err : Exn → Result A
  ok : A → Result A

module _ {ℓ κ} {A : Type ℓ} {B : Type κ} where
  infixl 5 ◌>>=◌
  abbrev pub ◌>>=◌ : Result A → (A → Result B) → Result B
  err raised >>= rest = err raised
  ok value >>= rest = rest value

module _ {ℓ} {B : Type ℓ} where
  infixl 5 ◌>>◌
  abbrev pub ◌>>◌ : Result (Unit {0}) → Result B → Result B
  err raised >> next = err raised
  ok done >> next = next

abbrev pub or_raise {ℓ} : {A : Type ℓ} → Option A → Exn → Result A
or_raise none e = err e
or_raise (some a) e = ok a

-- `except (KeyError, ValueError)`, the clause of the frame handlers.
abbrev pub is_key_or_value : Exn → Bool
is_key_or_value key_error = true
is_key_or_value value_error = true
is_key_or_value _ = false

-- `except (ConnectionError, OSError, KeyError, ValueError)`, the clause of the socket loops.
abbrev pub is_socket_or_value : Exn → Bool
is_socket_or_value key_error = true
is_socket_or_value value_error = true
is_socket_or_value connection_error = true
is_socket_or_value os_error = true
is_socket_or_value _ = false

pub Result-cases {ℓ} :
    {A : Type ℓ} (r : Result A) → ((e : Exn) × (r ≡ err e)) ⊎ ((a : A) × (r ≡ ok a))
Result-cases (err e) = inl (e, refl)
Result-cases (ok a) = inr (a, refl)
