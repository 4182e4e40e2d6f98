-- ===== src/Crypto/Toy.antt =====
-- Toy primitives that meet the laws that haven/crypto.py relies on.
use haven_e2e_messenger.Prelude.{
  ◌≡◌, refl, ◌+◌, ◌%◌, ℕ, Bytes, [], ◌∷◌, ◌++◌, eqb, if◌then◌else◌, arith,
}
use haven_e2e_messenger.Prelude.Errors.{Result, ok, err, invalid_tag}
use haven_e2e_messenger.Crypto.Primitives.{Primitives, ExchangeAgrees, SealOpens, UnsealIsExact}

abbrev total : Bytes → ℕ
total [] = 0
total (b ∷ bs) = b + total bs

-- A ciphertext is the plaintext behind the mark 7.
abbrev open_marked : Bytes → Result Bytes
open_marked [] = err invalid_tag
open_marked (mark ∷ plain) = if eqb mark 7 then ok plain else err invalid_tag

abbrev pub toy : Primitives
toy = record {
  public_key = λ a. a;
  exchange = λ a b. ok ((total a + total b) ∷ []);
  sha256 = λ m. m;
  hmac_sha256 = λ k m. k ++ m;
  hkdf_derive = λ m info. m ++ info;
  seal = λ key nonce plain aad. 7 ∷ plain;
  unseal = λ key nonce sealed aad. open_marked sealed;
}

pub toy-ExchangeAgrees : ExchangeAgrees toy
toy-ExchangeAgrees a b = ground arith

pub toy-SealOpens : SealOpens toy
toy-SealOpens key nonce plain aad = refl

open_marked-exact : (sealed plain : Bytes) → open_marked sealed ≡ ok plain → sealed ≡ 7 ∷ plain
open_marked-exact [] plain h = cc
open_marked-exact (mark ∷ rest) plain h = ground arith

pub toy-UnsealIsExact : UnsealIsExact toy
toy-UnsealIsExact key nonce sealed plain aad h = open_marked-exact sealed plain h

-- The same with public keys of one byte.
abbrev pub byte_toy : Primitives
byte_toy = record toy {
  public_key = λ a. (total a % 256) ∷ [];
  exchange = λ a b. ok ((total a % 256 + total b) ∷ []);
}

pub byte_toy-ExchangeAgrees : ExchangeAgrees byte_toy
byte_toy-ExchangeAgrees a b = ground arith

pub byte_toy-SealOpens : SealOpens byte_toy
byte_toy-SealOpens key nonce plain aad = refl
