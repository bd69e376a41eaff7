-- ===== src/Seri.antt =====
-- lualib-src/lua-seri.cpp: Lua values as bytes and back.
-- A stack slot is a value, a stream its list of bytes, a call that may raise a Lua error a Result.
pub mod Value
pub mod Write
pub mod Read
pub mod Call
pub mod Spec
pub mod Bytes
pub mod Pack
pub mod Refuse
pub mod Fuel
pub mod Scalar
pub mod Rounds
pub mod RoundTrip
pub mod Frame
mod Tests
use starnet.Common.{Bool, true, false, ◌≡◌, refl}

-- The Lua errors: of the writer, of the reader, a string longer than Lua has, and a key
-- that is NaN.
-- `unfinished` is none of the program: a reader that ran out of fuel.
pub data Error : Type 0 where
  too_deep bad_type pairs_failed invalid_stream too_big nan_key unfinished : Error

pub data Result {ℓ} (A : Type ℓ) : Type ℓ where
  ok : A → Result A
  err : Error → Result A

infixl 5 ◌>>=◌
abbrev pub ◌>>=◌ {ℓ κ} : {A : Type ℓ} {B : Type κ} → Result A → (A → Result B) → Result B
ok a >>= f = f a
err e >>= f = err e

abbrev pub guard {ℓ} : {A : Type ℓ} → Bool → Error → Result A → Result A
guard true e r = r
guard false e r = err e
