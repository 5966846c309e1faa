-- ===== src/Common/Result.antt =====
-- JavaScript exceptions as values: a call returns or throws.
use Prim.Native.Nat.{ℕ}
use Prim.Native.String.{String}
use mathlib.Core.Option.{Option}

-- The property `code` of an error: the number of a gRPC status, or another value by its text, such as
-- the name of a status in an error of the transport.
pub data Code : Type 0 where
  status : ℕ → Code
  other : String → Code

-- A thrown value, by what the handlers of the program read of it: the `name`, `message` and `code`
-- of an `Error`; the same of another object whose `message` is a string; the text that `String`
-- makes of a value with no such `message`; a value for which `String` itself throws, by what it throws;
-- and `null` or `undefined`, of which no property can be read.
pub data Thrown : Type 0 where
  error : (name message : String) → (code : Option Code) → Thrown
  message_like : (message : String) → (code : Option Code) → Thrown
  value : (text : String) → Thrown
  textless : (reason : Thrown) → Thrown
  nullish : (text : String) → Thrown

pub data Result {ℓ} (A : Type ℓ) : Type ℓ where
  ok : A → Result A
  throw : Thrown → Result A

infixl 5 ◌>>=◌
abbrev pub ◌>>=◌ {ℓ κ} : {A : Type ℓ} {B : Type κ} → Result A → (A → Result B) → Result B
ok a >>= f = f a
throw e >>= f = throw e
