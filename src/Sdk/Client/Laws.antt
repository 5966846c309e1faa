-- ===== src/Sdk/Client/Laws.antt =====
-- What a caller of the library can be thrown.
-- Code: sdk/typescript/src/index.ts
use mathlib.Core.Option
use pgapp.Common.{◌≡◌, refl, Option, none, some}
use pgapp.Common.Result.{Thrown, Result, ok, throw, ◌>>=◌}
use pgapp.Sdk.Client.{from, wrap}

-- What a call throws.
abbrev pub thrown {ℓ} : {A : Type ℓ} → Result A → Option Thrown
thrown (ok a) = none
thrown (throw e) = some e

pub thrown-wrap {ℓ κ} :
    {A : Type ℓ} {B : Type κ} (r : Result A) (f : A → B)
    → thrown (wrap (r >>= (λ a. ok (f a)))) ≡ Option.map from (thrown r)
unfolding wrap
thrown-wrap (ok a) f = refl
thrown-wrap (throw e) f = refl

pub thrown-bind {ℓ κ} :
    {A : Type ℓ} {B : Type κ} (r : Result A) (f : A → B) → thrown (r >>= (λ a. ok (f a))) ≡ thrown r
thrown-bind (ok a) f = refl
thrown-bind (throw e) f = refl
