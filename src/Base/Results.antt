-- ===== src/Base/Results.antt =====
-- `Result<A, E>` and the `?` operator as a bind.
use mathlib.Core.Path.{◌≡◌, refl}
use mathlib.Core.Option.{Option, none, some}

pub data Result {ℓ κ} (E : Type ℓ) (A : Type κ) : Type (ℓ ⊔ κ) where
  ok : A → Result E A
  err : E → Result E A

module _ {ℓ κ} {E : Type ℓ} {A : Type κ} where
  -- `Option::ok_or`.
  abbrev pub ok_or : Option A → E → Result E A
  ok_or none e = err e
  ok_or (some a) e = ok a

-- `?`: an error ends the chain.
infixl 5 ◌>>=◌
abbrev pub ◌>>=◌ {ℓ κ μ} :
    {Failure : Type ℓ} {X : Type κ} {Y : Type μ}
    → Result Failure X
    → (X → Result Failure Y)
    → Result Failure Y
err failure >>= next = err failure
ok x >>= next = next x

-- A chain that succeeds has a first step that does.
pub >>=-eq-ok {ℓ κ μ} :
    {Failure : Type ℓ} {X : Type κ} {Y : Type μ} (step : Result Failure X)
    (next : X → Result Failure Y) {y : Y}
    → (step >>= next) ≡ ok y
    → (x : X) × (step ≡ ok x) × (next x ≡ ok y)
>>=-eq-ok (err failure) next h = cc
>>=-eq-ok (ok x) next h = (x, refl, h)
