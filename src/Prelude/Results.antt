-- ===== src/Prelude/Results.antt =====
-- What a Go call returns: a value, an error, or a panic.
use Prim.Native.String.{String}
use mathlib.Core.Path.{◌≡◌, refl}
use mathlib.Core.Logic.{◌⊎◌, inl, inr}

pub data Error : Type 0 where
  user_not_found invalid_password internal_server no_rows : Error
  deadline_exceeded canceled session_expired not_in_transaction : Error
  failure : String → Error

pub data Result {ℓ} (A : Type ℓ) : Type ℓ where
  ok : A → Result A
  err : Error → Result A
  panic : Result A

infixl 5 ◌>>=◌
abbrev pub ◌>>=◌ {ℓ κ} : {A : Type ℓ} {B : Type κ} → Result A → (A → Result B) → Result B
ok a >>= f = f a
err e >>= f = err e
panic >>= f = panic

-- To split on a result and keep the equation.
pub Result-cases {ℓ} :
    {A : Type ℓ} (r : Result A)
    → ((a : A) × (r ≡ ok a)) ⊎ (((x : Error) × (r ≡ err x)) ⊎ (r ≡ panic))
Result-cases (ok a) = inl (a, refl)
Result-cases (err x) = inr (inl (x, refl))
Result-cases panic = inr (inr refl)
