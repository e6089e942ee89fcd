-- ===== src/Prelude/Results.antt =====
-- Go's `(value, error)` pairs: a result that has a value or an error of type `E`.
use mathlib.Core.Path.{◌≡◌, refl}
use mathlib.Core.Logic.{◌⊎◌, inl, inr}

pub data Result {ℓ κ} (Err : Type κ) (Val : Type ℓ) : Type (ℓ ⊔ κ) where
  err : Err → Result Err Val
  ok : Val → Result Err Val

infixl 5 ◌>>=◌
abbrev pub ◌>>=◌ {ℓ κ μ} :
    {Err : Type μ} {Val : Type ℓ} {Out : Type κ}
    → Result Err Val
    → (Val → Result Err Out)
    → Result Err Out
err failure >>= next = err failure
ok value >>= next = next value

-- Inversion of a successful bind.
pub >>=-eq-ok {ℓ κ μ} :
    {Err : Type μ} {Val : Type ℓ} {Out : Type κ} (m : Result Err Val) (next : Val → Result Err Out)
    {out : Out}
    → (m >>= next) ≡ ok out
    → (value : Val) × (m ≡ ok value) × (next value ≡ ok out)
>>=-eq-ok (ok value) next h = (value, refl, h)
>>=-eq-ok (err failure) next h = cc

-- To split on a computed result and keep the equation.
pub Result-cases {ℓ κ} :
    {Err : Type κ} {Val : Type ℓ} (m : Result Err Val)
    → ((failure : Err) × (m ≡ err failure)) ⊎ ((value : Val) × (m ≡ ok value))
Result-cases (err failure) = inl (failure, refl)
Result-cases (ok value) = inr (value, refl)
