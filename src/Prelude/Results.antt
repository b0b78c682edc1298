-- ===== src/Prelude/Results.antt =====
-- Exceptions as values: a JavaScript function that may throw returns a `Result`.
use mathlib.Core.Path.{◌≡◌, refl}
use mathlib.Core.Logic.{◌⊎◌, inl, inr}
use mathlib.Core.Bool.{Bool, true, false}

-- The errors that the modelled code throws. `out_of_fuel` is no JavaScript value: it marks a loop
-- of the model that ran out of rounds.
pub data Exception : Type 0 where
  range_error type_error state_error internal_error : Exception
  handshake_error decrypt_error timeout_error alert_error out_of_fuel : Exception

pub data Result {ℓ} (T : Type ℓ) : Type ℓ where
  ok : T → Result T
  err : Exception → Result T

-- `if (!test) throw thrown;`
abbrev pub guard : Bool → Exception → Result (Unit {0})
guard false thrown = err thrown
guard true _ = ok tt

-- What follows a call runs on its value, and not at all where the call threw.
infixl 5 ◌>>=◌
infixl 5 ◌>>◌
abbrev pub ◌>>=◌ {ℓ κ} : {T : Type ℓ} {U : Type κ} → Result T → (T → Result U) → Result U
err thrown >>= next = err thrown
ok value >>= next = next value

abbrev pub ◌>>◌ {κ} : {U : Type κ} → Result (Unit {0}) → Result U → Result U
checked >> rest = checked >>= λ u. rest

pub Result-cases {ℓ} :
    {T : Type ℓ} (r : Result T) → ((x : T) × (r ≡ ok x)) ⊎ ((e : Exception) × (r ≡ err e))
Result-cases (ok x) = inl (x, refl)
Result-cases (err e) = inr (e, refl)

-- Where a chain returned, so did its first call.
pub bind_returned {ℓ κ} :
    {T : Type ℓ} {U : Type κ} (first : Result T) (next : T → Result U) {result : U}
    → (first >>= next) ≡ ok result
    → (value : T) × (first ≡ ok value) × (next value ≡ ok result)
bind_returned (err thrown) next h = cc
bind_returned (ok value) next h = (value, refl, h)
