-- ===== src/Prelude/Faults.antt =====
-- What can go wrong in C++ code below the level of its own return codes, as a result type.
use mathlib.Core.Path.{◌≡◌, refl}

pub data Fault : Type 0 where
  div_by_zero : Fault
  -- a read or a write outside the allocated block
  out_of_bounds : Fault
  -- an access to a buffer that was deleted, or a second delete
  use_after_free : Fault
  -- the fuel of a loop of the model ran out
  out_of_fuel : Fault
  -- a thread joined that was never created or is joined already
  no_thread : Fault
  -- a method called through NULL
  null_pointer : Fault

pub data Result {κ} (X : Type κ) : Type κ where
  err : (fault : Fault) → Result X
  ok : (value : X) → Result X

infixl 5 ◌>>=◌
-- A fault ends the run; a value goes on to the next step.
abbrev pub ◌>>=◌ {κ ℓ} :
    {X : Type κ} {Y : Type ℓ} (step : Result X) (next : X → Result Y) → Result Y
err fault >>= next = err fault
ok value >>= next = next value

infixl 5 ◌>>◌
-- The next step where the value of the first is not used.
abbrev pub ◌>>◌ {κ ℓ} : {X : Type κ} {Y : Type ℓ} (step : Result X) (next : Result Y) → Result Y
step >> next = step >>= (λ unused. next)

-- A run that returns: its first step returned, and so did the rest from there.
pub >>=-parts {κ ℓ} :
    {X : Type κ} {Y : Type ℓ} (step : Result X) (next : X → Result Y) {final : Y}
    → step >>= next ≡ ok final
    → (value : X) × (step ≡ ok value) × (next value ≡ ok final)
>>=-parts (err fault) next returned = cc
>>=-parts (ok value) next returned = (value, refl, returned)
