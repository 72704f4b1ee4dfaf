-- ===== src/Prelude/Outcome.antt =====
-- What ends a call early: exceptions, aborts, and what the language leaves undefined.
use mathlib.Core.Path.{◌≡◌, refl}
use mathlib.Core.Option.{Option, none, some}

pub data Fault : Type 0 where
  runtime_error : Fault
  json_error : Fault
  assertion_failed : Fault
  null_dereference : Fault
  use_after_free : Fault
  out_of_bounds : Fault
  division_by_zero : Fault
  no_end : Fault
  process_exit : Fault

pub data Result {ℓ} (A : Type ℓ) : Type ℓ where
  ok : A → Result A
  err : Fault → Result A

infixl 5 ◌>>=◌
abbrev pub ◌>>=◌ {ℓ κ} : {S : Type ℓ} {T : Type κ} → Result S → (S → Result T) → Result T
err fault >>= next = err fault
ok value >>= next = next value

-- What an option lacks becomes a fault.
abbrev pub or_fault {ℓ} : {A : Type ℓ} → Fault → Option A → Result A
or_fault e none = err e
or_fault e (some a) = ok a

-- A sequence ends well only if its first part does.
pub >>=-eq-ok {ℓ κ} :
    {S : Type ℓ} {T : Type κ} (start : Result S) (next : S → Result T) {result : T}
    → (start >>= next) ≡ ok result
    → (value : S) × (start ≡ ok value) × (next value ≡ ok result)
>>=-eq-ok (err fault) next run = cc
>>=-eq-ok (ok value) next run = (value, refl, run)

pub ok-injective {ℓ} : {A : Type ℓ} {a b : A} → ok a ≡ ok b → a ≡ b
ok-injective h = cc
