-- ===== src/Base/Results.antt =====
-- Results of code that may stop the process. A failed `assert` and a call of `exit` end the
-- program; both are `err` with the reason.
use mathlib.Core.Path.{◌≡◌, refl, ap}
use mathlib.Core.Bool.{Bool, true, false}

pub data Fault : Type 0 where
  -- an `assert` that fails
  assertion : Fault
  -- a call of `exit(1)` or an uncaught misuse that the source reports and stops at
  exit_failure : Fault
  -- a read or write through a pointer to memory that is not allocated
  dangling : Fault
  -- integer division by zero
  division_by_zero : Fault
  -- arithmetic whose result C leaves undefined
  undefined : Fault
  -- the bound on rounds of the model was met
  out_of_fuel : Fault

pub data Result {ℓ} (A : Type ℓ) : Type ℓ where
  err : Fault → Result A
  ok : A → Result A

-- The first error stops the rest.
infixl 5 ◌>>◌ ◌>>=◌
abbrev pub ◌>>=◌ {m n} : {X : Type m} {Y : Type n} (first : Result X) → (X → Result Y) → Result Y
err fault >>= _ = err fault
ok x >>= next = next x

abbrev pub ◌>>◌ {n} : {Y : Type n} (first : Result (Unit {0})) → Result Y → Result Y
err fault >> _ = err fault
ok _ >> after = after

-- `assert(test)`
abbrev pub check : Bool → Result (Unit {0})
check true = ok tt
check false = err assertion

-- A chain that succeeds has a first part that succeeds.
pub >>=-eq-ok {m n} :
    {X : Type m} {Y : Type n} (first : Result X) (next : X → Result Y) {y : Y}
    → (first >>= next) ≡ ok y
    → (x : X) × (first ≡ ok x) × (next x ≡ ok y)
>>=-eq-ok (err fault) next run = cc
>>=-eq-ok (ok x) next run = (x, refl, run)

from_ok {ℓ} : {A : Type ℓ} → A → Result A → A
from_ok d (ok a) = a
from_ok d (err e) = d

pub ok-injective {ℓ} : {A : Type ℓ} {a b : A} → ok a ≡ ok b → a ≡ b
unfolding from_ok
ok-injective {A} {a} e = ap (from_ok a) e

pub err-ne-ok {ℓ} : {A : Type ℓ} {f : Fault} {a : A} → err f ≡ ok a → ⊥
err-ne-ok e = cc
