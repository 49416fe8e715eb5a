-- ===== src/Prelude/Exec.antt =====
-- What a call of kernel code comes to. `halted` is a failed `assert` or a `panic`: both spin for
-- ever (kernel/assert.c, lines 10 to 42). `fault` is behaviour that C leaves undefined: a read
-- outside an array, or the value of a function that ends without `return`. `out_of_fuel` is a loop
-- that was given too few rounds.
use mathlib.Core.Bool.{Bool, true, false}
use mathlib.Core.Option.{Option, none, some}

pub data Outcome {ℓ} (A : Type ℓ) : Type ℓ where
  ok : A → Outcome A
  halted : Outcome A
  fault : Outcome A
  out_of_fuel : Outcome A

module _ {ℓ κ} {A : Type ℓ} {B : Type κ} where
  infixl 5 ◌>>=◌
  abbrev pub ◌>>=◌ : (call : Outcome A) (then_do : A → Outcome B) → Outcome B
  call >>= then_do = elim call [
    | ok a ↦ then_do a
    | halted ↦ halted
    | fault ↦ fault
    | out_of_fuel ↦ out_of_fuel
  ]

infixl 5 ◌>>◌
abbrev pub ◌>>◌ {κ} : {B : Type κ} (call : Outcome (Unit {0})) → Outcome B → Outcome B
call >> next = call >>= λ _. next

-- `assert(exp)`
abbrev pub assert : Bool → Outcome (Unit {0})
assert true = ok tt
assert false = halted

-- A read of an array cell.
abbrev pub read_cell {ℓ} : {A : Type ℓ} → Option A → Outcome A
read_cell none = fault
read_cell (some a) = ok a
