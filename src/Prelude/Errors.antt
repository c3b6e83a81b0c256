-- ===== src/Prelude/Errors.antt =====
-- Python's exceptions, as values. A message is not modelled: it says nothing that the code reads.
use mathlib.Core.Bool.{Bool, true, false}

pub data Exn : Type 0 where
  value_error : Exn
  type_error : Exn
  key_error : Exn
  index_error : Exn
  overflow_error : Exn
  struct_error : Exn
  scaling_error : Exn
  not_implemented_error : Exn
  authentication_error : Exn
  runtime_error : Exn
  acnet_error : Exn
  zero_division_error : Exn

pub data Result {ℓ} (A : Type ℓ) : Type ℓ where
  ok : A → Result A
  err : Exn → Result A

-- `if test: raise e`, the test negated.
abbrev pub guard : Bool → Exn → Result (Unit {0})
guard false x = err x
guard true x = ok tt

-- What follows a call runs only if the call returns; `>>` leaves out what it returns.
infixl 5 ◌>>=◌ ◌>>◌
abbrev pub ◌>>=◌ {i j} :
    {Val : Type i} {Out : Type j} → Result Val → (Val → Result Out) → Result Out
err x >>= next = err x
ok v >>= next = next v

abbrev pub ◌>>◌ {j} : {Out : Type j} → Result (Unit {0}) → Result Out → Result Out
check >> next = check >>= λ _. next
