-- ===== src/Verify/Context.antt =====
-- pacsys/verify.py: the configuration of a verified write, its stack of contexts, and the comparison.
use pacsys.Prelude.{
  ℕ, ◌+◌, ◌-◌, Bool, true, false, not, Option, none, some, List, [], ◌∷◌, leb, if◌then◌else◌, Text,
  text_eq,
}
use pacsys.Prelude.Int.{ℤ, pos_part, neg_part, pos}

-- A value that is written or read. Numbers are whole multiples of a unit.
pub data Value : Type 0 where
  flag : Bool → Value
  number : ℤ → Value
  words : Text → Value
  array : List ℤ → Value

-- `Verify`. Delays are in nanoseconds.
pub record Verify : Type 0 where
  pub check_first : Bool
  pub tolerance : ℕ
  pub initial_delay : ℕ
  pub retry_delay : ℕ
  pub max_attempts : ℕ
  pub readback : Option Text
  pub always : Bool

-- `Verify()`.
abbrev pub default_verify : Verify
default_verify = record {
  check_first = false;
  tolerance = 0;
  initial_delay = 300000000;
  retry_delay = 500000000;
  max_attempts = 3;
  readback = none;
  always = false;
}

-- The stack of a thread, its top first; `_push_verify` and `_pop_verify`.
unfoldable pub push_verify : Verify → List Verify → List Verify
push_verify v stack = v ∷ stack

unfoldable pub pop_verify : List Verify → List Verify
pop_verify [] = []
pop_verify (v ∷ stack) = stack

unfoldable get_active_verify : List Verify → Option Verify
get_active_verify [] = none
get_active_verify (v ∷ stack) = some v

-- The parameter `verify`: `False`, `True`, an instance or `None`.
pub data Choice : Type 0 where
  never wanted default : Choice
  given : Verify → Choice

unfoldable or_default : Option Verify → Verify
or_default none = default_verify
or_default (some v) = v

unfoldable if_always : Option Verify → Option Verify
if_always none = none
if_always (some v) = if v.always then some v else none

unfoldable pub resolve_verify : Choice → List Verify → Option Verify
unfolding or_default if_always get_active_verify
resolve_verify never stack = none
resolve_verify wanted stack = some (or_default (get_active_verify stack))
resolve_verify default stack = if_always (get_active_verify stack)
resolve_verify (given v) stack = some v

-- `abs(a - b)`.
abbrev difference : ℤ → ℤ → ℕ
difference a b =
    let x = pos_part a + neg_part b in let y = pos_part b + neg_part a in (x - y) + (y - x)

-- A `bool` is an `int`.
abbrev bool_number : Bool → ℤ
bool_number false = pos 0
bool_number true = pos 1

-- `values_match`; `close` is what `numpy.allclose` says of two values of which one is an array, with nothing where
-- it raises.
unfoldable or_false : Option Bool → Bool
or_false none = false
or_false (some b) = b

unfoldable pub values_match : (Value → Value → ℕ → Option Bool) → Value → Value → ℕ → Bool
unfolding or_false text_eq
values_match close (flag a) (flag b) tol = if a then b else not b
values_match close (flag a) (number b) tol = leb (difference (bool_number a) b) tol
values_match close (number a) (flag b) tol = leb (difference a (bool_number b)) tol
values_match close (number a) (number b) tol = leb (difference a b) tol
values_match close (array a) b tol = or_false (close (array a) b tol)
values_match close a (array b) tol = or_false (close a (array b) tol)
values_match close (words a) (words b) tol = text_eq a b
values_match close (words a) b tol = false
values_match close a (words b) tol = false
