-- ===== src/Supervised/Context.antt =====
-- The request that policies look at, and their decision (pacsys/supervised/_policies.py).
use pacsys.Prelude.{ℕ, Bool, true, false, ◌||◌, Option, List, [], ◌∷◌, ◌==◌, Text}
use pacsys.Prelude.Int.{ℤ}

-- `rpc_method`: "Read" or "Set".
pub data Method : Type 0 where
  read set : Method

abbrev pub is_set : Method → Bool
is_set read = false
is_set set = true

-- A value that is written: a number, or anything that is neither an `int` nor a `float`. Numbers are
-- whole multiples of a unit that the deployment chooses.
pub data Value : Type 0 where
  number : ℤ → Value
  other : Text → Value

-- `RequestContext`, without the metadata and the raw message, which no policy of the library reads. The
-- set of approved slots is a list of them.
pub record Context : Type 0 where
  pub drfs : List Text
  pub method : Method
  pub peer : Text
  pub values : List (Text × Value)
  pub allowed : List ℕ

-- `PolicyDecision`: a denial, or an allowance with the context that the policy hands on, if any.
pub data Decision : Type 0 where
  deny : Decision
  allow : Option Context → Decision

-- `i in allowed`.
unfoldable pub is_in : ℕ → List ℕ → Bool
is_in i [] = false
is_in i (j ∷ js) = j == i || is_in i js
