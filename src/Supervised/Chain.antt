-- ===== src/Supervised/Chain.antt =====
-- The chain of policies (`evaluate_policies` of pacsys/supervised/_policies.py).
pub mod Permits
pub mod Evaluate
use pacsys.Prelude.{
  ℕ, Bool, true, false, Option, none, some, List, [], ◌∷◌, if◌then◌else◌, Result, ok, err, Text,
}
use pacsys.Prelude.Int.{ℤ}
use pacsys.Supervised.Context.{Context, Decision, is_set}
use pacsys.Supervised.Access.{Access, access_allows_writes, check_access}
use pacsys.Supervised.RateLimit.{RateLimit, check_rate}
use pacsys.Supervised.Limits.{SlewRate, check_range, check_slew}

-- The policies of the library, and one of the user: whether it gates writes, and its check.
pub data Policy : Type 0 where
  read_only : Policy
  device_access : Access → Policy
  rate_limit : RateLimit → Policy
  value_range : List (Text × (ℤ × ℤ)) → Policy
  slew_rate : SlewRate → Policy
  custom : Bool → (Context → Result Decision) → Policy

-- `allows_writes`.
abbrev allows_writes : Policy → Bool
allows_writes (device_access a) = access_allows_writes a
allows_writes (custom gates f) = gates
allows_writes _ = false

-- `ReadOnlyPolicy.check`.
abbrev pub check_read_only : Context → Decision
check_read_only ctx = if is_set ctx.method then Decision.deny else Decision.allow none

abbrev pub rate_decision : RateLimit × Bool → Policy × Result Decision
rate_decision (l, true) = (rate_limit l, ok (Decision.allow none))
rate_decision (l, false) = (rate_limit l, ok Decision.deny)

abbrev slew_policy : SlewRate × Result Decision → Policy × Result Decision
slew_policy (s, d) = (slew_rate s, d)

-- `check`, at the time `now`: the policy with its new state, and the decision.
unfoldable pub check : ℕ → Policy → Context → Policy × Result Decision
unfolding check_access check_rate check_range check_slew
check now read_only ctx = (read_only, ok (check_read_only ctx))
check now (device_access a) ctx = (device_access a, check_access a ctx)
check now (rate_limit l) ctx = rate_decision (check_rate now ctx.peer l)
check now (value_range limits) ctx = (value_range limits, check_range limits ctx)
check now (slew_rate s) ctx = slew_policy (check_slew now s ctx)
check now (custom gates f) ctx = (custom gates f, f ctx)

-- `decision.ctx`, or the context as it was.
abbrev pub handed_on : Option Context → Context → Context
handed_on none ctx = ctx
handed_on (some c) ctx = c

-- The policies behind one that has decided: its denial or its exception ends the chain.
unfoldable pub after :
    Policy × Result Decision
    → List Policy
    → Context
    → (Context → List Policy × Result Decision)
    → List Policy × Result Decision
after (p, err e) ps ctx rest = (p ∷ ps, err e)
after (p, ok Decision.deny) ps ctx rest = (p ∷ ps, ok Decision.deny)
after (p, ok (Decision.allow c)) ps ctx rest =
    (p ∷ (rest (handed_on c ctx)).0, (rest (handed_on c ctx)).1)

-- `evaluate_policies`.
unfoldable pub evaluate_policies : ℕ → List Policy → Context → List Policy × Result Decision
unfolding after check
evaluate_policies now [] ctx = ([], ok (Decision.allow (some ctx)))
evaluate_policies now (p ∷ ps) ctx =
    after (check now p ctx) ps ctx (λ c. evaluate_policies now ps c)
