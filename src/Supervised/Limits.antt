-- ===== src/Supervised/Limits.antt =====
-- `ValueRangePolicy` and `SlewRatePolicy` of pacsys/supervised/_policies.py. Numbers are integers, the
-- clock counts nanoseconds, and a rate is a number of units in a second.
pub mod Slew
use pacsys.Prelude.{
  value_error, text_eq, ℕ, ◌+◌, ◌-◌, ◌*◌, Bool, true, false, ◌&&◌, Option, none, some, List, [],
  ◌∷◌, leb, ◌==◌, if◌then◌else◌, Result, ok, err, Text,
}
use pacsys.Prelude.Int.{ℤ, leb_ℤ, pos_part, neg_part}
use pacsys.Supervised.Context.{Context, Decision, Value, is_set}
use pacsys.Supervised.Glob.{matches_glob}
use pacsys.Supervised.Access.{and_then}
use pacsys.Drf.Utils.{get_device_name}

-- `_bound_for` and `_limit_for`: what stands with the first pattern that matches.
unfoldable pub first_for {ℓ} : {L : Type ℓ} → Text → List (Text × L) → Option L
first_for name [] = none
first_for name ((p, l) ∷ rest) = if matches_glob name p then some l else first_for name rest

-- `lo <= value <= hi`, where there is a bound.
unfoldable pub in_bound : Option (ℤ × ℤ) → ℤ → Bool
in_bound none v = true
in_bound (some (lo, hi)) v = leb_ℤ lo v && leb_ℤ v hi

-- `ValueRangePolicy.check`, its loop.
unfoldable pub range_loop : List (Text × (ℤ × ℤ)) → List (Text × Value) → Result Decision
unfolding and_then in_bound first_for
range_loop limits [] = ok (Decision.allow none)
range_loop limits ((drf, Value.other t) ∷ rest) = range_loop limits rest
range_loop limits ((drf, Value.number v) ∷ rest) =
    let later = range_loop limits rest in
    and_then (get_device_name drf)
      (λ name. if in_bound (first_for name limits) v then later else ok Decision.deny)

-- `ValueRangePolicy.check`.
unfoldable pub check_range : List (Text × (ℤ × ℤ)) → Context → Result Decision
unfolding range_loop
check_range limits ctx =
    if is_set ctx.method then range_loop limits ctx.values else ok (Decision.allow none)

-- `SlewLimit`.
pub record SlewLimit : Type 0 where
  pub max_step : Option ℕ
  pub max_rate : Option ℕ

-- `SlewLimit.__post_init__`.
unfoldable new_slew_limit : Option ℕ → Option ℕ → Result SlewLimit
new_slew_limit none none = err value_error
new_slew_limit s r = ok (record { max_step = s; max_rate = r })

-- `_history`: the last value of a device and when it was written.
abbrev pub History : Type 0
History = List (Text × (ℤ × ℕ))

pub record SlewRate : Type 0 where
  pub limits : List (Text × SlewLimit)
  pub history : History

unfoldable pub last_write : Text → History → Option (ℤ × ℕ)
unfolding text_eq
last_write name [] = none
last_write name ((n, w) ∷ rest) = if text_eq n name then some w else last_write name rest

unfoldable pub remember : Text → ℤ × ℕ → History → History
unfolding text_eq
remember name w [] = (name, w) ∷ []
remember name w ((n, u) ∷ rest) =
    let later = remember name w rest in if text_eq n name then (n, w) ∷ rest else (n, u) ∷ later

-- `abs(value - prev_value)`.
abbrev pub distance : ℤ → ℤ → ℕ
distance a b =
    let x = pos_part a + neg_part b in let y = pos_part b + neg_part a in (x - y) + (y - x)

abbrev second : ℕ
second = 1000000000

-- `delta > limit.max_step`, where the limit has one.
unfoldable pub step_ok : Option ℕ → ℕ → Bool
step_ok none delta = true
step_ok (some m) delta = leb delta m

-- `delta / dt > limit.max_rate` at `dt = max(now - prev_time, 1e-9)` seconds, multiplied out.
unfoldable pub rate_ok : Option ℕ → ℕ → ℕ → Bool
rate_ok none delta elapsed = true
rate_ok (some m) delta elapsed = leb (delta * second) (m * (if elapsed == 0 then 1 else elapsed))

unfoldable pub slew_ok : ℕ → Option SlewLimit → Option (ℤ × ℕ) → ℤ → Bool
unfolding step_ok rate_ok
slew_ok now none prev v = true
slew_ok now (some l) none v = true
slew_ok now (some l) (some (u, t)) v =
    step_ok l.max_step (distance v u) && rate_ok l.max_rate (distance v u) (now - t)

-- The first pass: every value against the history.
unfoldable pub slew_loop : ℕ → SlewRate → List (Text × Value) → Result Bool
unfolding and_then slew_ok first_for last_write
slew_loop now s [] = ok true
slew_loop now s ((drf, Value.other t) ∷ rest) = slew_loop now s rest
slew_loop now s ((drf, Value.number v) ∷ rest) =
    let later = slew_loop now s rest in
    and_then (get_device_name drf) (λ name.
      if slew_ok now (first_for name s.limits) (last_write name s.history) v
      then later
      else ok false)

unfoldable pub with_write : SlewRate → Text → ℤ × ℕ → Option SlewLimit → SlewRate
unfolding remember
with_write s name w none = s
with_write s name w (some l) = record s { history = remember name w s.history }

unfoldable pub with_history : ℕ → SlewRate → ℤ → Result Text → SlewRate
unfolding with_write first_for
with_history now s v (err e) = s
with_history now s v (ok name) = with_write s name (v, now) (first_for name s.limits)

-- The second pass: the history of every device with a limit.
unfoldable pub record_loop : ℕ → SlewRate → List (Text × Value) → SlewRate
unfolding with_history
record_loop now s [] = s
record_loop now s ((drf, Value.other t) ∷ rest) = record_loop now s rest
record_loop now s ((drf, Value.number v) ∷ rest) =
    record_loop now (with_history now s v (get_device_name drf)) rest

unfoldable pub slew_decision :
    ℕ → SlewRate → List (Text × Value) → Result Bool → SlewRate × Result Decision
unfolding record_loop
slew_decision now s values (err e) = (s, err e)
slew_decision now s values (ok false) = (s, ok Decision.deny)
slew_decision now s values (ok true) = (record_loop now s values, ok (Decision.allow none))

-- `SlewRatePolicy.check`.
unfoldable pub check_slew : ℕ → SlewRate → Context → SlewRate × Result Decision
unfolding slew_decision slew_loop
check_slew now s ctx =
    if is_set ctx.method
    then slew_decision now s ctx.values (slew_loop now s ctx.values)
    else (s, ok (Decision.allow none))
