-- ===== src/Supervised/Limits/Slew.antt =====
-- Writes that follow each other under `SlewRatePolicy` of pacsys/supervised/_policies.py.
use pacsys.Prelude.{
  ℕ, ◌-◌, ◌≡◌, refl, sym, ap, ◌∙◌, Bool, true, false, none, some, List, [], ◌∷◌, arith,
  if◌then◌else◌, ok, Text, text_eq_refl,
}
use pacsys.Prelude.Int.{ℤ}
use pacsys.Supervised.Context.{Context, Decision, Method, Value}
use pacsys.Supervised.Access.{and_then}
use pacsys.Supervised.Limits.{
  History, SlewLimit, SlewRate, check_slew, distance, first_for, last_write, rate_ok, record_loop,
  remember, slew_decision, slew_loop, slew_ok, step_ok, with_history, with_write,
}
use pacsys.Drf.Utils.{get_device_name}

last_write-remember :
    (name : Text) (w : ℤ × ℕ) (h : History) → last_write name (remember name w h) ≡ some w
unfolding last_write remember
last_write-remember name w [] = ground (arith, text_eq_refl name)
last_write-remember name w ((n, u) ∷ rest) = ground (arith, last_write-remember name w rest)

-- A request that writes one number.
abbrev WritesOne : Text → ℤ → Context → Type 0
WritesOne drf v ctx = (ctx.method ≡ Method.set) × (ctx.values ≡ (drf, Value.number v) ∷ [])

check_slew_one :
    (now : ℕ) (s : SlewRate) (ctx : Context) (drf name : Text) (v : ℤ) (l : SlewLimit)
    → WritesOne drf v ctx
    → get_device_name drf ≡ ok name
    → first_for name s.limits ≡ some l
    → check_slew now s ctx
      ≡ slew_decision now s
          ((drf, Value.number v) ∷ [])
          (if slew_ok now (some l) (last_write name s.history) v then ok true else ok false)
unfolding check_slew slew_loop and_then
check_slew_one now s ctx drf name v l (hm, hv) hn hl = rw (hm, hv, hn, hl) refl

recorded_one :
    (now : ℕ) (s : SlewRate) (drf name : Text) (v : ℤ) (l : SlewLimit)
    → get_device_name drf ≡ ok name
    → first_for name s.limits ≡ some l
    → record_loop now s ((drf, Value.number v) ∷ [])
      ≡ record s { history = remember name (v, now) s.history }
unfolding record_loop with_history with_write
recorded_one now s drf name v l hn hl = rw (hn, hl) refl

decided_one :
    (now : ℕ) (s : SlewRate) (values : List (Text × Value)) (b : Bool)
    → (slew_decision now s values (if b then ok true else ok false)).1 ≡ ok (Decision.allow none)
    → (b ≡ true)
      × ((slew_decision now s values (if b then ok true else ok false)).0
          ≡ record_loop now s values)
unfolding slew_decision
decided_one now s values true h = (refl, refl)
decided_one now s values false h = cc

one-allowed :
    (now : ℕ) (s : SlewRate) (ctx : Context) (drf name : Text) (v : ℤ) (l : SlewLimit)
    → WritesOne drf v ctx
    → get_device_name drf ≡ ok name
    → first_for name s.limits ≡ some l
    → (check_slew now s ctx).1 ≡ ok (Decision.allow none)
    → (slew_ok now (some l) (last_write name s.history) v ≡ true)
      × ((check_slew now s ctx).0 ≡ record s { history = remember name (v, now) s.history })
one-allowed now s ctx drf name v l hw hn hl h =
    let e = check_slew_one now s ctx drf name v l hw hn hl in
    let (b, k) =
      decided_one now s ((drf, Value.number v) ∷ [])
        (slew_ok now (some l) (last_write name s.history) v) (ap (λ x. x.1) (sym e) ∙ h) in
    (b, ap (λ x. x.0) e ∙ k ∙ recorded_one now s drf name v l hn hl)

-- Two requests that write one number each, whose texts `get_device_name` takes to the same name, and a limit for
-- that name; both are allowed one after the other. Then the second number is within the step of the first, and
-- within the rate for the time between them.
pub slew-consecutive :
    (now later : ℕ) (s : SlewRate) (first second : Context) (drf other name : Text) (v u : ℤ)
    (l : SlewLimit)
    → WritesOne drf v first
    → WritesOne other u second
    → get_device_name drf ≡ ok name
    → get_device_name other ≡ ok name
    → first_for name s.limits ≡ some l
    → (check_slew now s first).1 ≡ ok (Decision.allow none)
    → (check_slew later ((check_slew now s first).0) second).1 ≡ ok (Decision.allow none)
    → (step_ok l.max_step (distance u v) ≡ true)
      × (rate_ok l.max_rate (distance u v) (later - now) ≡ true)
unfolding slew_ok
slew-consecutive now later s first second drf other name v u l hv hu hn ho hl h k =
    let (b, e) = one-allowed now s first drf name v l hv hn hl h in
    let (c, d) =
      one-allowed later (record s { history = remember name (v, now) s.history }) second other name
        u l hu ho hl (ap (λ x. (check_slew later x second).1) (sym e) ∙ k) in
    ground (arith, c, last_write-remember name (v, now) s.history)
