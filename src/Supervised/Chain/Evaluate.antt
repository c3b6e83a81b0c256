-- ===== src/Supervised/Chain/Evaluate.antt =====
-- The chain of the library's policies keeps the promise of each of them.
use pacsys.Prelude.{
  ℕ, ◌≡◌, refl, ap, ◌∙◌, ◌≢◌, Bool, true, false, ◌||◌, Option, none, some, List, [], ◌∷◌, arith,
  if◌then◌else◌, Result, ok, err, Text,
}
use pacsys.Prelude.Int.{ℤ}
use pacsys.Supervised.Context.{Context, Decision, Method, Value, is_in, is_set}
use pacsys.Supervised.RateLimit.{RateLimit, check_rate}
use pacsys.Supervised.Limits.{
  SlewRate, check_range, check_slew, range_loop, slew_decision, slew_loop,
}
use pacsys.Supervised.Chain.{
  Policy, after, check, evaluate_policies, handed_on, check_read_only, rate_decision,
}
use pacsys.Supervised.Chain.Permits.{
  Passes, access-Passes, all_permit, is_built_in, permits, slot_approved, unchanged,
  slot_approved-tail, range_loop-no_context, range_loop-all_within,
}

rate-no_context :
    (r : RateLimit × Bool) (c : Option Context)
    → (rate_decision r).1 ≡ ok (Decision.allow c)
    → c ≡ none
rate-no_context (l, true) c h = ground arith
rate-no_context (l, false) c h = cc

slew-no_context :
    (now : ℕ) (s : SlewRate) (values : List (Text × Value)) (r : Result Bool) (c : Option Context)
    → (slew_decision now s values r).1 ≡ ok (Decision.allow c)
    → c ≡ none
unfolding slew_decision
slew-no_context now s values (err e) c h = cc
slew-no_context now s values (ok true) c h = ground arith
slew-no_context now s values (ok false) c h = cc

check_slew-no_context :
    (now : ℕ) (s : SlewRate) (ctx : Context) (c : Option Context)
    → (check_slew now s ctx).1 ≡ ok (Decision.allow c)
    → c ≡ none
unfolding check_slew
check_slew-no_context now s ctx c h = slew_branch (is_set ctx.method) h
  where
    slew_branch :
        (b : Bool)
        → (if b
            then slew_decision now s ctx.values (slew_loop now s ctx.values)
            else (s, ok (Decision.allow none))).1
          ≡ ok (Decision.allow c)
        → c ≡ none
    slew_branch true k = slew-no_context now s ctx.values (slew_loop now s ctx.values) c k
    slew_branch false k = ground arith

range-no_context :
    (limits : List (Text × (ℤ × ℤ))) (values : List (Text × Value)) (c : Option Context)
    → range_loop limits values ≡ ok (Decision.allow c)
    → c ≡ none
range-no_context limits values none h = refl
range-no_context limits values (some x) h = absurd (range_loop-no_context limits values x h)

handed_on-none :
    (p : Policy) (ctx : Context) (c : Option Context)
    → c ≡ none
    → Passes p ctx ctx
    → Passes p ctx (handed_on c ctx)
handed_on-none p ctx none e q = q
handed_on-none p ctx (some x) e q = cc

read_only-denies :
    (ctx : Context) (c : Option Context)
    → ctx.method ≡ Method.set
    → ok (check_read_only ctx) ≢ ok (Decision.allow c)
read_only-denies ctx c hm h = ground arith

range_of_set :
    (limits : List (Text × (ℤ × ℤ))) (ctx : Context) (c : Option Context)
    → ctx.method ≡ Method.set
    → check_range limits ctx ≡ ok (Decision.allow c)
    → range_loop limits ctx.values ≡ ok (Decision.allow c)
unfolding check_range
range_of_set limits ctx c hm h = ground arith

check-Passes :
    (now : ℕ) (p : Policy) (ctx : Context) (c : Option Context)
    → is_built_in (p ∷ []) ≡ true
    → ctx.method ≡ Method.set
    → (check now p ctx).1 ≡ ok (Decision.allow c)
    → Passes p ctx (handed_on c ctx)
unfolding check permits is_built_in
check-Passes now Policy.read_only ctx c b hm h = absurd (read_only-denies ctx c hm h)
check-Passes now (Policy.device_access a) ctx c b hm h = access-Passes a ctx c hm h
check-Passes now (Policy.rate_limit l) ctx c b hm h =
    handed_on-none _ ctx c (rate-no_context (check_rate now ctx.peer l) c h) (unchanged _ ctx refl)
check-Passes now (Policy.value_range limits) ctx c b hm h =
    handed_on-none _ ctx c (range-no_context limits ctx.values c (range_of_set limits ctx c hm h))
      (unchanged _ ctx (range_loop-all_within limits ctx.values c (range_of_set limits ctx c hm h)))
check-Passes now (Policy.slew_rate s) ctx c b hm h =
    handed_on-none _ ctx c (check_slew-no_context now s ctx c h) (unchanged _ ctx refl)
check-Passes now (Policy.custom g f) ctx c b hm h = cc

-- What a chain hands on.
pub record Chained (ps : List Policy) (ctx out : Context) : Type 0 where
  pub same_drfs : out.drfs ≡ ctx.drfs
  pub same_values : out.values ≡ ctx.values
  pub slots :
      (i : ℕ)
      → is_in i out.allowed ≡ true
      → (is_in i ctx.allowed || slot_approved ps 0 i ctx.drfs) ≡ true
  pub permitted : all_permit ps ctx.drfs ctx.values ≡ true

Chained-nil : (ctx : Context) → Chained [] ctx ctx
unfolding all_permit
Chained-nil ctx = record {
  same_drfs = refl;
  same_values = refl;
  slots = λ i m. ground arith;
  permitted = refl;
}

Chained-cons :
    (p : Policy) (ps : List Policy) (ctx mid out : Context)
    → Passes p ctx mid
    → Chained ps mid out
    → Chained (p ∷ ps) ctx out
unfolding all_permit
Chained-cons p ps ctx mid out q r = record {
  same_drfs = r.same_drfs ∙ q.same_drfs;
  same_values = r.same_values ∙ q.same_values;
  slots = λ i m. ground (
    arith,
    r.slots i m,
    q.slots ps i,
    slot_approved-tail p ps 0 i ctx.drfs,
    ap (λ (d : List Text). slot_approved ps 0 i d) q.same_drfs,
  );
  permitted = ground (
    arith,
    q.permitted,
    r.permitted,
    ap (λ (d : List Text). all_permit ps d mid.values) q.same_drfs,
    ap (λ (v : List (Text × Value)). all_permit ps ctx.drfs v) q.same_values,
  );
}

after-allow :
    (p : Policy) (d : Result Decision) (ps : List Policy) (ctx : Context)
    (rest : Context → List Policy × Result Decision) (c : Option Context)
    → (after (p, d) ps ctx rest).1 ≡ ok (Decision.allow c)
    → (m : Option Context) × ((d ≡ ok (Decision.allow m))
        × ((rest (handed_on m ctx)).1 ≡ ok (Decision.allow c)))
unfolding after
after-allow p (err e) ps ctx rest c h = cc
after-allow p (ok Decision.deny) ps ctx rest c h = cc
after-allow p (ok (Decision.allow m)) ps ctx rest c h = (m, (refl, h))

built_in-head :
    (p : Policy) (ps : List Policy)
    → is_built_in (p ∷ ps) ≡ true
    → (is_built_in (p ∷ []) ≡ true) × (is_built_in ps ≡ true)
unfolding is_built_in
built_in-head Policy.read_only ps h = (refl, h)
built_in-head (Policy.device_access a) ps h = (refl, h)
built_in-head (Policy.rate_limit l) ps h = (refl, h)
built_in-head (Policy.value_range l) ps h = (refl, h)
built_in-head (Policy.slew_rate s) ps h = (refl, h)
built_in-head (Policy.custom g f) ps h = cc

pub evaluate_policies-Chained :
    (now : ℕ) (ps : List Policy) (ctx : Context) (c : Option Context)
    → is_built_in ps ≡ true
    → ctx.method ≡ Method.set
    → (evaluate_policies now ps ctx).1 ≡ ok (Decision.allow c)
    → (out : Context) × ((c ≡ some out) × Chained ps ctx out)
unfolding evaluate_policies
evaluate_policies-Chained now [] ctx c b hm h = (ctx, (ground arith, Chained-nil ctx))
evaluate_policies-Chained now (p ∷ ps) ctx c b hm h =
    let (m, (hd, hr)) =
      after-allow (check now p ctx).0 (check now p ctx).1 ps ctx (λ x. evaluate_policies now ps x) c
        h in
    let q = check-Passes now p ctx m (built_in-head p ps b).0 hm hd in
    let (out, (e, r)) =
      evaluate_policies-Chained now ps (handed_on m ctx) c (built_in-head p ps b).1
        (q.same_method ∙ hm) hr in
    (out, (e, Chained-cons p ps ctx (handed_on m ctx) out q r))
