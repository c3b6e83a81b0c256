-- ===== src/Supervised/Chain/Permits.antt =====
-- What the policies of the library promise of the settings that they let through.
use pacsys.Prelude.{
  ℕ, suc, ◌≡◌, refl, sym, ap, ◌≢◌, Bool, true, false, not, ◌&&◌, ◌||◌, Option, none, some, List, [],
  ◌∷◌, arith, ◌==◌, if◌then◌else◌, Result, ok, err, Text,
}
use pacsys.Prelude.Int.{ℤ}
use pacsys.Supervised.Context.{Context, Decision, Method, Value, is_in}
use pacsys.Supervised.Access.{
  Access, add, and_then, applies, approve_loop, approved, check_access, deny_loop, matches,
}
use pacsys.Supervised.Limits.{first_for, in_bound, range_loop}
use pacsys.Supervised.Chain.{Policy, handed_on}
use pacsys.Drf.Utils.{get_device_name}

-- The device of the request matches one of the patterns.
unfoldable named_by : List (Text → Bool) → Text → Bool
named_by ps drf = elim (get_device_name drf) [ err e ↦ false | ok name ↦ matches ps name ]

-- No device matches.
unfoldable none_named : List (Text → Bool) → List Text → Bool
unfolding named_by
none_named ps [] = true
none_named ps (d ∷ ds) = not (named_by ps d) && none_named ps ds

-- A number is within the bound that stands with its device.
unfoldable value_within : List (Text × (ℤ × ℤ)) → Text → Value → Bool
value_within limits drf (Value.other t) = true
value_within limits drf (Value.number v) = elim (get_device_name drf) [
  | err e ↦ false
  | ok name ↦ in_bound (first_for name limits) v
]

unfoldable pub all_within : List (Text × (ℤ × ℤ)) → List (Text × Value) → Bool
unfolding value_within
all_within limits [] = true
all_within limits ((d, v) ∷ rest) = value_within limits d v && all_within limits rest

-- What a policy promises of the settings: nothing is written past `read_only`, no device that a policy of
-- mode "deny" names for writes, and no number out of its bound.
unfoldable pub permits : Policy → List Text → List (Text × Value) → Bool
unfolding none_named all_within
permits Policy.read_only drfs values = false
permits (Policy.device_access a) drfs values =
    if a.denies && applies a.action Method.set then none_named a.patterns drfs else true
permits (Policy.value_range limits) drfs values = all_within limits values
permits _ drfs values = true

unfoldable pub all_permit : List Policy → List Text → List (Text × Value) → Bool
unfolding permits
all_permit [] drfs values = true
all_permit (p ∷ ps) drfs values = permits p drfs values && all_permit ps drfs values

-- A policy of mode "allow" that names the device for writes.
unfoldable approves : Policy → Text → Bool
unfolding named_by
approves (Policy.device_access a) drf =
    not a.denies && applies a.action Method.set && named_by a.patterns drf
approves _ drf = false

unfoldable some_approves : List Policy → Text → Bool
unfolding approves
some_approves [] drf = false
some_approves (p ∷ ps) drf = approves p drf || some_approves ps drf

unfoldable pub all_approved : List Policy → List Text → Bool
unfolding some_approves
all_approved ps [] = true
all_approved ps (d ∷ ds) = some_approves ps d && all_approved ps ds

-- The policies of the library alone.
unfoldable pub is_built_in : List Policy → Bool
is_built_in [] = true
is_built_in (Policy.custom g f ∷ ps) = false
is_built_in (p ∷ ps) = is_built_in ps

deny_loop-none_named :
    (ps : List (Text → Bool)) (drfs : List Text) (c : Option Context)
    → deny_loop ps drfs ≡ ok (Decision.allow c)
    → none_named ps drfs ≡ true
unfolding deny_loop none_named and_then named_by
deny_loop-none_named ps [] c h = refl
deny_loop-none_named ps (d ∷ ds) c h = ground (arith, deny_loop-none_named ps ds c)

pub range_loop-all_within :
    (limits : List (Text × (ℤ × ℤ))) (values : List (Text × Value)) (c : Option Context)
    → range_loop limits values ≡ ok (Decision.allow c)
    → all_within limits values ≡ true
unfolding range_loop all_within and_then value_within
range_loop-all_within limits [] c h = refl
range_loop-all_within limits ((d, Value.other t) ∷ rest) c h = range_loop-all_within limits rest c h
range_loop-all_within limits ((d, Value.number v) ∷ rest) c h =
    ground (arith, range_loop-all_within limits rest c)

-- A slot of the requests from k on whose device is named.
unfoldable slot_named : List (Text → Bool) → ℕ → ℕ → List Text → Bool
unfolding named_by
slot_named ps k i [] = false
slot_named ps k i (d ∷ ds) = k == i && named_by ps d || slot_named ps (suc k) i ds

is_in-add : (i j : ℕ) (slots : List ℕ) → is_in i (add j slots) ≡ (j == i || is_in i slots)
unfolding is_in add
is_in-add i j slots = ground arith

approve_loop-slots :
    (ps : List (Text → Bool)) (k : ℕ) (drfs : List Text) (slots out : List ℕ) (i : ℕ)
    → approve_loop ps k drfs slots ≡ ok out
    → is_in i out ≡ true
    → (is_in i slots || slot_named ps k i drfs) ≡ true
unfolding approve_loop slot_named and_then named_by
approve_loop-slots ps k [] slots out i h m = ground arith
approve_loop-slots ps k (d ∷ ds) slots out i h m = ground (
  arith,
  approve_loop-slots ps (suc k) ds slots out i,
  approve_loop-slots ps (suc k) ds (add k slots) out i,
  is_in-add i k slots,
)

-- A slot whose request some policy of the chain approves.
unfoldable pub slot_approved : List Policy → ℕ → ℕ → List Text → Bool
unfolding some_approves
slot_approved ps k i [] = false
slot_approved ps k i (d ∷ ds) = k == i && some_approves ps d || slot_approved ps (suc k) i ds

slot_approved-head :
    (a : Access) (ps : List Policy) (k i : ℕ) (ds : List Text)
    → a.denies ≡ false
    → applies a.action Method.set ≡ true
    → slot_named a.patterns k i ds ≡ true
    → slot_approved (Policy.device_access a ∷ ps) k i ds ≡ true
unfolding slot_named slot_approved some_approves approves
slot_approved-head a ps k i [] hd ha h = cc
slot_approved-head a ps k i (d ∷ ds) hd ha h = ground (arith, slot_approved-head a ps (suc k) i ds)

pub slot_approved-tail :
    (p : Policy) (ps : List Policy) (k i : ℕ) (ds : List Text)
    → slot_approved ps k i ds ≡ true
    → slot_approved (p ∷ ps) k i ds ≡ true
unfolding slot_approved some_approves
slot_approved-tail p ps k i [] h = cc
slot_approved-tail p ps k i (d ∷ ds) h = ground (arith, slot_approved-tail p ps (suc k) i ds)

-- What a policy of the library hands on: the same requests and values, no slot approved but those that it
-- names, and settings that it permits.
pub record Passes (p : Policy) (ctx out : Context) : Type 0 where
  pub same_drfs : out.drfs ≡ ctx.drfs
  pub same_values : out.values ≡ ctx.values
  pub same_method : out.method ≡ ctx.method
  pub slots :
      (ps : List Policy) (i : ℕ)
      → is_in i out.allowed ≡ true
      → (is_in i ctx.allowed || slot_approved (p ∷ ps) 0 i ctx.drfs) ≡ true
  pub permitted : permits p ctx.drfs ctx.values ≡ true

pub unchanged :
    (p : Policy) (ctx : Context) → permits p ctx.drfs ctx.values ≡ true → Passes p ctx ctx
unchanged p ctx h = record {
  same_drfs = refl;
  same_values = refl;
  same_method = refl;
  slots = λ ps i m. ground arith;
  permitted = h;
}

approves-Passes :
    (a : Access) (ctx : Context) (out : List ℕ)
    → applies a.action Method.set ≡ true
    → a.denies ≡ false
    → approve_loop a.patterns 0 ctx.drfs ctx.allowed ≡ ok out
    → Passes (Policy.device_access a) ctx (record ctx { allowed = out })
unfolding permits
approves-Passes a ctx out ha hd h = record {
  same_drfs = refl;
  same_values = refl;
  same_method = refl;
  slots = λ ps i m. ground (
    arith,
    approve_loop-slots a.patterns 0 ctx.drfs ctx.allowed out i h m,
    slot_approved-head a ps 0 i ctx.drfs hd ha,
  );
  permitted = ground arith;
}

-- A decision of mode "allow" hands on the context with the slots that the loop found.
approved-cases :
    (ctx : Context) (r : Result (List ℕ)) (c : Option Context)
    → approved ctx r ≡ ok (Decision.allow c)
    → (out : List ℕ) × ((r ≡ ok out) × (c ≡ some (record ctx { allowed = out })))
unfolding approved
approved-cases ctx (err e) c h = cc
approved-cases ctx (ok out) c h = (out, (refl, ground arith))

handed_on-same :
    (p : Policy) (ctx : Context) (c : Option Context)
    → ok (Decision.allow none) ≡ ok (Decision.allow c)
    → Passes p ctx ctx
    → Passes p ctx (handed_on c ctx)
handed_on-same p ctx none h q = q
handed_on-same p ctx (some x) h q = cc

deny_loop-no_context :
    (ps : List (Text → Bool)) (drfs : List Text) (x : Context)
    → deny_loop ps drfs ≢ ok (Decision.allow (some x))
unfolding deny_loop and_then
deny_loop-no_context ps [] x h = cc
deny_loop-no_context ps (d ∷ ds) x h = ground (arith, deny_loop-no_context ps ds x)

pub range_loop-no_context :
    (limits : List (Text × (ℤ × ℤ))) (values : List (Text × Value)) (x : Context)
    → range_loop limits values ≢ ok (Decision.allow (some x))
unfolding range_loop and_then
range_loop-no_context limits [] x h = cc
range_loop-no_context limits ((d, Value.other t) ∷ rest) x h = range_loop-no_context limits rest x h
range_loop-no_context limits ((d, Value.number v) ∷ rest) x h =
    ground (arith, range_loop-no_context limits rest x)

access_branch :
    (a : Access) (ctx : Context) (c : Option Context) (applied denies : Bool)
    → applies a.action Method.set ≡ applied
    → a.denies ≡ denies
    → (if not applied
        then ok (Decision.allow none)
        else if denies
        then deny_loop a.patterns ctx.drfs
        else approved ctx (approve_loop a.patterns 0 ctx.drfs ctx.allowed))
      ≡ ok (Decision.allow c)
    → Passes (Policy.device_access a) ctx (handed_on c ctx)
unfolding permits
access_branch a ctx c false denies ha hd h =
    handed_on-same _ ctx c h (unchanged _ ctx (ground arith))
access_branch a ctx none true true ha hd h =
    unchanged _ ctx (ground (arith, deny_loop-none_named a.patterns ctx.drfs none h))
access_branch a ctx (some x) true true ha hd h =
    absurd (deny_loop-no_context a.patterns ctx.drfs x h)
access_branch a ctx c true false ha hd h =
    let (out, (e, k)) = approved-cases ctx (approve_loop a.patterns 0 ctx.drfs ctx.allowed) c h in
    rw k (approves-Passes a ctx out ha hd e)

pub access-Passes :
    (a : Access) (ctx : Context) (c : Option Context)
    → ctx.method ≡ Method.set
    → check_access a ctx ≡ ok (Decision.allow c)
    → Passes (Policy.device_access a) ctx (handed_on c ctx)
unfolding check_access
access-Passes a ctx c hm h =
    access_branch a ctx c (applies a.action ctx.method) a.denies (ap (applies a.action) (sym hm))
      refl h
