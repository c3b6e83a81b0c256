-- ===== src/Supervised/Access.antt =====
-- `DeviceAccessPolicy` of pacsys/supervised/_policies.py.
use pacsys.Prelude.{
  value_error, ℕ, suc, Bool, true, false, not, ◌&&◌, ◌||◌, none, some, List, [], ◌∷◌, if◌then◌else◌,
  Result, ok, err, Text,
}
use pacsys.Supervised.Context.{Context, Decision, Method, is_in}
use pacsys.Supervised.Glob.{matches_glob}
use pacsys.Drf.Utils.{get_device_name}

-- `action`: "all", "read" or "set".
pub data Action : Type 0 where
  all_methods reads sets : Action

-- `_applies`.
abbrev pub applies : Action → Method → Bool
applies all_methods m = true
applies reads Method.read = true
applies reads Method.set = false
applies sets Method.read = false
applies sets Method.set = true

-- A compiled policy: a pattern is the test that it makes of a name; one of syntax "regex" is the full
-- match of its expression in either case.
pub record Access : Type 0 where
  pub patterns : List (Text → Bool)
  pub denies : Bool
  pub action : Action

-- The tests of patterns of syntax "glob".
abbrev pub globs : List Text → List (Text → Bool)
globs [] = []
globs (p ∷ ps) = (λ name. matches_glob name p) ∷ globs ps

-- `DeviceAccessPolicy.__init__`, its mode and action already one of those allowed.
unfoldable new_access : List (Text → Bool) → Bool → Action → Result Access
new_access [] denies action = err value_error
new_access (p ∷ ps) denies action =
    ok (record { patterns = p ∷ ps; denies = denies; action = action })

-- `_matches`.
unfoldable pub matches : List (Text → Bool) → Text → Bool
matches [] name = false
matches (p ∷ ps) name = p name || matches ps name

-- `DeviceAccessPolicy.allows_writes`.
abbrev pub access_allows_writes : Access → Bool
access_allows_writes a = not a.denies && applies a.action Method.set

unfoldable pub and_then {ℓ κ} : {A : Type ℓ} {B : Type κ} → Result A → (A → Result B) → Result B
and_then (ok a) f = f a
and_then (err e) f = err e

-- The loop of mode "deny": the first device that matches decides.
unfoldable pub deny_loop : List (Text → Bool) → List Text → Result Decision
unfolding and_then matches
deny_loop ps [] = ok (Decision.allow none)
deny_loop ps (drf ∷ drfs) =
    let rest = deny_loop ps drfs in
    and_then (get_device_name drf) (λ name. if matches ps name then ok Decision.deny else rest)

unfoldable pub add : ℕ → List ℕ → List ℕ
unfolding is_in
add i slots = if is_in i slots then slots else i ∷ slots

-- The loop of mode "allow": the slots that match are approved.
unfoldable pub approve_loop : List (Text → Bool) → ℕ → List Text → List ℕ → Result (List ℕ)
unfolding and_then matches add
approve_loop ps i [] slots = ok slots
approve_loop ps i (drf ∷ drfs) slots =
    and_then (get_device_name drf)
      (λ name. approve_loop ps (suc i) drfs (if matches ps name then add i slots else slots))

unfoldable pub approved : Context → Result (List ℕ) → Result Decision
approved ctx (err e) = err e
approved ctx (ok slots) = ok (Decision.allow (some (record ctx { allowed = slots })))

-- `DeviceAccessPolicy.check`. Where no slot is new the code hands on no context, here the same one.
unfoldable pub check_access : Access → Context → Result Decision
unfolding deny_loop approve_loop approved
check_access a ctx =
    if not (applies a.action ctx.method)
    then ok (Decision.allow none)
    else if a.denies
    then deny_loop a.patterns ctx.drfs
    else approved ctx (approve_loop a.patterns 0 ctx.drfs ctx.allowed)
