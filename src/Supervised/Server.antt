-- ===== src/Supervised/Server.antt =====
-- The handlers of pacsys/supervised/_server.py: `Set`, and `Read` of requests that are answered once.
use pacsys.Prelude.{
  text_eq, Exn, ℕ, suc, Bool, true, false, ◌&&◌, ◌||◌, Option, none, some, List, [], ◌∷◌, ◌++◌,
  if◌then◌else◌, Result, ok, err, length, Text, codes,
}
use pacsys.Supervised.Context.{Context, Decision, Method, Value, is_in}
use pacsys.Supervised.Access.{and_then}
use pacsys.Supervised.Chain.{Policy, evaluate_policies}
use pacsys.Supervised.Reorder.{slots_from}
use pacsys.Drf.Utils.{get_device_name}

-- The status codes of a reply. `unknown` is what gRPC makes of an exception that a handler does not catch.
pub data Code : Type 0 where
  ok_code unauthenticated invalid_argument permission_denied unimplemented internal unknown : Code

pub record Server : Type 0 where
  pub policies : List Policy
  pub token : Option Text

-- What a handler does: the code of the reply, the answers, and what was passed to the backend, if it was
-- called.
pub record Outcome (Sent : Type 0) (Answer : Type 0) : Type 0 where
  pub code : Code
  pub answers : List Answer
  pub sent : Option Sent

unfoldable pub refused : {S A : Type 0} → Code → Outcome S A
refused c = record { code = c; answers = []; sent = none }

-- `_check_token`: some metadata entry is the bearer token.
unfoldable pub check_token : Option Text → List (Text × Text) → Bool
unfolding text_eq
check_token none md = true
check_token (some t) [] = false
check_token (some t) ((key, value) ∷ md) =
    text_eq key (codes "authorization") && text_eq value (codes "Bearer " ++ t)
    || check_token (some t) md

-- The names of devices for the log; an invalid request raises.
unfoldable pub device_names : List Text → Result (List Text)
unfolding and_then
device_names [] = ok []
device_names (d ∷ ds) =
    let rest = device_names ds in
    and_then (get_device_name d) (λ n. and_then rest (λ ns. ok (n ∷ ns)))

abbrev initial_allowed : Method → List Text → List ℕ
initial_allowed Method.read drfs = slots_from 0 (length drfs)
initial_allowed Method.set drfs = []

-- The context of `_check_policies`.
unfoldable pub initial_context : Method → Text → List Text → List (Text × Value) → Context
unfolding slots_from
initial_context m peer drfs values = record {
  drfs = drfs;
  method = m;
  peer = peer;
  values = values;
  allowed = initial_allowed m drfs;
}

-- `_check_policies`; no policies allow the request as it is.
unfoldable pub check_policies : ℕ → List Policy → Context → List Policy × Result Decision
unfolding evaluate_policies
check_policies now [] ctx = ([], ok (Decision.allow (some ctx)))
check_policies now (p ∷ ps) ctx = evaluate_policies now (p ∷ ps) ctx

-- The slots that no policy approved, with their requests.
unfoldable pub unapproved : ℕ → List Text → List ℕ → List Text
unfolding is_in
unapproved i [] slots = []
unapproved i (d ∷ ds) slots =
    let rest = unapproved (suc i) ds slots in if is_in i slots then rest else d ∷ rest

-- `_check_unapproved`: the code that the request is refused with, if it is.
unfoldable pub refusal : List Text → Option Code
unfolding device_names
refusal [] = none
refusal (d ∷ ds) = elim (device_names (d ∷ ds)) [
  | ok ns ↦ some permission_denied
  | err e ↦ some unknown
]

unfoldable pub check_unapproved : List Text → Context → Option Code
unfolding refusal unapproved
check_unapproved drfs ctx = refusal (unapproved 0 drfs ctx.allowed)

-- The code of an exception that the backend's call raises.
abbrev pub error_code : Exn → Code
error_code Exn.value_error = invalid_argument
error_code Exn.not_implemented_error = unimplemented
error_code Exn.authentication_error = unauthenticated
error_code _ = internal
