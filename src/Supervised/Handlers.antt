-- ===== src/Supervised/Handlers.antt =====
-- The handler `Set` of pacsys/supervised/_server.py, composed of its checks.
pub mod Safety
use pacsys.Prelude.{
  text_eq, index_error, ℕ, suc, Bool, true, false, Option, none, some, List, [], ◌∷◌, ◌++◌, ◌==◌,
  if◌then◌else◌, Result, ok, err, length, Text, get_elem?, take,
}
use pacsys.Supervised.Context.{Context, Decision, Method, Value}
use pacsys.Supervised.Access.{and_then}
use pacsys.Supervised.Reorder.{reorder_map}
use pacsys.Supervised.Server.{
  Code, Outcome, Server, check_policies, check_token, check_unapproved, device_names, error_code,
  initial_context, refused,
}
use pacsys.Drf.Event.{Event}
use pacsys.Drf.Request.{parse_request}

-- The backend: what its calls return or raise. A subscription is the readings that it delivers until
-- the client goes away, with the request that each belongs to.
pub record Backend (A : Type 0) (R : Type 0) : Type 0 where
  pub write_many : List (Text × Value) → Result (List A)
  pub get_many : List Text → Result (List R)
  pub subscribe : List Text → Result (List (Text × R))

unfoldable pub with_value :
    Text → Value → Option (List (Text × Value)) → Option (List (Text × Value))
with_value d v none = none
with_value d v (some vs) = some ((d, v) ∷ vs)

-- The values of the settings; one that cannot be converted raises.
unfoldable pub converted : List (Text × Option Value) → Option (List (Text × Value))
unfolding with_value
converted [] = some []
converted ((d, none) ∷ rest) = none
converted ((d, some v) ∷ rest) = with_value d v (converted rest)

abbrev pub devices_of {ℓ} : {B : Type ℓ} → List (Text × B) → List Text
devices_of [] = []
devices_of ((d, b) ∷ rest) = d ∷ devices_of rest

-- The requests of the context with the values of the context.
unfoldable pub zip_values : List Text → List (Text × Value) → List (Text × Value)
zip_values [] vs = []
zip_values (d ∷ ds) [] = []
zip_values (d ∷ ds) ((e, v) ∷ vs) = (d, v) ∷ zip_values ds vs

unfoldable pub picked : {B : Type 0} → Option B → Result (List B) → Result (List B)
unfolding and_then
picked none rest = err index_error
picked (some b) rest = and_then rest (λ bs. ok (b ∷ bs))

-- `results[map[i]]` for every i.
unfoldable pub pick : {B : Type 0} → List ℕ → List B → Result (List B)
unfolding picked
pick [] results = ok []
pick (i ∷ is) results = picked (get_elem? results i) (pick is results)

unfoldable pub reply_of : {S B : Type 0} → S → Result (List B) → Outcome S B
reply_of sent (ok bs) = record { code = Code.ok_code; answers = bs; sent = some sent }
reply_of sent (err e) = record { code = error_code e; answers = []; sent = some sent }

-- The answers in the order of the request.
unfoldable pub in_order : {B : Type 0} → List Text → List Text → Result (List B) → Result (List B)
unfolding and_then reorder_map pick
in_order original modified results =
    and_then results (λ bs. and_then (reorder_map original modified) (λ is. pick is bs))

-- The call of the backend with the context that the policies leave.
unfoldable pub write_context :
    {A R : Type 0} → Backend A R → List Text → Context → Outcome (List (Text × Value)) A
unfolding reply_of in_order zip_values refused
write_context b drfs ctx =
    if length ctx.drfs == length ctx.values
    then reply_of (zip_values ctx.drfs ctx.values)
        (in_order drfs ctx.drfs (b.write_many (zip_values ctx.drfs ctx.values)))
    else refused Code.invalid_argument

unfoldable pub unless_refused : {S B : Type 0} → Option Code → Outcome S B → Outcome S B
unfolding refused
unless_refused none o = o
unless_refused (some c) o = refused c

unfoldable pub write_allowed :
    {A R : Type 0} → Backend A R → List Text → Option Context → Outcome (List (Text × Value)) A
unfolding write_context unless_refused check_unapproved refused
write_allowed b drfs none = refused Code.internal
write_allowed b drfs (some ctx) =
    unless_refused (check_unapproved drfs ctx) (write_context b drfs ctx)

unfoldable pub write_decided :
    {A R : Type 0} → Backend A R → List Text → Result Decision → Outcome (List (Text × Value)) A
unfolding write_allowed refused
write_decided b drfs (err e) = refused Code.internal
write_decided b drfs (ok Decision.deny) = refused Code.permission_denied
write_decided b drfs (ok (Decision.allow c)) = write_allowed b drfs c

unfoldable pub set_values :
    {A R : Type 0}
    → Backend A R
    → ℕ
    → Server
    → Text
    → List Text
    → Option (List (Text × Value))
    → Server × Outcome (List (Text × Value)) A
unfolding check_policies initial_context write_decided refused
set_values b now s peer drfs none = (s, refused Code.invalid_argument)
set_values b now s peer drfs (some values) =
    let r = check_policies now s.policies (initial_context Method.set peer drfs values) in
    (record s { policies = r.0 }, write_decided b drfs (r.1))

-- The first five devices are named for the log before anything is checked.
unfoldable pub set_named :
    {A R : Type 0}
    → Backend A R
    → ℕ
    → Server
    → Text
    → List (Text × Option Value)
    → Result (List Text)
    → Server × Outcome (List (Text × Value)) A
unfolding set_values converted refused
set_named b now s peer settings (err e) = (s, refused Code.unknown)
set_named b now s peer settings (ok names) =
    set_values b now s peer (devices_of settings) (converted settings)

-- `Set`.
unfoldable pub handle_set :
    {A R : Type 0}
    → Backend A R
    → ℕ
    → Server
    → List (Text × Text)
    → Text
    → List (Text × Option Value)
    → Server × Outcome (List (Text × Value)) A
unfolding set_named device_names refused check_token
handle_set b now s md peer [] =
    if check_token s.token md
    then (s, refused Code.invalid_argument)
    else (s, refused Code.unauthenticated)
handle_set b now s md peer (x ∷ xs) =
    if check_token s.token md
    then set_named b now s peer (x ∷ xs) (device_names (take 5 (devices_of (x ∷ xs))))
    else (s, refused Code.unauthenticated)
