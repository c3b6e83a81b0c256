-- ===== src/Supervised/Reading.antt =====
-- The handler `Read` of pacsys/supervised/_server.py, and pacsys/supervised/_event_classify.py.
use pacsys.Prelude.{
  text_eq, ℕ, suc, Bool, true, false, Option, none, some, List, [], ◌∷◌, ◌++◌, if◌then◌else◌,
  Result, ok, err, Text, get_elem?, take,
}
use pacsys.Supervised.Context.{Context, Decision, Method}
use pacsys.Supervised.Access.{and_then}
use pacsys.Supervised.Reorder.{reorder_map}
use pacsys.Supervised.Server.{
  Code, Outcome, Server, check_policies, check_unapproved, device_names, error_code,
  initial_context, refused,
}
use pacsys.Drf.Event.{Event}
use pacsys.Drf.Request.{parse_request}
use pacsys.Supervised.Handlers.{Backend, unless_refused}

-- `is_oneshot_event` and `all_oneshot` of pacsys/supervised/_event_classify.py.
abbrev is_oneshot : Event → Bool
is_oneshot Event.immediate = true
is_oneshot Event.never = true
is_oneshot _ = false

unfoldable is_oneshot_event : Text → Result Bool
unfolding and_then
is_oneshot_event drf = and_then (parse_request drf) (λ r. ok (is_oneshot r.event))

unfoldable all_oneshot : List Text → Result Bool
unfolding is_oneshot_event and_then
all_oneshot [] = ok true
all_oneshot (d ∷ ds) =
    let rest = all_oneshot ds in and_then (is_oneshot_event d) (λ b. if b then rest else ok false)

-- The positions of a request among those that the client sent.
unfoldable positions : ℕ → Text → List Text → List ℕ
unfolding text_eq
positions i d [] = []
positions i d (e ∷ es) = let rest = positions (suc i) d es in if text_eq e d then i ∷ rest else rest

unfoldable at_each : {R : Type 0} → List ℕ → R → List (ℕ × R)
at_each [] r = []
at_each (i ∷ is) r = (i, r) ∷ at_each is r

-- What a stream yields, and how it ends: a reading of a request that nobody sent raises.
unfoldable fan_out : {R : Type 0} → List Text → List (Text × R) → List (ℕ × R) × Code
unfolding positions at_each
fan_out drfs [] = ([], Code.ok_code)
fan_out drfs ((d, r) ∷ rest) = elim (positions 0 d drfs) [
  | [] ↦ ([], Code.invalid_argument)
  | i ∷ is ↦ (at_each (i ∷ is) r ++ (fan_out drfs rest).0, (fan_out drfs rest).1)
]

unfoldable streamed :
    {R : Type 0} → List Text → List Text → Result (List (Text × R)) → Outcome (List Text) (ℕ × R)
unfolding fan_out
streamed drfs final (err e) = record { code = error_code e; answers = []; sent = some final }
streamed drfs final (ok rs) = record {
  code = (fan_out drfs rs).1;
  answers = (fan_out drfs rs).0;
  sent = some final;
}

-- `results[map[i]]` for every i, each yielded before the next is looked up.
unfoldable yielded : {R : Type 0} → ℕ → List ℕ → List R → List (ℕ × R) × Code
yielded i [] rs = ([], Code.ok_code)
yielded i (j ∷ js) rs = elim (get_elem? rs j) [
  | none ↦ ([], Code.internal)
  | some r ↦ ((i, r) ∷ (yielded (suc i) js rs).0, (yielded (suc i) js rs).1)
]

unfoldable yield_ordered :
    {R : Type 0} → List Text → Result (List ℕ) → List R → Outcome (List Text) (ℕ × R)
unfolding yielded
yield_ordered final (err e) rs = record { code = error_code e; answers = []; sent = some final }
yield_ordered final (ok js) rs = record {
  code = (yielded 0 js rs).1;
  answers = (yielded 0 js rs).0;
  sent = some final;
}

unfoldable read_once :
    {R : Type 0} → List Text → List Text → Result (List R) → Outcome (List Text) (ℕ × R)
unfolding yield_ordered reorder_map
read_once drfs final (err e) = record { code = error_code e; answers = []; sent = some final }
read_once drfs final (ok rs) = yield_ordered final (reorder_map drfs final) rs

unfoldable read_path :
    {A R : Type 0} → Backend A R → List Text → List Text → Result Bool → Outcome (List Text) (ℕ × R)
unfolding read_once streamed refused
read_path b drfs final (err e) = refused (error_code e)
read_path b drfs final (ok true) = read_once drfs final (b.get_many final)
read_path b drfs final (ok false) = streamed drfs final (b.subscribe final)

unfoldable read_allowed :
    {A R : Type 0} → Backend A R → List Text → Option Context → Outcome (List Text) (ℕ × R)
unfolding read_path all_oneshot unless_refused check_unapproved refused
read_allowed b drfs none = refused Code.internal
read_allowed b drfs (some ctx) =
    unless_refused (check_unapproved drfs ctx) (read_path b drfs ctx.drfs (all_oneshot ctx.drfs))

unfoldable read_decided :
    {A R : Type 0} → Backend A R → List Text → Result Decision → Outcome (List Text) (ℕ × R)
unfolding read_allowed refused
read_decided b drfs (err e) = refused Code.internal
read_decided b drfs (ok Decision.deny) = refused Code.permission_denied
read_decided b drfs (ok (Decision.allow c)) = read_allowed b drfs c

unfoldable read_named :
    {A R : Type 0}
    → Backend A R
    → ℕ
    → Server
    → Text
    → List Text
    → Result (List Text)
    → Server × Outcome (List Text) (ℕ × R)
unfolding check_policies initial_context read_decided refused
read_named b now s peer drfs (err e) = (s, refused Code.unknown)
read_named b now s peer drfs (ok names) =
    let r = check_policies now s.policies (initial_context Method.read peer drfs []) in
    (record s { policies = r.0 }, read_decided b drfs (r.1))

-- `Read`.
unfoldable pub handle_read :
    {A R : Type 0}
    → Backend A R
    → ℕ
    → Server
    → Text
    → List Text
    → Server × Outcome (List Text) (ℕ × R)
unfolding read_named device_names refused
handle_read b now s peer [] = (s, refused Code.invalid_argument)
handle_read b now s peer (d ∷ ds) =
    read_named b now s peer (d ∷ ds) (device_names (take 5 (d ∷ ds)))
