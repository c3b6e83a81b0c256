-- ===== src/Supervised/Runs.antt =====
-- Concrete requests to the proxy, and the theorems at concrete inputs.
use pacsys.Prelude.{
  ℕ, zero, suc, ◌≤◌, ◌≡◌, refl, true, false, Option, none, some, List, [], ◌∷◌, map, arith, ok,
  Text, codes,
}
use pacsys.Prelude.Int.{pos}
use pacsys.Drf.Utils.{get_device_name}
use pacsys.Supervised.Context.{Context, Decision, Method, Value}
use pacsys.Supervised.Glob.{matches_glob}
use pacsys.Supervised.Access.{Action, globs}
use pacsys.Supervised.RateLimit.{RateLimit, check_rate, new_rate_limit}
use pacsys.Supervised.RateLimit.Bound.{in_window, is_clock, served, served-le-max_requests}
use pacsys.Supervised.Limits.{SlewRate, check_slew, distance, first_for, rate_ok, step_ok}
use pacsys.Supervised.Limits.Slew.{slew-consecutive}
use pacsys.Supervised.Chain.{Policy}
use pacsys.Supervised.Chain.Permits.{is_built_in}
use pacsys.Supervised.Reorder.{reorder_map}
use pacsys.Supervised.Reorder.Laws.{is_distinct, reorder_map-pick}
use pacsys.Supervised.Server.{Code, Server, check_token}
use pacsys.Supervised.Handlers.{Backend, converted, handle_set, pick}
use pacsys.Supervised.Reading.{handle_read}
use pacsys.Supervised.Handlers.Safety.{IsSafe, handle_set-sent}

glob_test : matches_glob (codes "m:outtmp") (codes "M:[a-p]*T?P") ≡ true
unfolding matches_glob
glob_test = refl

glob_negated_test : matches_glob (codes "M:OUTTMP") (codes "M:[!O]*") ≡ false
unfolding matches_glob
glob_negated_test = refl

abbrev access_policy : Policy
access_policy =
    Policy.device_access
      (record { patterns = globs (codes "M:*" ∷ []); denies = false; action = Action.sets })

abbrev range_policy : Policy
range_policy = Policy.value_range ((codes "M:*", (pos 0, pos 100)) ∷ [])

abbrev server : Server
server = record { policies = access_policy ∷ range_policy ∷ []; token = some (codes "secret") }

-- A backend that answers every setting with a number, and every request with itself.
abbrev backend : Backend ℕ Text
backend = record {
  write_many = λ l. ok (map (λ x. 0) l);
  get_many = λ l. ok l;
  subscribe = λ l. ok [];
}

abbrev bearer : List (Text × Text)
bearer = (codes "authorization", codes "Bearer secret") ∷ []

abbrev settings : List (Text × Option Value)
settings = (codes "M:OUTTMP.SETTING", some (Value.number (pos 72))) ∷ []

abbrev sent_settings : List (Text × Value)
sent_settings = (codes "M:OUTTMP.SETTING", Value.number (pos 72)) ∷ []

written_test :
    (handle_set backend 0 server bearer (codes "peer") settings).1.sent ≡ some sent_settings
unfolding handle_set get_device_name matches_glob
written_test = refl

out_of_range_test :
    (handle_set backend 0 server bearer
      (codes "peer")
      ((codes "M:OUTTMP", some (Value.number (pos 101))) ∷ [])).1.code
    ≡ Code.permission_denied
unfolding handle_set get_device_name matches_glob
out_of_range_test = refl

no_token_test :
    (handle_set backend 0 server [] (codes "peer") settings).1.code ≡ Code.unauthenticated
unfolding handle_set
no_token_test = refl

read_test :
    (handle_read backend 0 server
      (codes "peer")
      (codes "M:OUTTMP@I" ∷ codes "M:A12@I" ∷ [])).1.answers
    ≡ (0, codes "M:OUTTMP@I") ∷ (1, codes "M:A12@I") ∷ []
unfolding handle_read get_device_name
read_test = refl

handle_set-sent_example :
    (check_token server.token bearer ≡ true)
    × ((converted settings ≡ some sent_settings) × IsSafe server.policies sent_settings)
unfolding is_built_in
handle_set-sent_example =
    handle_set-sent backend 0 server bearer (codes "peer") settings sent_settings refl written_test

abbrev limited : RateLimit
limited = record { max_requests = 2; window = 60; timestamps = [] }

limited_made : new_rate_limit 2 60 ≡ ok limited
unfolding new_rate_limit
limited_made = refl

abbrev requests : List (ℕ × Text)
requests =
    (10, codes "a") ∷ (20, codes "a") ∷ (30, codes "b") ∷ (40, codes "a") ∷ (75, codes "a") ∷ []

served_test : served (codes "a") limited requests ≡ 10 ∷ 20 ∷ 75 ∷ []
unfolding served
served_test = refl

served-le-max_requests_example : in_window 60 40 (served (codes "a") limited requests) ≤ 2
unfolding is_clock
served-le-max_requests_example =
    served-le-max_requests 2 60 40 (codes "a") limited requests limited_made (omega arith) refl

-- Peers that never had a request allowed.
unfoldable idle_peers : ℕ → List (Text × List ℕ)
idle_peers zero = []
idle_peers (suc n) = (n ∷ 0 ∷ [], []) ∷ idle_peers n

-- A limit of one request in two hours, used by the peer an hour and a second ago.
abbrev crowded : RateLimit
unfolding idle_peers
crowded = record {
  max_requests = 1;
  window = 7200000000000;
  timestamps = (codes "a", 0 ∷ []) ∷ idle_peers 100;
}

forgotten_test : (check_rate 3601000000000 (codes "a") crowded).1 ≡ true
unfolding check_rate idle_peers
forgotten_test = refl

abbrev slew : SlewRate
slew = record {
  limits = (codes "M:*", record { max_step = some 10; max_rate = none }) ∷ [];
  history = [];
}

abbrev writing : Text → ℕ → Context
writing drf n = record {
  drfs = drf ∷ [];
  method = Method.set;
  peer = [];
  values = (drf, Value.number (pos n)) ∷ [];
  allowed = [];
}

first_write : (check_slew 5 slew (writing (codes "M:OUTTMP") 70)).1 ≡ ok (Decision.allow none)
unfolding check_slew get_device_name matches_glob
first_write = refl

second_write :
    (check_slew 9
      ((check_slew 5 slew (writing (codes "M:OUTTMP") 70)).0)
      (writing (codes "M:OUTTMP.SETTING") 79)).1
    ≡ ok (Decision.allow none)
unfolding check_slew get_device_name matches_glob
second_write = refl

-- The name in lower case has a history of its own.
other_case :
    (check_slew 9
      ((check_slew 5 slew (writing (codes "M:OUTTMP") 70)).0)
      (writing (codes "m:outtmp") 1000)).1
    ≡ ok (Decision.allow none)
unfolding check_slew get_device_name matches_glob
other_case = refl

slew-consecutive_example :
    (step_ok (some 10) (distance (pos 79) (pos 70)) ≡ true)
    × (rate_ok none (distance (pos 79) (pos 70)) 4 ≡ true)
unfolding get_device_name first_for matches_glob
slew-consecutive_example =
    slew-consecutive 5 9 slew (writing (codes "M:OUTTMP") 70)
      (writing (codes "M:OUTTMP.SETTING") 79) (codes "M:OUTTMP") (codes "M:OUTTMP.SETTING")
      (codes "M:OUTTMP") (pos 70) (pos 79) (record { max_step = some 10; max_rate = none })
      (refl, refl) (refl, refl) refl refl refl first_write second_write

abbrev writing_twice : Context
writing_twice = record {
  drfs = codes "M:OUTTMP" ∷ codes "M:OUTTMP" ∷ [];
  method = Method.set;
  peer = [];
  values =
      (codes "M:OUTTMP", Value.number (pos 0)) ∷ (codes "M:OUTTMP", Value.number (pos 100000)) ∷ [];
  allowed = [];
}

one_request_test : (check_slew 5 slew writing_twice).1 ≡ ok (Decision.allow none)
unfolding check_slew get_device_name matches_glob
one_request_test = refl

abbrev asked : List Text
asked = codes "a" ∷ codes "b" ∷ codes "a" ∷ []

abbrev left : List Text
left = codes "b" ∷ codes "a" ∷ codes "a" ∷ []

reorder_map-pick_example :
    (pick (1 ∷ 0 ∷ 2 ∷ []) left ≡ ok asked) × (is_distinct (1 ∷ 0 ∷ 2 ∷ []) ≡ true)
unfolding reorder_map
reorder_map-pick_example = reorder_map-pick asked left (1 ∷ 0 ∷ 2 ∷ []) refl
