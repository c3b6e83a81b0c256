-- ===== src/Supervised/RateLimit.antt =====
-- `RateLimitPolicy` of pacsys/supervised/_policies.py. The clock counts nanoseconds.
pub mod Window
pub mod Bound
use pacsys.Prelude.{
  value_error, text_eq, ℕ, zero, suc, ◌+◌, Bool, true, false, Option, none, some, List, [], ◌∷◌,
  ◌++◌, ltb, leb, if◌then◌else◌, Result, ok, err, length, Text,
}

-- `_timestamps`: a dictionary from a peer to the times of its requests, oldest first.
abbrev pub Times : Type 0
Times = List (Text × List ℕ)

pub record RateLimit : Type 0 where
  pub max_requests : ℕ
  pub window : ℕ
  pub timestamps : Times

-- `RateLimitPolicy.__init__`.
unfoldable pub new_rate_limit : ℕ → ℕ → Result RateLimit
new_rate_limit zero window = err value_error
new_rate_limit (suc n) zero = err value_error
new_rate_limit (suc n) (suc w) =
    ok (record { max_requests = suc n; window = suc w; timestamps = [] })

-- An hour.
abbrev pub stale_after : ℕ
stale_after = 3600000000000

-- `ts_list[-1]`, if there is one.
unfoldable pub last : List ℕ → Option ℕ
last [] = none
last (t ∷ []) = some t
last (t ∷ u ∷ ts) = last (u ∷ ts)

-- `not ts_list or ts_list[-1] < now - 3600`.
unfoldable pub is_stale : ℕ → Option ℕ → Bool
is_stale now none = true
is_stale now (some t) = ltb (t + stale_after) now

unfoldable pub prune : ℕ → Times → Times
unfolding is_stale last
prune now [] = []
prune now ((peer, ts) ∷ rest) =
    let kept = prune now rest in if is_stale now (last ts) then kept else (peer, ts) ∷ kept

-- Only a dictionary of more than 100 peers is pruned.
unfoldable pub pruned : ℕ → Times → Times
unfolding prune
pruned now m = if ltb 100 (length m) then prune now m else m

-- `_timestamps.get(peer, [])`.
unfoldable pub times_of : Text → Times → List ℕ
unfolding text_eq
times_of peer [] = []
times_of peer ((p, ts) ∷ rest) = if text_eq p peer then ts else times_of peer rest

-- `_timestamps[peer] = times`.
unfoldable pub put : Text → List ℕ → Times → Times
unfolding text_eq
put peer ts [] = (peer, ts) ∷ []
put peer ts ((p, us) ∷ rest) =
    let later = put peer ts rest in if text_eq p peer then (p, ts) ∷ rest else (p, us) ∷ later

-- `[t for t in times if t > now - window]`.
unfoldable pub recent : ℕ → ℕ → List ℕ → List ℕ
recent window now [] = []
recent window now (t ∷ ts) =
    let kept = recent window now ts in if ltb now (t + window) then t ∷ kept else kept

-- The decision on the times of the peer within the window.
unfoldable pub count_request : RateLimit → Text → ℕ → Times → List ℕ → RateLimit × Bool
unfolding put
count_request l peer now m ts =
    if leb l.max_requests (length ts)
    then (record l { timestamps = put peer ts m }, false)
    else (record l { timestamps = put peer (ts ++ (now ∷ [])) m }, true)

-- `RateLimitPolicy.check` at the time `now`: the new state and whether the request is allowed.
unfoldable pub check_rate : ℕ → Text → RateLimit → RateLimit × Bool
unfolding pruned times_of recent count_request
check_rate now peer l =
    count_request l peer now (pruned now l.timestamps)
      (recent l.window now (times_of peer (pruned now l.timestamps)))
