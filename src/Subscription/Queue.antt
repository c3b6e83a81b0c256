-- ===== src/Subscription/Queue.antt =====
-- `AsyncSubscriptionHandle` of pacsys/aio/_subscription.py. Tasks switch only where the code awaits, so each
-- function is what runs between two awaits. The clock counts nanoseconds.
pub mod Drain
use pacsys.Prelude.{
  ℕ, zero, suc, ◌+◌, ◌-◌, ◌*◌, ◌/◌, ◌%◌, ◌^◌, ◌≤◌, ◌<◌, bit_and, bit_or, ◌≡◌, refl, sym, ap, ◌∙◌,
  ◌≢◌, ◌↔◌, ◌⊎◌, inl, inr, Bool, true, false, not, ◌&&◌, ◌||◌, Option, none, some, List, [], ◌∷◌,
  ◌++◌, map, append-nil, append_assoc, arith, ltb, leb, ◌==◌, if◌then◌else◌, Bool-cases, Result, ok,
  err, ◌>>=◌, ◌>>◌, guard, length, Text, codes,
}
use pacsys.Subscription.Buffer.{Next, default_buffer_maxsize, drop_log_interval, first_error}

-- `_queue` holds readings and `None`, the sign of a stop.
pub record Handle (A : Type 0) (E : Type 0) : Type 0 where
  pub queue : List (Option A)
  pub capacity : ℕ
  pub is_stopped : Bool
  pub failure : Option E
  pub drops : ℕ
  pub last_log : ℕ

-- `__init__`.
unfoldable pub new_handle : {A E : Type 0} → Handle A E
new_handle = record {
  queue = [];
  capacity = default_buffer_maxsize;
  is_stopped = false;
  failure = none;
  drops = 0;
  last_log = 0;
}

-- `put_nowait`: the queue behind it, unless it is full.
unfoldable pub put_nowait : {A : Type 0} → ℕ → Option A → List (Option A) → Option (List (Option A))
put_nowait n item q = if leb n (length q) then none else some (q ++ (item ∷ []))

unfoldable pub put_reading : {A E : Type 0} → ℕ → Handle A E → Option (List (Option A)) → Handle A E
put_reading now h (some q) = record h { queue = q }
put_reading now h none =
    if leb drop_log_interval (now - h.last_log)
    then record h { drops = 0; last_log = now }
    else record h { drops = suc h.drops }

-- `_dispatch` at the time `now`.
unfoldable pub dispatch_nowait : {A E : Type 0} → ℕ → A → Handle A E → Handle A E
unfolding put_reading put_nowait
dispatch_nowait now r h =
    if h.is_stopped then h else put_reading now h (put_nowait h.capacity (some r) h.queue)

-- The sign of a stop is left out of a full queue.
unfoldable pub put_stop : {A E : Type 0} → Handle A E → Option (List (Option A)) → Handle A E
put_stop h (some q) = record h { queue = q }
put_stop h none = h

-- `_signal_stop`.
unfoldable pub stop_queue : {A E : Type 0} → Handle A E → Handle A E
unfolding put_stop put_nowait
stop_queue h =
    if h.is_stopped
    then h
    else put_stop (record h { is_stopped = true }) (put_nowait h.capacity none h.queue)

-- `_signal_error`.
unfoldable pub fail_queue : {A E : Type 0} → E → Handle A E → Handle A E
unfolding stop_queue first_error
fail_queue e h = stop_queue (record h { failure = first_error e h.failure })

-- The end of `readings`.
unfoldable pub end_or_raise : {A E : Type 0} → Option E → Next A E
end_or_raise none = Next.ends
end_or_raise (some e) = Next.raises e

-- What `readings` does with an item of the queue.
unfoldable pub on_item : {A E : Type 0} → Option E → Option A → Next A E
unfolding end_or_raise
on_item exc none = end_or_raise exc
on_item exc (some r) = Next.yields r

-- `get` ran to an item at once, or the reader waits in it with this timeout.
unfoldable pub take_first :
    {A E : Type 0} → Option ℕ → Handle A E → List (Option A) → Handle A E × Next A E
unfolding on_item end_or_raise
take_first timeout h [] =
    if h.is_stopped then (h, end_or_raise h.failure) else (h, Next.waits timeout)
take_first timeout h (item ∷ rest) = (record h { queue = rest }, on_item h.failure item)

-- `asyncio.wait_for` without time cancels `get` before it runs, and the wait is over whatever is queued.
unfoldable pub take_none : {A E : Type 0} → Handle A E → Handle A E × Next A E
unfolding end_or_raise
take_none h = if h.is_stopped then (h, end_or_raise h.failure) else (h, Next.waits (some 0))

-- A round of `readings`.
unfoldable pub take_item :
    {A E : Type 0} → Option ℕ → Handle A E → List (Option A) → Handle A E × Next A E
unfolding take_first take_none
take_item none h q = take_first none h q
take_item (some zero) h q = take_none h
take_item (some (suc n)) h q = take_first (some (suc n)) h q

unfoldable pub next_reading : {A E : Type 0} → Option ℕ → Handle A E → Handle A E × Next A E
unfolding take_item
next_reading timeout h = take_item timeout h h.queue

-- The wait is over before an item came: outside a stop the caller sees the timeout.
unfoldable on_timeout : {A E : Type 0} → E → Handle A E → Next A E
unfolding end_or_raise
on_timeout timeout_error h =
    if h.is_stopped then end_or_raise h.failure else Next.raises timeout_error

-- What runs between two awaits of some task.
pub data Act (A : Type 0) (E : Type 0) : Type 0 where
  dispatching : ℕ → A → Act A E
  stopping : Act A E
  failing : E → Act A E
  reading : Option ℕ → Act A E

unfoldable pub act : {A E : Type 0} → Act A E → Handle A E → Handle A E
unfolding dispatch_nowait stop_queue fail_queue next_reading
act (Act.dispatching now r) h = dispatch_nowait now r h
act Act.stopping h = stop_queue h
act (Act.failing e) h = fail_queue e h
act (Act.reading t) h = (next_reading t h).0

unfoldable pub act_all : {A E : Type 0} → List (Act A E) → Handle A E → Handle A E
unfolding act
act_all [] h = h
act_all (a ∷ acts) h = act_all acts (act a h)

-- `readings` for a number of rounds: what it yields, and how it ends.
unfoldable pub after_item :
    {A E : Type 0} → Handle A E × Next A E → (Handle A E → List A × Next A E) → List A × Next A E
after_item (h, Next.yields r) rest = (r ∷ (rest h).0, (rest h).1)
after_item (h, n) rest = ([], n)

unfoldable pub read_queue : {A E : Type 0} → Option ℕ → ℕ → Handle A E → List A × Next A E
unfolding after_item next_reading
read_queue t zero h = ([], Next.again)
read_queue t (suc n) h = after_item (next_reading t h) (λ k. read_queue t n k)
