-- ===== src/Dispatch.antt =====
-- `CallbackDispatcher` of pacsys/backends/_dispatch.py. Each step is what a thread does between two points where
-- others may run: the producers that hand over callbacks, the worker that calls them, and the thread that closes.
pub mod Trace
pub mod Sound
pub mod Closing
pub mod Order
mod Runs
use pacsys.Prelude.{
  ℕ, zero, suc, ◌+◌, ◌-◌, ◌*◌, ◌/◌, ◌%◌, ◌^◌, ◌≤◌, ◌<◌, bit_and, bit_or, ◌≡◌, refl, sym, ap, ◌∙◌,
  ◌≢◌, ◌↔◌, ◌⊎◌, inl, inr, Bool, true, false, not, ◌&&◌, ◌||◌, Option, none, some, List, [], ◌∷◌,
  ◌++◌, map, append-nil, append_assoc, arith, ltb, leb, ◌==◌, if◌then◌else◌, Bool-cases, Result, ok,
  err, ◌>>=◌, ◌>>◌, guard, length, Text, codes,
}

pub data Mode : Type 0 where
  worker_mode direct : Mode

-- Where the worker thread is: not started, before the test of its loop, in `get`, in a callback, or over.
pub data Worker (A : Type 0) : Type 0 where
  absent checking getting finished : Worker A
  running : A → Worker A

-- Where `close` is: not begun, behind `_stop.set`, after a put that found the queue full, after the item that it
-- took to make room, or behind its last put.
pub data Close : Type 0 where
  before stopped full made_room done : Close

-- An item is a callback with its arguments, and `None` in the queue the sentinel. `called` are the callbacks called.
pub record Dispatcher (A : Type 0) : Type 0 where
  pub mode : Mode
  pub stop : Bool
  pub queue : Option (List (Option A))
  pub worker : Worker A
  pub progress : Close
  pub called : List A

abbrev pub queue_max_size : ℕ
queue_max_size = 10000

-- `__init__`.
unfoldable pub new_dispatcher : {A : Type 0} → Mode → Dispatcher A
new_dispatcher m = record {
  mode = m;
  stop = false;
  queue = none;
  worker = absent;
  progress = before;
  called = [];
}

-- `put_nowait` of a bounded queue; nothing where it is full.
unfoldable pub put : {A : Type 0} → Option A → List (Option A) → Option (List (Option A))
put item q = if leb queue_max_size (length q) then none else some (q ++ (item ∷ []))

-- `_ensure_worker`.
unfoldable pub ensure : {A : Type 0} → Dispatcher A → Worker A → Dispatcher A
ensure d absent = record d { queue = some []; worker = checking }
ensure d w = d

unfoldable pub ensure_worker : {A : Type 0} → Dispatcher A → Dispatcher A
unfolding ensure
ensure_worker d = ensure d d.worker

-- `_enqueue`: an item that finds the queue full is dropped.
unfoldable pub or_same : {A : Type 0} → List (Option A) → Option (List (Option A)) → List (Option A)
or_same q none = q
or_same q (some p) = p

unfoldable pub enqueued : {A : Type 0} → A → Dispatcher A → Option (List (Option A)) → Dispatcher A
unfolding put or_same
enqueued item d none = d
enqueued item d (some q) = record d { queue = some (or_same q (put (some item) q)) }

unfoldable pub enqueue : {A : Type 0} → A → Dispatcher A → Dispatcher A
unfolding enqueued
enqueue item d = enqueued item d d.queue

-- `_call_direct` and `_call_direct_error`: an exception of the callback is logged.
unfoldable call_direct : {A : Type 0} → A → Dispatcher A → Dispatcher A
call_direct item d = record d { called = d.called ++ (item ∷ []) }

unfoldable dispatch_in : {A : Type 0} → A → Dispatcher A → Mode → Dispatcher A
unfolding enqueue ensure_worker call_direct
dispatch_in item d worker_mode = enqueue item (ensure_worker d)
dispatch_in item d direct = call_direct item d

-- `dispatch_reading` and `dispatch_error`.
unfoldable pub dispatch : {A : Type 0} → A → Dispatcher A → Dispatcher A
unfolding dispatch_in
dispatch item d = if d.stop then d else dispatch_in item d d.mode

-- `_worker_loop`: in `get` on an empty queue the worker waits.
unfoldable pub got : {A : Type 0} → Dispatcher A → Option (List (Option A)) → Dispatcher A
got d none = d
got d (some []) = d
got d (some (none ∷ q)) = record d { queue = some q; worker = finished }
got d (some (some item ∷ q)) = record d { queue = some q; worker = running item }

unfoldable pub worker_at : {A : Type 0} → Dispatcher A → Worker A → Dispatcher A
unfolding got
worker_at d absent = d
worker_at d checking =
    if d.stop then record d { worker = finished } else record d { worker = getting }
worker_at d getting = got d d.queue
worker_at d (running item) = record d { worker = checking; called = d.called ++ (item ∷ []) }
worker_at d finished = d

unfoldable pub worker_step : {A : Type 0} → Dispatcher A → Dispatcher A
unfolding worker_at
worker_step d = worker_at d d.worker

-- `close`.
unfoldable pub last_put : {A : Type 0} → Dispatcher A → List (Option A) → Dispatcher A
unfolding put or_same
last_put d q = record d { queue = some (or_same q (put none q)); progress = done }

unfoldable pub first_put : {A : Type 0} → Dispatcher A → Option (List (Option A)) → Dispatcher A
first_put d none = record d { progress = full }
first_put d (some q) = record d { queue = some q; progress = done }

unfoldable without_first : {A : Type 0} → List (Option A) → List (Option A)
without_first [] = []
without_first (x ∷ q) = q

unfoldable pub close_queue :
    {A : Type 0} → Dispatcher A → Close → Option (List (Option A)) → Dispatcher A
unfolding last_put first_put without_first put
close_queue d before q = record d { stop = true; progress = stopped }
close_queue d stopped none = record d { progress = done }
close_queue d stopped (some q) = first_put d (put none q)
close_queue d full none = record d { progress = made_room }
close_queue d full (some q) = record d { queue = some (without_first q); progress = made_room }
close_queue d made_room none = record d { progress = done }
close_queue d made_room (some q) = last_put d q
close_queue d done q = d

unfoldable pub close_step : {A : Type 0} → Dispatcher A → Dispatcher A
unfolding close_queue
close_step d = close_queue d d.progress d.queue
