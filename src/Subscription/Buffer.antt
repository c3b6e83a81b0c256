-- ===== src/Subscription/Buffer.antt =====
-- `BufferedSubscriptionHandle` of pacsys/backends/_subscription.py. Each function is one critical section
-- under the condition's lock; threads interleave between them (`Trace`). The clock counts nanoseconds.
use pacsys.Prelude.{
  ℕ, suc, ◌+◌, ◌-◌, Bool, true, false, Option, none, some, List, [], ◌∷◌, ◌++◌, leb, ◌==◌,
  if◌then◌else◌, length,
}

-- The readers in `_cond.wait` are counted: those that no `notify` has reached yet, and those that one has.
pub record Buffer (A : Type 0) (E : Type 0) : Type 0 where
  pub buf : List A
  pub maxsize : ℕ
  pub stopped : Bool
  pub exc : Option E
  pub drop_count : ℕ
  pub last_drop_log : ℕ
  pub sleeping : ℕ
  pub woken : ℕ

abbrev pub default_buffer_maxsize : ℕ
default_buffer_maxsize = 10000

-- `__init__`.
unfoldable pub new_buffer : {A E : Type 0} → Buffer A E
new_buffer = record {
  buf = [];
  maxsize = default_buffer_maxsize;
  stopped = false;
  exc = none;
  drop_count = 0;
  last_drop_log = 0;
  sleeping = 0;
  woken = 0;
}

-- `_cond.notify()` wakes one of the readers that sleep, if there is one.
unfoldable pub notify : {A E : Type 0} → Buffer A E → Buffer A E
notify b =
    if b.sleeping == 0 then b else record b { sleeping = b.sleeping - 1; woken = suc b.woken }

-- `_cond.notify_all()`.
unfoldable pub notify_all : {A E : Type 0} → Buffer A E → Buffer A E
notify_all b = record b { sleeping = 0; woken = b.sleeping + b.woken }

-- Five seconds between two warnings.
abbrev pub drop_log_interval : ℕ
drop_log_interval = 5000000000

-- The reading is dropped; a warning starts the count afresh.
unfoldable pub dropped : {A E : Type 0} → ℕ → Buffer A E → Buffer A E
dropped now b =
    if leb drop_log_interval (now - b.last_drop_log)
    then record b { drop_count = 0; last_drop_log = now }
    else record b { drop_count = suc b.drop_count }

-- `_dispatch` at the time `now`.
unfoldable pub dispatch : {A E : Type 0} → ℕ → A → Buffer A E → Buffer A E
unfolding dropped notify
dispatch now reading b =
    if b.stopped
    then b
    else if leb b.maxsize (length b.buf)
    then dropped now b
    else notify (record b { buf = b.buf ++ (reading ∷ []) })

-- `_signal_stop`.
unfoldable pub signal_stop : {A E : Type 0} → Buffer A E → Buffer A E
unfolding notify_all
signal_stop b = if b.stopped then b else notify_all (record b { stopped = true })

unfoldable pub first_error : {E : Type 0} → E → Option E → Option E
first_error e none = some e
first_error e (some d) = some d

-- `_signal_error`: the first error wins.
unfoldable pub signal_error : {A E : Type 0} → E → Buffer A E → Buffer A E
unfolding notify_all first_error
signal_error e b = notify_all (record b { stopped = true; exc = first_error e b.exc })

-- What a critical section of `readings` ends with: a reading to yield, the error that it raises, the end
-- of the iteration, a wait of at most the time given, or another round.
pub data Next (A : Type 0) (E : Type 0) : Type 0 where
  yields : A → Next A E
  raises : E → Next A E
  ends : Next A E
  waits : Option ℕ → Next A E
  again : Next A E

-- Nothing is buffered: an error, a stop, or the time that is left to wait.
unfoldable pub wait_time : {A E : Type 0} → Option ℕ → ℕ → ℕ → Next A E
wait_time none start now = waits none
wait_time (some t) start now =
    if t == 0 then ends else if leb t (now - start) then ends else waits (some (t - (now - start)))

unfoldable pub if_empty : {A E : Type 0} → Option ℕ → ℕ → ℕ → Option E → Bool → Next A E
unfolding wait_time
if_empty timeout start now (some e) stopped = raises e
if_empty timeout start now none true = ends
if_empty timeout start now none false = wait_time timeout start now

-- The first half of a round: `readings` with this timeout, begun at `start`.
unfoldable pub take_or : {A E : Type 0} → Next A E → Buffer A E → List A → Buffer A E × Next A E
take_or (waits t) b [] = (record b { sleeping = suc b.sleeping }, waits t)
take_or other b [] = (b, other)
take_or other b (reading ∷ rest) = (record b { buf = rest }, yields reading)

unfoldable pub poll : {A E : Type 0} → Option ℕ → ℕ → ℕ → Buffer A E → Buffer A E × Next A E
unfolding take_or if_empty
poll timeout start now b = take_or (if_empty timeout start now b.exc b.stopped) b b.buf

-- The second half, behind the wait: without an end of any kind the wakeup was spurious.
unfoldable pub spurious : {A E : Type 0} → Option ℕ → ℕ → ℕ → Next A E
spurious none start now = again
spurious (some t) start now = if t == 0 then ends else if leb t (now - start) then ends else again

unfoldable pub if_still_empty : {A E : Type 0} → Option ℕ → ℕ → ℕ → Option E → Bool → Next A E
unfolding spurious
if_still_empty timeout start now (some e) stopped = raises e
if_still_empty timeout start now none true = ends
if_still_empty timeout start now none false = spurious timeout start now

unfoldable pub recheck : {A E : Type 0} → Option ℕ → ℕ → ℕ → Buffer A E → Buffer A E × Next A E
unfolding take_or if_still_empty
recheck timeout start now b = take_or (if_still_empty timeout start now b.exc b.stopped) b b.buf

-- A reader that was notified leaves the wait; one that was not does so when its time is over or for no reason.
unfoldable pub wake : {A E : Type 0} → Bool → Option ℕ → ℕ → ℕ → Buffer A E → Buffer A E × Next A E
unfolding recheck
wake true timeout start now b = recheck timeout start now (record b { woken = b.woken - 1 })
wake false timeout start now b = recheck timeout start now (record b { sleeping = b.sleeping - 1 })
