-- ===== src/Ftp/Snapshot.antt =====
-- `SnapshotState` and `SnapshotHandle` of pacsys/acnet/ftp.py. The queue of replies is part of the handle; a call of
-- `monitor_step` is one round of the monitor's loop. Waiting with a timeout is a call at a time when it has passed.
pub mod Actions
pub mod Tracked
pub mod Kept
pub mod Rounds
pub mod Prompt
pub mod Event
pub mod Outcome
pub mod Ended
pub mod Progress
use pacsys.Prelude.{
  ℕ, zero, suc, Bool, true, false, not, ◌&&◌, ◌||◌, Option, none, some, List, [], ◌∷◌, ◌++◌, leb,
  ◌==◌, if◌then◌else◌, Result, ok, err, ◌>>=◌, length, runtime_error, acnet_error, any,
}
use pacsys.Prelude.Int.{ℤ, pos, negsuc}
use pacsys.Ftp.Wire.{is_negative}
use pacsys.Ftp.Parse.Setup.{parse_status_update_states}
use pacsys.Ftp.Tables.{stored, found, removed}

pub data SnapshotState : Type 0 where
  pending wait_event wait_delay collecting ready error : SnapshotState

-- `FTP_PEND` and its successors, which are `make_error(15, n)`.
unfoldable state_of_status : ℕ → SnapshotState
state_of_status n =
    if n == 271
    then pending
    else if n == 527
    then wait_event
    else if n == 783
    then wait_delay
    else if n == 1039
    then collecting
    else error

-- `_ftp_status_to_state`; zero in the first reply means accepted.
unfoldable pub ftp_status_to_state : ℤ → Bool → SnapshotState
unfolding state_of_status
ftp_status_to_state (negsuc n) is_first_reply = error
ftp_status_to_state (pos zero) true = pending
ftp_status_to_state (pos zero) false = ready
ftp_status_to_state (pos (suc n)) is_first_reply = state_of_status (suc n)

abbrev pub is_terminal : SnapshotState → Bool
is_terminal ready = true
is_terminal error = true
is_terminal other = false

abbrev pub is_error : SnapshotState → Bool
is_error error = true
is_error other = false

abbrev pub is_ready_state : SnapshotState → Bool
is_ready_state ready = true
is_ready_state other = false

-- `_device_states` and `_device_errors`.
pub record Tables : Type 0 where
  pub states : List (ℕ × SnapshotState)
  pub errors : List (ℕ × ℤ)

-- A reply on the queue: its status, its data and whether it is the last.
abbrev pub Item : Type 0
Item = ℤ × (List ℕ × Bool)

pub record Handle : Type 0 where
  pub devices : List ℕ
  pub tables : Tables
  pub ready_event : Bool
  pub cancelled : Bool
  pub monitoring : Bool
  pub queue : List (Option Item)

-- A new state, with the status it comes from where it is an error.
unfoldable pub noted : ℤ → SnapshotState → ℕ → Tables → Tables
unfolding stored
noted status error di t = record {
  states = stored di error t.states;
  errors = stored di status t.errors;
}
noted status s di t = record t { states = stored di s t.states }

unfoldable pub start_tables : List ℕ → List ℤ → Tables → Tables
unfolding noted ftp_status_to_state stored
start_tables [] statuses t = t
start_tables (d ∷ ds) [] t = start_tables ds [] (record t { states = stored d pending t.states })
start_tables (d ∷ ds) (s ∷ ss) t = start_tables ds ss (noted s (ftp_status_to_state s true) d t)

-- `_all_terminal`.
unfoldable pub all_terminal : List (ℕ × SnapshotState) → Bool
all_terminal [] = true
all_terminal ((di, s) ∷ rest) = is_terminal s && all_terminal rest

-- `__init__`, from the statuses of the devices in the setup reply.
unfoldable pub new_handle : List ℕ → List ℤ → Handle
unfolding start_tables all_terminal
new_handle devices statuses =
    let t = start_tables devices statuses (record { states = []; errors = [] }) in
    record {
      devices = devices;
      tables = t;
      ready_event = all_terminal t.states;
      cancelled = false;
      monitoring = true;
      queue = [];
    }

-- An error reply fails every device that is not ready.
unfoldable pub fail_unless_ready : ℤ → ℕ → Tables → SnapshotState → Tables
unfolding noted
fail_unless_ready status di t ready = t
fail_unless_ready status di t other = noted status error di t

unfoldable pub fail_devices : ℤ → List ℕ → Tables → Result Tables
unfolding found fail_unless_ready
fail_devices status [] t = ok t
fail_devices status (d ∷ ds) t =
    found d t.states >>= λ s. fail_devices status ds (fail_unless_ready status d t s)

-- A status moves a device on, unless its state is a terminal one.
unfoldable pub moved : ℤ → ℕ → Tables → SnapshotState → Tables
unfolding noted ftp_status_to_state
moved status di t s =
    if is_terminal s then t else noted status (ftp_status_to_state status false) di t

unfoldable pub move_devices : List ℕ → List ℤ → Tables → Result Tables
unfolding found moved
move_devices [] statuses t = ok t
move_devices (d ∷ ds) [] t = ok t
move_devices (d ∷ ds) (s ∷ ss) t = found d t.states >>= λ old. move_devices ds ss (moved s d t old)

unfoldable pub failing : ℤ → Handle → Result Handle
unfolding fail_devices
failing status h =
    fail_devices status h.devices h.tables >>= λ t. ok (record h { tables = t; ready_event = true })

unfoldable pub updating : List ℕ → Handle → Result Handle
unfolding parse_status_update_states move_devices all_terminal
updating b h = parse_status_update_states b (length h.devices) >>= λ ss.
    move_devices h.devices ss h.tables >>= λ t.
    ok (record h { tables = t; ready_event = h.ready_event || all_terminal t.states })

unfoldable pub ended : Bool → Handle → Handle
ended true h = record h { monitoring = false }
ended false h = h

unfoldable pub on_item : Option Item → Handle → Result Handle
unfolding failing updating ended
on_item none h = ok (ended true h)
on_item (some (status, (b, is_last))) h =
    (if is_negative status then failing status h else updating b h) >>= λ g. ok (ended is_last g)

unfoldable pub take_item : List (Option Item) → Handle → Result Handle
unfolding on_item
take_item [] h = ok h
take_item (item ∷ rest) h = on_item item (record h { queue = rest })

-- A round of `_monitor_loop`.
unfoldable pub monitor_step : Handle → Result Handle
unfolding take_item ended
monitor_step h =
    if not h.monitoring
    then ok h
    else if h.cancelled
    then ok (ended true h)
    else take_item h.queue h

-- The reply handler of `start_snapshot`.
unfoldable pub on_reply : Item → Handle → Handle
on_reply item h = record h { queue = h.queue ++ some item ∷ [] }

unfoldable pub reset_devices : List ℕ → Tables → Tables
unfolding stored removed
reset_devices [] t = t
reset_devices (d ∷ ds) t =
    reset_devices ds (record { states = stored d pending t.states; errors = removed d t.errors })

-- `restart`, up to the command it sends.
unfoldable pub restart : Handle → Result Handle
unfolding reset_devices
restart h =
    if h.cancelled
    then err runtime_error
    else ok (record h { tables = reset_devices h.devices h.tables; ready_event = false })

-- `cancel`, up to the wait for the thread.
unfoldable pub cancel : Handle → Handle
cancel h = if h.cancelled then h else record h { cancelled = true; queue = h.queue ++ none ∷ [] }

unfoldable pub check_devices : List ℕ → List (ℕ × SnapshotState) → Result Bool
unfolding found
check_devices [] states = ok true
check_devices (d ∷ ds) states =
    found d states >>= λ s. if is_error s then err acnet_error else check_devices ds states

-- `wait`, which gives false when the time has passed. It tests the event before it takes the lock: the first handle
-- is the one that it finds then, the second the one under the lock.
unfoldable pub wait : Handle → Handle → Result Bool
unfolding check_devices
wait seen h = if seen.ready_event then check_devices h.devices h.tables.states else ok false

-- The numbers of the states.
abbrev pub rank : SnapshotState → ℕ
rank pending = 1
rank wait_event = 2
rank wait_delay = 3
rank collecting = 4
rank ready = 5
rank error = 6

abbrev pub lesser : SnapshotState → SnapshotState → SnapshotState
lesser s t = if leb (rank s) (rank t) then s else t

-- The least of a state and those of a list that are not ready.
unfoldable pub least : SnapshotState → List (ℕ × SnapshotState) → SnapshotState
least s [] = s
least s ((di, t) ∷ rest) = if is_ready_state t then least s rest else least (lesser s t) rest

unfoldable pub least_progressed : List (ℕ × SnapshotState) → SnapshotState
unfolding least
least_progressed [] = pending
least_progressed ((di, s) ∷ rest) = if is_ready_state s then least_progressed rest else least s rest

-- `state`.
unfoldable pub aggregate : List (ℕ × SnapshotState) → SnapshotState
unfolding least_progressed
aggregate states =
    if any (λ (di, s). is_error s) states
    then error
    else if not (any (λ (di, s). not (is_ready_state s)) states)
    then ready
    else least_progressed states

-- `is_ready`.
unfoldable is_ready : Handle → Bool
unfolding aggregate
is_ready h = h.ready_event && is_ready_state (aggregate h.tables.states)
