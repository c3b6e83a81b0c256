-- ===== src/Ftp/Snapshot/Outcome.antt =====
-- What the monitor thread of a snapshot and `wait` do, whatever happened before.
use pacsys.Prelude.{
  ℕ, ◌≡◌, refl, ap, ◌∙◌, Bool, true, false, not, ◌&&◌, ◌||◌, List, [], ◌∷◌, if◌then◌else◌, Result,
  ok, err, subst, All, acnet_error,
}
use pacsys.Prelude.Int.{ℤ}
use pacsys.Ftp.Parse.Reads.{IsOk}
use pacsys.Ftp.Tables.{found}
use pacsys.Ftp.Snapshot.{
  Handle, all_terminal, SnapshotState, check_devices, is_error, is_ready_state, is_terminal,
  monitor_step, new_handle, wait,
}
use pacsys.Ftp.Snapshot.Actions.{Action, run}
use pacsys.Ftp.Snapshot.Tracked.{IsTracked, States}
use pacsys.Ftp.Snapshot.Kept.{AllTracked}
use pacsys.Ftp.Snapshot.Event.{has_restart, run-ready_event}
use pacsys.Ftp.Snapshot.Prompt.{new_handle-IsPrompt, run-IsPrompt}
use pacsys.Ftp.Snapshot.Rounds.{
  IsTracking, monitor_step-IsTracking, new_handle-IsTracking, run-IsTracking,
}

-- Whatever happens to a snapshot, a round of its monitor thread raises nothing: neither a `KeyError` for a device
-- nor an error from a status update, however short it is.
pub run-monitor_step-IsOk :
    (ds : List ℕ) (ss : List ℤ) (actions : List Action)
    → IsOk (monitor_step (run actions (new_handle ds ss)))
run-monitor_step-IsOk ds ss actions =
    let (g, (e, k)) =
      monitor_step-IsTracking (run actions (new_handle ds ss))
        (run-IsTracking actions (new_handle ds ss) (new_handle-IsTracking ds ss)) in
    (g, e)

abbrev is_ready_result : Result SnapshotState → Bool
is_ready_result (ok s) = is_ready_state s
is_ready_result (err e) = false

-- Whether every device of a snapshot is ready.
unfoldable pub all_ready : List ℕ → States → Bool
unfolding found
all_ready [] states = true
all_ready (d ∷ ds) states = is_ready_result (found d states) && all_ready ds states

checked :
    (d : ℕ) (ds : List ℕ) (states : States) (s : SnapshotState)
    → is_terminal s ≡ true
    → check_devices ds states ≡ (if all_ready ds states then ok true else err acnet_error)
    → (if is_error s then err acnet_error else check_devices ds states)
      ≡ (if is_ready_state s && all_ready ds states then ok true else err acnet_error)
checked d ds states SnapshotState.ready h k = k
checked d ds states SnapshotState.error h k = refl
checked d ds states SnapshotState.pending h k = cc
checked d ds states SnapshotState.wait_event h k = cc
checked d ds states SnapshotState.wait_delay h k = cc
checked d ds states SnapshotState.collecting h k = cc

check_devices-all_ready :
    (ds : List ℕ) (states : States)
    → All (IsTracked true states) ds
    → check_devices ds states ≡ (if all_ready ds states then ok true else err acnet_error)
unfolding check_devices all_ready IsTracked
check_devices-all_ready [] states k = refl
check_devices-all_ready (d ∷ ds) states ((s, (f, g)), k) =
    rw f (checked d ds states s g (check_devices-all_ready ds states k))

waited :
    (set : Bool) (d : ℕ) (ds : List ℕ) (h : Handle)
    → h.devices ≡ d ∷ ds
    → IsTracking h
    → (set ≡ true → h.ready_event ≡ true)
    → (if set then check_devices h.devices h.tables.states else ok false) ≡ (
        if set
        then if all_ready (d ∷ ds) h.tables.states then ok true else err acnet_error
        else ok false)
waited false d ds h same k f = refl
waited true d ds h same k f =
    check_devices-all_ready h.devices h.tables.states
      (subst (λ b. AllTracked b h.devices h.tables) (f refl) k)
    ∙ ap (λ l. if all_ready l h.tables.states then ok true else err acnet_error) same

-- A snapshot of at least one device, to which anything happened before `wait` tests its ready event, and anything but
-- a restart between that test and the lock. Then `wait` returns false if the event is not set; else it returns true
-- if every device is ready under the lock, and raises an `AcnetError` if one is not. The event is set if the states of
-- all devices are terminal.
pub run-wait :
    (d : ℕ) (ds : List ℕ) (ss : List ℤ) (actions between : List Action)
    → has_restart between ≡ false
    → let seen = run actions (new_handle (d ∷ ds) ss) in
      let h = run between seen in
      (wait seen h ≡ (
        if seen.ready_event
        then if all_ready (d ∷ ds) h.tables.states then ok true else err acnet_error
        else ok false))
      × ((not (all_terminal seen.tables.states) || seen.ready_event) ≡ true)
unfolding wait
run-wait d ds ss actions between e =
    let start = new_handle (d ∷ ds) ss in
    let seen = run actions start in
    let h = run between seen in
    let first = run-IsPrompt d ds actions start (new_handle-IsPrompt d ds ss) in
    let tracked = run-IsTracking actions start (new_handle-IsTracking (d ∷ ds) ss) in
    (
      waited seen.ready_event d ds h ((run-IsPrompt d ds between seen first).0)
          (run-IsTracking between seen tracked) (run-ready_event between seen e),
      first.1,
    )
