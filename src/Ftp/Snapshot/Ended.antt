-- ===== src/Ftp/Snapshot/Ended.antt =====
-- A snapshot whose monitor thread has ended.
use pacsys.Prelude.{
  subst, ◌≡◌, refl, sym, Bool, true, false, not, none, List, [], ◌∷◌, ◌++◌, if◌then◌else◌, Result,
  ok, err, runtime_error,
}
use pacsys.Ftp.Snapshot.{Handle, cancel, monitor_step, on_reply, reset_devices, restart, wait}
use pacsys.Ftp.Snapshot.Actions.{Action, after_call, after_round, apply, run}

-- The monitor thread has ended before the ready event was set.
abbrev IsStuck : Handle → Type 0
IsStuck h = (h.monitoring ≡ false) × (h.ready_event ≡ false)

restart-IsStuck :
    (h : Handle) (c : Bool)
    → IsStuck h
    → IsStuck (
        after_call h (
          if c
          then err runtime_error
          else ok (record h { tables = reset_devices h.devices h.tables; ready_event = false })))
unfolding after_call
restart-IsStuck h true k = k
restart-IsStuck h false k = (k.0, refl)

cancel-IsStuck :
    (h : Handle) (c : Bool)
    → IsStuck h
    → IsStuck (if c then h else record h { cancelled = true; queue = h.queue ++ none ∷ [] })
cancel-IsStuck h true k = k
cancel-IsStuck h false k = k

monitor_step-ended :
    (h : Handle) (m : Bool) (r : Result Handle) → m ≡ false → (if not m then ok h else r) ≡ ok h
monitor_step-ended h true r e = cc
monitor_step-ended h false r e = refl

apply-IsStuck : (a : Action) (h : Handle) → IsStuck h → IsStuck (apply a h)
unfolding apply on_reply restart cancel monitor_step after_round
apply-IsStuck (Action.replying item) h k = k
apply-IsStuck Action.monitoring_round h k =
    subst (λ r. IsStuck (after_round h r)) (sym (monitor_step-ended h h.monitoring _ (k.0))) k
apply-IsStuck Action.restarting h k = restart-IsStuck h h.cancelled k
apply-IsStuck Action.cancelling h k = cancel-IsStuck h h.cancelled k

run-IsStuck : (actions : List Action) (h : Handle) → IsStuck h → IsStuck (run actions h)
unfolding run
run-IsStuck [] h k = k
run-IsStuck (a ∷ rest) h k = run-IsStuck rest (apply a h) (apply-IsStuck a h k)

-- Once the monitor thread of a snapshot has ended with the ready event not set, no replies, no restart and nothing
-- else sets the event: `wait` never returns true, whatever happens between its test of the event and its lock.
pub run-wait_of_IsStuck :
    (h : Handle) (actions between : List Action)
    → IsStuck h
    → wait (run actions h) (run between (run actions h)) ≡ ok false
unfolding wait
run-wait_of_IsStuck h actions between k = rw ((run-IsStuck actions h k).1) refl
