-- ===== src/Ftp/Snapshot/Event.antt =====
-- Only a restart clears the ready event of a snapshot.
use pacsys.Prelude.{
  ℕ, ◌≡◌, refl, Bool, true, false, not, ◌||◌, Option, none, some, List, [], ◌∷◌, ◌++◌, arith,
  if◌then◌else◌, Result, ok, err, length,
}
use pacsys.Prelude.Int.{ℤ}
use pacsys.Ftp.Wire.{is_negative}
use pacsys.Ftp.Parse.Setup.{parse_status_update_states}
use pacsys.Ftp.Snapshot.{
  Handle, Item, all_terminal, cancel, ended, fail_devices, failing, monitor_step, move_devices,
  on_item, on_reply, take_item, updating,
}
use pacsys.Ftp.Snapshot.Actions.{Action, after_round, apply, run}
use pacsys.Ftp.Snapshot.Prompt.{Holds, bind_Holds, chosen_Holds, map_Holds}

abbrev is_restart : Action → Bool
is_restart Action.restarting = true
is_restart (Action.replying item) = false
is_restart Action.monitoring_round = false
is_restart Action.cancelling = false

abbrev pub has_restart : List Action → Bool
has_restart [] = false
has_restart (a ∷ rest) = is_restart a || has_restart rest

abbrev IsSignalled : Handle → Type 0
IsSignalled h = h.ready_event ≡ true

or_set : (a b : Bool) → a ≡ true → (a || b) ≡ true
or_set a b h = ground arith

failing-IsSignalled : (status : ℤ) (h : Handle) → Holds IsSignalled (failing status h)
unfolding failing
failing-IsSignalled status h =
    bind_Holds IsSignalled (fail_devices status h.devices h.tables) _ (λ t. refl)

updating-IsSignalled : (b : List ℕ) (h : Handle) → IsSignalled h → Holds IsSignalled (updating b h)
unfolding updating
updating-IsSignalled b h k =
    bind_Holds IsSignalled (parse_status_update_states b (length h.devices)) _ (λ ss.
      bind_Holds IsSignalled (move_devices h.devices ss h.tables) _
        (λ t. or_set h.ready_event (all_terminal t.states) k))

ended-IsSignalled : (is_last : Bool) (h : Handle) → IsSignalled h → IsSignalled (ended is_last h)
unfolding ended
ended-IsSignalled true h k = k
ended-IsSignalled false h k = k

take_item-IsSignalled :
    (items : List (Option Item)) (h : Handle)
    → IsSignalled h
    → Holds IsSignalled (take_item items h)
unfolding take_item on_item
take_item-IsSignalled [] h k = k
take_item-IsSignalled (none ∷ rest) h k = ended-IsSignalled true (record h { queue = rest }) k
take_item-IsSignalled (some (status, (b, is_last)) ∷ rest) h k =
    let g = record h { queue = rest } in
    map_Holds IsSignalled (if is_negative status then failing status g else updating b g)
      (ended is_last)
      (chosen_Holds IsSignalled (is_negative status) (failing status g) (updating b g)
        (failing-IsSignalled status g) (updating-IsSignalled b g k))
      (ended-IsSignalled is_last)

monitor_step-IsSignalled : (h : Handle) → IsSignalled h → Holds IsSignalled (monitor_step h)
unfolding monitor_step
monitor_step-IsSignalled h k = chosen_Holds IsSignalled (not h.monitoring) (ok h) _ k (
    chosen_Holds IsSignalled h.cancelled (ok (ended true h)) _ (ended-IsSignalled true h k)
      (take_item-IsSignalled h.queue h k))

round-IsSignalled :
    (h : Handle) (r : Result Handle)
    → IsSignalled h
    → Holds IsSignalled r
    → IsSignalled (after_round h r)
unfolding after_round
round-IsSignalled h (ok g) k v = v
round-IsSignalled h (err e) k v = ended-IsSignalled true h k

cancel-IsSignalled :
    (h : Handle) (c : Bool)
    → IsSignalled h
    → IsSignalled (if c then h else record h { cancelled = true; queue = h.queue ++ none ∷ [] })
cancel-IsSignalled h true k = k
cancel-IsSignalled h false k = k

apply-IsSignalled :
    (a : Action) (h : Handle) → is_restart a ≡ false → IsSignalled h → IsSignalled (apply a h)
unfolding apply on_reply cancel
apply-IsSignalled (Action.replying item) h e k = k
apply-IsSignalled Action.monitoring_round h e k =
    round-IsSignalled h (monitor_step h) k (monitor_step-IsSignalled h k)
apply-IsSignalled Action.restarting h e k = cc
apply-IsSignalled Action.cancelling h e k = cancel-IsSignalled h h.cancelled k

neither : (a b : Bool) → (a || b) ≡ false → (a ≡ false) × (b ≡ false)
neither a b h = ground arith

pub run-ready_event :
    (actions : List Action) (h : Handle)
    → has_restart actions ≡ false
    → h.ready_event ≡ true
    → (run actions h).ready_event ≡ true
unfolding run
run-ready_event [] h e k = k
run-ready_event (a ∷ rest) h e k =
    let (this, later) = neither (is_restart a) (has_restart rest) e in
    run-ready_event rest (apply a h) later (apply-IsSignalled a h this k)
