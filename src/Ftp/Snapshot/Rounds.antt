-- ===== src/Ftp/Snapshot/Rounds.antt =====
-- Whatever happens to a snapshot, its devices stay tracked.
use pacsys.Prelude.{
  ℕ, zero, suc, ◌+◌, ◌≡◌, refl, sym, Bool, true, false, not, ◌||◌, Option, none, some, List, [],
  ◌∷◌, ◌++◌, arith, if◌then◌else◌, Result, ok, err, length, subst, replicate, runtime_error,
}
use pacsys.Prelude.Int.{ℤ, pos, negsuc}
use pacsys.Ftp.Wire.{i16_at}
use pacsys.Ftp.Parse.Setup.{parse_status_update_states, update_loop, update_states}
use pacsys.Ftp.Parse.Reads.{IsOk, bind-IsOk, guarded_IsOk, i16_at-IsOk}
use pacsys.Ftp.Snapshot.{
  Handle, Item, Tables, all_terminal, cancel, ended, fail_devices, failing, monitor_step,
  move_devices, new_handle, on_item, on_reply, reset_devices, restart, start_tables, take_item,
  updating,
}
use pacsys.Ftp.Snapshot.Actions.{Action, after_call, after_round, apply, run}
use pacsys.Ftp.Snapshot.Tracked.{Gives, IsTracked, States, All-map, bind-Gives}
use pacsys.Ftp.Snapshot.Kept.{
  AllTracked, all_terminal-IsTracked, fail_devices-AllTracked, move_devices-AllTracked,
  reset_devices-AllTracked, start_tables-AllTracked,
}

-- Every device has a state, and a terminal one once the ready event is set.
abbrev pub IsTracking : Handle → Type 0
IsTracking h = AllTracked h.ready_event h.devices h.tables

update_loop-IsOk : (b : List ℕ) (n offset : ℕ) → IsOk (update_loop b n offset)
unfolding update_loop
update_loop-IsOk b zero offset = ([], refl)
update_loop-IsOk b (suc n) offset = guarded_IsOk (length b) (offset + 2) [] _ (λ fits.
    bind-IsOk (i16_at b offset) _ (i16_at-IsOk b offset fits) (λ s.
      bind-IsOk (update_loop b n (offset + 18)) _ (update_loop-IsOk b n (offset + 18))
        (λ ss. (_, refl))))

update_states-IsOk : (b : List ℕ) (n : ℕ) (overall : ℤ) → IsOk (update_states b n overall)
unfolding update_states
update_states-IsOk b n (pos k) = update_loop-IsOk b n 24
update_states-IsOk b n (negsuc k) = (replicate n (negsuc k), refl)

parse_status_update_states-IsOk : (b : List ℕ) (n : ℕ) → IsOk (parse_status_update_states b n)
unfolding parse_status_update_states
parse_status_update_states-IsOk b n = guarded_IsOk (length b) 24 [] _ (λ fits.
    bind-IsOk (i16_at b 0) _ (i16_at-IsOk b 0 (omega (arith, fits)))
      (λ s. update_states-IsOk b n s))

false-IsTracked :
    (set : Bool) (states : States) (e : ℕ) → IsTracked set states e → IsTracked false states e
unfolding IsTracked
false-IsTracked set states e (s, (f, g)) = (s, (f, refl))

forgotten : (set : Bool) (ds : List ℕ) (t : Tables) → AllTracked set ds t → AllTracked false ds t
forgotten set ds t k = All-map ds k (λ e. false-IsTracked set t.states e)

-- The event is set where all states are terminal.
joined_event :
    (set all : Bool) (ds : List ℕ) (t : Tables)
    → all_terminal t.states ≡ all
    → AllTracked set ds t
    → AllTracked (set || all) ds t
joined_event true all ds t e k = k
joined_event false true ds t e k = All-map ds k (λ d. all_terminal-IsTracked t.states d e)
joined_event false false ds t e k = k

failing-IsTracking : (status : ℤ) (h : Handle) → IsTracking h → Gives IsTracking (failing status h)
unfolding failing
failing-IsTracking status h k =
    let (t, (e, (done, _))) =
      fail_devices-AllTracked status h.devices [] h.tables
        (forgotten h.ready_event h.devices h.tables k) tt in
    bind-Gives IsTracking (fail_devices status h.devices h.tables) t _ e
      (record h { tables = t; ready_event = true }, (refl, done))

updating-IsTracking : (b : List ℕ) (h : Handle) → IsTracking h → Gives IsTracking (updating b h)
unfolding updating
updating-IsTracking b h k =
    let (ss, parsed) = parse_status_update_states-IsOk b (length h.devices) in
    let (t, (e, done)) =
      move_devices-AllTracked h.ready_event h.devices ss h.devices h.tables k k in
    bind-Gives IsTracking (parse_status_update_states b (length h.devices)) ss _ parsed (
      bind-Gives IsTracking (move_devices h.devices ss h.tables) t _ e
        (_, (refl, joined_event h.ready_event (all_terminal t.states) h.devices t refl done)))

ended-IsTracking : (is_last : Bool) (h : Handle) → IsTracking h → IsTracking (ended is_last h)
unfolding ended
ended-IsTracking true h k = k
ended-IsTracking false h k = k

item-IsTracking :
    (status : ℤ) (b : List ℕ) (is_last : Bool) (h : Handle)
    → IsTracking h
    → Gives IsTracking (on_item (some (status, (b, is_last))) h)
unfolding on_item
item-IsTracking (pos n) b is_last h k =
    let (g, (e, done)) = updating-IsTracking b h k in
    bind-Gives IsTracking (updating b h) g _ e
      (ended is_last g, (refl, ended-IsTracking is_last g done))
item-IsTracking (negsuc n) b is_last h k =
    let (g, (e, done)) = failing-IsTracking (negsuc n) h k in
    bind-Gives IsTracking (failing (negsuc n) h) g _ e
      (ended is_last g, (refl, ended-IsTracking is_last g done))

take_item-IsTracking :
    (items : List (Option Item)) (h : Handle) → IsTracking h → Gives IsTracking (take_item items h)
unfolding take_item on_item
take_item-IsTracking [] h k = (h, (refl, k))
take_item-IsTracking (none ∷ rest) h k = (
  ended true (record h { queue = rest }),
  (refl, ended-IsTracking true (record h { queue = rest }) k),
)
take_item-IsTracking (some (status, (b, is_last)) ∷ rest) h k =
    item-IsTracking status b is_last (record h { queue = rest }) k

chosen_Gives :
    {B : Type 0} (P : B → Type 0) (t : Bool) (r s : Result B)
    → Gives P r
    → Gives P s
    → Gives P (if t then r else s)
chosen_Gives P true r s h k = h
chosen_Gives P false r s h k = k

pub monitor_step-IsTracking : (h : Handle) → IsTracking h → Gives IsTracking (monitor_step h)
unfolding monitor_step
monitor_step-IsTracking h k =
    chosen_Gives IsTracking (not h.monitoring) (ok h) _ (h, (refl, k))
      (chosen_Gives IsTracking h.cancelled (ok (ended true h)) _
        (ended true h, (refl, ended-IsTracking true h k)) (take_item-IsTracking h.queue h k))

restart-IsTracking :
    (h : Handle) (c : Bool)
    → IsTracking h
    → IsTracking (
        after_call h (
          if c
          then err runtime_error
          else ok (record h { tables = reset_devices h.devices h.tables; ready_event = false })))
unfolding after_call
restart-IsTracking h true k = k
restart-IsTracking h false k =
    reset_devices-AllTracked h.devices h.devices h.tables
      (forgotten h.ready_event h.devices h.tables k)

cancel-IsTracking :
    (h : Handle) (c : Bool)
    → IsTracking h
    → IsTracking (if c then h else record h { cancelled = true; queue = h.queue ++ none ∷ [] })
cancel-IsTracking h true k = k
cancel-IsTracking h false k = k

round-IsTracking :
    (h : Handle) (r : Result Handle) → Gives IsTracking r → IsTracking (after_round h r)
unfolding after_round
round-IsTracking h (ok g) (x, (e, k)) = subst (λ r. IsTracking (after_round h r)) (sym e) k
round-IsTracking h (err e) (x, (f, k)) = absurd (cc)

apply-IsTracking : (a : Action) (h : Handle) → IsTracking h → IsTracking (apply a h)
unfolding apply on_reply restart cancel
apply-IsTracking (Action.replying item) h k = k
apply-IsTracking Action.monitoring_round h k =
    round-IsTracking h (monitor_step h) (monitor_step-IsTracking h k)
apply-IsTracking Action.restarting h k = restart-IsTracking h h.cancelled k
apply-IsTracking Action.cancelling h k = cancel-IsTracking h h.cancelled k

pub run-IsTracking :
    (actions : List Action) (h : Handle) → IsTracking h → IsTracking (run actions h)
unfolding run
run-IsTracking [] h k = k
run-IsTracking (a ∷ rest) h k = run-IsTracking rest (apply a h) (apply-IsTracking a h k)

pub new_handle-IsTracking : (ds : List ℕ) (ss : List ℤ) → IsTracking (new_handle ds ss)
unfolding new_handle
new_handle-IsTracking ds ss =
    let t = start_tables ds ss (record { states = []; errors = [] }) in
    joined_event false (all_terminal t.states) ds t refl
      (start_tables-AllTracked ds ss [] (record { states = []; errors = [] }) tt).0
