-- ===== src/Ftp/Snapshot/Prompt.antt =====
-- The ready event of a snapshot is set once the states of all its devices are terminal.
use pacsys.Prelude.{
  ℕ, ◌≡◌, refl, sym, ◌∙◌, ◌≢◌, inl, inr, Bool, true, false, not, ◌||◌, Option, none, some, List, [],
  ◌∷◌, ◌++◌, arith, if◌then◌else◌, Result, ok, err, ◌>>=◌, length, subst, runtime_error,
}
use pacsys.Prelude.Int.{ℤ}
use pacsys.Ftp.Wire.{is_negative}
use pacsys.Ftp.Parse.Setup.{parse_status_update_states}
use pacsys.Ftp.Tables.{found, stored, found-stored, found-stored_other}
use pacsys.Ftp.Snapshot.{
  Handle, Item, SnapshotState, Tables, all_terminal, cancel, ended, fail_devices, failing,
  is_terminal, monitor_step, move_devices, new_handle, on_item, on_reply, reset_devices, restart,
  take_item, updating,
}
use pacsys.Ftp.Snapshot.Actions.{Action, after_call, after_round, apply, run}
use pacsys.Ftp.Snapshot.Tracked.{States, eq_or_ne}
use pacsys.Ftp.Snapshot.Kept.{found-terminal}

-- A handle of these devices whose event is set if all states are terminal.
abbrev IsPrompt : List ℕ → Handle → Type 0
IsPrompt ds h = (h.devices ≡ ds) × ((not (all_terminal h.tables.states) || h.ready_event) ≡ true)

-- A result satisfies a predicate where it is no error.
abbrev pub Holds : (Handle → Type 0) → Result Handle → Type 0
Holds P (ok h) = P h
Holds P (err e) = Unit

pub bind_Holds :
    {B : Type 0} (P : Handle → Type 0) (r : Result B) (f : B → Result Handle)
    → ((x : B) → Holds P (f x))
    → Holds P (r >>= f)
bind_Holds P (ok x) f k = k x
bind_Holds P (err e) f k = tt

pub map_Holds :
    (P : Handle → Type 0) (r : Result Handle) (g : Handle → Handle)
    → Holds P r
    → ((h : Handle) → P h → P (g h))
    → Holds P (r >>= λ h. ok (g h))
map_Holds P (ok h) g k f = f h k
map_Holds P (err e) g k f = tt

pub chosen_Holds :
    (P : Handle → Type 0) (t : Bool) (r s : Result Handle)
    → Holds P r
    → Holds P s
    → Holds P (if t then r else s)
chosen_Holds P true r s h k = h
chosen_Holds P false r s h k = k

set_event : (a r : Bool) → (not a || (r || a)) ≡ true
set_event a r = ground arith

true_event : (a : Bool) → (not a || true) ≡ true
true_event a = ground arith

module _ (d : ℕ) (ds : List ℕ) where
  failing-Holds :
      (status : ℤ) (h : Handle) → IsPrompt (d ∷ ds) h → Holds (IsPrompt (d ∷ ds)) (failing status h)
  unfolding failing
  failing-Holds status h k =
      bind_Holds (IsPrompt (d ∷ ds)) (fail_devices status h.devices h.tables) _
        (λ t. (k.0, true_event (all_terminal t.states)))

  updating-Holds :
      (b : List ℕ) (h : Handle) → IsPrompt (d ∷ ds) h → Holds (IsPrompt (d ∷ ds)) (updating b h)
  unfolding updating
  updating-Holds b h k =
      bind_Holds (IsPrompt (d ∷ ds)) (parse_status_update_states b (length h.devices)) _ (λ ss.
        bind_Holds (IsPrompt (d ∷ ds)) (move_devices h.devices ss h.tables) _
          (λ t. (k.0, set_event (all_terminal t.states) h.ready_event)))

  ended-IsPrompt :
      (is_last : Bool) (h : Handle) → IsPrompt (d ∷ ds) h → IsPrompt (d ∷ ds) (ended is_last h)
  unfolding ended
  ended-IsPrompt true h k = k
  ended-IsPrompt false h k = k

  take_item-Holds :
      (items : List (Option Item)) (h : Handle)
      → IsPrompt (d ∷ ds) h
      → Holds (IsPrompt (d ∷ ds)) (take_item items h)
  unfolding take_item on_item
  take_item-Holds [] h k = k
  take_item-Holds (none ∷ rest) h k = ended-IsPrompt true (record h { queue = rest }) k
  take_item-Holds (some (status, (b, is_last)) ∷ rest) h k =
      let g = record h { queue = rest } in
      map_Holds (IsPrompt (d ∷ ds)) (if is_negative status then failing status g else updating b g)
        (ended is_last)
        (chosen_Holds (IsPrompt (d ∷ ds)) (is_negative status) (failing status g) (updating b g)
          (failing-Holds status g k) (updating-Holds b g k))
        (ended-IsPrompt is_last)

  monitor_step-Holds :
      (h : Handle) → IsPrompt (d ∷ ds) h → Holds (IsPrompt (d ∷ ds)) (monitor_step h)
  unfolding monitor_step
  monitor_step-Holds h k = chosen_Holds (IsPrompt (d ∷ ds)) (not h.monitoring) (ok h) _ k (
      chosen_Holds (IsPrompt (d ∷ ds)) h.cancelled (ok (ended true h)) _ (ended-IsPrompt true h k)
        (take_item-Holds h.queue h k))

  round-IsPrompt :
      (h : Handle) (r : Result Handle)
      → IsPrompt (d ∷ ds) h
      → Holds (IsPrompt (d ∷ ds)) r
      → IsPrompt (d ∷ ds) (after_round h r)
  unfolding after_round
  round-IsPrompt h (ok g) k v = v
  round-IsPrompt h (err e) k v = ended-IsPrompt true h k

  -- A device that waits goes on waiting while others are reset.
  found-reset_devices :
      (es : List ℕ) (t : Tables)
      → found d t.states ≡ ok SnapshotState.pending
      → found d (reset_devices es t).states ≡ ok SnapshotState.pending
  unfolding reset_devices
  found-reset_devices [] t h = h
  found-reset_devices (e ∷ es) t h = found-reset_devices es _ (elim (eq_or_ne e d) [
    | inl same ↦
        subst (λ k. found k (stored e SnapshotState.pending t.states) ≡ ok SnapshotState.pending)
          same (found-stored e SnapshotState.pending t.states)
    | inr other ↦ found-stored_other e d SnapshotState.pending t.states other ∙ h
  ])

  unfinished :
      (states : States) (a : Bool)
      → found d states ≡ ok SnapshotState.pending
      → all_terminal states ≡ a
      → (not a || false) ≡ true
  unfinished states true h e =
      absurd (not_terminal (found-terminal d SnapshotState.pending states e h))
    where
      not_terminal : is_terminal SnapshotState.pending ≢ true
      not_terminal e = cc
  unfinished states false h e = refl

  reset_pending :
      (es : List ℕ) (t : Tables)
      → es ≡ d ∷ ds
      → found d (reset_devices es t).states ≡ ok SnapshotState.pending
  unfolding reset_devices
  reset_pending es t e =
      subst (λ l. found d (reset_devices l t).states ≡ ok SnapshotState.pending) (sym e)
        (found-reset_devices ds _ (found-stored d SnapshotState.pending t.states))

  restart-IsPrompt :
      (h : Handle) (c : Bool)
      → IsPrompt (d ∷ ds) h
      → IsPrompt (d ∷ ds) (
          after_call h (
            if c
            then err runtime_error
            else ok (record h { tables = reset_devices h.devices h.tables; ready_event = false })))
  unfolding after_call
  restart-IsPrompt h true k = k
  restart-IsPrompt h false k =
      let t = reset_devices h.devices h.tables in
      (
        k.0,
        unfinished t.states (all_terminal t.states) (reset_pending h.devices h.tables (k.0)) refl,
      )

  cancel-IsPrompt :
      (h : Handle) (c : Bool)
      → IsPrompt (d ∷ ds) h
      → IsPrompt
          (d ∷ ds)
          (if c then h else record h { cancelled = true; queue = h.queue ++ none ∷ [] })
  cancel-IsPrompt h true k = k
  cancel-IsPrompt h false k = k

  apply-IsPrompt : (a : Action) (h : Handle) → IsPrompt (d ∷ ds) h → IsPrompt (d ∷ ds) (apply a h)
  unfolding apply on_reply restart cancel
  apply-IsPrompt (Action.replying item) h k = k
  apply-IsPrompt Action.monitoring_round h k =
      round-IsPrompt h (monitor_step h) k (monitor_step-Holds h k)
  apply-IsPrompt Action.restarting h k = restart-IsPrompt h h.cancelled k
  apply-IsPrompt Action.cancelling h k = cancel-IsPrompt h h.cancelled k

  pub run-IsPrompt :
      (actions : List Action) (h : Handle) → IsPrompt (d ∷ ds) h → IsPrompt (d ∷ ds) (run actions h)
  unfolding run
  run-IsPrompt [] h k = k
  run-IsPrompt (a ∷ rest) h k = run-IsPrompt rest (apply a h) (apply-IsPrompt a h k)

  pub new_handle-IsPrompt : (ss : List ℤ) → IsPrompt (d ∷ ds) (new_handle (d ∷ ds) ss)
  unfolding new_handle
  new_handle-IsPrompt ss =
      (refl, set_event (all_terminal (new_handle (d ∷ ds) ss).tables.states) false)
