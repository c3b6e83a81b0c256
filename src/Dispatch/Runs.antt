-- ===== src/Dispatch/Runs.antt =====
-- Concrete dispatchers, and the theorems at concrete inputs.
use pacsys.Prelude.{ℕ, ◌≡◌, refl, true, List, [], ◌∷◌, ◌++◌, arith}
use pacsys.Dispatch.{Dispatcher, Mode, dispatch, new_dispatcher}
use pacsys.Dispatch.Trace.{Step, accepted, apply_all, turns}
use pacsys.Dispatch.Sound.{is_absent}
use pacsys.Dispatch.Closing.{close-finished, is_finished}
use pacsys.Dispatch.Order.{accepted-known, known, never_closes}

-- Two callbacks are handed over, and the worker has called the first.
abbrev busy_steps : List (Step ℕ)
busy_steps =
    Step.ensuring
    ∷ Step.enqueuing 1
    ∷ Step.enqueuing 2
    ∷ Step.working
    ∷ Step.working
    ∷ Step.working
    ∷ []

abbrev busy : Dispatcher ℕ
busy = apply_all busy_steps (new_dispatcher Mode.worker_mode)

accepted-known_example :
    accepted busy_steps (new_dispatcher Mode.worker_mode) ≡ known busy.called busy.worker busy.queue
unfolding never_closes
accepted-known_example = accepted-known Mode.worker_mode busy_steps busy refl refl

abbrev closing_steps : List (Step ℕ)
closing_steps = busy_steps ++ (Step.working ∷ Step.closing ∷ Step.closing ∷ [])

abbrev closed_dispatcher : Dispatcher ℕ
closed_dispatcher = apply_all closing_steps (new_dispatcher Mode.worker_mode)

abbrev later_steps : List (Step ℕ)
later_steps = Step.working ∷ Step.enqueuing 3 ∷ Step.working ∷ Step.working ∷ []

close-finished_example : is_finished (apply_all later_steps closed_dispatcher).worker ≡ true
unfolding apply_all new_dispatcher is_absent turns
close-finished_example =
    close-finished Mode.worker_mode closing_steps later_steps closed_dispatcher refl refl refl
      (omega arith)

abbrev inline : Dispatcher ℕ
inline = new_dispatcher Mode.direct

direct_test : (dispatch {A = ℕ} 5 (dispatch {A = ℕ} 4 inline)).called ≡ 4 ∷ 5 ∷ []
unfolding dispatch new_dispatcher
direct_test = refl
