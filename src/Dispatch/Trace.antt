-- ===== src/Dispatch/Trace.antt =====
-- Interleavings of the threads that use a dispatcher in worker mode.
use pacsys.Prelude.{ℕ, suc, Option, none, some, List, [], ◌∷◌, ◌++◌, leb, if◌then◌else◌, length}
use pacsys.Dispatch.{Dispatcher, close_step, enqueue, ensure_worker, queue_max_size, worker_step}

-- A producer that has passed its test of the stop event goes on in two steps, whenever they come.
pub data Step (A : Type 0) : Type 0 where
  ensuring : Step A
  enqueuing : A → Step A
  working : Step A
  closing : Step A

unfoldable pub apply : {A : Type 0} → Step A → Dispatcher A → Dispatcher A
unfolding ensure_worker enqueue worker_step close_step
apply Step.ensuring d = ensure_worker d
apply (Step.enqueuing item) d = enqueue item d
apply Step.working d = worker_step d
apply Step.closing d = close_step d

unfoldable pub apply_all : {A : Type 0} → List (Step A) → Dispatcher A → Dispatcher A
unfolding apply
apply_all [] d = d
apply_all (s ∷ ss) d = apply_all ss (apply s d)

-- How often the worker goes on.
unfoldable pub turns : {A : Type 0} → List (Step A) → ℕ
turns [] = 0
turns (Step.working ∷ ss) = suc (turns ss)
turns (s ∷ ss) = turns ss

-- The items that found room in the queue.
unfoldable pub taken_in : {A : Type 0} → A → Option (List (Option A)) → List A
taken_in item none = []
taken_in item (some q) = if leb queue_max_size (length q) then [] else item ∷ []

unfoldable pub accepts : {A : Type 0} → Step A → Dispatcher A → List A
unfolding taken_in
accepts (Step.enqueuing item) d = taken_in item d.queue
accepts _ d = []

unfoldable pub accepted : {A : Type 0} → List (Step A) → Dispatcher A → List A
unfolding accepts apply
accepted [] d = []
accepted (s ∷ ss) d = accepts s d ++ accepted ss (apply s d)
