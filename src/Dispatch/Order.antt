-- ===== src/Dispatch/Order.antt =====
-- The callbacks of a dispatcher are called in the order in which they were handed over.
use pacsys.Prelude.{
  ◌≡◌, refl, sym, ap, ◌∙◌, ◌≢◌, Bool, true, false, Option, none, some, List, [], ◌∷◌, ◌++◌,
  append-nil, append_assoc, arith, if◌then◌else◌,
}
use pacsys.Dispatch.{
  Dispatcher, Mode, Worker, enqueue, enqueued, ensure, ensure_worker, got, new_dispatcher, or_same,
  put, worker_at, worker_step,
}
use pacsys.Dispatch.Sound.{is_absent}
use pacsys.Dispatch.Trace.{Step, accepted, accepts, apply, apply_all, taken_in}

-- The callback that the worker is in.
unfoldable pub current : {A : Type 0} → Worker A → List A
current (Worker.running item) = item ∷ []
current _ = []

-- The callbacks in the queue.
unfoldable waiting_in : {A : Type 0} → List (Option A) → List A
waiting_in [] = []
waiting_in (none ∷ q) = waiting_in q
waiting_in (some item ∷ q) = item ∷ waiting_in q

unfoldable pub waiting : {A : Type 0} → Option (List (Option A)) → List A
unfolding waiting_in
waiting none = []
waiting (some q) = waiting_in q

unfoldable pub never_closes : {A : Type 0} → List (Step A) → Bool
never_closes [] = true
never_closes (Step.closing ∷ ss) = false
never_closes (s ∷ ss) = never_closes ss

some_ne_none : {A : Type 0} {x : A} → some x ≢ none
some_ne_none h = cc

-- The callbacks called, the one that the worker is in and those in the queue.
abbrev pub known : {A : Type 0} → List A → Worker A → Option (List (Option A)) → List A
known called w q = called ++ current w ++ waiting q

waiting_in-append :
    {A : Type 0} (item : A) (q : List (Option A))
    → waiting_in (q ++ (some item ∷ [])) ≡ waiting_in q ++ (item ∷ [])
unfolding waiting_in
waiting_in-append item [] = refl
waiting_in-append item (none ∷ q) = waiting_in-append item q
waiting_in-append item (some x ∷ q) = ap (λ l. x ∷ l) (waiting_in-append item q)

waiting-put :
    {A : Type 0} (item : A) (q : List (Option A))
    → waiting_in (or_same q (put (some item) q)) ≡ waiting_in q ++ taken_in item (some q)
unfolding put or_same taken_in
waiting-put item q = ground (arith, waiting_in-append item q, append-nil (waiting_in q))

abbrev content : {A : Type 0} → Dispatcher A → List A
content d = known d.called d.worker d.queue

-- Before the worker starts there is no queue.
abbrev IsQuiet : {A : Type 0} → Dispatcher A → Type 0
IsQuiet d = is_absent d.worker ≡ true → d.queue ≡ none

module _ {A : Type 0} (d : Dispatcher A) where
  ensure-content :
      (w : Worker A)
      → IsQuiet (record d { worker = w })
      → known d.called w d.queue ≡ content (ensure (record d { worker = w }) w)
  unfolding ensure is_absent current waiting waiting_in
  ensure-content Worker.absent f = ap (λ o. known d.called Worker.absent o) (f refl)
  ensure-content Worker.checking f = refl
  ensure-content Worker.getting f = refl
  ensure-content Worker.finished f = refl
  ensure-content (Worker.running item) f = refl

  ensure-IsQuiet :
      (w : Worker A)
      → IsQuiet (record d { worker = w })
      → IsQuiet (ensure (record d { worker = w }) w)
  unfolding ensure is_absent
  ensure-IsQuiet Worker.absent f = λ h. cc
  ensure-IsQuiet Worker.checking f = f
  ensure-IsQuiet Worker.getting f = f
  ensure-IsQuiet Worker.finished f = f
  ensure-IsQuiet (Worker.running item) f = f

  enqueued-content :
      (item : A) (o : Option (List (Option A)))
      → known d.called d.worker o ++ taken_in item o
        ≡ content (enqueued item (record d { queue = o }) o)
  unfolding enqueued waiting taken_in
  enqueued-content item none = append-nil _
  enqueued-content item (some q) =
      append_assoc (d.called ++ current d.worker) (waiting_in q) _
      ∙ ap (λ l. (d.called ++ current d.worker) ++ l) (sym (waiting-put item q))

  enqueued-IsQuiet :
      (item : A) (o : Option (List (Option A)))
      → IsQuiet (record d { queue = o })
      → IsQuiet (enqueued item (record d { queue = o }) o)
  unfolding enqueued
  enqueued-IsQuiet item none f = f
  enqueued-IsQuiet item (some q) f = λ h. absurd (some_ne_none (f h))

  got-content :
      (o : Option (List (Option A)))
      → known d.called Worker.getting o
        ≡ content (got (record d { worker = Worker.getting; queue = o }) o)
  unfolding got waiting current waiting_in
  got-content none = refl
  got-content (some []) = refl
  got-content (some (none ∷ q)) = refl
  got-content (some (some item ∷ q)) =
      ap (λ l. l ++ (item ∷ waiting_in q)) (append-nil d.called)
      ∙ sym (append_assoc d.called (item ∷ []) (waiting_in q))

  got-IsQuiet :
      (o : Option (List (Option A)))
      → IsQuiet (got (record d { worker = Worker.getting; queue = o }) o)
  unfolding got is_absent
  got-IsQuiet none = λ h. cc
  got-IsQuiet (some []) = λ h. cc
  got-IsQuiet (some (none ∷ q)) = λ h. cc
  got-IsQuiet (some (some item ∷ q)) = λ h. cc

  checked-content :
      (b : Bool)
      → known d.called Worker.checking d.queue
        ≡ content (
            if b
            then record d { worker = Worker.finished }
            else record d { worker = Worker.getting })
  unfolding current
  checked-content true = refl
  checked-content false = refl

  checked-IsQuiet :
      (b : Bool)
      → IsQuiet (
          if b then record d { worker = Worker.finished } else record d { worker = Worker.getting })
  unfolding is_absent
  checked-IsQuiet true = λ h. cc
  checked-IsQuiet false = λ h. cc

  worker_at-content :
      (w : Worker A) → known d.called w d.queue ≡ content (worker_at (record d { worker = w }) w)
  unfolding worker_at current
  worker_at-content Worker.absent = refl
  worker_at-content Worker.checking = checked-content d.stop
  worker_at-content Worker.getting = got-content d.queue
  worker_at-content Worker.finished = refl
  worker_at-content (Worker.running item) =
      ap (λ l. l ++ waiting d.queue) (sym (append-nil (d.called ++ (item ∷ []))))

  worker_at-IsQuiet :
      (w : Worker A)
      → IsQuiet (record d { worker = w })
      → IsQuiet (worker_at (record d { worker = w }) w)
  unfolding worker_at is_absent
  worker_at-IsQuiet Worker.absent f = f
  worker_at-IsQuiet Worker.checking f = checked-IsQuiet d.stop
  worker_at-IsQuiet Worker.getting f = got-IsQuiet d.queue
  worker_at-IsQuiet Worker.finished f = f
  worker_at-IsQuiet (Worker.running item) f = λ h. cc

all-content :
    {A : Type 0} (ss : List (Step A)) (d : Dispatcher A)
    → never_closes ss ≡ true
    → IsQuiet d
    → content d ++ accepted ss d ≡ content (apply_all ss d)
unfolding never_closes accepted apply_all accepts apply ensure_worker enqueue worker_step
all-content [] d h f = append-nil _
all-content (Step.ensuring ∷ ss) d h f =
    ap (λ l. l ++ accepted ss (ensure d d.worker)) (ensure-content d d.worker f)
    ∙ all-content ss (ensure d d.worker) h (ensure-IsQuiet d d.worker f)
all-content (Step.enqueuing item ∷ ss) d h f =
    sym (append_assoc (content d) (taken_in item d.queue) (accepted ss (enqueued item d d.queue)))
    ∙ ap (λ l. l ++ accepted ss (enqueued item d d.queue)) (enqueued-content d item d.queue)
    ∙ all-content ss (enqueued item d d.queue) h (enqueued-IsQuiet d item d.queue f)
all-content (Step.working ∷ ss) d h f =
    ap (λ l. l ++ accepted ss (worker_at d d.worker)) (worker_at-content d d.worker)
    ∙ all-content ss (worker_at d d.worker) h (worker_at-IsQuiet d d.worker f)
all-content (Step.closing ∷ ss) d h f = cc

-- As long as the dispatcher is not closed, the callbacks that found room in the queue are those called, then the one
-- that the worker is in, then those in the queue: none is lost, called twice or called out of order.
pub accepted-known :
    {A : Type 0} (m : Mode) (ss : List (Step A)) (d : Dispatcher A)
    → apply_all ss (new_dispatcher m) ≡ d
    → never_closes ss ≡ true
    → accepted ss (new_dispatcher m) ≡ known d.called d.worker d.queue
unfolding new_dispatcher current waiting
accepted-known m ss d e h = all-content ss (new_dispatcher m) h (λ k. refl) ∙ ap content e
