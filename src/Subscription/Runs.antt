-- ===== src/Subscription/Runs.antt =====
-- Concrete subscriptions, and the theorems at concrete inputs.
use pacsys.Prelude.{ℕ, ◌≤◌, ◌≡◌, refl, true, false, none, some, [], ◌∷◌, ◌++◌, arith, length}
use pacsys.Subscription.Buffer.{Buffer, dispatch, new_buffer, poll, signal_error, wake}
use pacsys.Subscription.Trace.{Step, Trace, accepts, apply, delivers, is_enabled}
use pacsys.Subscription.Wakeups.{Trace-awake}
use pacsys.Subscription.Order.{Trace-order}
use pacsys.Subscription.Drain.{Drained, all_from_producers, read_all, read_all-Drained}
use pacsys.Subscription.Buffer.{Next}
use pacsys.Subscription.Queue.{Act, Handle, act_all, new_handle, read_queue}
use pacsys.Subscription.Queue.Drain.{act_all-Drained, readings_in}

-- A reader waits, two readings come, the reader is notified and takes the first.
one_waiting : Trace ℕ ℕ (apply (Step.polling none 0 1) new_buffer) [] []
unfolding apply is_enabled accepts delivers poll new_buffer dispatch wake signal_error
    all_from_producers act_all new_handle readings_in
one_waiting = Trace.next Trace.start (Step.polling none 0 1) refl

abbrev waiting : Buffer ℕ ℕ
waiting = apply (Step.polling none 0 1) new_buffer

abbrev fed : Buffer ℕ ℕ
fed = apply (Step.dispatching 3 8) (apply (Step.dispatching 2 7) waiting)

abbrev taken : Buffer ℕ ℕ
taken = apply (Step.waking true none 0 4) fed

taken-Trace : Trace ℕ ℕ taken (7 ∷ 8 ∷ []) (7 ∷ [])
unfolding apply is_enabled accepts delivers poll new_buffer dispatch wake signal_error
    all_from_producers act_all new_handle readings_in
taken-Trace =
    Trace.next
      (Trace.next (Trace.next one_waiting (Step.dispatching 2 7) refl) (Step.dispatching 3 8) refl)
      (Step.waking true none 0 4) refl

Trace-order_example : 7 ∷ 8 ∷ [] ≡ (7 ∷ []) ++ taken.buf
unfolding apply is_enabled accepts delivers poll new_buffer dispatch wake signal_error
    all_from_producers act_all new_handle readings_in
Trace-order_example = Trace-order taken-Trace

Trace-awake_example :
    (waiting.stopped ≡ false) × ((waiting.exc ≡ none) × (length waiting.buf ≤ waiting.woken))
unfolding apply is_enabled accepts delivers poll new_buffer dispatch wake signal_error
    all_from_producers act_all new_handle readings_in
Trace-awake_example = Trace-awake one_waiting (omega arith)

abbrev stopped_buffer : Buffer ℕ ℕ
stopped_buffer = apply (Step.failing 5) taken

read_all-Drained_example : Drained stopped_buffer.buf stopped_buffer.exc (
    read_all
      (some 9)
      0
      ((6, Step.dispatching 5 9 ∷ []) ∷ (7, Step.failing 4 ∷ []) ∷ [])
      stopped_buffer)
unfolding apply is_enabled accepts delivers poll new_buffer dispatch wake signal_error
    all_from_producers act_all new_handle readings_in
read_all-Drained_example =
    read_all-Drained (some 9) 0 ((6, Step.dispatching 5 9 ∷ []) ∷ (7, Step.failing 4 ∷ []) ∷ [])
      stopped_buffer refl refl (omega arith)

abbrev queued : Handle ℕ ℕ
queued =
    act_all (Act.dispatching 1 7 ∷ Act.dispatching 2 8 ∷ Act.failing 5 ∷ Act.dispatching 3 9 ∷ [])
      new_handle

act_all-Drained_example :
    Drained (readings_in queued.queue) queued.failure (read_queue none 3 queued)
unfolding apply is_enabled accepts delivers poll new_buffer dispatch wake signal_error
    all_from_producers act_all new_handle readings_in
act_all-Drained_example =
    act_all-Drained
      (Act.dispatching 1 7 ∷ Act.dispatching 2 8 ∷ Act.failing 5 ∷ Act.dispatching 3 9 ∷ []) none 3
      queued refl refl refl (omega arith)

-- Without time the reader ends, and the readings stay in the queue.
no_time : read_queue (some 0) 3 queued ≡ ([], Next.raises 5)
unfolding read_queue act_all new_handle
no_time = refl
