-- ===== src/Dispatch/Closing.antt =====
-- The worker of a closed dispatcher comes to its end.
use pacsys.Prelude.{
  ℕ, ◌+◌, ◌-◌, ◌≤◌, ◌≡◌, refl, sym, ap, ◌∙◌, Bool, true, false, Option, none, some, List, [], ◌∷◌,
  ◌++◌, arith, if◌then◌else◌, subst,
}
use pacsys.Dispatch.{
  Close, Dispatcher, Mode, Worker, close_queue, close_step, enqueue, enqueued, ensure,
  ensure_worker, got, new_dispatcher, or_same, put, worker_at, worker_step,
}
use pacsys.Dispatch.Trace.{Step, apply, apply_all, turns}
use pacsys.Dispatch.Sound.{
  IsSound, apply_all-IsSound, enqueued-IsSound, ensure-IsSound, has_item, is_absent, is_before,
  is_done, is_getting, new_dispatcher-IsSound, not_done, true_ne_false, worker_at-IsSound,
}

-- How many turns the worker of a closed dispatcher has left.
unfoldable rank : {A : Type 0} → Worker A → ℕ
rank Worker.absent = 0
rank Worker.finished = 0
rank Worker.checking = 1
rank (Worker.running item) = 2
rank Worker.getting = 3

unfoldable pub is_finished : {A : Type 0} → Worker A → Bool
is_finished Worker.finished = true
is_finished _ = false

-- What is kept once `close` is over and the worker was started.
record IsOver {A : Type 0} (d : Dispatcher A) : Type 0 where
  sound : IsSound d
  over : d.progress ≡ Close.done
  began : is_absent d.worker ≡ false

-- What a step of any thread does to the worker of a closed dispatcher.
record Turned {A : Type 0} (n : ℕ) (d e : Dispatcher A) : Type 0 where
  next : IsOver e
  closer : rank e.worker ≤ rank d.worker - n

stopped_check :
    {A : Type 0} (d : Dispatcher A)
    → d.stop ≡ true
    → (if d.stop
        then record d { worker = Worker.finished }
        else record d { worker = Worker.getting })
      ≡ record d { worker = Worker.finished }
stopped_check d h =
    ap
      (λ b.
        if b then record d { worker = Worker.finished } else record d { worker = Worker.getting })
      h

module _ {A : Type 0} (d : Dispatcher A) (v : IsOver d) where
  others-Turned :
      (e : Dispatcher A) → IsSound e → e.progress ≡ d.progress → e.worker ≡ d.worker → Turned 0 d e
  others-Turned e s p w = record {
    next = record { sound = s; over = p ∙ v.over; began = ap is_absent w ∙ v.began };
    closer = omega (arith, ap rank w);
  }

  worker-Turned :
      (e : Dispatcher A)
      → IsSound e
      → e.progress ≡ d.progress
      → is_absent e.worker ≡ false
      → rank e.worker ≤ rank d.worker - 1
      → Turned 1 d e
  worker-Turned e s p w h = record {
    next = record { sound = s; over = p ∙ v.over; began = w };
    closer = h;
  }

  ensure-worker : (w : Worker A) → d.worker ≡ w → (ensure d w).worker ≡ d.worker
  unfolding ensure is_absent
  ensure-worker Worker.absent e = absurd (true_ne_false (ap is_absent (sym e) ∙ v.began))
  ensure-worker Worker.checking e = refl
  ensure-worker Worker.getting e = refl
  ensure-worker Worker.finished e = refl
  ensure-worker (Worker.running item) e = refl

  ensure-progress : (w : Worker A) → (ensure d w).progress ≡ d.progress
  unfolding ensure
  ensure-progress Worker.absent = refl
  ensure-progress Worker.checking = refl
  ensure-progress Worker.getting = refl
  ensure-progress Worker.finished = refl
  ensure-progress (Worker.running item) = refl

  enqueued-Turned :
      (item : A) (o : Option (List (Option A)))
      → IsSound (enqueued item d o)
      → Turned 0 d (enqueued item d o)
  unfolding enqueued
  enqueued-Turned item none s = others-Turned d s refl refl
  enqueued-Turned item (some q) s =
      others-Turned (record d { queue = some (or_same q (put (some item) q)) }) s refl refl

  got-Turned :
      (o : Option (List (Option A)))
      → d.worker ≡ Worker.getting
      → has_item o ≡ true
      → IsSound (got d o)
      → Turned 1 d (got d o)
  unfolding got has_item is_absent rank
  got-Turned none e h s = cc
  got-Turned (some []) e h s = cc
  got-Turned (some (none ∷ q)) e h s =
      worker-Turned (record d { queue = some q; worker = Worker.finished }) s refl refl
        (omega arith)
  got-Turned (some (some item ∷ q)) e h s =
      worker-Turned (record d { queue = some q; worker = Worker.running item }) s refl refl
        (omega (arith, ap rank e))

  is_stopped : d.stop ≡ true
  unfolding is_before
  is_stopped = ground (arith, v.sound.stops, ap is_before v.over)

  served_now : d.worker ≡ Worker.getting → has_item d.queue ≡ true
  unfolding is_done is_getting
  served_now e = ground (arith, v.sound.served, ap is_done v.over, ap is_getting e)

  worker_at-Turned :
      (w : Worker A) → d.worker ≡ w → IsSound (worker_at d w) → Turned 1 d (worker_at d w)
  unfolding worker_at is_absent rank
  worker_at-Turned Worker.absent e s = absurd (true_ne_false (ap is_absent (sym e) ∙ v.began))
  worker_at-Turned Worker.checking e s =
      subst (λ x. Turned 1 d x) (sym (stopped_check d is_stopped))
        (worker-Turned (record d { worker = Worker.finished })
          (subst (λ x. IsSound x) (stopped_check d is_stopped) s) refl refl (omega arith))
  worker_at-Turned Worker.getting e s = got-Turned d.queue e (served_now e) s
  worker_at-Turned Worker.finished e s = worker-Turned d s refl v.began (omega (arith, ap rank e))
  worker_at-Turned (Worker.running item) e s =
      worker-Turned (record d { worker = Worker.checking; called = d.called ++ (item ∷ []) }) s refl
        refl (omega (arith, ap rank e))

  close_queue-over :
      (p : Close) (o : Option (List (Option A))) → d.progress ≡ p → close_queue d p o ≡ d
  unfolding close_queue is_done
  close_queue-over Close.before o e = absurd (not_done refl (sym e ∙ v.over))
  close_queue-over Close.stopped o e = absurd (not_done refl (sym e ∙ v.over))
  close_queue-over Close.full o e = absurd (not_done refl (sym e ∙ v.over))
  close_queue-over Close.made_room o e = absurd (not_done refl (sym e ∙ v.over))
  close_queue-over Close.done o e = refl

  apply-Turned : (s : Step A) → Turned (turns (s ∷ [])) d (apply s d)
  unfolding apply ensure_worker enqueue worker_step close_step turns
  apply-Turned Step.ensuring =
      others-Turned (ensure d d.worker) (ensure-IsSound d v.sound d.worker)
        (ensure-progress d.worker) (ensure-worker d.worker refl)
  apply-Turned (Step.enqueuing item) =
      enqueued-Turned item d.queue (enqueued-IsSound d v.sound item d.queue)
  apply-Turned Step.working =
      worker_at-Turned d.worker refl (worker_at-IsSound d v.sound d.worker refl)
  apply-Turned Step.closing =
      subst (λ e. Turned 0 d e) (sym (close_queue-over d.progress d.queue refl))
        (others-Turned d v.sound refl refl)

rank-zero : {A : Type 0} (w : Worker A) → rank w ≤ 0 → is_absent w ≡ false → is_finished w ≡ true
unfolding rank is_absent is_finished
rank-zero Worker.absent h k = cc
rank-zero Worker.checking h k = absurd (omega (arith, h))
rank-zero Worker.getting h k = absurd (omega (arith, h))
rank-zero Worker.finished h k = refl
rank-zero (Worker.running item) h k = absurd (omega (arith, h))

turns-cons :
    {A : Type 0} (s : Step A) (ss : List (Step A)) → turns (s ∷ ss) ≡ turns (s ∷ []) + turns ss
unfolding turns
turns-cons Step.ensuring ss = omega arith
turns-cons (Step.enqueuing item) ss = omega arith
turns-cons Step.working ss = omega arith
turns-cons Step.closing ss = omega arith

over-finished :
    {A : Type 0} (ss : List (Step A)) (d : Dispatcher A)
    → IsOver d
    → rank d.worker ≤ turns ss
    → is_finished (apply_all ss d).worker ≡ true
unfolding apply_all turns
over-finished [] d v h = rank-zero d.worker h v.began
over-finished (s ∷ ss) d v h =
    let w = apply-Turned d v s in
    over-finished ss (apply s d) w.next (omega (arith, h, w.closer, turns-cons s ss))

rank-le : {A : Type 0} (w : Worker A) → rank w ≤ 3
unfolding rank
rank-le Worker.absent = omega arith
rank-le Worker.checking = omega arith
rank-le Worker.getting = omega arith
rank-le Worker.finished = omega arith
rank-le (Worker.running item) = omega arith

-- Whatever the threads did before, once `close` has made its last put and the worker was started, the worker has
-- ended after three more turns, whatever other threads do in between.
pub close-finished :
    {A : Type 0} (m : Mode) (ss later : List (Step A)) (d : Dispatcher A)
    → apply_all ss (new_dispatcher m) ≡ d
    → d.progress ≡ Close.done
    → is_absent d.worker ≡ false
    → 3 ≤ turns later
    → is_finished (apply_all later d).worker ≡ true
close-finished m ss later d e p a h =
    over-finished later d
      (record {
        sound =
            subst (λ x. IsSound x) e
              (apply_all-IsSound ss (new_dispatcher m) (new_dispatcher-IsSound m));
        over = p;
        began = a;
      })
      (omega (arith, h, rank-le d.worker))
