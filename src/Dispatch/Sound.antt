-- ===== src/Dispatch/Sound.antt =====
-- A worker that is in `get` when `close` is over finds an item there.
use pacsys.Prelude.{
  ◌≡◌, refl, sym, ap, ◌∙◌, ◌≢◌, Bool, true, false, not, ◌&&◌, ◌||◌, Option, none, some, List, [],
  ◌∷◌, arith,
}
use pacsys.Dispatch.{
  Close, Dispatcher, Mode, Worker, close_queue, close_step, enqueue, enqueued, ensure,
  ensure_worker, first_put, got, last_put, new_dispatcher, or_same, put, worker_at, worker_step,
}
use pacsys.Dispatch.Trace.{Step, apply, apply_all}

unfoldable pub is_getting : {A : Type 0} → Worker A → Bool
is_getting Worker.getting = true
is_getting _ = false

unfoldable pub is_absent : {A : Type 0} → Worker A → Bool
is_absent Worker.absent = true
is_absent _ = false

unfoldable pub is_done : Close → Bool
is_done Close.done = true
is_done _ = false

unfoldable pub is_before : Close → Bool
is_before Close.before = true
is_before _ = false

unfoldable pub has_item : {A : Type 0} → Option (List (Option A)) → Bool
has_item none = false
has_item (some []) = false
has_item (some (x ∷ q)) = true

unfoldable pub has_queue : {A : Type 0} → Option (List (Option A)) → Bool
has_queue none = false
has_queue (some q) = true

-- A worker that is in `get` after `close` finds an item there.
pub record IsSound {A : Type 0} (d : Dispatcher A) : Type 0 where
  pub made : (is_absent d.worker || has_queue d.queue) ≡ true
  pub stops : (is_before d.progress || d.stop) ≡ true
  pub served : (not (is_done d.progress && is_getting d.worker) || has_item d.queue) ≡ true

put-has_item :
    {A : Type 0} (x : Option A) (q : List (Option A)) → has_item (some (or_same q (put x q))) ≡ true
unfolding put or_same has_item
put-has_item x [] = refl
put-has_item x (y ∷ q) = ground arith

put-nil : {A : Type 0} (x : Option A) (q : List (Option A)) → put x q ≢ some []
unfolding put
put-nil x [] h = ground arith
put-nil x (y ∷ q) h = ground arith

put-some :
    {A : Type 0} (x : Option A) (q r : List (Option A))
    → put x q ≡ some r
    → has_item (some r) ≡ true
unfolding put has_item
put-some x q [] h = absurd (put-nil x q h)
put-some x q (y ∷ r) h = refl

absent-getting : {A : Type 0} (w : Worker A) → is_absent w ≡ true → is_getting w ≡ false
unfolding is_absent is_getting
absent-getting Worker.absent h = refl
absent-getting Worker.checking h = refl
absent-getting Worker.getting h = cc
absent-getting Worker.finished h = refl
absent-getting (Worker.running item) h = refl

pub true_ne_false : true ≢ false
true_ne_false h = cc

pub not_done : {p : Close} → is_done p ≡ false → p ≢ Close.done
unfolding is_done
not_done h e = absurd (true_ne_false (sym (ap is_done e) ∙ h))

before-done : (p : Close) → is_before p ≡ true → is_done p ≡ false
unfolding is_before is_done
before-done Close.before h = refl
before-done Close.stopped h = refl
before-done Close.full h = refl
before-done Close.made_room h = refl
before-done Close.done h = cc

module _ {A : Type 0} (d : Dispatcher A) (v : IsSound d) where
  pub ensure-IsSound : (w : Worker A) → IsSound (ensure d w)
  unfolding ensure has_queue has_item is_getting is_absent
  ensure-IsSound Worker.absent = record { made = refl; stops = v.stops; served = ground arith }
  ensure-IsSound Worker.checking = v
  ensure-IsSound Worker.getting = v
  ensure-IsSound Worker.finished = v
  ensure-IsSound (Worker.running item) = v

  pub enqueued-IsSound : (item : A) (o : Option (List (Option A))) → IsSound (enqueued item d o)
  unfolding enqueued has_queue
  enqueued-IsSound item none = v
  enqueued-IsSound item (some q) = record {
    made = ground arith;
    stops = v.stops;
    served = ground (arith, put-has_item (some item) q);
  }

  got-IsSound : (o : Option (List (Option A))) → IsSound (got d o)
  unfolding got has_queue is_getting is_absent
  got-IsSound none = v
  got-IsSound (some []) = v
  got-IsSound (some (none ∷ q)) = record { made = refl; stops = v.stops; served = ground arith }
  got-IsSound (some (some item ∷ q)) = record {
    made = refl;
    stops = v.stops;
    served = ground arith;
  }

  pub worker_at-IsSound : (w : Worker A) → d.worker ≡ w → IsSound (worker_at d w)
  unfolding worker_at is_getting is_absent
  worker_at-IsSound Worker.absent e = v
  worker_at-IsSound Worker.checking e = record {
    made = ground (arith, v.made, ap is_absent e);
    stops = ground (arith, v.stops);
    served = ground (arith, v.stops, before-done d.progress);
  }
  worker_at-IsSound Worker.getting e = got-IsSound d.queue
  worker_at-IsSound Worker.finished e = v
  worker_at-IsSound (Worker.running item) e = record {
    made = ground (arith, v.made, ap is_absent e);
    stops = v.stops;
    served = ground arith;
  }

  first_put-put :
      (q : List (Option A))
      → d.stop ≡ true
      → (o : Option (List (Option A))) → put none q ≡ o
      → IsSound (first_put d o)
  unfolding first_put is_done is_before has_queue
  first_put-put q h none k = record { made = v.made; stops = h; served = refl }
  first_put-put q h (some r) k = record {
    made = ground arith;
    stops = h;
    served = ground (arith, put-some none q r k);
  }

  first_put-IsSound :
      (q : List (Option A)) → d.queue ≡ some q → d.stop ≡ true → IsSound (first_put d (put none q))
  unfolding first_put is_done is_before
  first_put-IsSound q e h = first_put-put q h (put none q) refl

  close_queue-IsSound :
      (p : Close) (o : Option (List (Option A)))
      → d.progress ≡ p
      → d.queue ≡ o
      → IsSound (close_queue d p o)
  unfolding close_queue last_put is_done is_before has_queue has_item
  close_queue-IsSound Close.before o e k = record { made = v.made; stops = refl; served = refl }
  close_queue-IsSound Close.stopped none e k = record {
    made = v.made;
    stops = ground (arith, v.stops, ap is_before e);
    served = ground (arith, v.made, ap has_queue k, absent-getting d.worker);
  }
  close_queue-IsSound Close.stopped (some q) e k =
      first_put-IsSound q k (ground (arith, v.stops, ap is_before e))
  close_queue-IsSound Close.full none e k = record {
    made = v.made;
    stops = ground (arith, v.stops, ap is_before e);
    served = refl;
  }
  close_queue-IsSound Close.full (some q) e k = record {
    made = ground arith;
    stops = ground (arith, v.stops, ap is_before e);
    served = refl;
  }
  close_queue-IsSound Close.made_room none e k = record {
    made = v.made;
    stops = ground (arith, v.stops, ap is_before e);
    served = ground (arith, v.made, ap has_queue k, absent-getting d.worker);
  }
  close_queue-IsSound Close.made_room (some q) e k = record {
    made = ground arith;
    stops = ground (arith, v.stops, ap is_before e);
    served = ground (arith, put-has_item none q);
  }
  close_queue-IsSound Close.done o e k = v

  apply-IsSound : (s : Step A) → IsSound (apply s d)
  unfolding apply ensure_worker enqueue worker_step close_step
  apply-IsSound Step.ensuring = ensure-IsSound d.worker
  apply-IsSound (Step.enqueuing item) = enqueued-IsSound item d.queue
  apply-IsSound Step.working = worker_at-IsSound d.worker refl
  apply-IsSound Step.closing = close_queue-IsSound d.progress d.queue refl refl

pub apply_all-IsSound :
    {A : Type 0} (ss : List (Step A)) (d : Dispatcher A) → IsSound d → IsSound (apply_all ss d)
unfolding apply_all
apply_all-IsSound [] d v = v
apply_all-IsSound (s ∷ ss) d v = apply_all-IsSound ss (apply s d) (apply-IsSound d v s)

pub new_dispatcher-IsSound : {A : Type 0} (m : Mode) → IsSound (new_dispatcher {A = A} m)
unfolding new_dispatcher is_absent is_before is_done
new_dispatcher-IsSound m = record { made = refl; stops = refl; served = refl }
