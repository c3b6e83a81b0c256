-- ===== src/Subscription/Wakeups.antt =====
-- No reader of a subscription sleeps through a reading, a stop or an error.
use pacsys.Prelude.{
  ℕ, suc, ◌-◌, ◌≤◌, ◌<◌, ◌≡◌, refl, ap, ◌≢◌, Bool, true, false, Option, none, some, List, [], ◌∷◌,
  arith, length, length-append,
}
use pacsys.Subscription.Buffer.{
  Buffer, Next, default_buffer_maxsize, dispatch, dropped, if_empty, if_still_empty, new_buffer,
  notify, notify_all, poll, recheck, signal_error, signal_stop, spurious, take_or, wake,
}
use pacsys.Subscription.Trace.{Step, Trace, apply, is_enabled}

-- What holds between any two steps.
pub record IsAwake {A E : Type 0} (b : Buffer A E) : Type 0 where
  pub attended : 0 < b.sleeping → length b.buf ≤ b.woken
  pub running : 0 < b.sleeping → b.stopped ≡ false
  pub unfailed : b.stopped ≡ false → b.exc ≡ none
  pub bounded : length b.buf ≤ b.maxsize
  pub size : b.maxsize ≡ default_buffer_maxsize

new_buffer-IsAwake : {A E : Type 0} → IsAwake (new_buffer {A = A} {E = E})
unfolding new_buffer
new_buffer-IsAwake = record {
  attended = λ h. omega arith;
  running = λ h. refl;
  unfailed = λ h. refl;
  bounded = omega arith;
  size = refl;
}

module _ {A E : Type 0} (b : Buffer A E) (v : IsAwake b) where
  dispatch-IsAwake : (now : ℕ) (r : A) → IsAwake (dispatch now r b)
  unfolding dispatch dropped notify
  dispatch-IsAwake now r = record {
    attended = ground (arith, v.attended, length-append b.buf (r ∷ []));
    running = ground (arith, v.running);
    unfailed = ground (arith, v.unfailed);
    bounded = ground (arith, v.bounded, length-append b.buf (r ∷ []));
    size = ground (arith, v.size);
  }

  signal_stop-IsAwake : IsAwake (signal_stop b)
  unfolding signal_stop notify_all
  signal_stop-IsAwake = record {
    attended = ground (arith, v.attended);
    running = ground (arith, v.running);
    unfailed = ground (arith, v.unfailed);
    bounded = ground (arith, v.bounded);
    size = ground (arith, v.size);
  }

  signal_error-IsAwake : (e : E) → IsAwake (signal_error e b)
  unfolding signal_error notify_all
  signal_error-IsAwake e = record {
    attended = ground (arith, v.attended);
    running = ground (arith, v.running);
    unfailed = ground (arith, v.unfailed);
    bounded = v.bounded;
    size = v.size;
  }

-- What holds of the buffer when a reader that was notified has the lock again.
record IsRising {A E : Type 0} (b : Buffer A E) : Type 0 where
  attended : 0 < b.sleeping → length b.buf ≤ suc b.woken
  running : 0 < b.sleeping → b.stopped ≡ false
  unfailed : b.stopped ≡ false → b.exc ≡ none
  bounded : length b.buf ≤ b.maxsize
  size : b.maxsize ≡ default_buffer_maxsize

empty-IsAwake : {A E : Type 0} (b : Buffer A E) → IsRising b → b.buf ≡ [] → IsAwake b
empty-IsAwake b v e = record {
  attended = λ h. omega (arith, ap length e);
  running = v.running;
  unfailed = v.unfailed;
  bounded = v.bounded;
  size = v.size;
}

-- A wait is entered only if neither a stop nor an error was signalled.
if_empty-waits :
    {A E : Type 0} (t : Option ℕ) (start now : ℕ) (o : Option E) (s : Bool) (u : Option ℕ)
    → if_empty {A = A} t start now o s ≡ Next.waits u
    → s ≡ false
unfolding if_empty
if_empty-waits t start now (some e) s u h = cc
if_empty-waits t start now none true u h = cc
if_empty-waits t start now none false u h = refl

spurious-waits :
    {A E : Type 0} (t : Option ℕ) (start now : ℕ) (u : Option ℕ)
    → spurious {A = A} {E = E} t start now ≢ Next.waits u
unfolding spurious
spurious-waits none start now u h = cc
spurious-waits (some t) start now u h = ground arith

if_still_empty-waits :
    {A E : Type 0} (t : Option ℕ) (start now : ℕ) (o : Option E) (s : Bool) (u : Option ℕ)
    → if_still_empty {A = A} t start now o s ≢ Next.waits u
unfolding if_still_empty
if_still_empty-waits t start now (some e) s u h = cc
if_still_empty-waits t start now none true u h = cc
if_still_empty-waits t start now none false u h = spurious-waits t start now u h

take_or-IsAwake :
    {A E : Type 0} (b : Buffer A E) (n : Next A E) (l : List A)
    → IsRising b
    → b.buf ≡ l
    → ((u : Option ℕ) → n ≡ Next.waits u → b.stopped ≡ false)
    → IsAwake (take_or n b l).0
unfolding take_or
take_or-IsAwake b (Next.waits u) [] v e f = record {
  attended = λ h. omega (arith, ap length e);
  running = λ h. f u refl;
  unfailed = v.unfailed;
  bounded = v.bounded;
  size = v.size;
}
take_or-IsAwake b (Next.yields r) [] v e f = empty-IsAwake b v e
take_or-IsAwake b (Next.raises r) [] v e f = empty-IsAwake b v e
take_or-IsAwake b Next.ends [] v e f = empty-IsAwake b v e
take_or-IsAwake b Next.again [] v e f = empty-IsAwake b v e
take_or-IsAwake b n (r ∷ rest) v e f = record {
  attended = λ h. omega (arith, ap length e, v.attended h);
  running = v.running;
  unfailed = v.unfailed;
  bounded = omega (arith, ap length e, v.bounded);
  size = v.size;
}

module _ {A E : Type 0} (b : Buffer A E) (v : IsAwake b) where
  rising : IsRising b
  rising = record {
    attended = λ h. omega (arith, v.attended h);
    running = v.running;
    unfailed = v.unfailed;
    bounded = v.bounded;
    size = v.size;
  }

  poll-IsAwake : (t : Option ℕ) (start now : ℕ) → IsAwake (poll t start now b).0
  unfolding poll
  poll-IsAwake t start now =
      take_or-IsAwake b (if_empty t start now b.exc b.stopped) b.buf rising refl
        (λ u e. if_empty-waits t start now b.exc b.stopped u e)

  wake-IsAwake :
      (n : Bool) (t : Option ℕ) (start now : ℕ)
      → is_enabled (Step.waking n t start now) b ≡ true
      → IsAwake (wake n t start now b).0
  unfolding wake recheck is_enabled
  wake-IsAwake true t start now h =
      take_or-IsAwake (record b { woken = b.woken - 1 })
        (if_still_empty t start now b.exc b.stopped) b.buf
        (record {
          attended = λ k. omega (arith, v.attended k);
          running = v.running;
          unfailed = v.unfailed;
          bounded = v.bounded;
          size = v.size;
        })
        refl (λ u e. absurd (if_still_empty-waits t start now b.exc b.stopped u e))
  wake-IsAwake false t start now h =
      take_or-IsAwake (record b { sleeping = b.sleeping - 1 })
        (if_still_empty t start now b.exc b.stopped) b.buf
        (record {
          attended = λ k. omega (arith, v.attended (omega (arith, k)));
          running = λ k. v.running (omega (arith, k));
          unfailed = v.unfailed;
          bounded = v.bounded;
          size = v.size;
        })
        refl (λ u e. absurd (if_still_empty-waits t start now b.exc b.stopped u e))

  apply-IsAwake : (s : Step A E) → is_enabled s b ≡ true → IsAwake (apply s b)
  unfolding apply
  apply-IsAwake (Step.dispatching now r) h = dispatch-IsAwake b v now r
  apply-IsAwake Step.stopping h = signal_stop-IsAwake b v
  apply-IsAwake (Step.failing e) h = signal_error-IsAwake b v e
  apply-IsAwake (Step.polling t start now) h = poll-IsAwake t start now
  apply-IsAwake (Step.waking n t start now) h = wake-IsAwake n t start now h

Trace-IsAwake :
    {A E : Type 0} {b : Buffer A E} {accepted delivered : List A}
    → Trace A E b accepted delivered
    → IsAwake b
Trace-IsAwake Trace.start = new_buffer-IsAwake
Trace-IsAwake (Trace.next {b} {accepted} {delivered} t s e) = apply-IsAwake b (Trace-IsAwake t) s e

-- Whatever the threads do, while a reader sleeps that nobody has notified, no stop and no error was signalled, and
-- at most as many readings are buffered as readers were notified and have not gone on yet.
pub Trace-awake :
    {A E : Type 0} {b : Buffer A E} {accepted delivered : List A}
    → Trace A E b accepted delivered
    → 0 < b.sleeping
    → (b.stopped ≡ false) × ((b.exc ≡ none) × (length b.buf ≤ b.woken))
Trace-awake {A} {E} {b} t h =
    let v = Trace-IsAwake t in (v.running h, (v.unfailed (v.running h), v.attended h))
