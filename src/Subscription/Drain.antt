-- ===== src/Subscription/Drain.antt =====
-- What a reader gets from a subscription that was stopped or has failed.
use pacsys.Prelude.{
  subst, ℕ, ◌<◌, ◌≡◌, refl, sym, ap, ◌∙◌, Bool, true, false, ◌&&◌, Option, none, some, List, [],
  ◌∷◌, arith, length,
}
use pacsys.Subscription.Buffer.{
  Buffer, Next, dispatch, first_error, if_empty, notify_all, poll, signal_error, signal_stop,
  take_or,
}
use pacsys.Subscription.Trace.{Step, apply}

-- The steps of the threads that feed the subscription.
unfoldable is_producer : {A E : Type 0} → Step A E → Bool
is_producer (Step.dispatching now r) = true
is_producer Step.stopping = true
is_producer (Step.failing e) = true
is_producer _ = false

unfoldable pub apply_all : {A E : Type 0} → List (Step A E) → Buffer A E → Buffer A E
unfolding apply
apply_all [] b = b
apply_all (s ∷ ss) b = apply_all ss (apply s b)

unfoldable all_producers : {A E : Type 0} → List (Step A E) → Bool
unfolding is_producer
all_producers [] = true
all_producers (s ∷ ss) = is_producer s && all_producers ss

-- `readings` up to its end or its first wait: the steps of other threads before each round, with the time of
-- the round. It gives what was yielded and how the last round ended.
unfoldable after_poll :
    {A E : Type 0} → Buffer A E × Next A E → (Buffer A E → List A × Next A E) → List A × Next A E
after_poll (b, Next.yields r) rest = (r ∷ (rest b).0, (rest b).1)
after_poll (b, n) rest = ([], n)

unfoldable pub read_all :
    {A E : Type 0} → Option ℕ → ℕ → List (ℕ × List (Step A E)) → Buffer A E → List A × Next A E
unfolding apply_all after_poll poll
read_all t start [] b = ([], Next.again)
read_all t start ((now, others) ∷ rounds) b =
    after_poll (poll t start now (apply_all others b)) (λ c. read_all t start rounds c)

unfoldable pub all_from_producers : {A E : Type 0} → List (ℕ × List (Step A E)) → Bool
unfolding all_producers
all_from_producers [] = true
all_from_producers ((now, others) ∷ rounds) = all_producers others && all_from_producers rounds

-- What threads that feed a stopped subscription leave as it is.
record Same {A E : Type 0} (b c : Buffer A E) : Type 0 where
  buf : c.buf ≡ b.buf
  stopped : c.stopped ≡ true
  exc : (e : E) → b.exc ≡ some e → c.exc ≡ some e

producer-Same :
    {A E : Type 0} (s : Step A E) (b : Buffer A E)
    → is_producer s ≡ true
    → b.stopped ≡ true
    → Same b (apply s b)
unfolding apply is_producer dispatch signal_stop signal_error first_error notify_all
producer-Same (Step.dispatching now r) b h e = record {
  buf = ground arith;
  stopped = ground arith;
  exc = λ x k. ground arith;
}
producer-Same Step.stopping b h e = record {
  buf = ground arith;
  stopped = ground arith;
  exc = λ x k. ground arith;
}
producer-Same (Step.failing f) b h e = record {
  buf = refl;
  stopped = refl;
  exc = λ x k. ap (first_error f) k;
}
producer-Same (Step.polling t start now) b h e = cc
producer-Same (Step.waking n t start now) b h e = cc

producers-Same :
    {A E : Type 0} (ss : List (Step A E)) (b : Buffer A E)
    → all_producers ss ≡ true
    → b.stopped ≡ true
    → Same b (apply_all ss b)
unfolding apply_all all_producers
producers-Same [] b h e = record { buf = refl; stopped = e; exc = λ x k. k }
producers-Same (s ∷ ss) b h e =
    let v = producer-Same s b (ground arith) e in
    let w = producers-Same ss (apply s b) (ground arith) v.stopped in
    record { buf = w.buf ∙ v.buf; stopped = w.stopped; exc = λ x k. w.exc x (v.exc x k) }

-- How the iteration of a stopped subscription ends.
unfoldable pub is_end : {A E : Type 0} → Next A E → Bool
is_end (Next.raises e) = true
is_end Next.ends = true
is_end _ = false

pub record Drained {A E : Type 0} (l : List A) (o : Option E) (r : List A × Next A E) : Type 0 where
  pub yielded : r.0 ≡ l
  pub ended : is_end (r.1) ≡ true
  pub raised : (e : E) → o ≡ some e → r.1 ≡ Next.raises e

at_end :
    {A E : Type 0} (t : Option ℕ) (start now : ℕ) (o : Option E) (c : Buffer A E)
    (rest : Buffer A E → List A × Next A E)
    → Drained [] o (after_poll (take_or (if_empty t start now o true) c []) rest)
unfolding after_poll take_or if_empty is_end
at_end t start now none c rest = record { yielded = refl; ended = refl; raised = λ e k. cc }
at_end t start now (some f) c rest = record {
  yielded = refl;
  ended = refl;
  raised = λ e k. ground arith;
}

round :
    {A E : Type 0} (t : Option ℕ) (start now : ℕ) (c : Buffer A E) (l : List A)
    (rest : Buffer A E → List A × Next A E)
    → c.stopped ≡ true
    → ((r : A) (k : List A) → l ≡ r ∷ k → Drained k c.exc (rest (record c { buf = k })))
    → Drained l c.exc (after_poll (take_or (if_empty t start now c.exc c.stopped) c l) rest)
unfolding take_or after_poll
round t start now c [] rest h f =
    subst (λ s. Drained [] c.exc (after_poll (take_or (if_empty t start now c.exc s) c []) rest))
      (sym h) (at_end t start now c.exc c rest)
round t start now c (r ∷ k) rest h f =
    let v = f r k refl in
    record { yielded = ap (λ x. r ∷ x) v.yielded; ended = v.ended; raised = v.raised }

weakened :
    {A E : Type 0} {l : List A} {o q : Option E} {r : List A × Next A E}
    → ((e : E) → o ≡ some e → q ≡ some e)
    → Drained l q r
    → Drained l o r
weakened f v = record { yielded = v.yielded; ended = v.ended; raised = λ e k. v.raised e (f e k) }

-- Once a subscription is stopped, whatever the threads that feed it still do, a reader that makes one round more
-- than readings are buffered gets exactly these, in their order, and then the end, or the error if there was one.
pub read_all-Drained :
    {A E : Type 0} (t : Option ℕ) (start : ℕ) (rounds : List (ℕ × List (Step A E))) (b : Buffer A E)
    → b.stopped ≡ true
    → all_from_producers rounds ≡ true
    → length b.buf < length rounds
    → Drained b.buf b.exc (read_all t start rounds b)
unfolding read_all all_from_producers poll
read_all-Drained t start [] b hs hp hl = absurd (omega (arith, hl))
read_all-Drained t start ((now, others) ∷ rounds) b hs hp hl =
    let w = producers-Same others b (ground arith) hs in
    weakened w.exc (
      subst (λ l. Drained l (apply_all others b).exc (read_all t start ((now, others) ∷ rounds) b))
        w.buf
        (round t start now (apply_all others b) (apply_all others b).buf
          (λ c. read_all t start rounds c) w.stopped
          (λ r l e.
            read_all-Drained t start rounds (record (apply_all others b) { buf = l }) w.stopped
              (ground arith) (omega (arith, ap length e, ap length w.buf, hl)))))
