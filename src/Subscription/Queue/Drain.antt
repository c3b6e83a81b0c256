-- ===== src/Subscription/Queue/Drain.antt =====
-- What a reader gets from a stopped asynchronous subscription (pacsys/aio/_subscription.py).
use pacsys.Prelude.{
  ℕ, zero, suc, ◌<◌, ◌≡◌, refl, sym, ap, ◌∙◌, Bool, true, false, Option, none, some, List, [], ◌∷◌,
  ◌++◌, arith, if◌then◌else◌, length, subst,
}
use pacsys.Subscription.Buffer.{Next, first_error}
use pacsys.Subscription.Drain.{Drained, is_end}
use pacsys.Subscription.Queue.{
  Act, Handle, act, act_all, after_item, dispatch_nowait, end_or_raise, fail_queue, new_handle,
  next_reading, on_item, put_nowait, put_reading, put_stop, read_queue, stop_queue, take_first,
  take_item, take_none,
}

-- The readings in a queue.
unfoldable pub readings_in : {A : Type 0} → List (Option A) → List A
readings_in [] = []
readings_in (none ∷ q) = readings_in q
readings_in (some r ∷ q) = r ∷ readings_in q

-- The sign of a stop stands at the end alone, and only if there was one.
unfoldable is_closed_last : {A : Type 0} → Bool → List (Option A) → Bool
is_closed_last s [] = true
is_closed_last s (some r ∷ q) = is_closed_last s q
is_closed_last s (none ∷ []) = s
is_closed_last s (none ∷ x ∷ q) = false

put-reading :
    {A : Type 0} (r : A) (q : List (Option A))
    → is_closed_last false q ≡ true
    → is_closed_last false (q ++ (some r ∷ [])) ≡ true
unfolding is_closed_last
put-reading r [] h = refl
put-reading r (some x ∷ q) h = put-reading r q h
put-reading r (none ∷ []) h = cc
put-reading r (none ∷ x ∷ q) h = cc

put-stop :
    {A : Type 0} (q : List (Option A))
    → is_closed_last false q ≡ true
    → (is_closed_last true q ≡ true) × (is_closed_last true (q ++ (none ∷ [])) ≡ true)
unfolding is_closed_last
put-stop [] h = (refl, refl)
put-stop (some x ∷ q) h = put-stop q h
put-stop (none ∷ []) h = cc
put-stop (none ∷ x ∷ q) h = cc

tail_closed :
    {A : Type 0} (s : Bool) (x : Option A) (q : List (Option A))
    → is_closed_last s (x ∷ q) ≡ true
    → is_closed_last s q ≡ true
unfolding is_closed_last
tail_closed s (some r) q h = h
tail_closed s none [] h = refl
tail_closed s none (x ∷ q) h = cc

abbrev IsClosed : {A E : Type 0} → Handle A E → Type 0
IsClosed h = is_closed_last h.is_stopped h.queue ≡ true

put_reading-IsClosed :
    {A E : Type 0} (now : ℕ) (r : A) (h : Handle A E)
    → h.is_stopped ≡ false
    → is_closed_last false h.queue ≡ true
    → IsClosed (put_reading now h (put_nowait h.capacity (some r) h.queue))
unfolding put_reading put_nowait
put_reading-IsClosed now r h e v = ground (arith, put-reading r h.queue)

dispatch-IsClosed :
    {A E : Type 0} (now : ℕ) (r : A) (h : Handle A E)
    → IsClosed h
    → IsClosed (dispatch_nowait now r h)
unfolding dispatch_nowait
dispatch-IsClosed now r h v = ground (arith, put_reading-IsClosed now r h)

put_stop-IsClosed :
    {A E : Type 0} (h : Handle A E)
    → is_closed_last false h.queue ≡ true
    → IsClosed (put_stop (record h { is_stopped = true }) (put_nowait h.capacity none h.queue))
unfolding put_stop put_nowait
put_stop-IsClosed h v = ground (arith, put-stop h.queue)

stop_queue-IsClosed : {A E : Type 0} (h : Handle A E) → IsClosed h → IsClosed (stop_queue h)
unfolding stop_queue
stop_queue-IsClosed h v = ground (arith, put_stop-IsClosed h)

take_first-IsClosed :
    {A E : Type 0} (t : Option ℕ) (h : Handle A E) (q : List (Option A))
    → h.queue ≡ q
    → IsClosed h
    → IsClosed (take_first t h q).0
unfolding take_first
take_first-IsClosed t h [] e v = ground arith
take_first-IsClosed t h (x ∷ q) e v = tail_closed h.is_stopped x q (ground arith)

take_item-IsClosed :
    {A E : Type 0} (t : Option ℕ) (h : Handle A E) → IsClosed h → IsClosed (take_item t h h.queue).0
unfolding take_item take_none
take_item-IsClosed none h v = take_first-IsClosed none h h.queue refl v
take_item-IsClosed (some zero) h v = ground arith
take_item-IsClosed (some (suc n)) h v = take_first-IsClosed (some (suc n)) h h.queue refl v

-- A reader without a timeout, or with one that is not zero.
abbrev has_time : Option ℕ → Bool
has_time none = true
has_time (some zero) = false
has_time (some (suc n)) = true

take_item-first :
    {A E : Type 0} (t : Option ℕ) (h : Handle A E) (q : List (Option A))
    → has_time t ≡ true
    → take_item t h q ≡ take_first t h q
unfolding take_item
take_item-first none h q e = refl
take_item-first (some zero) h q e = cc
take_item-first (some (suc n)) h q e = refl

act-IsClosed : {A E : Type 0} (a : Act A E) (h : Handle A E) → IsClosed h → IsClosed (act a h)
unfolding act fail_queue next_reading
act-IsClosed (Act.dispatching now r) h v = dispatch-IsClosed now r h v
act-IsClosed Act.stopping h v = stop_queue-IsClosed h v
act-IsClosed (Act.failing e) h v =
    stop_queue-IsClosed (record h { failure = first_error e h.failure }) v
act-IsClosed (Act.reading t) h v = take_item-IsClosed t h v

act_all-IsClosed :
    {A E : Type 0} (acts : List (Act A E)) (h : Handle A E) → IsClosed h → IsClosed (act_all acts h)
unfolding act_all
act_all-IsClosed [] h v = v
act_all-IsClosed (a ∷ acts) h v = act_all-IsClosed acts (act a h) (act-IsClosed a h v)

ends-Drained :
    {A E : Type 0} (h : Handle A E) (o : Option E) (rest : Handle A E → List A × Next A E)
    → Drained [] o (after_item (h, end_or_raise o) rest)
unfolding after_item end_or_raise is_end
ends-Drained h none rest = record { yielded = refl; ended = refl; raised = λ e k. cc }
ends-Drained h (some f) rest = record { yielded = refl; ended = refl; raised = λ e k. ground arith }

take-Drained :
    {A E : Type 0} (t : Option ℕ) (h : Handle A E) (q : List (Option A))
    (rest : Handle A E → List A × Next A E)
    → h.is_stopped ≡ true
    → is_closed_last true q ≡ true
    → ((r : A) (p : List (Option A))
        → q ≡ some r ∷ p
        → Drained (readings_in p) h.failure (rest (record h { queue = p })))
    → Drained (readings_in q) h.failure (after_item (take_first t h q) rest)
unfolding take_first on_item after_item readings_in is_closed_last
take-Drained t h [] rest s v f =
    subst
      (λ b.
        Drained [] h.failure
          (after_item (if b then (h, end_or_raise h.failure) else (h, Next.waits t)) rest))
      (sym s) (ends-Drained h h.failure rest)
take-Drained t h (none ∷ []) rest s v f = ends-Drained (record h { queue = [] }) h.failure rest
take-Drained t h (none ∷ x ∷ q) rest s v f = cc
take-Drained t h (some r ∷ p) rest s v f =
    let w = f r p refl in
    record { yielded = ap (λ x. r ∷ x) w.yielded; ended = w.ended; raised = w.raised }

read_queue-Drained :
    {A E : Type 0} (t : Option ℕ) (n : ℕ) (h : Handle A E) (q : List (Option A))
    → h.queue ≡ q
    → h.is_stopped ≡ true
    → is_closed_last true q ≡ true
    → length (readings_in q) < n
    → has_time t ≡ true
    → Drained (readings_in q) h.failure (read_queue t n h)
unfolding read_queue next_reading readings_in is_closed_last
read_queue-Drained t zero h q e s v l w = absurd (omega (arith, l))
read_queue-Drained t (suc n) h q e s v l w =
    subst (λ p. Drained (readings_in q) h.failure (after_item p (λ k. read_queue t n k)))
      (sym (ap (take_item t h) e ∙ take_item-first t h q w))
      (take-Drained t h q (λ k. read_queue t n k) s v
        (λ r p d.
          read_queue-Drained t n (record h { queue = p }) p refl s (ground arith) (ground arith) w))

new_handle-IsClosed : (A E : Type 0) → IsClosed (new_handle {A = A} {E = E})
unfolding new_handle is_closed_last
new_handle-IsClosed A E = refl

-- Whatever tasks did before, a reader without a timeout or with one that is not zero, which makes one round more than
-- readings are queued when the subscription is stopped, gets exactly these, in their order, and then the end, or the
-- error if there was one.
pub act_all-Drained :
    {A E : Type 0} (acts : List (Act A E)) (t : Option ℕ) (n : ℕ) (h : Handle A E)
    → has_time t ≡ true
    → act_all acts new_handle ≡ h
    → h.is_stopped ≡ true
    → length (readings_in h.queue) < n
    → Drained (readings_in h.queue) h.failure (read_queue t n h)
act_all-Drained acts t n h w e s l =
    read_queue-Drained t n h h.queue refl s
      (subst (λ b. is_closed_last b h.queue ≡ true) s
        (subst (λ k. IsClosed k) e (act_all-IsClosed acts new_handle (new_handle-IsClosed _ _))))
      l w
