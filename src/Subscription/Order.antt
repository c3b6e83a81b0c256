-- ===== src/Subscription/Order.antt =====
-- The readings that a subscription delivers are those that it accepted, in their order.
use pacsys.Prelude.{
  ℕ, ◌-◌, ◌≡◌, refl, sym, ap, ◌∙◌, Bool, true, false, Option, none, some, List, [], ◌∷◌, ◌++◌,
  append-nil, append_assoc, arith,
}
use pacsys.Subscription.Buffer.{
  Buffer, Next, dispatch, dropped, if_empty, if_still_empty, new_buffer, notify, notify_all, poll,
  recheck, signal_error, signal_stop, spurious, take_or, wait_time, wake,
}
use pacsys.Subscription.Trace.{Step, Trace, accepts, apply, delivers, yielded_by}

take_or-buf :
    {A E : Type 0} (n : Next A E) (b : Buffer A E) (l : List A)
    → b.buf ≡ l
    → yielded_by n ≡ []
    → b.buf ≡ yielded_by ((take_or n b l).1) ++ (take_or n b l).0.buf
unfolding take_or yielded_by
take_or-buf (Next.yields r) b [] e h = cc
take_or-buf (Next.raises r) b [] e h = refl
take_or-buf Next.ends b [] e h = refl
take_or-buf (Next.waits t) b [] e h = refl
take_or-buf Next.again b [] e h = refl
take_or-buf n b (r ∷ rest) e h = e

wait_time-yields :
    (A E : Type 0) (t : Option ℕ) (start now : ℕ)
    → yielded_by (wait_time {A = A} {E = E} t start now) ≡ []
unfolding wait_time yielded_by
wait_time-yields A E none start now = refl
wait_time-yields A E (some t) start now = ground arith

spurious-yields :
    (A E : Type 0) (t : Option ℕ) (start now : ℕ)
    → yielded_by (spurious {A = A} {E = E} t start now) ≡ []
unfolding spurious yielded_by
spurious-yields A E none start now = refl
spurious-yields A E (some t) start now = ground arith

if_empty-yields :
    {A E : Type 0} (t : Option ℕ) (start now : ℕ) (o : Option E) (s : Bool)
    → yielded_by (if_empty {A = A} t start now o s) ≡ []
unfolding if_empty yielded_by
if_empty-yields t start now (some e) s = refl
if_empty-yields t start now none true = refl
if_empty-yields t start now none false = wait_time-yields _ _ t start now

if_still_empty-yields :
    {A E : Type 0} (t : Option ℕ) (start now : ℕ) (o : Option E) (s : Bool)
    → yielded_by (if_still_empty {A = A} t start now o s) ≡ []
unfolding if_still_empty yielded_by
if_still_empty-yields t start now (some e) s = refl
if_still_empty-yields t start now none true = refl
if_still_empty-yields t start now none false = spurious-yields _ _ t start now

dispatch-buf :
    {A E : Type 0} (now : ℕ) (r : A) (b : Buffer A E)
    → b.buf ++ accepts (Step.dispatching now r) b ≡ (dispatch now r b).buf
unfolding accepts dispatch dropped notify
dispatch-buf now r b = ground (arith, append-nil b.buf)

signal_stop-buf : {A E : Type 0} (b : Buffer A E) → (signal_stop b).buf ≡ b.buf
unfolding signal_stop notify_all
signal_stop-buf b = ground arith

poll-buf :
    {A E : Type 0} (t : Option ℕ) (start now : ℕ) (b : Buffer A E)
    → b.buf ≡ yielded_by ((poll t start now b).1) ++ (poll t start now b).0.buf
unfolding poll
poll-buf t start now b =
    take_or-buf (if_empty t start now b.exc b.stopped) b b.buf refl
      (if_empty-yields t start now b.exc b.stopped)

wake-buf :
    {A E : Type 0} (n : Bool) (t : Option ℕ) (start now : ℕ) (b : Buffer A E)
    → b.buf ≡ yielded_by ((wake n t start now b).1) ++ (wake n t start now b).0.buf
unfolding wake recheck
wake-buf true t start now b =
    take_or-buf (if_still_empty t start now b.exc b.stopped) (record b { woken = b.woken - 1 })
      b.buf refl (if_still_empty-yields t start now b.exc b.stopped)
wake-buf false t start now b =
    take_or-buf (if_still_empty t start now b.exc b.stopped)
      (record b { sleeping = b.sleeping - 1 }) b.buf refl
      (if_still_empty-yields t start now b.exc b.stopped)

apply-buf :
    {A E : Type 0} (s : Step A E) (b : Buffer A E)
    → b.buf ++ accepts s b ≡ delivers s b ++ (apply s b).buf
unfolding apply delivers accepts signal_error notify_all
apply-buf (Step.dispatching now r) b = dispatch-buf now r b
apply-buf Step.stopping b = append-nil b.buf ∙ sym (signal_stop-buf b)
apply-buf (Step.failing e) b = append-nil b.buf
apply-buf (Step.polling t start now) b = append-nil b.buf ∙ poll-buf t start now b
apply-buf (Step.waking n t start now) b = append-nil b.buf ∙ wake-buf n t start now b

-- Whatever the threads do, the readings accepted so far are those delivered, followed by those buffered: each is
-- delivered once and in its order.
pub Trace-order :
    {A E : Type 0} {b : Buffer A E} {accepted delivered : List A}
    → Trace A E b accepted delivered
    → accepted ≡ delivered ++ b.buf
unfolding new_buffer
Trace-order Trace.start = refl
Trace-order (Trace.next {b} {accepted} {delivered} t s e) =
    ap (λ x. x ++ accepts s b) (Trace-order t)
    ∙ append_assoc delivered b.buf (accepts s b)
    ∙ ap (λ x. delivered ++ x) (apply-buf s b)
    ∙ sym (append_assoc delivered (delivers s b) (apply s b).buf)
