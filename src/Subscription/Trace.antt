-- ===== src/Subscription/Trace.antt =====
-- Interleavings of the threads that feed a subscription and those that read it.
use pacsys.Prelude.{
  ℕ, ◌≡◌, Bool, true, false, ◌||◌, Option, List, [], ◌∷◌, ◌++◌, ltb, leb, if◌then◌else◌, length,
}
use pacsys.Subscription.Buffer.{
  Buffer, Next, dispatch, new_buffer, poll, signal_error, signal_stop, wake,
}

-- One critical section of some thread, with the times it brings.
pub data Step (A : Type 0) (E : Type 0) : Type 0 where
  dispatching : ℕ → A → Step A E
  stopping : Step A E
  failing : E → Step A E
  polling : Option ℕ → ℕ → ℕ → Step A E
  waking : Bool → Option ℕ → ℕ → ℕ → Step A E

unfoldable pub apply : {A E : Type 0} → Step A E → Buffer A E → Buffer A E
apply (Step.dispatching now r) b = dispatch now r b
apply Step.stopping b = signal_stop b
apply (Step.failing e) b = signal_error e b
apply (Step.polling t start now) b = (poll t start now b).0
apply (Step.waking notified t start now) b = (wake notified t start now b).0

-- A reader leaves a wait only if it is in one.
unfoldable pub is_enabled : {A E : Type 0} → Step A E → Buffer A E → Bool
is_enabled (Step.waking true t start now) b = ltb 0 b.woken
is_enabled (Step.waking false t start now) b = ltb 0 b.sleeping
is_enabled _ b = true

-- What is added to the buffer by a step, and what a reader yields after it.
unfoldable pub accepts : {A E : Type 0} → Step A E → Buffer A E → List A
accepts (Step.dispatching now r) b =
    if b.stopped || leb b.maxsize (length b.buf) then [] else r ∷ []
accepts _ b = []

unfoldable pub yielded_by : {A E : Type 0} → Next A E → List A
yielded_by (Next.yields r) = r ∷ []
yielded_by _ = []

unfoldable pub delivers : {A E : Type 0} → Step A E → Buffer A E → List A
unfolding yielded_by
delivers (Step.polling t start now) b = yielded_by ((poll t start now b).1)
delivers (Step.waking notified t start now) b = yielded_by ((wake notified t start now b).1)
delivers _ b = []

-- The states that any interleaving reaches from a new subscription, with the readings accepted and those
-- delivered so far, in their order.
pub data Trace (A : Type 0) (E : Type 0) : Buffer A E → List A → List A → Type 0 where
  start : Trace A E new_buffer [] []
  next :
      {b : Buffer A E} {accepted delivered : List A}
      → Trace A E b accepted delivered
      → (s : Step A E) → is_enabled s b ≡ true
      → Trace A E (apply s b) (accepted ++ accepts s b) (delivered ++ delivers s b)
