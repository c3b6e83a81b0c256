-- ===== src/Pool/Trace.antt =====
-- Interleavings of the pool's critical sections, with the list of connections opened so far.
use pacsys.Prelude.{ℕ, ◌<◌, ◌≡◌, Bool, true, false, List, [], ◌∷◌, ok}
use pacsys.Pool.{Pool, contains}
use pacsys.Pool

-- One critical section of some thread; the flags and the connections are what the thread brings.
pub data Event : Type 0 where
  borrow : Bool → Event
  wake : Bool → Bool → Event
  create_failed : Event
  create_done : ℕ → Event
  release : ℕ → Bool → Event
  discard : ℕ → Event
  close_begin : Event
  close_end : Event

abbrev pub apply : Event → Pool → Pool
apply (borrow expired) p = (Pool.borrow expired p).0
apply (wake notified expired) p = (Pool.wake notified expired p).0
apply create_failed p = Pool.create_failed p
apply (create_done c) p = (Pool.create_done c p).0
apply (release c connected) p = Pool.release c connected p
apply (discard c) p = Pool.discard c p
apply close_begin p = Pool.close_begin p
apply close_end p = Pool.close_end p

abbrev pub opens : Event → List ℕ → List ℕ
opens (create_done c) opened = c ∷ opened
opens _ opened = opened

-- When a thread can be at that point: a creation ends only after a slot was reserved for it, and
-- gives a connection that was not there before; `close` goes on only after it has begun.
abbrev pub Enabled : Event → Pool → List ℕ → Type 0
Enabled create_failed p opened = 0 < p.pending_creates
Enabled (create_done c) p opened = (0 < p.pending_creates) × (contains opened c ≡ false)
Enabled close_end p opened = p.closed ≡ true
Enabled _ p opened = Unit {0}

-- The states that any interleaving of threads can reach from a new pool of size n.
pub data Trace (n : ℕ) : Pool → List ℕ → Type 0 where
  start : {p : Pool} → Pool.create n ≡ ok p → Trace n p []
  next :
      {p : Pool} {opened : List ℕ}
      → Trace n p opened
      → (e : Event) → Enabled e p opened
      → Trace n (apply e p) (opens e opened)
