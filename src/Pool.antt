-- ===== src/Pool.antt =====
-- pacsys/pool.py: the connection pool. Each function is one critical section under the pool's lock;
-- threads interleave between them (`Trace`). A connection is a number, its identity. What the pool
-- closes is logged, since a socket left open is what the pool has to avoid.
pub mod Count
pub mod Trace
pub mod Conservation
mod Runs
use pacsys.Prelude.{
  value_error, ℕ, zero, suc, ◌+◌, ◌-◌, ◌*◌, ◌/◌, ◌%◌, ◌^◌, ◌≤◌, ◌<◌, min, max, bit_and, bit_or, ◌≡◌,
  refl, sym, ap, ◌∙◌, ◌≢◌, ◌↔◌, ◌⊎◌, inl, inr, Bool, true, false, not, ◌&&◌, ◌||◌, Option, none,
  some, List, [], ◌∷◌, ◌++◌, map, append-nil, append_assoc, arith, ltb, leb, ◌==◌, if◌then◌else◌,
  Bool-cases, Result, ok, err, ◌>>=◌, ◌>>◌, guard, length, Text, codes,
}

pub record Pool : Type 0 where
  pub pool_size : ℕ
  -- the last element is the next that `pop` returns
  pub available : List ℕ
  pub in_use : List ℕ
  pub pending_creates : ℕ
  pub closed : Bool
  -- the connections on which `close` was called, the latest first
  pub shut : List ℕ

-- `ConnectionPool.__init__`, for the pool size: zero is refused (a negative one too).
unfoldable create : ℕ → Result Pool
create n =
    if n == 0
    then err value_error
    else ok (record {
      pool_size = n;
      available = [];
      in_use = [];
      pending_creates = 0;
      closed = false;
      shut = [];
    })

unfoldable pub contains : List ℕ → ℕ → Bool
contains [] c = false
contains (x ∷ xs) c = x == c || contains xs c

-- `set.add`, `set.discard` and `list.remove`.
unfoldable pub add : ℕ → List ℕ → List ℕ
unfolding contains
add c s = if contains s c then s else c ∷ s

unfoldable pub remove : ℕ → List ℕ → List ℕ
remove c [] = []
remove c (x ∷ xs) = if x == c then xs else x ∷ remove c xs

-- `list.pop()`: the last element and the rest.
unfoldable pub pop : ℕ → List ℕ → ℕ × List ℕ
pop x [] = (x, [])
pop x (y ∷ ys) = let (c, rest) = pop y ys in (c, x ∷ rest)

-- What one pass through the lock in `borrow` ends with: a connection, a reserved slot, a wait on
-- the condition, or one of the two errors.
pub data Attempt : Type 0 where
  got : ℕ → Attempt
  reserved : Attempt
  waiting : Attempt
  pool_closed : Attempt
  pool_exhausted : Attempt

unfoldable pub take_available : Pool → ℕ → List ℕ → Pool × Attempt
unfolding pop add
take_available p x xs =
    let (c, rest) = pop x xs in (record p { available = rest; in_use = add c p.in_use }, got c)

-- The loop of `borrow` from its head to a wait: `expired` says that the deadline has passed.
unfoldable pub attempt : Bool → Pool → List ℕ → Pool × Attempt
unfolding take_available
attempt expired p [] =
    if ltb (length p.in_use + p.pending_creates) p.pool_size
    then (record p { pending_creates = p.pending_creates + 1 }, reserved)
    else if expired
    then (p, pool_exhausted)
    else (p, waiting)
attempt expired p (x ∷ xs) = take_available p x xs

-- `borrow` up to its first wait.
unfoldable pub borrow : Bool → Pool → Pool × Attempt
unfolding attempt
borrow expired p = if p.closed then (p, pool_closed) else attempt expired p p.available

-- `borrow` after `self._condition.wait` has returned `notified`.
unfoldable pub wake : Bool → Bool → Pool → Pool × Attempt
unfolding attempt
wake notified expired p =
    if not notified
    then (p, pool_exhausted)
    else if p.closed
    then (p, pool_closed)
    else attempt expired p p.available

-- The end of `borrow` when `_create_connection` has raised, or has returned `c`.
unfoldable pub create_failed : Pool → Pool
create_failed p = record p { pending_creates = p.pending_creates - 1 }

unfoldable pub create_done : ℕ → Pool → Pool × Attempt
unfolding add
create_done c p =
    let q = record p { pending_creates = p.pending_creates - 1 } in
    if p.closed
    then (record q { shut = c ∷ p.shut }, pool_closed)
    else (record q { in_use = add c p.in_use }, got c)

-- `release`, of a connection that is still `connected` or not.
unfoldable pub release : ℕ → Bool → Pool → Pool
unfolding contains remove
release c connected p =
    if contains p.in_use c
    then (let q = record p { in_use = remove c p.in_use } in
        if p.closed
        then record q { shut = c ∷ p.shut }
        else if connected
        then record q { available = p.available ++ (c ∷ []) }
        else record q { shut = c ∷ p.shut })
    else p

unfoldable pub discard : ℕ → Pool → Pool
unfolding contains remove
discard c p =
    if contains p.in_use c
    then record p { in_use = remove c p.in_use; shut = c ∷ p.shut }
    else if contains p.available c
    then record p { available = remove c p.available; shut = c ∷ p.shut }
    else p

-- `close` up to its wait for the borrowers, and its end after that wait.
unfoldable pub close_begin : Pool → Pool
close_begin p =
    if p.closed then p else record p { closed = true; available = []; shut = p.available ++ p.shut }

unfoldable pub close_end : Pool → Pool
close_end p = record p { in_use = []; shut = p.in_use ++ p.shut }
