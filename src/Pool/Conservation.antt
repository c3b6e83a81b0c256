-- ===== src/Pool/Conservation.antt =====
-- What holds in every interleaving: the capacity is kept, and no connection is lost or shared.
use pacsys.Prelude.{
  ℕ, ◌+◌, ◌≤◌, ◌<◌, ◌≡◌, refl, ap, ◌↔◌, Bool, true, false, List, [], ◌∷◌, arith, if◌then◌else◌, ok,
  length, length-append,
}
use pacsys.Pool.{Pool, contains, add, remove, pop, take_available, attempt, Attempt}
use pacsys.Pool
use pacsys.Pool.{pool_closed, pool_exhausted, waiting}
use pacsys.Pool.Count.{
  count, count-append, contains-count, count-add, count-remove, length-remove, count-pop,
  length-pop, length-add,
}
use pacsys.Pool.Trace.{
  Event, borrow, wake, create_failed, create_done, release, discard, close_begin, close_end, apply,
  opens, Enabled, Trace, start, next,
}

pub record IsPool (n : ℕ) (p : Pool) (opened : List ℕ) : Type 0 where
  pub size : p.pool_size ≡ n
  pub bounded : length p.available + length p.in_use + p.pending_creates ≤ n
  pub drained : p.closed ≡ true → length p.available ≡ 0
  pub conserved : (c : ℕ) → count c p.available + count c p.in_use + count c p.shut ≡ count c opened
  pub unique : (c : ℕ) → count c opened ≤ 1

module _ {n : ℕ} {p : Pool} {opened : List ℕ} (v : IsPool n p opened) where
  take_available-IsPool :
      (x : ℕ) (xs : List ℕ) → p.available ≡ x ∷ xs → IsPool n (take_available p x xs).0 opened
  unfolding take_available
  take_available-IsPool x xs e = record {
    size = v.size;
    bounded = ground (arith, v.bounded, ap length e, length-pop x xs, length-add c p.in_use);
    drained = λ h. absurd (omega (arith, v.drained h, ap length e));
    conserved = λ d. ground (
      arith,
      v.conserved d,
      v.unique d,
      count-pop d x xs,
      count-add d c p.in_use,
      ap (count d) e,
    );
    unique = v.unique;
  }
    where
      c : ℕ
      c = (pop x xs).0

  attempt-IsPool :
      (expired : Bool) (l : List ℕ) → p.available ≡ l → IsPool n (attempt expired p l).0 opened
  unfolding attempt
  attempt-IsPool expired [] e = record {
    size = ground (arith, v.size);
    bounded = ground (arith, v.bounded, v.size, ap length e);
    drained = ground (arith, v.drained);
    conserved = λ d. ground (arith, v.conserved d);
    unique = v.unique;
  }
  attempt-IsPool expired (x ∷ xs) e = take_available-IsPool x xs e

  refused-IsPool :
      (b : Bool) (a : Attempt) (r : Pool × Attempt)
      → IsPool n r.0 opened
      → IsPool n (if b then (p, a) else r).0 opened
  refused-IsPool true a r h = v
  refused-IsPool false a r h = h

  borrow-IsPool : (expired : Bool) → IsPool n (Pool.borrow expired p).0 opened
  unfolding Pool.borrow
  borrow-IsPool expired =
      refused-IsPool p.closed Pool.pool_closed _ (attempt-IsPool expired p.available refl)

  wake-IsPool : (notified expired : Bool) → IsPool n (Pool.wake notified expired p).0 opened
  unfolding Pool.wake
  wake-IsPool false expired = v
  wake-IsPool true expired =
      refused-IsPool p.closed Pool.pool_closed _ (attempt-IsPool expired p.available refl)

  create_done-IsPool :
      (c : ℕ)
      → 0 < p.pending_creates
      → contains opened c ≡ false
      → IsPool n (Pool.create_done c p).0 (c ∷ opened)
  unfolding Pool.create_done
  create_done-IsPool c pending fresh = record {
    size = ground (arith, v.size);
    bounded = ground (arith, v.bounded, length-add c p.in_use);
    drained = ground (arith, v.drained);
    conserved = λ d. ground (arith, v.conserved d, contains-count opened c, count-add d c p.in_use);
    unique = λ d. ground (arith, v.unique d, contains-count opened c);
  }

  release-IsPool : (c : ℕ) (connected : Bool) → IsPool n (Pool.release c connected p) opened
  unfolding Pool.release
  release-IsPool c connected = record {
    size = ground (arith, v.size);
    bounded =
        ground (arith, v.bounded, length-remove c p.in_use, length-append p.available (c ∷ []));
    drained = ground (arith, v.drained);
    conserved = λ d. ground (
      arith,
      v.conserved d,
      contains-count p.in_use c,
      count-remove d c p.in_use,
      count-append d p.available (c ∷ []),
    );
    unique = v.unique;
  }

  discard-IsPool : (c : ℕ) → IsPool n (Pool.discard c p) opened
  unfolding Pool.discard
  discard-IsPool c = record {
    size = ground (arith, v.size);
    bounded = ground (arith, v.bounded, length-remove c p.in_use, length-remove c p.available);
    drained = ground (arith, v.drained, length-remove c p.available);
    conserved = λ d. ground (
      arith,
      v.conserved d,
      contains-count p.in_use c,
      contains-count p.available c,
      count-remove d c p.in_use,
      count-remove d c p.available,
    );
    unique = v.unique;
  }

  close_begin-IsPool : IsPool n (Pool.close_begin p) opened
  unfolding Pool.close_begin
  close_begin-IsPool = record {
    size = ground (arith, v.size);
    bounded = ground (arith, v.bounded);
    drained = ground (arith, v.drained);
    conserved = λ d. ground (arith, v.conserved d, count-append d p.available p.shut);
    unique = v.unique;
  }

  close_end-IsPool : IsPool n (Pool.close_end p) opened
  unfolding Pool.close_end
  close_end-IsPool = record {
    size = v.size;
    bounded = omega (arith, v.bounded);
    drained = v.drained;
    conserved = λ d. omega (arith, v.conserved d, count-append d p.in_use p.shut);
    unique = v.unique;
  }

  create_failed-IsPool : IsPool n (Pool.create_failed p) opened
  unfolding Pool.create_failed
  create_failed-IsPool = record {
    size = v.size;
    bounded = omega (arith, v.bounded);
    drained = v.drained;
    conserved = v.conserved;
    unique = v.unique;
  }

step-IsPool :
    {n : ℕ} {p : Pool} {opened : List ℕ} (e : Event)
    → IsPool n p opened
    → Enabled e p opened
    → IsPool n (apply e p) (opens e opened)
step-IsPool (borrow expired) v h = borrow-IsPool v expired
step-IsPool (wake notified expired) v h = wake-IsPool v notified expired
step-IsPool create_failed v h = create_failed-IsPool v
step-IsPool (create_done c) v h = create_done-IsPool v c h.0 h.1
step-IsPool (release c connected) v h = release-IsPool v c connected
step-IsPool (discard c) v h = discard-IsPool v c
step-IsPool close_begin v h = close_begin-IsPool v
step-IsPool close_end v h = close_end-IsPool v

create-IsPool : (n : ℕ) {p : Pool} → Pool.create n ≡ ok p → IsPool n p []
unfolding Pool.create
create-IsPool n e = record {
  size = ground arith;
  bounded = ground arith;
  drained = λ h. ground arith;
  conserved = λ d. ground arith;
  unique = λ d. omega arith;
}

-- In every interleaving of threads the pool keeps within its size, its free connections are gone
-- once it is closed, every connection that was opened is free, in use or shut, and no connection
-- is in two of these places or twice in one.
pub Trace-IsPool : {n : ℕ} {p : Pool} {opened : List ℕ} → Trace n p opened → IsPool n p opened
Trace-IsPool {n} (start e) = create-IsPool n e
Trace-IsPool (next t e h) = step-IsPool e (Trace-IsPool t) h

module _ (n : ℕ) (p : Pool) (size : p.pool_size ≡ n) (expired closed : Bool) where
  abbrev result : List ℕ → Attempt
  result l = (if closed then (p, pool_closed) else attempt expired p l).1

  blocked : Attempt
  blocked = if expired then pool_exhausted else waiting

  blocked_cases :
      (l : List ℕ)
      → length l + length p.in_use + p.pending_creates ≤ n
      → ((result l ≡ pool_closed) ↔ (closed ≡ true))
        × ((result l ≡ blocked)
            ↔ ((closed ≡ false) × (length l ≡ 0) × (length p.in_use + p.pending_creates ≡ n)))
  unfolding attempt take_available blocked
  blocked_cases [] h = (
    (λ e. ground arith, λ e. ground arith),
    (λ e. (ground arith, refl, ground arith), λ e. ground arith),
  )
  blocked_cases (x ∷ xs) h = (
    (λ e. ground arith, λ e. ground arith),
    (λ e. (ground arith, ground arith, ground arith), λ e. ground arith),
  )

-- From a state that any interleaving reaches: `borrow` raises that the pool is closed exactly if it
-- is, and waits or gives up exactly if the pool is open with no free connection and with as many
-- in use or being created as its size.
pub borrow_blocks :
    {n : ℕ} {p : Pool} {opened : List ℕ} (expired : Bool)
    → Trace n p opened
    → (((Pool.borrow expired p).1 ≡ pool_closed) ↔ (p.closed ≡ true))
      × (((Pool.borrow expired p).1 ≡ (if expired then pool_exhausted else waiting)) ↔ (
          (p.closed ≡ false)
          × (length p.available ≡ 0)
          × (length p.in_use + p.pending_creates ≡ n)))
unfolding Pool.borrow
borrow_blocks {n} {p} expired t =
    let v = Trace-IsPool t in
    unfold blocked in blocked_cases n p v.size expired p.closed p.available v.bounded
