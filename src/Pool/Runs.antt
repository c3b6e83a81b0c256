-- ===== src/Pool/Runs.antt =====
-- A concrete run of the pool, and the theorems at it.
use pacsys.Prelude.{◌+◌, ◌≡◌, refl, ◌↔◌, true, false, [], ◌∷◌, arith, length}
use pacsys.Pool
use pacsys.Pool.{Pool, waiting, pool_closed, pool_exhausted}
use pacsys.Pool.Trace.{Trace, start, next, apply, borrow, create_done}
use pacsys.Pool.Conservation.{IsPool, Trace-IsPool, borrow_blocks}

abbrev fresh : Pool
fresh = record {
  pool_size = 1;
  available = [];
  in_use = [];
  pending_creates = 0;
  closed = false;
  shut = [];
}

-- One connection, number 7, borrowed from a pool of size one.
abbrev busy : Pool
busy = apply (create_done 7) (apply (borrow false) fresh)

run : Trace 1 busy (7 ∷ [])
unfolding Pool.create Pool.borrow
run = next (next (start refl) (borrow false) tt) (create_done 7) (omega arith, refl)

second_borrow : (Pool.borrow false busy).1 ≡ waiting
unfolding Pool.borrow Pool.create_done
second_borrow = refl

Trace-IsPool_example : IsPool 1 busy (7 ∷ [])
Trace-IsPool_example = Trace-IsPool run

borrow_blocks_example :
    (((Pool.borrow true busy).1 ≡ pool_closed) ↔ (busy.closed ≡ true))
    × (((Pool.borrow true busy).1 ≡ pool_exhausted) ↔ (
        (busy.closed ≡ false)
        × (length busy.available ≡ 0)
        × (length busy.in_use + busy.pending_creates ≡ 1)))
borrow_blocks_example = borrow_blocks true run
