-- ===== src/Pool/Count.antt =====
-- How often a connection stands in a list, under the list operations of the pool.
use pacsys.Prelude.{
  ℕ, suc, ◌+◌, ◌-◌, ◌≤◌, ◌≡◌, refl, ap, true, List, [], ◌∷◌, ◌++◌, arith, ltb, ◌==◌, if◌then◌else◌,
  length,
}
use pacsys.Pool.{contains, add, remove, pop}

abbrev pub count : ℕ → List ℕ → ℕ
count c [] = 0
count c (x ∷ xs) = (if x == c then 1 else 0) + count c xs

pub count-append : (c : ℕ) (xs ys : List ℕ) → count c (xs ++ ys) ≡ count c xs + count c ys
count-append c [] ys = omega arith
count-append c (x ∷ xs) ys = omega (arith, count-append c xs ys)

pub contains-count : (xs : List ℕ) (c : ℕ) → contains xs c ≡ ltb 0 (count c xs)
unfolding contains
contains-count [] c = refl
contains-count (x ∷ xs) c = ground (arith, contains-count xs c)

pub count-add :
    (d c : ℕ) (xs : List ℕ)
    → count d (add c xs) ≡ count d xs + (if c == d then 1 - count c xs else 0)
unfolding add
count-add d c xs = ground (arith, contains-count xs c)

pub count-remove :
    (d c : ℕ) (xs : List ℕ) → count d (remove c xs) ≡ count d xs - (if c == d then 1 else 0)
unfolding remove
count-remove d c [] = ground arith
count-remove d c (x ∷ xs) = ground (arith, count-remove d c xs)

pub length-remove :
    (c : ℕ) (xs : List ℕ) → contains xs c ≡ true → length (remove c xs) + 1 ≡ length xs
unfolding remove contains
length-remove c [] h = cc
length-remove c (x ∷ xs) h = ground (arith, length-remove c xs)

pub count-pop :
    (d x : ℕ) (xs : List ℕ)
    → count d (x ∷ xs) ≡ count d (pop x xs).1 + (if (pop x xs).0 == d then 1 else 0)
unfolding pop
count-pop d x [] = omega arith
count-pop d x (y ∷ ys) = omega (arith, count-pop d y ys)

pub length-pop : (x : ℕ) (xs : List ℕ) → length (pop x xs).1 ≡ length xs
unfolding pop
length-pop x [] = refl
length-pop x (y ∷ ys) = ap suc (length-pop y ys)

pub length-add : (c : ℕ) (xs : List ℕ) → length (add c xs) ≤ length xs + 1
unfolding add
length-add c xs = ground arith
