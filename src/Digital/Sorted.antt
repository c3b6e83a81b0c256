-- ===== src/Digital/Sorted.antt =====
-- The bits of a status from database definitions: their order, and what a position finds.
use pacsys.Prelude.{
  ℕ, ◌≤◌, ◌<◌, ◌≡◌, refl, sym, ap, ◌∙◌, ◌≢◌, ◌⊎◌, inl, inr, Bool, true, false, ◌||◌, List, [], ◌∷◌,
  ◌++◌, arith, leb, ◌==◌, if◌then◌else◌, Result, ok, err, Text, subst, All,
}
use pacsys.Digital.Status.{BitKey, StatusBit, at_position, get_item}
use pacsys.Digital.Database.{
  ExtStatusBitDef, StatusBitDef, defined_bits, extended_bit, from_devdb_bits, insert_bit,
  is_covered, sort_bits, uncovered_bits,
}

-- In the order of their positions.
abbrev IsLeast : ℕ → List StatusBit → Type 0
IsLeast n bits = All (λ b. n ≤ b.position) bits

unfoldable pub IsSorted : List StatusBit → Type 0
IsSorted [] = Unit
IsSorted (b ∷ bs) = IsLeast b.position bs × IsSorted bs

IsLeast-weaker : (m n : ℕ) (bits : List StatusBit) → m ≤ n → IsLeast n bits → IsLeast m bits
IsLeast-weaker m n [] h v = tt
IsLeast-weaker m n (b ∷ bs) h v = (omega (arith, h, v.0), IsLeast-weaker m n bs h (v.1))

le_or_lt : (m n : ℕ) → (m ≤ n) ⊎ (n < m)
le_or_lt m n = omega arith

if_leb : {B : Type 0} (m n : ℕ) (x y : B) → m ≤ n → (if leb m n then x else y) ≡ x
if_leb m n x y h = ground arith

if_not_leb : {B : Type 0} (m n : ℕ) (x y : B) → n < m → (if leb m n then x else y) ≡ y
if_not_leb m n x y h = ground arith

chosen :
    (P : List StatusBit → Type 0) (m n : ℕ) (x y : List StatusBit)
    → (m ≤ n → P x)
    → (n < m → P y)
    → P (if leb m n then x else y)
chosen P m n x y f g = elim (le_or_lt m n) [
  | inl le ↦ subst P (sym (if_leb m n x y le)) (f le)
  | inr lt ↦ subst P (sym (if_not_leb m n x y lt)) (g lt)
]

insert_bit-IsLeast :
    (n : ℕ) (b : StatusBit) (bits : List StatusBit)
    → n ≤ b.position
    → IsLeast n bits
    → IsLeast n (insert_bit b bits)
unfolding insert_bit
insert_bit-IsLeast n b [] h v = (h, tt)
insert_bit-IsLeast n b (c ∷ cs) h v =
    chosen (IsLeast n) b.position c.position (b ∷ c ∷ cs) (c ∷ insert_bit b cs) (λ _. (h, v))
      (λ _. (v.0, insert_bit-IsLeast n b cs h (v.1)))

insert_bit-IsSorted :
    (b : StatusBit) (bits : List StatusBit) → IsSorted bits → IsSorted (insert_bit b bits)
unfolding insert_bit IsSorted
insert_bit-IsSorted b [] v = (tt, tt)
insert_bit-IsSorted b (c ∷ cs) v =
    chosen IsSorted b.position c.position (b ∷ c ∷ cs) (c ∷ insert_bit b cs)
      (λ le. ((le, IsLeast-weaker b.position c.position cs le (v.0)), v))
      (λ lt. (
        insert_bit-IsLeast c.position b cs (omega (arith, lt)) (v.0),
        insert_bit-IsSorted b cs (v.1),
      ))

sort_bits-IsSorted : (bits : List StatusBit) → IsSorted (sort_bits bits)
unfolding sort_bits IsSorted
sort_bits-IsSorted [] = tt
sort_bits-IsSorted (b ∷ bs) = insert_bit-IsSorted b (sort_bits bs) (sort_bits-IsSorted bs)

swapped :
    (k p q : ℕ) (b c : StatusBit) (r s : Result StatusBit)
    → q < p
    → r ≡ (if p == k then ok b else s)
    → (if q == k then ok c else r) ≡ (if p == k then ok b else if q == k then ok c else s)
swapped k p q b c r s h e = ground arith

-- Inserting a bit before those of its position makes it the first of them.
at_position-insert_bit :
    (k : ℕ) (b : StatusBit) (bits : List StatusBit)
    → at_position k (insert_bit b bits) ≡ at_position k (b ∷ bits)
unfolding insert_bit at_position
at_position-insert_bit k b [] = refl
at_position-insert_bit k b (c ∷ cs) =
    chosen (λ l. at_position k l ≡ at_position k (b ∷ c ∷ cs)) b.position c.position (b ∷ c ∷ cs)
      (c ∷ insert_bit b cs) (λ _. refl)
      (λ lt.
        swapped k b.position c.position b c (at_position k (insert_bit b cs)) (at_position k cs) lt
          (at_position-insert_bit k b cs))

at_position-sort_bits :
    (k : ℕ) (bits : List StatusBit) → at_position k (sort_bits bits) ≡ at_position k bits
unfolding sort_bits at_position
at_position-sort_bits k [] = refl
at_position-sort_bits k (b ∷ bs) =
    at_position-insert_bit k b (sort_bits bs)
    ∙ ap (λ r. if b.position == k then ok b else r) (at_position-sort_bits k bs)

-- A bit of the first result, or of the second where that is an error.
abbrev pub or_else : Result StatusBit → Result StatusBit → Result StatusBit
or_else (ok b) r = ok b
or_else (err e) r = r

or_else_if :
    (c : Bool) (x : StatusBit) (r s : Result StatusBit)
    → (if c then ok x else or_else r s) ≡ or_else (if c then ok x else r) s
or_else_if true x r s = refl
or_else_if false x r s = refl

at_position-append :
    (k : ℕ) (xs ys : List StatusBit)
    → at_position k (xs ++ ys) ≡ or_else (at_position k xs) (at_position k ys)
unfolding at_position
at_position-append k [] ys = refl
at_position-append k (x ∷ xs) ys =
    ap (λ r. if x.position == k then ok x else r) (at_position-append k xs ys)
    ∙ or_else_if (x.position == k) x (at_position k xs) (at_position k ys)

-- The bits of the extended definitions, those at covered positions too.
unfoldable pub extended_bits : ℕ → List ExtStatusBitDef → List StatusBit
unfolding extended_bit
extended_bits raw [] = []
extended_bits raw (d ∷ ds) = extended_bit raw d ∷ extended_bits raw ds

abbrev is_ok : Result StatusBit → Bool
is_ok (ok b) = true
is_ok (err e) = false

is_covered-at_position :
    (k : ℕ) (bits : List StatusBit) → is_covered k bits ≡ is_ok (at_position k bits)
unfolding at_position
is_covered-at_position k [] = refl
is_covered-at_position k (b ∷ bs) =
    ap (λ t. b.position == k || t) (is_covered-at_position k bs) ∙ go (b.position == k)
  where
    go : (c : Bool) → (c || is_ok (at_position k bs)) ≡ is_ok (if c then ok b else at_position k bs)
    go true = refl
    go false = refl

same_or_not : (m n : ℕ) → (m ≡ n) ⊎ (m ≢ n)
same_or_not m n = ground arith

differ : true ≢ false
differ e = cc

if_other : {B : Type 0} (m n : ℕ) (x y : B) → m ≢ n → (if m == n then x else y) ≡ y
if_other m n x y h = ground arith

-- What an extended definition adds at a position that is not covered.
one_more :
    (k : ℕ) (main : List StatusBit) (b : StatusBit) (us es : List StatusBit) (c : Bool)
    → is_covered k main ≡ false
    → is_covered b.position main ≡ c
    → at_position k us ≡ at_position k es
    → at_position k (if c then us else b ∷ us)
      ≡ (if b.position == k then ok b else at_position k es)
unfolding at_position
one_more k main b us es true h e ih = elim (same_or_not b.position k) [
  | inl same ↦ absurd (differ (sym e ∙ ap (λ j. is_covered j main) same ∙ h))
  | inr other ↦ ih ∙ sym (if_other b.position k (ok b) (at_position k es) other)
]
one_more k main b us es false h e ih = ap (λ r. if b.position == k then ok b else r) ih

at_position-uncovered_bits :
    (k raw : ℕ) (main : List StatusBit) (ds : List ExtStatusBitDef)
    → is_covered k main ≡ false
    → at_position k (uncovered_bits raw main ds) ≡ at_position k (extended_bits raw ds)
unfolding uncovered_bits extended_bits at_position extended_bit
at_position-uncovered_bits k raw main [] h = refl
at_position-uncovered_bits k raw main (d ∷ ds) h =
    one_more k main (extended_bit raw d) (uncovered_bits raw main ds) (extended_bits raw ds)
      (is_covered d.bit_no main) h refl (at_position-uncovered_bits k raw main ds h)

or_else_covered :
    (k : ℕ) (main us es : List StatusBit) (r : Result StatusBit)
    → at_position k main ≡ r
    → (is_covered k main ≡ false → at_position k us ≡ at_position k es)
    → or_else r (at_position k us) ≡ or_else r (at_position k es)
or_else_covered k main us es (ok b) e f = refl
or_else_covered k main us es (err x) e f = f (is_covered-at_position k main ∙ ap is_ok e)

-- The bits of a status from database definitions are in the order of their positions. A position finds the first bit
-- that the status definitions have there, else the first that the extended ones have.
pub from_devdb_bits-IsSorted :
    (device : Text) (raw : ℕ) (defs : List StatusBitDef) (exts : List ExtStatusBitDef) (k : ℕ)
    → let s = from_devdb_bits device raw defs exts in
      IsSorted s.bits
      × (get_item s (BitKey.by_position k)
          ≡ or_else
              (at_position k (defined_bits raw 0 defs))
              (at_position k (extended_bits raw exts)))
unfolding from_devdb_bits get_item
from_devdb_bits-IsSorted device raw defs exts k =
    let main = defined_bits raw 0 defs in
    let more = uncovered_bits raw main exts in
    (
      sort_bits-IsSorted (main ++ more),
      at_position-sort_bits k (main ++ more)
          ∙ at_position-append k main more
          ∙ or_else_covered k main more (extended_bits raw exts) (at_position k main) refl
              (at_position-uncovered_bits k raw main exts),
    )
