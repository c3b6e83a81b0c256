-- ===== src/Digital/Raw.antt =====
-- The word that is rebuilt from the bits of a status.
use pacsys.Prelude.{
  ℕ, zero, suc, ◌^◌, bit_or, ◌≡◌, refl, ap, ◌∙◌, Bool, true, false, ◌&&◌, List, [], ◌∷◌, arith,
  ◌==◌, if◌then◌else◌, Result, ok, err, length, Text, index_error, get_or, max,
}
use pacsys.Prelude.Bits.{testbit, testbit_le, testbit-bit_or, testbit-pow, testbit-zero}
use pacsys.Digital.Status.{StatusBit, at_position, get_item, raw_loop, reconstruct_raw}
use pacsys.Digital.Arrays.{bit_loop, bit_of, from_bit_arrays, is_empty, with_bit}
use pacsys.Digital.Lookup.{bit_loop_before, described, get_item-from_bit_arrays}

abbrev one_if : Bool → ℕ
one_if true = 1
one_if false = 0

-- One if some bit at a position is set, else zero.
unfoldable set_at : ℕ → List StatusBit → ℕ
set_at k [] = 0
set_at k (b ∷ bs) = max (one_if (b.is_set && b.position == k)) (set_at k bs)

abbrev flag_of_result : Result StatusBit → ℕ
flag_of_result (ok b) = one_if b.is_set
flag_of_result (err e) = 0

raw_step :
    (k raw p : ℕ) (s : Bool)
    → testbit k (if s then bit_or raw (2 ^ p) else raw) ≡ max (testbit k raw) (one_if (s && p == k))
raw_step k raw p true = testbit-bit_or k raw (2 ^ p) ∙ rw (testbit-pow k p) (ground arith)
raw_step k raw p false = omega arith

-- A bit of the rebuilt word is set if it was, or if a bit of the status at its position is.
testbit-raw_loop :
    (k raw : ℕ) (bits : List StatusBit)
    → testbit k (raw_loop bits raw) ≡ max (testbit k raw) (set_at k bits)
unfolding raw_loop set_at
testbit-raw_loop k raw [] = omega arith
testbit-raw_loop k raw (b ∷ bs) = omega (
  arith,
  testbit-raw_loop k (if b.is_set then bit_or raw (2 ^ b.position) else raw) bs,
  raw_step k raw b.position b.is_set,
)

position_eq : (i k : ℕ) → (i == k) ≡ true → k ≡ i
position_eq i k e = ground arith

flag_first :
    (b : StatusBit) (c : Bool) (n : ℕ) (r : Result StatusBit)
    → n ≡ flag_of_result r
    → (c ≡ true → r ≡ err index_error)
    → max (one_if (b.is_set && c)) n ≡ flag_of_result (if c then ok b else r)
flag_first b true n r h f =
    ap (max (one_if (b.is_set && true))) (h ∙ ap flag_of_result (f refl)) ∙ alone b.is_set
  where
    alone : (s : Bool) → max (one_if (s && true)) 0 ≡ one_if s
    alone true = refl
    alone false = refl
flag_first b false n r h f = unset b.is_set ∙ h
  where
    unset : (s : Bool) → max (one_if (s && false)) n ≡ n
    unset true = omega arith
    unset false = omega arith

module _ (raw : ℕ) (names values : List Text) (k : ℕ) where
  set_here :
      (e : Bool) (i : ℕ) (name value : Text) (rest : List StatusBit)
      → set_at k rest ≡ flag_of_result (at_position k rest)
      → (k ≡ i → at_position k rest ≡ err index_error)
      → set_at k (
          if e
          then rest
          else record { position = i; name = name; value = value; is_set = bit_of raw i } ∷ rest)
        ≡ flag_of_result (
            at_position k (
              if e
              then rest
              else record { position = i; name = name; value = value; is_set = bit_of raw i }
                ∷ rest))
  unfolding set_at at_position
  set_here true i name value rest h f = h
  set_here false i name value rest h f =
      flag_first (record { position = i; name = name; value = value; is_set = bit_of raw i })
        (i == k) (set_at k rest) (at_position k rest) h (λ e. f (position_eq i k e))

  set_at-bit_loop :
      (n i : ℕ)
      → set_at k (bit_loop raw names values n i)
        ≡ flag_of_result (at_position k (bit_loop raw names values n i))
  unfolding bit_loop with_bit set_at at_position
  set_at-bit_loop zero i = refl
  set_at-bit_loop (suc n) i =
      set_here (is_empty (get_or names i []) && is_empty (get_or values i [])) i (get_or names i [])
        (get_or values i []) (bit_loop raw names values n (suc i)) (set_at-bit_loop n (suc i))
        (λ same. bit_loop_before raw names values n (suc i) k (omega (arith, same)))

flag_of-described :
    (raw : ℕ) (names values : List Text) (k : ℕ)
    → flag_of_result (described raw names values k)
      ≡ (if is_empty (get_or names k []) && is_empty (get_or values k []) then 0 else testbit k raw)
flag_of-described raw names values k =
    go (is_empty (get_or names k []) && is_empty (get_or values k []))
  where
    go :
        (e : Bool)
        → flag_of_result (
            if e
            then err index_error
            else ok (record {
              position = k;
              name = get_or names k [];
              value = get_or values k [];
              is_set = testbit k raw == 1;
            }))
          ≡ (if e then 0 else testbit k raw)
    go true = refl
    go false = ground (arith, testbit_le k raw)

-- The word that is rebuilt from the bits of a status from arrays has the bits of the word at the positions with a
-- name or a text, a text without a name too, and no others.
pub reconstruct_raw-from_bit_arrays :
    (device : Text) (raw : ℕ) (names values : List Text) (k : ℕ)
    → testbit k (reconstruct_raw (from_bit_arrays device raw names values).bits)
      ≡ (if is_empty (get_or names k []) && is_empty (get_or values k []) then 0 else testbit k raw)
unfolding reconstruct_raw from_bit_arrays get_item
reconstruct_raw-from_bit_arrays device raw names values k =
    let bits = (from_bit_arrays device raw names values).bits in
    testbit-raw_loop k 0 bits
    ∙ (omega (arith, testbit-zero k))
    ∙ set_at-bit_loop raw names values k (max (length names) (length values)) 0
    ∙ ap flag_of_result (get_item-from_bit_arrays device raw names values k)
    ∙ flag_of-described raw names values k
