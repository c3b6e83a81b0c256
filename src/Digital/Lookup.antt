-- ===== src/Digital/Lookup.antt =====
-- The bits of a status from arrays, looked up by position.
use pacsys.Prelude.{
  ℕ, zero, suc, ◌+◌, ◌*◌, ◌/◌, ◌^◌, ◌≤◌, ◌<◌, bit_and, ◌≡◌, refl, sym, ◌∙◌, ◌≢◌, ◌⊎◌, inl, inr,
  Bool, true, false, not, ◌&&◌, List, [], ◌∷◌, arith, ◌==◌, if◌then◌else◌, Result, ok, err, length,
  Text, index_error, get_or, max, subst,
}
use pacsys.Prelude.Bits.{bit_and-zero, testbit, bit_and_halves, testbit_le}
use pacsys.Digital.Status.{StatusBit, BitKey, at_position, get_item}
use pacsys.Digital.Arrays.{bit_loop, bit_of, from_bit_arrays, is_empty, with_bit}

pow_half : (i : ℕ) → 2 ^ suc i ≡ 2 * 2 ^ i
pow_half i = omega arith

bit_and-pow : (i raw : ℕ) → bit_and raw (2 ^ i) ≡ testbit i raw * 2 ^ i
bit_and-pow zero raw = omega (arith, bit_and_halves raw 1, bit_and-zero (raw / 2))
bit_and-pow (suc i) raw =
    let e : 2 ^ suc i ≡ 2 * 2 ^ i = pow_half i in
    let half : 2 ^ suc i / 2 ≡ 2 ^ i = omega (arith, e) in
    bit_and_halves raw (2 ^ suc i) ∙ rw half (rw (bit_and-pow i (raw / 2)) (rw e (ground arith)))

pow_pos : (i : ℕ) → 1 ≤ 2 ^ i
pow_pos zero = omega arith
pow_pos (suc i) = omega (arith, pow_half i, pow_pos i)

one_bit : (t p : ℕ) → t ≤ 1 → 1 ≤ p → not (t * p == 0) ≡ (t == 1)
one_bit zero p h k = ground arith
one_bit (suc zero) p h k = ground arith
one_bit (suc (suc t)) p h k = absurd (omega (arith, h))

-- The test of a bit with a mask finds that bit.
bit_of-testbit : (raw i : ℕ) → bit_of raw i ≡ (testbit i raw == 1)
unfolding bit_of
bit_of-testbit raw i =
    rw (bit_and-pow i raw) (one_bit (testbit i raw) (2 ^ i) (testbit_le i raw) (pow_pos i))

-- The bit at a position, as the arrays and the word describe it.
abbrev pub described : ℕ → List Text → List Text → ℕ → Result StatusBit
described raw names values k =
    if is_empty (get_or names k []) && is_empty (get_or values k [])
    then err index_error
    else ok (record {
      position = k;
      name = get_or names k [];
      value = get_or values k [];
      is_set = testbit k raw == 1;
    })

first_or_later : (i k : ℕ) → i ≤ k → (i ≡ k) ⊎ (suc i ≤ k)
first_or_later i k h = omega (arith, h)

within_or_not : (k n : ℕ) → (k < n) ⊎ (n ≤ k)
within_or_not k n = omega arith

module _ (raw : ℕ) (names values : List Text) where
  at_here :
      (e : Bool) (i : ℕ) (name value : Text) (rest : List StatusBit)
      → at_position i rest ≡ err index_error
      → at_position i (
          if e
          then rest
          else record { position = i; name = name; value = value; is_set = bit_of raw i } ∷ rest)
        ≡ (if e
            then err index_error
            else ok
                (record { position = i; name = name; value = value; is_set = testbit i raw == 1 }))
  unfolding at_position
  at_here true i name value rest h = h
  at_here false i name value rest h = rw (bit_of-testbit raw i) (ground arith)

  at_other :
      (e : Bool) (k i : ℕ) (name value : Text) (rest : List StatusBit)
      → k ≢ i
      → at_position k (
          if e
          then rest
          else record { position = i; name = name; value = value; is_set = bit_of raw i } ∷ rest)
        ≡ at_position k rest
  unfolding at_position
  at_other true k i name value rest h = refl
  at_other false k i name value rest h = ground arith

  pub bit_loop_before :
      (n i k : ℕ) → k < i → at_position k (bit_loop raw names values n i) ≡ err index_error
  unfolding bit_loop at_position with_bit
  bit_loop_before zero i k h = refl
  bit_loop_before (suc n) i k h =
      at_other (is_empty (get_or names i []) && is_empty (get_or values i [])) k i
        (get_or names i []) (get_or values i []) (bit_loop raw names values n (suc i))
        (omega (arith, h))
      ∙ bit_loop_before n (suc i) k (omega (arith, h))

  bit_loop_at :
      (n i k : ℕ)
      → i ≤ k
      → k < i + n
      → at_position k (bit_loop raw names values n i) ≡ described raw names values k
  unfolding bit_loop with_bit
  bit_loop_at zero i k h1 h2 = absurd (omega (arith, h1, h2))
  bit_loop_at (suc n) i k h1 h2 = elim (first_or_later i k h1) [
    | inl same ↦
        subst
          (λ j. at_position j (bit_loop raw names values (suc n) i) ≡ described raw names values j)
          same
          (at_here (is_empty (get_or names i []) && is_empty (get_or values i [])) i
            (get_or names i []) (get_or values i []) (bit_loop raw names values n (suc i))
            (bit_loop_before n (suc i) i (omega arith)))
    | inr later ↦
        at_other (is_empty (get_or names i []) && is_empty (get_or values i [])) k i
          (get_or names i []) (get_or values i []) (bit_loop raw names values n (suc i))
          (omega (arith, later))
        ∙ bit_loop_at n (suc i) k later (omega (arith, h2))
  ]

  bit_loop_after :
      (n i k : ℕ) → i + n ≤ k → at_position k (bit_loop raw names values n i) ≡ err index_error
  unfolding bit_loop with_bit at_position
  bit_loop_after zero i k h = refl
  bit_loop_after (suc n) i k h =
      at_other (is_empty (get_or names i []) && is_empty (get_or values i [])) k i
        (get_or names i []) (get_or values i []) (bit_loop raw names values n (suc i))
        (omega (arith, h))
      ∙ bit_loop_after n (suc i) k (omega (arith, h))

get_or-beyond : (l : List Text) (k : ℕ) → length l ≤ k → get_or l k [] ≡ []
get_or-beyond [] k h = refl
get_or-beyond (x ∷ l) zero h = absurd (omega (arith, h))
get_or-beyond (x ∷ l) (suc k) h = get_or-beyond l k (omega (arith, h))

described_beyond :
    (raw : ℕ) (names values : List Text) (k : ℕ)
    → length names ≤ k
    → length values ≤ k
    → described raw names values k ≡ err index_error
described_beyond raw names values k h1 h2 =
    rw (get_or-beyond names k h1, get_or-beyond values k h2) refl

-- In a status from arrays, looking up a position gives the bit with its name, its text and whether it is set in
-- the word, where there is a name or a text for it, the text without a name too, and raises an `IndexError`
-- everywhere else.
pub get_item-from_bit_arrays :
    (device : Text) (raw : ℕ) (names values : List Text) (k : ℕ)
    → get_item (from_bit_arrays device raw names values) (BitKey.by_position k)
      ≡ described raw names values k
unfolding get_item from_bit_arrays
get_item-from_bit_arrays device raw names values k =
    elim (within_or_not k (max (length names) (length values))) [
      | inl inside ↦
          bit_loop_at raw names values (max (length names) (length values)) 0 k (omega arith)
            (omega (arith, inside))
      | inr outside ↦
          bit_loop_after raw names values (max (length names) (length values)) 0 k
            (omega (arith, outside))
          ∙ sym (
              described_beyond raw names values k (omega (arith, outside)) (omega (arith, outside)))
    ]
