-- ===== src/Prelude/Bits.antt =====
-- Laws of the bit operations at variables, from the digit recursion that they stand for.
use Prim.Native.Nat.{
  ℕ, zero, suc, ◌+◌, ◌-◌, ◌*◌, ◌/◌, ◌%◌, ◌≤◌, ◌<◌, ◌^◌, min, max, bit_and, bit_or,
}
use Prim.Native.Nat.{digits, bit_and-bitwise, bit_or-bitwise}
use mathlib.Core.Path.{◌≡◌, refl, sym, ap, ◌∙◌}
use native.Mathlib.Omega.{arith}
use native.Mathlib.Nat.{pow-suc}
use pacsys.Prelude.Tests.{◌==◌, if◌then◌else◌}

-- The recursion on digits at z and f; fuel beyond the first number changes nothing.
module _ (z : ℕ → ℕ) (f : ℕ → ℕ → ℕ) where
  digits-zero : (fuel y : ℕ) → digits z f fuel 0 y ≡ z y
  digits-zero zero y = refl
  digits-zero (suc fuel) y = refl

  surplus : (k m x y : ℕ) → x ≤ m → digits z f (m + k) x y ≡ digits z f m x y
  surplus k m zero y h = digits-zero (m + k) y ∙ sym (digits-zero m y)
  surplus k zero (suc x) y h = absurd (omega arith)
  surplus k (suc m) (suc x) y h =
      let e : suc m + k ≡ suc (m + k) = omega arith in
      ap (λ (t : ℕ). digits z f t (suc x) y) e
      ∙ ap (λ (t : ℕ). t * 2 + f (suc x % 2) (y % 2))
          (surplus k m (suc x / 2) (y / 2) (omega arith))

  enough : (n x y : ℕ) → x ≤ n → digits z f n x y ≡ digits z f x x y
  enough n x y h =
      let e : n ≡ x + (n - x) = omega arith in
      ap (λ (t : ℕ). digits z f t x y) e ∙ surplus (n - x) x x y (omega arith)

pub zero-bit_or : (y : ℕ) → bit_or 0 y ≡ y
zero-bit_or = bit_or-bitwise 0

no-bit_and : (y : ℕ) → bit_and 0 y ≡ 0
no-bit_and = bit_and-bitwise 0

-- The lowest digit and the rest.
pub bit_or_halves : (x y : ℕ) → bit_or x y ≡ max (x % 2) (y % 2) + 2 * bit_or (x / 2) (y / 2)
bit_or_halves zero y = omega (arith, zero-bit_or (y / 2), zero-bit_or y)
bit_or_halves (suc x) y = omega (
  arith,
  enough (λ t. t) max x (suc x / 2) (y / 2) (omega arith),
  bit_or-bitwise (suc x / 2) (y / 2),
  bit_or-bitwise (suc x) y,
)

pub bit_and_halves : (x y : ℕ) → bit_and x y ≡ min (x % 2) (y % 2) + 2 * bit_and (x / 2) (y / 2)
bit_and_halves zero y = omega (arith, no-bit_and (y / 2), no-bit_and y)
bit_and_halves (suc x) y = omega (
  arith,
  enough (λ t. 0) min x (suc x / 2) (y / 2) (omega arith),
  bit_and-bitwise (suc x / 2) (y / 2),
  bit_and-bitwise (suc x) y,
)

bit_and-bound : (n x y : ℕ) → x < n → bit_and x y ≤ y
bit_and-bound zero x y h = absurd (omega arith)
bit_and-bound (suc n) zero y h = omega (arith, no-bit_and y)
bit_and-bound (suc n) (suc x) y h =
    omega (arith, bit_and_halves (suc x) y, bit_and-bound n (suc x / 2) (y / 2) (omega arith))

pub bit_and-zero : (x : ℕ) → bit_and x 0 ≡ 0
bit_and-zero x = omega (arith, bit_and-bound (suc x) x 0 (omega arith))

bit_or-zero_below : (n x : ℕ) → x < n → bit_or x 0 ≡ x
bit_or-zero_below zero x h = absurd (omega arith)
bit_or-zero_below (suc n) zero h = zero-bit_or 0
bit_or-zero_below (suc n) (suc x) h =
    omega (arith, bit_or_halves (suc x) 0, bit_or-zero_below n (suc x / 2) (omega arith))

pub bit_or-zero : (x : ℕ) → bit_or x 0 ≡ x
bit_or-zero x = bit_or-zero_below (suc x) x (omega arith)

-- A number whose low k bits are clear, joined with a number of k bits, is their sum.
pub bit_or-shifted : (k a b : ℕ) → b < 2 ^ k → bit_or (a * 2 ^ k) b ≡ a * 2 ^ k + b
bit_or-shifted zero a zero h = rw bit_or-zero (omega arith)
bit_or-shifted zero a (suc b) h = absurd (omega arith)
bit_or-shifted (suc k) a b h =
    let e : 2 ^ suc k ≡ 2 ^ k * 2 = pow-suc 2 k in
    let d : a * 2 ^ suc k ≡ a * 2 ^ k * 2 = omega (arith, ap (λ (t : ℕ). a * t) e) in
    rw d (
      bit_or_halves (a * 2 ^ k * 2) b
      ∙ rw
          (
            (let q : a * 2 ^ k * 2 / 2 ≡ a * 2 ^ k = omega arith in q),
            bit_or-shifted k a (b / 2) (omega (arith, e)),
          )
          (omega arith))

-- Bit k of a number, from the lowest.
abbrev pub testbit : ℕ → ℕ → ℕ
testbit zero a = a % 2
testbit (suc k) a = testbit k (a / 2)

pub testbit_le : (k a : ℕ) → testbit k a ≤ 1
testbit_le zero a = omega arith
testbit_le (suc k) a = testbit_le k (a / 2)

pub testbit-zero : (k : ℕ) → testbit k 0 ≡ 0
testbit-zero zero = refl
testbit-zero (suc k) = testbit-zero k

half-bit_and : (a b : ℕ) → bit_and a b / 2 ≡ bit_and (a / 2) (b / 2)
half-bit_and a b = omega (arith, bit_and_halves a b)

half-bit_or : (a b : ℕ) → bit_or a b / 2 ≡ bit_or (a / 2) (b / 2)
half-bit_or a b = omega (arith, bit_or_halves a b)

pub bit_and-le : (k a b : ℕ) → a ≤ k → bit_and a b ≤ a
bit_and-le k zero b h = omega (arith, no-bit_and b)
bit_and-le zero (suc a) b h = absurd (omega arith)
bit_and-le (suc k) (suc a) b h =
    omega (arith, bit_and_halves (suc a) b, bit_and-le k (suc a / 2) (b / 2) (omega arith))

pub testbit-bit_and : (k a b : ℕ) → testbit k (bit_and a b) ≡ min (testbit k a) (testbit k b)
testbit-bit_and zero a b = omega (arith, bit_and_halves a b)
testbit-bit_and (suc k) a b = rw half-bit_and (testbit-bit_and k (a / 2) (b / 2))

pub testbit-bit_or : (k a b : ℕ) → testbit k (bit_or a b) ≡ max (testbit k a) (testbit k b)
testbit-bit_or zero a b = omega (arith, bit_or_halves a b)
testbit-bit_or (suc k) a b = rw half-bit_or (testbit-bit_or k (a / 2) (b / 2))

-- Python's `a & ~b` on numbers that are not negative.
abbrev pub and_not : ℕ → ℕ → ℕ
and_not a b = a - bit_and a b

half-and_not : (a b : ℕ) → and_not a b / 2 ≡ and_not (a / 2) (b / 2)
half-and_not a b =
    omega (arith, bit_and_halves a b, bit_and-le (a / 2) (a / 2) (b / 2) (omega arith))

pub testbit-and_not : (k a b : ℕ) → testbit k (and_not a b) ≡ testbit k a - testbit k b
testbit-and_not zero a b =
    omega (arith, bit_and_halves a b, bit_and-le (a / 2) (a / 2) (b / 2) (omega arith))
testbit-and_not (suc k) a b = rw half-and_not (testbit-and_not k (a / 2) (b / 2))

half-pow : (k : ℕ) → 2 ^ suc k / 2 ≡ 2 ^ k
half-pow k = omega (arith, pow-suc 2 k)

-- A power of two has one bit.
pub testbit-pow : (j k : ℕ) → testbit j (2 ^ k) ≡ (if j == k then 1 else 0)
testbit-pow zero zero = refl
testbit-pow zero (suc k) = ground (arith, pow-suc 2 k)
testbit-pow (suc j) zero = ground (arith, testbit-zero j)
testbit-pow (suc j) (suc k) = rw half-pow (ground (arith, testbit-pow j k))

-- A single-bit mask.
pub bit_and-pow : (k a : ℕ) → bit_and a (2 ^ k) ≡ testbit k a * 2 ^ k
bit_and-pow zero a = omega (arith, bit_and_halves a 1, bit_and-zero (a / 2))
bit_and-pow (suc k) a =
    let e : 2 ^ suc k ≡ 2 ^ k * 2 = pow-suc 2 k in
    bit_and_halves a (2 ^ suc k)
    ∙ rw (half-pow k, bit_and-pow k (a / 2))
        (omega (arith, e, ap (λ (t : ℕ). testbit k (a / 2) * t) e))

pow_pos : (k : ℕ) → 0 < 2 ^ k
pow_pos zero = omega arith
pow_pos (suc k) = omega (arith, pow_pos k, pow-suc 2 k)

-- `bool(a & (1 << k))` reads bit k.
pub bit_and-pow_zero : (k a : ℕ) → (bit_and a (2 ^ k) == 0) ≡ (testbit k a == 0)
bit_and-pow_zero k a = rw bit_and-pow (both (testbit k a) (2 ^ k) (testbit_le k a) (pow_pos k))
  where
    both : (t p : ℕ) → t ≤ 1 → 0 < p → (t * p == 0) ≡ (t == 0)
    both zero p h q = ground arith
    both (suc zero) p h q = ground arith
    both (suc (suc t)) p h q = absurd (omega arith)
