-- ===== src/Prelude/Decimal.antt =====
-- Decimal numerals: `str(n)` and `int(s)` on ASCII digits.
use Prim.Native.Nat.{ℕ, zero, suc, ◌+◌, ◌-◌, ◌*◌, ◌/◌, ◌%◌, ◌<◌}
use mathlib.Core.Path.{◌≡◌, refl}
use mathlib.Core.List.{[], ◌∷◌, ◌++◌}
use native.Mathlib.Omega.{arith}
use pacsys.Prelude.Tests.{ltb, if◌then◌else◌}
use pacsys.Prelude.Texts.{Text}

-- One digit a round; fuel above the number is enough.
unfoldable pub digits_loop : ℕ → ℕ → Text
digits_loop zero n = []
digits_loop (suc f) n =
    let rest = digits_loop f (n / 10) in
    if ltb n 10 then (48 + n) ∷ [] else rest ++ ((b'0' + n % 10) ∷ [])

-- `str(n)`.
unfoldable pub decimal : ℕ → Text
unfolding digits_loop
decimal n = digits_loop (suc n) n

unfoldable pub number_loop : ℕ → Text → ℕ
number_loop acc [] = acc
number_loop acc (c ∷ cs) = number_loop (acc * 10 + (c - b'0')) cs

-- `int(s)` on a text of digits.
unfoldable pub number_of : Text → ℕ
unfolding number_loop
number_of s = number_loop 0 s

number_loop-append :
    (acc : ℕ) (s t : Text) → number_loop acc (s ++ t) ≡ number_loop (number_loop acc s) t
unfolding number_loop
number_loop-append acc [] t = refl
number_loop-append acc (c ∷ cs) t = number_loop-append (acc * 10 + (c - b'0')) cs t

number_of-digits_loop : (f n : ℕ) → n < f → number_of (digits_loop f n) ≡ n
unfolding number_of digits_loop
number_of-digits_loop zero n h = absurd (omega arith)
number_of-digits_loop (suc f) n h = ground (
  arith,
  number_loop-append 0 (digits_loop f (n / 10)) ((b'0' + n % 10) ∷ []),
  number_of-digits_loop f (n / 10),
)

pub number_of-decimal : (n : ℕ) → number_of (decimal n) ≡ n
unfolding decimal
number_of-decimal n = number_of-digits_loop (suc n) n (omega arith)
