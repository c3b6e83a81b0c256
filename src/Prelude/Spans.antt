-- ===== src/Prelude/Spans.antt =====
-- The part of a text that a class of characters takes, as a greedy repetition of a regular expression.
use Prim.Native.Nat.{ℕ, zero, suc, ◌+◌, ◌/◌, ◌%◌}
use mathlib.Core.Path.{◌≡◌, refl}
use mathlib.Core.Bool.{Bool, true, not, ◌&&◌}
use mathlib.Core.List.{[], ◌∷◌, ◌++◌}
use native.Mathlib.Omega.{arith}
use pacsys.Prelude.Tests.{if◌then◌else◌}
use pacsys.Prelude.Texts.{Text, is_digit}
use pacsys.Prelude.Decimal.{decimal, digits_loop}

unfoldable pub take_while : (ℕ → Bool) → Text → Text
take_while p [] = []
take_while p (c ∷ cs) = if p c then c ∷ take_while p cs else []

unfoldable pub drop_while : (ℕ → Bool) → Text → Text
drop_while p [] = []
drop_while p (c ∷ cs) = if p c then drop_while p cs else c ∷ cs

unfoldable pub every : (ℕ → Bool) → Text → Bool
every p [] = true
every p (c ∷ cs) = p c && every p cs

-- The text is empty or starts outside the class.
unfoldable pub stops : (ℕ → Bool) → Text → Bool
stops p [] = true
stops p (c ∷ cs) = not (p c)

pub take_while-append :
    (p : ℕ → Bool) (s t : Text) → every p s ≡ true → stops p t ≡ true → take_while p (s ++ t) ≡ s
unfolding take_while every stops
take_while-append p [] [] h k = refl
take_while-append p [] (c ∷ cs) h k = ground arith
take_while-append p (c ∷ cs) t h k = ground (arith, take_while-append p cs t)

pub drop_while-append :
    (p : ℕ → Bool) (s t : Text) → every p s ≡ true → stops p t ≡ true → drop_while p (s ++ t) ≡ t
unfolding drop_while every stops
drop_while-append p [] [] h k = refl
drop_while-append p [] (c ∷ cs) h k = ground arith
drop_while-append p (c ∷ cs) t h k = ground (arith, drop_while-append p cs t)

pub take_while-drop_while : (p : ℕ → Bool) (s : Text) → take_while p s ++ drop_while p s ≡ s
unfolding take_while drop_while
take_while-drop_while p [] = refl
take_while-drop_while p (c ∷ cs) = ground (arith, take_while-drop_while p cs)

pub every-append : (p : ℕ → Bool) (s t : Text) → every p (s ++ t) ≡ (every p s && every p t)
unfolding every
every-append p [] t = refl
every-append p (c ∷ cs) t = ground (arith, every-append p cs t)

digits_loop-every : (f n : ℕ) → every is_digit (digits_loop f n) ≡ true
unfolding digits_loop every
digits_loop-every zero n = refl
digits_loop-every (suc f) n = ground (
  arith,
  every-append is_digit (digits_loop f (n / 10)) ((b'0' + n % 10) ∷ []),
  digits_loop-every f (n / 10),
)

pub decimal-every : (n : ℕ) → every is_digit (decimal n) ≡ true
unfolding decimal
decimal-every n = digits_loop-every (suc n) n
