-- ===== src/Ftp/Parse/Reads.antt =====
-- Reads from a reply that are no errors.
use pacsys.Prelude.{
  ℕ, ◌+◌, ◌*◌, ◌≤◌, ◌<◌, ◌≡◌, refl, sym, ◌∙◌, ◌⊎◌, inl, inr, Bool, true, false, List, [], ◌∷◌,
  arith, ltb, if◌then◌else◌, Result, ok, err, ◌>>=◌, length, subst, drop, length-drop,
}
use pacsys.Ftp.Wire.{i16_at, i32_at, u16_at, u16_of, u32_at, u32_of}
use pacsys.Ftp.Parse.{class_code_at, point_at, time_at, time_size, value_at}

-- A result that is no error.
abbrev pub IsOk {ℓ} : {B : Type ℓ} → Result B → Type ℓ
IsOk {B} r = (x : B) × (r ≡ ok x)

u16_of-IsOk : (l : List ℕ) → 2 ≤ length l → IsOk (u16_of l)
unfolding u16_of
u16_of-IsOk [] h = absurd (omega (arith, h))
u16_of-IsOk (a ∷ []) h = absurd (omega (arith, h))
u16_of-IsOk (a ∷ b ∷ l) h = (a + 256 * b, refl)

u32_of-IsOk : (l : List ℕ) → 4 ≤ length l → IsOk (u32_of l)
unfolding u32_of
u32_of-IsOk [] h = absurd (omega (arith, h))
u32_of-IsOk (a ∷ []) h = absurd (omega (arith, h))
u32_of-IsOk (a ∷ b ∷ []) h = absurd (omega (arith, h))
u32_of-IsOk (a ∷ b ∷ c ∷ []) h = absurd (omega (arith, h))
u32_of-IsOk (a ∷ b ∷ c ∷ d ∷ l) h = (a + 256 * (b + 256 * (c + 256 * d)), refl)

pub u16_at-IsOk : (b : List ℕ) (i : ℕ) → i + 2 ≤ length b → IsOk (u16_at b i)
unfolding u16_at
u16_at-IsOk b i h = u16_of-IsOk (drop i b) (omega (arith, h, length-drop i b))

u32_at-IsOk : (b : List ℕ) (i : ℕ) → i + 4 ≤ length b → IsOk (u32_at b i)
unfolding u32_at
u32_at-IsOk b i h = u32_of-IsOk (drop i b) (omega (arith, h, length-drop i b))

-- A chain of results is no error if its first part is none, and the rest is none for any value.
pub bind-IsOk :
    {B C : Type 0} (r : Result B) (f : B → Result C)
    → IsOk r
    → ((x : B) → IsOk (f x))
    → IsOk (r >>= f)
bind-IsOk (ok x) f h k = k x
bind-IsOk (err e) f h k = cc

pub i16_at-IsOk : (b : List ℕ) (i : ℕ) → i + 2 ≤ length b → IsOk (i16_at b i)
unfolding i16_at
i16_at-IsOk b i h = bind-IsOk (u16_at b i) _ (u16_at-IsOk b i h) (λ w. (_, refl))

i32_at-IsOk : (b : List ℕ) (i : ℕ) → i + 4 ≤ length b → IsOk (i32_at b i)
unfolding i32_at
i32_at-IsOk b i h = bind-IsOk (u32_at b i) _ (u32_at-IsOk b i h) (λ w. (_, refl))

pub class_code_at-IsOk : (b : List ℕ) (i : ℕ) → i + 6 ≤ length b → IsOk (class_code_at b i)
unfolding class_code_at
class_code_at-IsOk b i h = bind-IsOk (i16_at b i) _ (i16_at-IsOk b i (omega (arith, h))) (λ e.
    bind-IsOk (u16_at b (i + 2)) _ (u16_at-IsOk b (i + 2) (omega (arith, h))) (λ f.
      bind-IsOk (u16_at b (i + 4)) _ (u16_at-IsOk b (i + 4) (omega (arith, h))) (λ s. (_, refl))))

pub le_or_lt : (m n : ℕ) → (m ≤ n) ⊎ (n < m)
le_or_lt m n = omega arith

pub if_lt : {B : Type 0} (x y : B) (m n : ℕ) → m < n → (if ltb m n then x else y) ≡ x
if_lt x y m n h = ground arith

pub if_not_lt : {B : Type 0} (x y : B) (m n : ℕ) → n ≤ m → (if ltb m n then x else y) ≡ y
if_not_lt x y m n h = ground arith

value_at-IsOk :
    (size : ℕ) (b : List ℕ) (i : ℕ)
    → (size ≡ 2) ⊎ (size ≡ 4)
    → i + size ≤ length b
    → IsOk (value_at size b i)
unfolding value_at
value_at-IsOk size b i (inl two) h =
    subst (λ k. IsOk (value_at k b i)) (sym two) (i16_at-IsOk b i (omega (arith, h, two)))
value_at-IsOk size b i (inr four) h =
    subst (λ k. IsOk (value_at k b i)) (sym four) (i32_at-IsOk b i (omega (arith, h, four)))

time_at-IsOk :
    (timed : Bool) (b : List ℕ) (i : ℕ) → i + time_size timed ≤ length b → IsOk (time_at timed b i)
unfolding time_at
time_at-IsOk true b i h = u16_at-IsOk b i h
time_at-IsOk false b i h = (0, refl)

pub point_at-IsOk :
    (timed : Bool) (size : ℕ) (b : List ℕ) (i : ℕ)
    → (size ≡ 2) ⊎ (size ≡ 4)
    → i + (time_size timed + size) ≤ length b
    → IsOk (point_at timed size b i)
unfolding point_at
point_at-IsOk timed size b i e h =
    bind-IsOk (time_at timed b i) _ (time_at-IsOk timed b i (omega (arith, h))) (λ t.
      bind-IsOk (value_at size b (i + time_size timed)) _
        (value_at-IsOk size b (i + time_size timed) e (omega (arith, h))) (λ v. (_, refl)))

pub guarded_IsOk :
    {B : Type 0} (size m : ℕ) (x : B) (r : Result B)
    → (m ≤ size → IsOk r)
    → IsOk (if ltb size m then ok x else r)
guarded_IsOk size m x r f = elim (le_or_lt m size) [
  | inr short ↦ (x, if_lt _ _ size m short)
  | inl fits ↦ let (y, e) = f fits in (y, if_not_lt _ _ size m fits ∙ e)
]
