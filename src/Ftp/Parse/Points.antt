-- ===== src/Ftp/Parse/Points.antt =====
-- Points as a front-end encodes them, and what the reply parsers of pacsys/acnet/ftp.py read of them.
use pacsys.Prelude.{
  ℕ, zero, suc, ◌+◌, ◌-◌, ◌*◌, ◌<◌, ◌≡◌, refl, sym, ap, ◌∙◌, ◌⊎◌, inl, inr, Bool, true, false, List,
  [], ◌∷◌, ◌++◌, map, arith, ◌==◌, if◌then◌else◌, ok, ◌>>=◌, length, subst, drop,
}
use pacsys.Prelude.Int.{ℤ, pos, negsuc}
use pacsys.Ftp.Wire.{
  half_16, half_32, i16_at, i32_at, signed, u16_at, u16_bytes, u16_of, u32_at, u32_bytes, u32_of,
}
use pacsys.Ftp.Parse.{Point, time_size, value_at, value_size}

-- The two's complement of a number.
abbrev pub word : ℕ → ℤ → ℕ
word half (pos n) = n
word half (negsuc n) = 2 * half - 1 - n

abbrev pub Fits : ℕ → ℤ → Type 0
Fits half (pos n) = n < half
Fits half (negsuc n) = n < half

abbrev pub half_of : ℕ → ℕ
half_of size = if size == 4 then half_32 else half_16

unfoldable pub encode_time : Bool → ℕ → List ℕ
encode_time true t = u16_bytes t
encode_time false t = []

unfoldable pub encode_value : ℕ → ℤ → List ℕ
encode_value size v = if size == 4 then u32_bytes (word half_32 v) else u16_bytes (word half_16 v)

-- A sample: a time in ticks of 100 microseconds, and a value.
abbrev pub Sample : Type 0
Sample = ℕ × ℤ

-- Samples one after the other, and what follows them.
unfoldable pub encode_samples : Bool → ℕ → List Sample → List ℕ → List ℕ
unfolding encode_time encode_value
encode_samples timed size [] rest = rest
encode_samples timed size ((t, v) ∷ ps) rest =
    encode_time timed t ++ (encode_value size v ++ encode_samples timed size ps rest)

abbrev pub stamp : Bool → ℕ → ℕ
stamp true t = t * 100
stamp false t = 0

abbrev pub points_of : Bool → List Sample → List Point
points_of timed ps = map (λ (t, v). (stamp timed t, v)) ps

abbrev pub skipping_first : {B : Type 0} → Bool → List B → List B
skipping_first true ps = drop 1 ps
skipping_first false ps = ps

abbrev pub IsSample : ℕ → Sample → Type 0
IsSample size p = Fits (half_of size) p.1

signed-word : (half : ℕ) (v : ℤ) → Fits half v → signed half (word half v) ≡ v
signed-word half (pos n) h = ground arith
signed-word half (negsuc n) h = ground arith

u16_of-bytes : (w : ℕ) (rest : List ℕ) → u16_of (u16_bytes w ++ rest) ≡ ok w
unfolding u16_of
u16_of-bytes w rest = ap ok (omega arith)

u32_of-bytes : (w : ℕ) (rest : List ℕ) → u32_of (u32_bytes w ++ rest) ≡ ok w
unfolding u32_of
u32_of-bytes w rest = ap ok (omega arith)

suc_add : (m n : ℕ) → suc m + n ≡ suc (m + n)
suc_add m n = omega arith

drop-nil : {B : Type 0} (n : ℕ) → drop {A = B} n [] ≡ []
drop-nil zero = refl
drop-nil (suc n) = refl

pub drop-drop : {B : Type 0} (m n : ℕ) (l : List B) → drop (m + n) l ≡ drop n (drop m l)
drop-drop zero n l = ap (λ k. drop k l) (omega arith)
drop-drop {B} (suc m) n [] = ap (λ k. drop {A = B} k []) (suc_add m n) ∙ sym (drop-nil n)
drop-drop (suc m) n (x ∷ l) = ap (λ k. drop k (x ∷ l)) (suc_add m n) ∙ drop-drop m n l

pub u16_at-bytes : (b rest : List ℕ) (i w : ℕ) → drop i b ≡ u16_bytes w ++ rest → u16_at b i ≡ ok w
unfolding u16_at
u16_at-bytes b rest i w e = ap u16_of e ∙ u16_of-bytes w rest

pub i16_at-bytes :
    (b rest : List ℕ) (i : ℕ) (v : ℤ)
    → Fits half_16 v
    → drop i b ≡ u16_bytes (word half_16 v) ++ rest
    → i16_at b i ≡ ok v
unfolding i16_at
i16_at-bytes b rest i v h e =
    ap (λ r. r >>= λ w. ok (signed half_16 w)) (u16_at-bytes b rest i (word half_16 v) e)
    ∙ ap ok (signed-word half_16 v h)

i32_at-bytes :
    (b rest : List ℕ) (i : ℕ) (v : ℤ)
    → Fits half_32 v
    → drop i b ≡ u32_bytes (word half_32 v) ++ rest
    → i32_at b i ≡ ok v
unfolding i32_at u32_at
i32_at-bytes b rest i v h e =
    ap (λ l. u32_of l >>= λ w. ok (signed half_32 w)) e
    ∙ ap (λ r. r >>= λ w. ok (signed half_32 w)) (u32_of-bytes (word half_32 v) rest)
    ∙ ap ok (signed-word half_32 v h)

-- A device's data take two bytes or four.
abbrev pub IsSize : ℕ → Type 0
IsSize size = (size ≡ 2) ⊎ (size ≡ 4)

module _ (b rest : List ℕ) (i : ℕ) (v : ℤ) where
  abbrev pub ReadsValue : ℕ → Type 0
  ReadsValue size =
      Fits (half_of size) v → drop i b ≡ encode_value size v ++ rest → value_at size b i ≡ ok v

  reads_two : ReadsValue 2
  unfolding value_at encode_value
  reads_two h e = i16_at-bytes b rest i v h e

  reads_four : ReadsValue 4
  unfolding value_at encode_value
  reads_four h e = i32_at-bytes b rest i v h e

  pub value_at-encoded : (size : ℕ) → IsSize size → ReadsValue size
  value_at-encoded size (inl two) = subst ReadsValue (sym two) reads_two
  value_at-encoded size (inr four) = subst ReadsValue (sym four) reads_four

pub length-encode_value :
    (size : ℕ) (v : ℤ) → IsSize size → length (encode_value size v) ≡ value_size size
unfolding encode_value
length-encode_value size v (inl two) = rw two refl
length-encode_value size v (inr four) = rw four refl

pub size_value : (size : ℕ) → IsSize size → value_size size ≡ size
size_value size (inl two) = rw two refl
size_value size (inr four) = rw four refl

pub length-encode_time : (timed : Bool) (t : ℕ) → length (encode_time timed t) ≡ time_size timed
unfolding encode_time
length-encode_time true t = refl
length-encode_time false t = refl
