-- ===== src/Ftp/Wire.antt =====
-- `struct.pack` and `struct.unpack_from` of little-endian integers. Bytes are numbers below 256; a read past the end of
-- the data and a number that does not fit its code raise.
use pacsys.Prelude.{
  struct_error, drop, ℕ, ◌+◌, ◌-◌, ◌*◌, ◌/◌, ◌%◌, Bool, true, false, List, [], ◌∷◌, ◌++◌, ltb,
  if◌then◌else◌, Result, ok, err, ◌>>=◌,
}
use pacsys.Prelude.Int.{ℤ, pos, negsuc}

-- The codes "<H" and "<I".
unfoldable pub u16_of : List ℕ → Result ℕ
u16_of (a ∷ b ∷ rest) = ok (a + 256 * b)
u16_of other = err struct_error

unfoldable pub u32_of : List ℕ → Result ℕ
u32_of (a ∷ b ∷ c ∷ d ∷ rest) = ok (a + 256 * (b + 256 * (c + 256 * d)))
u32_of other = err struct_error

abbrev pub signed : ℕ → ℕ → ℤ
signed half w = if ltb w half then pos w else negsuc (2 * half - 1 - w)

abbrev pub half_16 : ℕ
half_16 = 0x8000

abbrev pub half_32 : ℕ
half_32 = 0x80000000

unfoldable pub u16_at : List ℕ → ℕ → Result ℕ
unfolding u16_of
u16_at b i = u16_of (drop i b)

unfoldable pub u32_at : List ℕ → ℕ → Result ℕ
unfolding u32_of
u32_at b i = u32_of (drop i b)

-- "<h" and "<i".
unfoldable pub i16_at : List ℕ → ℕ → Result ℤ
unfolding u16_at
i16_at b i = u16_at b i >>= λ w. ok (signed half_16 w)

unfoldable pub i32_at : List ℕ → ℕ → Result ℤ
unfolding u32_at
i32_at b i = u32_at b i >>= λ w. ok (signed half_32 w)

abbrev pub u16_bytes : ℕ → List ℕ
u16_bytes w = w % 256 ∷ w / 256 ∷ []

abbrev pub u32_bytes : ℕ → List ℕ
u32_bytes w = w % 256 ∷ w / 256 % 256 ∷ w / 65536 % 256 ∷ w / 16777216 ∷ []

unfoldable pub pack_u16 : ℕ → Result (List ℕ)
pack_u16 w = if ltb w 65536 then ok (u16_bytes w) else err struct_error

unfoldable pub pack_u32 : ℕ → Result (List ℕ)
pack_u32 w = if ltb w 4294967296 then ok (u32_bytes w) else err struct_error

-- The parts of a buffer, one after the other; the first that does not fit raises.
unfoldable pub joined : Result (List ℕ) → Result (List ℕ) → Result (List ℕ)
joined (err e) rest = err e
joined (ok b) (err e) = err e
joined (ok b) (ok c) = ok (b ++ c)

unfoldable pub packed : List (Result (List ℕ)) → Result (List ℕ)
unfolding joined
packed [] = ok []
packed (p ∷ ps) = joined p (packed ps)

-- A negative status.
abbrev pub is_negative : ℤ → Bool
is_negative (pos n) = false
is_negative (negsuc n) = true
