-- ===== src/Rad50/RoundTrip.antt =====
-- The two directions of the base-40 packing.
use pacsys.Prelude.{
  ℕ, ◌+◌, ◌-◌, ◌*◌, ◌/◌, ◌%◌, ◌^◌, ◌≤◌, ◌<◌, bit_or, ◌≡◌, refl, sym, ap, ◌∙◌, ◌⊎◌, inl, inr, true,
  ◌&&◌, ◌||◌, [], ◌∷◌, map, arith, leb, ◌==◌, if◌then◌else◌, Text, to_upper, ==_iff, get_or,
  all_below, all_below→at,
}
use pacsys.Prelude.Bits.{bit_or-shifted}
use pacsys.Rad50.{rad50_chars, char_to_index, pad6, encode_loop, encode, decode}

abbrev rad50_char : ℕ → ℕ
rad50_char i = get_or rad50_chars i 32

-- What a character becomes, through its index.
abbrev canonical : ℕ → ℕ
canonical c = rad50_char (char_to_index c)

char_to_index_lt : (c : ℕ) → char_to_index c < 40
unfolding char_to_index
char_to_index_lt c = ground arith

char_table : all_below 40 (λ i. char_to_index (rad50_char i) == i) ≡ true
unfolding all_below char_to_index
char_table = refl

char_to_index-rad50_char : (i : ℕ) → i < 40 → char_to_index (rad50_char i) ≡ i
char_to_index-rad50_char i h =
    (==_iff _ i).0 (all_below→at 40 (λ i. char_to_index (rad50_char i) == i) i char_table h)

-- Three base-40 digits in one half of the word.
abbrev digits3 : ℕ → ℕ → ℕ → ℕ
digits3 a b c = (a * 40 + b) * 40 + c

digits3_lt : (a b c : ℕ) → a < 40 → b < 40 → c < 40 → digits3 a b c < 2 ^ 16
digits3_lt a b c ha hb hc = omega arith

halves :
    (lo hi : ℕ)
    → lo < 2 ^ 16
    → hi < 2 ^ 16
    → (bit_or (hi * 2 ^ 16) lo % 2 ^ 16 ≡ lo) × (bit_or (hi * 2 ^ 16) lo / 2 ^ 16 % 2 ^ 16 ≡ hi)
halves lo hi p q = rw (bit_or-shifted 16 hi lo p) (omega arith, omega arith)

digits3_parts :
    (a b c : ℕ)
    → a < 40
    → b < 40
    → c < 40
    → (digits3 a b c / 40 / 40 % 40 ≡ a) × (digits3 a b c / 40 % 40 ≡ b) × (digits3 a b c % 40 ≡ c)
digits3_parts a b c ha hb hc = omega arith

-- Six digits, packed as `encode` packs them, decode to their characters.
decode_digits :
    (a b c d e f : ℕ)
    → a < 40
    → b < 40
    → c < 40
    → d < 40
    → e < 40
    → f < 40
    → decode (bit_or (digits3 d e f * 2 ^ 16) (digits3 a b c))
      ≡ rad50_char a ∷ rad50_char b ∷ rad50_char c ∷ rad50_char d ∷ rad50_char e ∷ rad50_char f ∷ []
unfolding decode
decode_digits a b c d e f ha hb hc hd he hf =
    let (lo, hi) =
      halves (digits3 a b c) (digits3 d e f) (digits3_lt a b c ha hb hc)
        (digits3_lt d e f hd he hf) in
    let (pa, pb, pc) = digits3_parts a b c ha hb hc in
    let (pd, pe, pf) = digits3_parts d e f hd he hf in rw (lo, hi, pa, pb, pc, pd, pe, pf)

encode_loop_three :
    (a b c : ℕ)
    → encode_loop 0 (a ∷ b ∷ c ∷ []) ≡ digits3 (char_to_index a) (char_to_index b) (char_to_index c)
unfolding encode_loop
encode_loop_three a b c = omega arith

decode_chars :
    (a b c d e f : ℕ)
    → decode (bit_or (encode_loop 0 (d ∷ e ∷ f ∷ []) * 2 ^ 16) (encode_loop 0 (a ∷ b ∷ c ∷ [])))
      ≡ map canonical (a ∷ b ∷ c ∷ d ∷ e ∷ f ∷ [])
decode_chars a b c d e f =
    rw (encode_loop_three d e f, encode_loop_three a b c)
      (decode_digits (char_to_index a) (char_to_index b) (char_to_index c) (char_to_index d)
        (char_to_index e) (char_to_index f) (char_to_index_lt a) (char_to_index_lt b)
        (char_to_index_lt c) (char_to_index_lt d) (char_to_index_lt e) (char_to_index_lt f))

-- The padded text always has six characters.
pad6_six :
    (s : Text)
    → (a : ℕ) × (b : ℕ) × (c : ℕ) × (d : ℕ) × (e : ℕ) × (f : ℕ) × (pad6 s
        ≡ a ∷ b ∷ c ∷ d ∷ e ∷ f ∷ [])
unfolding pad6
pad6_six [] = (_, _, _, _, _, _, refl)
pad6_six (a ∷ []) = (_, _, _, _, _, _, refl)
pad6_six (a ∷ b ∷ []) = (_, _, _, _, _, _, refl)
pad6_six (a ∷ b ∷ c ∷ []) = (_, _, _, _, _, _, refl)
pad6_six (a ∷ b ∷ c ∷ d ∷ []) = (_, _, _, _, _, _, refl)
pad6_six (a ∷ b ∷ c ∷ d ∷ e ∷ []) = (_, _, _, _, _, _, refl)
pad6_six (a ∷ b ∷ c ∷ d ∷ e ∷ f ∷ s) = (_, _, _, _, _, _, refl)

-- A lower-case letter as its upper-case one, the other characters of the alphabet as they are, and any other as a
-- space.
abbrev folded : ℕ → ℕ
folded c =
    if leb b'a' c && leb c b'z'
    then c - 32
    else if leb b'A' c && leb c b'Z'
        || leb b'0' c && leb c b'9'
        || c == b'$'
        || c == b'.'
        || c == b'%'
    then c
    else 32

-- The character at a position, a space behind the end.
abbrev char_at : Text → ℕ → ℕ
char_at s i = folded (get_or s i 32)

folded_table : all_below 128 (λ c. canonical c == folded c) ≡ true
unfolding all_below char_to_index to_upper
folded_table = refl

canonical_beyond : (c : ℕ) → 128 ≤ c → char_to_index c ≡ 0
unfolding char_to_index to_upper
canonical_beyond c h = ground arith

folded_beyond : (c : ℕ) → 128 ≤ c → folded c ≡ 32
folded_beyond c h = ground arith

below_or_not : (c : ℕ) → (c < 128) ⊎ (128 ≤ c)
below_or_not c = omega arith

canonical-folded : (c : ℕ) → canonical c ≡ folded c
canonical-folded c = elim (below_or_not c) [
  | inl h ↦ (==_iff _ _).0 (all_below→at 128 (λ c. canonical c == folded c) c folded_table h)
  | inr h ↦ ap rad50_char (canonical_beyond c h) ∙ sym (folded_beyond c h)
]

pad6_at :
    (s : Text)
    → pad6 s
      ≡ get_or s 0 32
        ∷ get_or s 1 32
        ∷ get_or s 2 32
        ∷ get_or s 3 32
        ∷ get_or s 4 32
        ∷ get_or s 5 32
        ∷ []
unfolding pad6
pad6_at [] = refl
pad6_at (a ∷ []) = refl
pad6_at (a ∷ b ∷ []) = refl
pad6_at (a ∷ b ∷ c ∷ []) = refl
pad6_at (a ∷ b ∷ c ∷ d ∷ []) = refl
pad6_at (a ∷ b ∷ c ∷ d ∷ e ∷ []) = refl
pad6_at (a ∷ b ∷ c ∷ d ∷ e ∷ f ∷ s) = refl

map-folded : (s : Text) → map canonical s ≡ map folded s
map-folded [] = refl
map-folded (c ∷ cs) =
    ap (λ x. x ∷ map canonical cs) (canonical-folded c) ∙ ap (λ l. folded c ∷ l) (map-folded cs)

-- Decoding the encoding of any ASCII text gives its first six characters, with spaces behind the end of a shorter one,
-- each lower-case letter as an upper-case one and each character outside the alphabet as a space.
pub decode-encode :
    (s : Text)
    → decode (encode s)
      ≡ char_at s 0 ∷ char_at s 1 ∷ char_at s 2 ∷ char_at s 3 ∷ char_at s 4 ∷ char_at s 5 ∷ []
unfolding encode
decode-encode s =
    rw (pad6_at s) (
      decode_chars (get_or s 0 32) (get_or s 1 32) (get_or s 2 32) (get_or s 3 32) (get_or s 4 32)
        (get_or s 5 32))
    ∙ map-folded (
        get_or s 0 32
        ∷ get_or s 1 32
        ∷ get_or s 2 32
        ∷ get_or s 3 32
        ∷ get_or s 4 32
        ∷ get_or s 5 32
        ∷ [])

-- The characters of six digits encode to the word that holds them.
encode_digits :
    (a b c d e f : ℕ)
    → a < 40
    → b < 40
    → c < 40
    → d < 40
    → e < 40
    → f < 40
    → encode (
        rad50_char a
        ∷ rad50_char b
        ∷ rad50_char c
        ∷ rad50_char d
        ∷ rad50_char e
        ∷ rad50_char f
        ∷ [])
      ≡ digits3 d e f * 2 ^ 16 + digits3 a b c
unfolding encode
encode_digits a b c d e f ha hb hc hd he hf =
    rw
      (
        encode_loop_three (rad50_char d) (rad50_char e) (rad50_char f),
        encode_loop_three (rad50_char a) (rad50_char b) (rad50_char c),
        char_to_index-rad50_char a ha,
        char_to_index-rad50_char b hb,
        char_to_index-rad50_char c hc,
        char_to_index-rad50_char d hd,
        char_to_index-rad50_char e he,
        char_to_index-rad50_char f hf,
      )
      (bit_or-shifted 16 (digits3 d e f) (digits3 a b c) (digits3_lt a b c ha hb hc))

-- Encoding takes the text of any 32-bit word whose two halves are below 40^3 back to that word.
pub encode-decode : (n : ℕ) → n % 2 ^ 16 < 64000 → n / 2 ^ 16 < 64000 → encode (decode n) ≡ n
unfolding decode
encode-decode n lo hi =
    encode_digits (n % 65536 / 40 / 40 % 40) (n % 65536 / 40 % 40) (n % 65536 % 40)
      (n / 65536 % 65536 / 40 / 40 % 40) (n / 65536 % 65536 / 40 % 40) (n / 65536 % 65536 % 40)
      (omega arith) (omega arith) (omega arith) (omega arith) (omega arith) (omega arith)
    ∙ omega arith

-- The encoding of any text is a 32-bit word whose halves are below 40^3.
encode_bounds : (s : Text) → (encode s % 2 ^ 16 < 64000) × (encode s / 2 ^ 16 < 64000)
unfolding encode
encode_bounds s =
    let (a, b, c, d, e, f, p) = pad6_six s in
    rw
      (
        p,
        encode_loop_three a b c,
        encode_loop_three d e f,
        bit_or-shifted 16 _ _
            (digits3_lt _ _ _ (char_to_index_lt a) (char_to_index_lt b) (char_to_index_lt c)),
      )
      (
        omega (arith, char_to_index_lt a, char_to_index_lt b, char_to_index_lt c),
        omega (
          arith,
          char_to_index_lt a,
          char_to_index_lt b,
          char_to_index_lt c,
          char_to_index_lt d,
          char_to_index_lt e,
          char_to_index_lt f,
        ),
      )
