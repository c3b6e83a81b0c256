-- ===== src/Drf/Range/RoundTrip.antt =====
-- Ranges are printed and parsed back.
use pacsys.Prelude.{
  take_while, drop_while, ℕ, ◌+◌, ◌/◌, ◌%◌, ◌≡◌, refl, ap, ◌∙◌, Bool, true, false, ◌&&◌, ◌||◌,
  Option, none, some, [], ◌∷◌, ◌++◌, append_assoc, arith, leb, ◌==◌, if◌then◌else◌, ok, Text, stops,
  decimal-every, every, take_while-append, drop_while-append, is_digit,
}
use pacsys.Prelude.Decimal.{decimal, number_of, number_of-decimal, digits_loop}
use pacsys.Drf.Range.{
  drop_while, take_while, mode_of, at_end, array_of, bytes_of, bounds_str, range_str, parse_range,
  new_byte_range, Mode, Range, array_range, bound, bound_str, byte_range, contains, expect, full,
  match_bounds, max_upper_bound, right_group, second_group, single, std, with_groups,
}

-- The ranges that the parser makes: a full one has no bounds, a single one has the first, and a
-- standard one has one bound at least; a part of the bytes ends within the bound.
unfoldable pub bounds_fit : Mode → Option ℕ → Option ℕ → Bool
bounds_fit full none none = true
bounds_fit single (some l) none = true
bounds_fit std none none = false
bounds_fit std l h = true
bounds_fit _ l h = false

unfoldable pub fits : Range → Bool
unfolding bounds_fit
fits (array_range m l h) = bounds_fit m l h
fits (byte_range m (some o) (some n)) =
    bounds_fit m (some o) (some n) && leb (o + n) max_upper_bound
fits (byte_range m o n) = bounds_fit m o n

unfoldable nonempty : Text → Bool
nonempty [] = false
nonempty (c ∷ cs) = true

nonempty-append : (s : Text) (c : ℕ) → nonempty (s ++ (c ∷ [])) ≡ true
unfolding nonempty
nonempty-append [] c = refl
nonempty-append (d ∷ ds) c = refl

nonempty-decimal : (n : ℕ) → nonempty (decimal n) ≡ true
unfolding decimal digits_loop nonempty
nonempty-decimal n = ground (arith, nonempty-append (digits_loop n (n / 10)) (b'0' + n % 10))

bound-nonempty : (s : Text) → nonempty s ≡ true → bound (some s) ≡ some (number_of s)
unfolding bound nonempty
bound-nonempty [] h = cc
bound-nonempty (c ∷ cs) h = refl

bound-decimal : (n : ℕ) → bound (some (decimal n)) ≡ some n
bound-decimal n = bound-nonempty (decimal n) (nonempty-decimal n) ∙ ap some (number_of-decimal n)

bound-bound_str : (o : Option ℕ) → bound (some (bound_str o)) ≡ o
unfolding bound bound_str
bound-bound_str none = refl
bound-bound_str (some n) = bound-decimal n

bound_str-every : (o : Option ℕ) → every is_digit (bound_str o) ≡ true
unfolding bound_str every
bound_str-every none = refl
bound_str-every (some n) = decimal-every n

contains-append : (c : ℕ) (s t : Text) → contains c (s ++ t) ≡ (contains c s || contains c t)
unfolding contains
contains-append c [] t = refl
contains-append c (d ∷ ds) t = ground (arith, contains-append c ds t)

every-contains : (s : Text) → every is_digit s ≡ true → contains b':' s ≡ false
unfolding contains every
every-contains [] h = refl
every-contains (c ∷ cs) h = ground (arith, every-contains cs)

-- The closing brackets are no digits and no colon.
unfoldable is_closing : ℕ → Bool
is_closing c = c == b']' || c == b'}'

match_bounds_two :
    (c : ℕ) (s t : Text)
    → is_closing c ≡ true
    → every is_digit s ≡ true
    → every is_digit t ≡ true
    → match_bounds c (s ++ (b':' ∷ (t ++ (c ∷ [])))) ≡ some ((s, some t), [])
unfolding match_bounds second_group right_group with_groups expect is_closing stops
match_bounds_two c s t h k l = ground (
  arith,
  take_while-append is_digit s (b':' ∷ (t ++ (c ∷ []))),
  drop_while-append is_digit s (b':' ∷ (t ++ (c ∷ []))),
  take_while-append is_digit t (c ∷ []),
  drop_while-append is_digit t (c ∷ []),
)

match_bounds_one :
    (c : ℕ) (s : Text)
    → is_closing c ≡ true
    → every is_digit s ≡ true
    → match_bounds c (s ++ (c ∷ [])) ≡ some ((s, none), [])
unfolding match_bounds second_group right_group with_groups expect is_closing stops
match_bounds_one c s h k =
    ground (arith, take_while-append is_digit s (c ∷ []), drop_while-append is_digit s (c ∷ []))

StdBytesFit : Option ℕ → Option ℕ → Type 0
StdBytesFit o n = new_byte_range std o n ≡ ok (byte_range std o n)

-- A standard range of either kind comes back from its text.
parse_array_std :
    (l h : Option ℕ)
    → mode_of l h true ≡ std
    → parse_range (range_str (array_range std l h)) ≡ ok (array_range std l h)
unfolding parse_range range_str bounds_str array_of contains is_closing
parse_array_std l h e = ground (
  arith,
  append_assoc (bound_str l) (b':' ∷ bound_str h) (b']' ∷ []),
  match_bounds_two b']' (bound_str l) (bound_str h) refl (bound_str-every l) (bound_str-every h),
  contains-append b':' (bound_str l) (b':' ∷ (bound_str h ++ (b']' ∷ []))),
  bound-bound_str l,
  bound-bound_str h,
)

parse_bytes_std :
    (l h : Option ℕ)
    → mode_of l h true ≡ std
    → StdBytesFit l h
    → parse_range (range_str (byte_range std l h)) ≡ ok (byte_range std l h)
unfolding parse_range range_str bounds_str bytes_of contains is_closing at_end StdBytesFit
parse_bytes_std l h e k = ground (
  arith,
  append_assoc (bound_str l) (b':' ∷ bound_str h) (b'}' ∷ []),
  match_bounds_two b'}' (bound_str l) (bound_str h) refl (bound_str-every l) (bound_str-every h),
  contains-append b':' (bound_str l) (b':' ∷ (bound_str h ++ (b'}' ∷ []))),
  bound-bound_str l,
  bound-bound_str h,
)

parse_array_single :
    (l : ℕ)
    → parse_range (range_str (array_range single (some l) none))
      ≡ ok (array_range single (some l) none)
unfolding parse_range range_str bounds_str array_of contains is_closing bound mode_of
parse_array_single l = ground (
  arith,
  match_bounds_one b']' (decimal l) refl (decimal-every l),
  contains-append b':' (decimal l) (b']' ∷ []),
  every-contains (decimal l) (decimal-every l),
  bound-decimal l,
)

parse_bytes_single :
    (l : ℕ)
    → parse_range (range_str (byte_range single (some l) none))
      ≡ ok (byte_range single (some l) none)
unfolding parse_range range_str bounds_str bytes_of contains is_closing bound mode_of at_end
    new_byte_range
parse_bytes_single l = ground (
  arith,
  match_bounds_one b'}' (decimal l) refl (decimal-every l),
  contains-append b':' (decimal l) (b'}' ∷ []),
  every-contains (decimal l) (decimal-every l),
  bound-decimal l,
)

parse_full :
    (b : Bool)
    → parse_range (range_str (if b then array_range full none none else byte_range full none none))
      ≡ ok (if b then array_range full none none else byte_range full none none)
unfolding parse_range range_str bounds_str array_of bytes_of match_bounds second_group right_group
    with_groups expect bound mode_of contains at_end new_byte_range take_while drop_while
parse_full true = refl
parse_full false = refl

-- The text of a range parses to that range: a full one without bounds, a single one with the first
-- alone, a standard one with at least one bound, and a part of the bytes that ends within 2^31.
pub parse_range-range_str : (r : Range) → fits r ≡ true → parse_range (range_str r) ≡ ok r
unfolding fits bounds_fit mode_of StdBytesFit new_byte_range
parse_range-range_str (array_range full none none) h = parse_full true
parse_range-range_str (array_range full (some l) k) h = cc
parse_range-range_str (array_range full none (some k)) h = cc
parse_range-range_str (array_range single none k) h = cc
parse_range-range_str (array_range single (some l) none) h = parse_array_single l
parse_range-range_str (array_range single (some l) (some k)) h = cc
parse_range-range_str (array_range std none none) h = cc
parse_range-range_str (array_range std none (some k)) h = parse_array_std none (some k) refl
parse_range-range_str (array_range std (some l) none) h = parse_array_std (some l) none refl
parse_range-range_str (array_range std (some l) (some k)) h = parse_array_std (some l) (some k) refl
parse_range-range_str (byte_range full none none) h = parse_full false
parse_range-range_str (byte_range full (some l) none) h = cc
parse_range-range_str (byte_range full (some l) (some k)) h = cc
parse_range-range_str (byte_range full none (some k)) h = cc
parse_range-range_str (byte_range single none none) h = cc
parse_range-range_str (byte_range single none (some k)) h = cc
parse_range-range_str (byte_range single (some l) none) h = parse_bytes_single l
parse_range-range_str (byte_range single (some l) (some k)) h = cc
parse_range-range_str (byte_range std none none) h = cc
parse_range-range_str (byte_range std none (some k)) h = parse_bytes_std none (some k) refl refl
parse_range-range_str (byte_range std (some l) none) h = parse_bytes_std (some l) none refl refl
parse_range-range_str (byte_range std (some l) (some k)) h =
    parse_bytes_std (some l) (some k) refl (ground arith)
