-- ===== src/Drf/Range.antt =====
-- pacsys/drf3/range.py: the part of an array or of the raw bytes that a request names.
pub mod RoundTrip
use pacsys.Prelude.Decimal.{decimal, number_of}
use pacsys.Prelude.{
  is_digit, drop_while, value_error, take_while, ℕ, ◌+◌, Bool, true, false, ◌||◌, Option, none,
  some, [], ◌∷◌, ◌++◌, ltb, ◌==◌, if◌then◌else◌, Result, ok, err, Text, codes,
}

-- The modes of a range.
pub data Mode : Type 0 where
  full std single : Mode

-- `ARRAY_RANGE` and `BYTE_RANGE`: the bounds that stand before and behind the colon are `low` and
-- `high` of the one, `offset` and `length` of the other.
pub data Range : Type 0 where
  array_range : Mode → Option ℕ → Option ℕ → Range
  byte_range : Mode → Option ℕ → Option ℕ → Range

abbrev pub max_upper_bound : ℕ
max_upper_bound = 2147483648

-- `"..." in text` for one character.
unfoldable pub contains : ℕ → Text → Bool
contains c [] = false
contains c (d ∷ ds) = d == c || contains c ds

-- A matched text that starts with the given character, with what stands behind it.
unfoldable pub expect : ℕ → Text → Option Text
expect c [] = none
expect c (d ∷ ds) = if d == c then some ds else none

-- The groups of one alternative of `RANGE_RE`: the digits before the colon, those behind it if there
-- is a colon, and the text behind the closing bracket.
unfoldable pub with_groups : Text → Option Text → Option Text → Option ((Text × Option Text) × Text)
with_groups s1 s2 none = none
with_groups s1 s2 (some rest) = some ((s1, s2), rest)

unfoldable pub right_group : ℕ → Text → Option Text → Text → Option ((Text × Option Text) × Text)
unfolding expect with_groups
right_group close s1 s2 r = with_groups s1 s2 (expect close r)

unfoldable pub second_group : ℕ → Text → Text → Option ((Text × Option Text) × Text)
unfolding right_group take_while drop_while
second_group close s1 [] = none
second_group close s1 (c ∷ cs) =
    if c == b':'
    then right_group close s1 (some (take_while is_digit cs)) (drop_while is_digit cs)
    else right_group close s1 none (c ∷ cs)

unfoldable pub match_bounds : ℕ → Text → Option ((Text × Option Text) × Text)
unfolding second_group take_while drop_while
match_bounds close t = second_group close (take_while is_digit t) (drop_while is_digit t)

-- `int(s) if s != "" and s is not None else None`.
unfoldable pub bound : Option Text → Option ℕ
unfolding number_of
bound none = none
bound (some []) = none
bound (some (c ∷ cs)) = some (number_of (c ∷ cs))

-- The mode of a range by its bounds and whether its text has a colon.
unfoldable pub mode_of : Option ℕ → Option ℕ → Bool → Mode
mode_of none none colon = full
mode_of none (some h) colon = std
mode_of (some l) none false = single
mode_of (some l) none true = std
mode_of (some l) (some h) colon = std

-- `BYTE_RANGE.__init__`. The bounds that the code passes come from digits, so none is negative.
unfoldable pub new_byte_range : Mode → Option ℕ → Option ℕ → Result Range
new_byte_range m (some o) (some l) =
    if ltb max_upper_bound (o + l) then err value_error else ok (byte_range m (some o) (some l))
new_byte_range m o l = ok (byte_range m o l)

-- The match of an alternative must end at `$`: at the end, or before a line feed that ends the text.
unfoldable pub at_end : Text → Bool
at_end [] = true
at_end (c ∷ []) = c == 10
at_end _ = false

unfoldable pub array_of : Text → Option ((Text × Option Text) × Text) → Result Range
unfolding bound mode_of contains
array_of raw none = err value_error
array_of raw (some ((s1, s2), rest)) = ok (
    array_range (mode_of (bound (some s1)) (bound s2) (contains b':' raw)) (bound (some s1))
      (bound s2))

unfoldable pub bytes_of : Text → Option ((Text × Option Text) × Text) → Result Range
unfolding bound mode_of contains new_byte_range at_end
bytes_of raw none = err value_error
bytes_of raw (some ((s1, s2), rest)) =
    if at_end rest
    then new_byte_range (mode_of (bound (some s1)) (bound s2) (contains b':' raw)) (bound (some s1))
        (bound s2)
    else err value_error

-- `parse_range`. Only the alternative with braces ends in `$`.
unfoldable pub parse_range : Text → Result Range
unfolding array_of bytes_of match_bounds
parse_range [] = err value_error
parse_range (c ∷ cs) =
    if c == b'['
    then array_of (c ∷ cs) (match_bounds b']' cs)
    else if c == b'{'
    then bytes_of (c ∷ cs) (match_bounds b'}' cs)
    else err value_error

unfoldable pub bound_str : Option ℕ → Text
unfolding decimal
bound_str none = []
bound_str (some n) = decimal n

-- The text between the brackets; `None` is what Python writes for a bound that a single lacks.
unfoldable pub bounds_str : Mode → Option ℕ → Option ℕ → Text
unfolding bound_str
bounds_str full l h = b':' ∷ []
bounds_str single none h = codes "None"
bounds_str single (some l) h = decimal l
bounds_str std l h = bound_str l ++ (b':' ∷ bound_str h)

-- `ARRAY_RANGE.__str__` and `BYTE_RANGE.__str__`.
unfoldable pub range_str : Range → Text
unfolding bounds_str
range_str (array_range m l h) = b'[' ∷ (bounds_str m l h ++ (b']' ∷ []))
range_str (byte_range m l h) = b'{' ∷ (bounds_str m l h ++ (b'}' ∷ []))
