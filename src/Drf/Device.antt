-- ===== src/Drf/Device.antt =====
-- pacsys/drf3/device.py: device names.
use pacsys.Prelude.{
  is_digit, is_upper, value_error, is_lower, ℕ, Bool, false, ◌&&◌, ◌||◌, Option, none, some, ◌∷◌,
  ltb, ◌==◌, if◌then◌else◌, Result, ok, err, length, Text,
}
use pacsys.Drf.Property.{Property, qualifier}

-- The three classes of `PATTERN_NAME`.
abbrev is_first : ℕ → Bool
is_first c = is_lower c || is_upper c || c == b'0'

abbrev is_qualifier : ℕ → Bool
is_qualifier c =
    c == b':'
    || c == b'?'
    || c == b'_'
    || c == b'|'
    || c == b'&'
    || c == b'@'
    || c == b'$'
    || c == b'~'

abbrev is_rest : ℕ → Bool
is_rest c = is_lower c || is_upper c || is_digit c || c == b'_' || c == b':'

-- `PATTERN_NAME.match`: a prefix of the name is enough.
unfoldable is_name : Text → Bool
is_name (a ∷ q ∷ c ∷ rest) = is_first a && is_qualifier q && is_rest c
is_name _ = false

-- A list of characters with its second one replaced.
unfoldable set_second : ℕ → Text → Text
set_second c (a ∷ b ∷ rest) = a ∷ c ∷ rest
set_second c s = s

-- `parse_device` with `assume_epics`: the canonical string.
unfoldable pub parse_device : Text → Text
unfolding is_name set_second
parse_device raw = if is_name raw then set_second b':' raw else raw

-- `parse_device` without it.
unfoldable parse_acnet_device : Text → Result Text
unfolding is_name set_second
parse_acnet_device raw = if is_name raw then ok (set_second b':' raw) else err value_error

unfoldable qualify : Text → Option ℕ → Result Text
unfolding set_second
qualify dev none = err value_error
qualify dev (some c) = ok (set_second c dev)

-- `get_qualified_device`.
unfoldable pub get_qualified_device : Text → Property → Result Text
unfolding qualify
get_qualified_device dev p =
    if ltb (length dev) 3 then err value_error else qualify dev (qualifier p)
