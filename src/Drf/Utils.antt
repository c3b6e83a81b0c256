-- ===== src/Drf/Utils.antt =====
-- pacsys/drf_utils.py: questions about requests, and requests for other uses.
use pacsys.Prelude.{
  upper, ℕ, zero, suc, ◌+◌, Bool, true, false, not, ◌&&◌, Option, none, some, [], ◌∷◌, ◌++◌, ◌==◌,
  if◌then◌else◌, Result, ok, ◌>>=◌, Text, codes,
}
use pacsys.Drf.Property.{Property, property_eq, property_name}
use pacsys.Drf.Extra.{Extra, is_historical}
use pacsys.Drf.Event.{Event, mode, parse_event}
use pacsys.Drf.Request.{Request, extra_part, field_part, parse_request, range_part, to_canonical}

-- `get_device_name`.
unfoldable pub get_device_name : Text → Result Text
unfolding parse_request
get_device_name drf = parse_request drf >>= λ r. ok r.device

-- `replace_event`.
unfoldable pub replace_event : Text → Text → Result Text
unfolding parse_request parse_event to_canonical
replace_event drf event = parse_request drf >>= λ r. parse_event event >>= λ e. ok (
    to_canonical r (record {
      new_device = none;
      new_property = none;
      new_range = none;
      new_field = none;
      new_event = some e;
      new_extra = none;
    }))

-- `strip_event`.
unfoldable pub without_event : Request → Text
unfolding range_part field_part extra_part
without_event r =
    r.device
    ++ (b'.'
        ∷ (property_name r.property
            ++ (range_part r.range ++ (field_part r.property r.field ++ extra_part none r.extra))))

unfoldable pub strip_event : Text → Result Text
unfolding parse_request without_event
strip_event drf = parse_request drf >>= λ r. ok (without_event r)

-- `has_event`.
unfoldable has_event : Text → Result Bool
unfolding parse_request
has_event drf = parse_request drf >>= λ r. ok (not (mode r.event == b'U'))

-- `has_explicit_property`.
unfoldable has_explicit_property : Text → Result Bool
unfolding parse_request
has_explicit_property drf = parse_request drf >>= λ r. ok r.property_explicit

-- `is_setting_property`.
unfoldable is_setting_property : Text → Result Bool
unfolding parse_request property_eq
is_setting_property drf = parse_request drf >>= λ r. ok (property_eq r.property Property.setting)

-- `_WRITE_PROPERTY`, and the property itself where it has no entry.
unfoldable pub write_property : Property → Property
write_property Property.reading = Property.setting
write_property Property.status = Property.control
write_property p = p

-- `prepare_for_write`.
unfoldable pub for_write : Request → Text
unfolding write_property to_canonical
for_write r = to_canonical r (record {
  new_device = none;
  new_property = some (write_property r.property);
  new_range = none;
  new_field = none;
  new_event = some Event.never;
  new_extra = none;
})

unfoldable pub prepare_for_write : Text → Result Text
unfolding parse_request for_write
prepare_for_write drf = parse_request drf >>= λ r. ok (for_write r)

unfoldable starts_with : Text → Text → Bool
starts_with [] s = true
starts_with (c ∷ cs) [] = false
starts_with (c ∷ cs) (d ∷ ds) = c == d && starts_with cs ds

unfoldable later_or : Option ℕ → Bool → Option ℕ
later_or (some i) here = some (suc i)
later_or none true = some 0
later_or none false = none

-- `str.rfind` for a text that is not empty.
unfoldable rfind : Text → Text → Option ℕ
unfolding later_or starts_with
rfind pat [] = none
rfind pat (c ∷ cs) = later_or (rfind pat cs) (starts_with pat (c ∷ cs))

unfoldable pub take : ℕ → Text → Text
take zero s = []
take (suc n) [] = []
take (suc n) (c ∷ cs) = c ∷ take n cs

unfoldable pub drop : ℕ → Text → Text
drop zero s = s
drop (suc n) [] = []
drop (suc n) (c ∷ cs) = drop n cs

unfoldable remove_at : Option ℕ → Text → Text
unfolding take drop
remove_at none s = s
remove_at (some i) s = take i s ++ drop (i + 2) s

unfoldable insert_at : Option ℕ → Text → Text
unfolding take drop
insert_at none s = s ++ codes "@I"
insert_at (some i) s = take i s ++ (codes "@I" ++ drop i s)

unfoldable insert_immediate : Option (Extra × Text) → Text → Text
unfolding insert_at rfind upper
insert_immediate none s = insert_at none s
insert_immediate (some (x, t)) s = insert_at (rfind (b'<' ∷ b'-' ∷ upper t) (upper s)) s

abbrev extra_is_historical : Option (Extra × Text) → Bool
extra_is_historical none = false
extra_is_historical (some (x, s)) = is_historical x

-- `ensure_immediate_event`.
unfoldable immediate_text : Text → Request → Text
unfolding insert_immediate remove_at rfind upper
immediate_text drf r =
    if extra_is_historical r.extra
    then drf
    else if mode r.event == b'U'
    then insert_immediate r.extra (remove_at (rfind (codes "@U") (upper drf)) drf)
    else drf

unfoldable pub ensure_immediate_event : Text → Result Text
unfolding parse_request immediate_text
ensure_immediate_event drf = parse_request drf >>= λ r. ok (immediate_text drf r)
