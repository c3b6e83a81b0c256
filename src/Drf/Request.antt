-- ===== src/Drf/Request.antt =====
-- pacsys/drf3/drf3.py: requests, parsed and written out.
use pacsys.Prelude.{
  upper, value_error, Bool, true, false, ◌&&◌, Option, none, some, [], ◌∷◌, ◌++◌, ◌==◌,
  if◌then◌else◌, Result, ok, err, ◌>>=◌, Text,
}
use pacsys.Drf.Property.{Property, property_alias, property_eq, property_name, get_default_property}
use pacsys.Drf.Field.{Field, field_eq, field_name, get_default_field, parse_field}
use pacsys.Drf.Extra.{Extra, extra_name, parse_extra}
use pacsys.Drf.Range.{Range, parse_range, range_str}
use pacsys.Drf.Event.{Event, mode, parse_event, raw_string}
use pacsys.Drf.Device.{get_qualified_device, parse_device}
use pacsys.Drf.Pattern.{Groups, match_full}

-- `DataRequest`. The extra comes with its raw text.
pub record Request : Type 0 where
  pub raw : Text
  pub device : Text
  pub property : Property
  pub range : Option Range
  pub field : Option Field
  pub event : Event
  pub extra : Option (Extra × Text)
  pub property_explicit : Bool

-- `s.split("<-", 1)`: what stands before and behind the first arrow.
unfoldable pub cut : Text → Option (Text × Text)
cut [] = none
cut (c ∷ []) = none
cut (c ∷ d ∷ cs) =
    let later = cut (d ∷ cs) in
    if c == b'<' && d == b'-'
    then some ([], cs)
    else elim later [ none ↦ none | some (before, behind) ↦ some (c ∷ before, behind) ]

unfoldable extra_of : Text → Result (Option (Extra × Text))
unfolding parse_extra
extra_of s = parse_extra s >>= λ e. ok (some (e, s))

-- The request without its extra, and the extra; a second arrow is an error.
unfoldable pub split_at : Text → Option (Text × Text) → Result (Text × Option (Extra × Text))
unfolding cut extra_of
split_at s none = ok (s, none)
split_at s (some (before, behind)) = elim (cut behind) [
  | some _ ↦ err value_error
  | none ↦ extra_of behind >>= λ e. ok (before, e)
]

unfoldable pub split_extra : Text → Result (Text × Option (Extra × Text))
unfolding cut split_at
split_extra s = split_at s (cut s)

-- The word behind the device that names no property: it is the field, and there is no other.
unfoldable as_field : Text → Text → Option Text → Result ((Property × Bool) × Option Text)
unfolding get_default_property
as_field s w none = get_default_property s >>= λ p. ok ((p, false), some w)
as_field s w (some f) = err value_error

unfoldable pub resolve_word :
    Text → Text → Option Property → Option Text → Result ((Property × Bool) × Option Text)
unfolding as_field
resolve_word s w (some p) f = ok ((p, true), f)
resolve_word s w none f = as_field s w f

-- The property, whether it was written as a word, and the text of the field.
unfoldable pub resolve : Text → Option Text → Option Text → Result ((Property × Bool) × Option Text)
unfolding resolve_word property_alias get_default_property
resolve s none f = get_default_property s >>= λ p. ok ((p, false), f)
resolve s (some w) f = resolve_word s w (property_alias w) f

unfoldable pub range_of : Option Text → Result (Option Range)
unfolding parse_range
range_of none = ok none
range_of (some s) = parse_range s >>= λ r. ok (some r)

unfoldable pub field_of : Property → Option Text → Result (Option Field)
unfolding get_default_field parse_field upper
field_of p none = ok (get_default_field p)
field_of p (some s) = parse_field (upper s) >>= λ f. ok (some f)

unfoldable pub event_of : Option Text → Result Event
unfolding parse_event
event_of none = ok Event.default
event_of (some s) = parse_event s

unfoldable pub assemble :
    Text → Option (Extra × Text) → Text → Groups → (Property × Bool) × Option Text → Result Request
unfolding range_of field_of event_of parse_device
assemble s extra dev g ((p, explicit), f) = range_of g.rng >>= λ r. field_of p f >>= λ fld.
    event_of g.event >>= λ e. ok (record {
      raw = s;
      device = parse_device dev;
      property = p;
      range = r;
      field = fld;
      event = e;
      extra = extra;
      property_explicit = explicit;
    })

unfoldable pub parse_groups : Text → Option (Extra × Text) → Option (Text × Groups) → Result Request
unfolding resolve assemble
parse_groups s extra none = err value_error
parse_groups s extra (some (dev, g)) = resolve s g.prop g.field >>= assemble s extra dev g

unfoldable pub parse_split : Text × Option (Extra × Text) → Result Request
unfolding parse_groups match_full
parse_split (s, extra) = parse_groups s extra (match_full s)

-- `parse_request`.
unfoldable pub parse_request : Text → Result Request
unfolding split_extra parse_split
parse_request s = split_extra s >>= parse_split

-- The arguments of `to_canonical` and `to_qualified`; each stands for the part of the request.
pub record Overrides : Type 0 where
  pub new_device : Option Text
  pub new_property : Option Property
  pub new_range : Option Range
  pub new_field : Option Field
  pub new_event : Option Event
  pub new_extra : Option Extra

-- `a or b`, where `a` may be `None`.
unfoldable pub or_else {ℓ} : {A : Type ℓ} → Option A → A → A
or_else none b = b
or_else (some a) b = a

unfoldable pub or_option {ℓ} : {A : Type ℓ} → Option A → Option A → Option A
or_option none b = b
or_option (some a) b = some a

-- `device or self.device`: the empty text counts as none.
unfoldable pub or_device : Option Text → Text → Text
or_device (some (c ∷ cs)) d = c ∷ cs
or_device _ d = d

unfoldable pub range_part : Option Range → Text
unfolding range_str
range_part none = []
range_part (some r) = range_str r

-- The field of the result: that of the request unless the property is changed.
unfoldable pub chosen_field :
    Option Property → Property → Option Field → Option Field → Option Field
unfolding or_option property_eq
chosen_field none p new old = or_option new old
chosen_field (some q) p new old = if property_eq q p then or_option new old else new

unfoldable pub same_field : Option Field → Field → Bool
unfolding field_eq
same_field none f = false
same_field (some d) f = field_eq d f

-- A field is written unless it is the property's own.
unfoldable pub field_part : Property → Option Field → Text
unfolding same_field get_default_field
field_part p none = []
field_part p (some f) = if same_field (get_default_field p) f then [] else b'.' ∷ field_name f

unfoldable pub event_part : Event → Text
event_part e = if mode e == b'U' then [] else b'@' ∷ raw_string e

unfoldable pub extra_part : Option Extra → Option (Extra × Text) → Text
extra_part (some x) old = b'<' ∷ b'-' ∷ extra_name x
extra_part none none = []
extra_part none (some (x, s)) = b'<' ∷ b'-' ∷ s

-- What `to_canonical` and `to_qualified` write behind the device and the property.
unfoldable pub rest_part : Request → Overrides → Text
unfolding or_else or_option range_part chosen_field field_part event_part extra_part
rest_part r o =
    range_part (or_option o.new_range r.range)
    ++ (field_part (or_else o.new_property r.property)
          (chosen_field o.new_property r.property o.new_field r.field)
        ++ (event_part (or_else o.new_event r.event) ++ extra_part o.new_extra r.extra))

-- `to_canonical`.
unfoldable pub to_canonical : Request → Overrides → Text
unfolding rest_part or_device or_else
to_canonical r o =
    or_device o.new_device r.device
    ++ (b'.' ∷ (property_name (or_else o.new_property r.property) ++ rest_part r o))

-- `to_qualified`.
unfoldable to_qualified : Request → Overrides → Result Text
unfolding rest_part or_device or_else get_qualified_device
to_qualified r o =
    get_qualified_device (or_device o.new_device r.device) (or_else o.new_property r.property)
    >>= λ ds. ok (ds ++ rest_part r o)
