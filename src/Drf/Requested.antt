-- ===== src/Drf/Requested.antt =====
-- The requests that the parser makes, and what `to_canonical` writes for them.
use pacsys.Prelude.{
  ℕ, zero, suc, ◌≡◌, refl, sym, ap, ◌∙◌, Bool, true, false, not, Option, none, some, List, [], ◌∷◌,
  append-nil, arith, if◌then◌else◌, Text,
}
use pacsys.Drf.Property.{Property}
use pacsys.Drf.Field.{Field, field_number, field_eq, get_default_field}
use pacsys.Drf.Range.{contains}
use pacsys.Drf.Event.{Event}
use pacsys.Drf.Device.{parse_device}
use pacsys.Drf.Pattern.RoundTrip.{is_device}
use pacsys.Drf.Pattern.Search.{dotted, timed}
use pacsys.Drf.Request.{
  Overrides, Request, chosen_field, event_part, extra_part, field_part, or_device, or_else,
  or_option, rest_part, same_field, to_canonical,
}
use pacsys.Drf.Canonical.{canonical_text}
use pacsys.Drf.Written.{IsEvent, event_word, field_word, is_written, range_fits}

-- A field that the parser can give a property: none only if the property has none of its own.
unfoldable pub is_known : Property → Option Field → Bool
unfolding field_eq get_default_field
is_known p (some f) = not (field_eq f Field.empty)
is_known p none = elim (get_default_field p) [ none ↦ true | some f ↦ false ]

-- A request that its canonical text stands for: without an extra, with a canonical device name of at
-- least three characters and none of `.[{@<` or a line feed, a range that fits, a field that is read
-- back and an event whose text parses to it.
unfoldable pub IsRequest : Request → Type 0
IsRequest r =
    (is_device r.device ≡ true)
    × ((contains b'<' r.device ≡ false)
        × ((parse_device r.device ≡ r.device)
            × ((range_fits r.range ≡ true)
                × ((is_known r.property r.field ≡ true) × (IsEvent r.event × (r.extra ≡ none))))))

-- Arguments that change the property and the event alone.
abbrev pub changed : Option Property → Option Event → Overrides
changed q e = record {
  new_device = none;
  new_property = q;
  new_range = none;
  new_field = none;
  new_event = e;
  new_extra = none;
}

-- The field as it is written: none if it is the property's own.
unfoldable pub written : Property → Option Field → Option Field
unfolding same_field get_default_field
written p none = none
written p (some f) = if same_field (get_default_field p) f then none else some f

field_part-written :
    (p : Property) (f : Option Field) → field_part p f ≡ dotted (field_word (written p f))
unfolding field_part dotted field_word written
field_part-written p none = refl
field_part-written p (some f) = ground arith

event_part-timed : (e : Event) → event_part e ≡ timed (event_word e)
unfolding event_part timed event_word
event_part-timed e = ground arith

or_device-none : (d : Text) → or_device none d ≡ d
unfolding or_device
or_device-none d = refl

pub to_canonical-canonical_text :
    (r : Request) (q : Option Property) (e : Option Event)
    → r.extra ≡ none
    → to_canonical r (changed q e)
      ≡ canonical_text r.device
          (or_else q r.property)
          r.range
          (written (or_else q r.property) (chosen_field q r.property none r.field))
          (or_else e r.event)
unfolding to_canonical canonical_text rest_part or_option or_device extra_part
to_canonical-canonical_text r q e h = ground (
  arith,
  or_device-none r.device,
  append-nil (timed (event_word (or_else e r.event))),
  field_part-written (or_else q r.property) (chosen_field q r.property none r.field),
  event_part-timed (or_else e r.event),
)

abbrev all_fields : List Field
all_fields =
    Field.raw ∷ Field.primary ∷ Field.volts ∷ Field.scaled ∷ Field.common ∷ Field.all ∷ Field.text
    ∷ Field.extended_text ∷ Field.on ∷ Field.ready ∷ Field.remote ∷ Field.positive ∷ Field.ramp
    ∷ Field.bit_value ∷ Field.bit_names ∷ Field.bit_values ∷ Field.min ∷ Field.max ∷ Field.nom
    ∷ Field.tol ∷ Field.raw_min ∷ Field.raw_max ∷ Field.raw_nom ∷ Field.raw_tol ∷ Field.alarm_enable
    ∷ Field.alarm_status ∷ Field.tries_needed ∷ Field.tries_now ∷ Field.alarm_ftd ∷ Field.abort
    ∷ Field.abort_inhibit ∷ Field.flags ∷ Field.mask ∷ Field.units ∷ Field.empty ∷ []

unfoldable field_at : ℕ → List Field → Field
field_at n [] = Field.empty
field_at zero (f ∷ fs) = f
field_at (suc n) (f ∷ fs) = field_at n fs

field_at-field_number : (f : Field) → field_at (field_number f) (Field.empty ∷ all_fields) ≡ f
unfolding field_at
field_at-field_number Field.raw = refl
field_at-field_number Field.primary = refl
field_at-field_number Field.volts = refl
field_at-field_number Field.scaled = refl
field_at-field_number Field.common = refl
field_at-field_number Field.all = refl
field_at-field_number Field.text = refl
field_at-field_number Field.extended_text = refl
field_at-field_number Field.on = refl
field_at-field_number Field.ready = refl
field_at-field_number Field.remote = refl
field_at-field_number Field.positive = refl
field_at-field_number Field.ramp = refl
field_at-field_number Field.bit_value = refl
field_at-field_number Field.bit_names = refl
field_at-field_number Field.bit_values = refl
field_at-field_number Field.min = refl
field_at-field_number Field.max = refl
field_at-field_number Field.nom = refl
field_at-field_number Field.tol = refl
field_at-field_number Field.raw_min = refl
field_at-field_number Field.raw_max = refl
field_at-field_number Field.raw_nom = refl
field_at-field_number Field.raw_tol = refl
field_at-field_number Field.alarm_enable = refl
field_at-field_number Field.alarm_status = refl
field_at-field_number Field.tries_needed = refl
field_at-field_number Field.tries_now = refl
field_at-field_number Field.alarm_ftd = refl
field_at-field_number Field.abort = refl
field_at-field_number Field.abort_inhibit = refl
field_at-field_number Field.flags = refl
field_at-field_number Field.mask = refl
field_at-field_number Field.units = refl
field_at-field_number Field.empty = refl

same_number : (f g : Field) → field_eq f g ≡ true → field_number f ≡ field_number g
unfolding field_eq
same_number f g h = ground arith

field_eq-same : (f g : Field) → field_eq f g ≡ true → f ≡ g
unfolding field_eq
field_eq-same f g h =
    sym (field_at-field_number f)
    ∙ ap (λ n. field_at n (Field.empty ∷ all_fields)) (same_number f g h)
    ∙ field_at-field_number g

same_option : (d : Option Field) (f : Field) → same_field d f ≡ true → d ≡ some f
unfolding same_field
same_option none f h = cc
same_option (some d) f h = ap some (field_eq-same d f h)

default_same :
    (p : Property) (f : Field)
    → same_field (get_default_field p) f ≡ true
    → get_default_field p ≡ some f
unfolding same_field
default_same p f h = same_option (get_default_field p) f h

pub written-default :
    (p : Property) (f : Option Field)
    → is_known p f ≡ true
    → or_option (written p f) (get_default_field p) ≡ f
unfolding or_option written is_known same_field
written-default p none h = ground arith
written-default p (some f) h = ground (arith, default_same p f)

pub written-IsWritten :
    (p : Property) (f : Option Field) → is_known p f ≡ true → is_written (written p f) ≡ true
unfolding is_written written is_known
written-IsWritten p none h = refl
written-IsWritten p (some f) h = ground arith
