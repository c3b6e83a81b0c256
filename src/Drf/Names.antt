-- ===== src/Drf/Names.antt =====
-- The names of properties and fields are words that the parser reads back.
use pacsys.Prelude.{◌≡◌, refl, true, false, some, ok, to_upper, is_word, every, upper, text_eq}
use pacsys.Drf.Property.{Property, find, property_alias, property_name}
use pacsys.Drf.Field.{Field, field_eq, field_name, parse_field}
use pacsys.Drf.Pattern.Search.{is_run}

pub property_alias-property_name : (p : Property) → property_alias (property_name p) ≡ some p
unfolding property_alias find upper to_upper text_eq
property_alias-property_name Property.reading = refl
property_alias-property_name Property.setting = refl
property_alias-property_name Property.status = refl
property_alias-property_name Property.control = refl
property_alias-property_name Property.analog = refl
property_alias-property_name Property.digital = refl
property_alias-property_name Property.description = refl
property_alias-property_name Property.index = refl
property_alias-property_name Property.long_name = refl
property_alias-property_name Property.alarm_list_name = refl
property_alias-property_name Property.bit_status = refl

pub property_name-word : (p : Property) → is_run is_word (property_name p) ≡ true
unfolding is_run every
property_name-word Property.reading = refl
property_name-word Property.setting = refl
property_name-word Property.status = refl
property_name-word Property.control = refl
property_name-word Property.analog = refl
property_name-word Property.digital = refl
property_name-word Property.description = refl
property_name-word Property.index = refl
property_name-word Property.long_name = refl
property_name-word Property.alarm_list_name = refl
property_name-word Property.bit_status = refl

pub field_name-word : (f : Field) → is_run is_word (field_name f) ≡ true
unfolding is_run every
field_name-word Field.raw = refl
field_name-word Field.primary = refl
field_name-word Field.volts = refl
field_name-word Field.scaled = refl
field_name-word Field.common = refl
field_name-word Field.all = refl
field_name-word Field.text = refl
field_name-word Field.extended_text = refl
field_name-word Field.on = refl
field_name-word Field.ready = refl
field_name-word Field.remote = refl
field_name-word Field.positive = refl
field_name-word Field.ramp = refl
field_name-word Field.bit_value = refl
field_name-word Field.bit_names = refl
field_name-word Field.bit_values = refl
field_name-word Field.min = refl
field_name-word Field.max = refl
field_name-word Field.nom = refl
field_name-word Field.tol = refl
field_name-word Field.raw_min = refl
field_name-word Field.raw_max = refl
field_name-word Field.raw_nom = refl
field_name-word Field.raw_tol = refl
field_name-word Field.alarm_enable = refl
field_name-word Field.alarm_status = refl
field_name-word Field.tries_needed = refl
field_name-word Field.tries_now = refl
field_name-word Field.alarm_ftd = refl
field_name-word Field.abort = refl
field_name-word Field.abort_inhibit = refl
field_name-word Field.flags = refl
field_name-word Field.mask = refl
field_name-word Field.units = refl
field_name-word Field.empty = refl

-- The name of every field but the empty one is read back.
pub parse_field-field_name :
    (f : Field) → field_eq f Field.empty ≡ false → parse_field (upper (field_name f)) ≡ ok f
unfolding parse_field find upper to_upper text_eq field_eq
parse_field-field_name Field.raw h = refl
parse_field-field_name Field.primary h = refl
parse_field-field_name Field.volts h = refl
parse_field-field_name Field.scaled h = refl
parse_field-field_name Field.common h = refl
parse_field-field_name Field.all h = refl
parse_field-field_name Field.text h = refl
parse_field-field_name Field.extended_text h = refl
parse_field-field_name Field.on h = refl
parse_field-field_name Field.ready h = refl
parse_field-field_name Field.remote h = refl
parse_field-field_name Field.positive h = refl
parse_field-field_name Field.ramp h = refl
parse_field-field_name Field.bit_value h = refl
parse_field-field_name Field.bit_names h = refl
parse_field-field_name Field.bit_values h = refl
parse_field-field_name Field.min h = refl
parse_field-field_name Field.max h = refl
parse_field-field_name Field.nom h = refl
parse_field-field_name Field.tol h = refl
parse_field-field_name Field.raw_min h = refl
parse_field-field_name Field.raw_max h = refl
parse_field-field_name Field.raw_nom h = refl
parse_field-field_name Field.raw_tol h = refl
parse_field-field_name Field.alarm_enable h = refl
parse_field-field_name Field.alarm_status h = refl
parse_field-field_name Field.tries_needed h = refl
parse_field-field_name Field.tries_now h = refl
parse_field-field_name Field.alarm_ftd h = refl
parse_field-field_name Field.abort h = refl
parse_field-field_name Field.abort_inhibit h = refl
parse_field-field_name Field.flags h = refl
parse_field-field_name Field.mask h = refl
parse_field-field_name Field.units h = refl
parse_field-field_name Field.empty h = cc
