-- ===== src/Drf/Field.antt =====
-- pacsys/drf3/field.py: the fields of a property, their aliases and the tables by property.
use pacsys.Prelude.{ℕ, Bool, Option, none, some, List, [], ◌∷◌, ◌==◌, Result, Text, codes, upper}
use pacsys.Drf.Property.{Property, find, or_value_error}

-- `DRF_FIELD`.
pub data Field : Type 0 where
  raw primary volts scaled common all text extended_text : Field
  on ready remote positive ramp bit_value bit_names bit_values : Field
  min max nom tol raw_min raw_max raw_nom raw_tol : Field
  alarm_enable alarm_status tries_needed tries_now alarm_ftd abort abort_inhibit flags : Field
  mask units empty : Field

-- The member's name.
abbrev pub field_name : Field → Text
field_name Field.raw = codes "RAW"
field_name Field.primary = codes "PRIMARY"
field_name Field.volts = codes "VOLTS"
field_name Field.scaled = codes "SCALED"
field_name Field.common = codes "COMMON"
field_name Field.all = codes "ALL"
field_name Field.text = codes "TEXT"
field_name Field.extended_text = codes "EXTENDED_TEXT"
field_name Field.on = codes "ON"
field_name Field.ready = codes "READY"
field_name Field.remote = codes "REMOTE"
field_name Field.positive = codes "POSITIVE"
field_name Field.ramp = codes "RAMP"
field_name Field.bit_value = codes "BIT_VALUE"
field_name Field.bit_names = codes "BIT_NAMES"
field_name Field.bit_values = codes "BIT_VALUES"
field_name Field.min = codes "MIN"
field_name Field.max = codes "MAX"
field_name Field.nom = codes "NOM"
field_name Field.tol = codes "TOL"
field_name Field.raw_min = codes "RAW_MIN"
field_name Field.raw_max = codes "RAW_MAX"
field_name Field.raw_nom = codes "RAW_NOM"
field_name Field.raw_tol = codes "RAW_TOL"
field_name Field.alarm_enable = codes "ALARM_ENABLE"
field_name Field.alarm_status = codes "ALARM_STATUS"
field_name Field.tries_needed = codes "TRIES_NEEDED"
field_name Field.tries_now = codes "TRIES_NOW"
field_name Field.alarm_ftd = codes "ALARM_FTD"
field_name Field.abort = codes "ABORT"
field_name Field.abort_inhibit = codes "ABORT_INHIBIT"
field_name Field.flags = codes "FLAGS"
field_name Field.mask = codes "MASK"
field_name Field.units = codes "UNITS"
field_name Field.empty = codes "EMPTY"

abbrev pub field_number : Field → ℕ
field_number Field.raw = 1
field_number Field.primary = 2
field_number Field.volts = 3
field_number Field.scaled = 4
field_number Field.common = 5
field_number Field.all = 6
field_number Field.text = 7
field_number Field.extended_text = 8
field_number Field.on = 9
field_number Field.ready = 10
field_number Field.remote = 11
field_number Field.positive = 12
field_number Field.ramp = 13
field_number Field.bit_value = 14
field_number Field.bit_names = 15
field_number Field.bit_values = 16
field_number Field.min = 17
field_number Field.max = 18
field_number Field.nom = 19
field_number Field.tol = 20
field_number Field.raw_min = 21
field_number Field.raw_max = 22
field_number Field.raw_nom = 23
field_number Field.raw_tol = 24
field_number Field.alarm_enable = 25
field_number Field.alarm_status = 26
field_number Field.tries_needed = 27
field_number Field.tries_now = 28
field_number Field.alarm_ftd = 29
field_number Field.abort = 30
field_number Field.abort_inhibit = 31
field_number Field.flags = 32
field_number Field.mask = 33
field_number Field.units = 34
field_number Field.empty = 35

unfoldable pub field_eq : Field → Field → Bool
field_eq f g = field_number f == field_number g

-- `DRF_FIELD_ALIASES`.
abbrev field_aliases : List (Text × Field)
field_aliases =
    (codes "RAW", Field.raw)
    ∷ (codes "PRIMARY", Field.primary)
    ∷ (codes "VOLTS", Field.volts)
    ∷ (codes "SCALED", Field.scaled)
    ∷ (codes "COMMON", Field.common)
    ∷ (codes "ALL", Field.all)
    ∷ (codes "TEXT", Field.text)
    ∷ (codes "EXTENDED_TEXT", Field.extended_text)
    ∷ (codes "ON", Field.on)
    ∷ (codes "READY", Field.ready)
    ∷ (codes "REMOTE", Field.remote)
    ∷ (codes "POSITIVE", Field.positive)
    ∷ (codes "RAMP", Field.ramp)
    ∷ (codes "MIN", Field.min)
    ∷ (codes "MINIMUM", Field.min)
    ∷ (codes "MAX", Field.max)
    ∷ (codes "MAXIMUM", Field.max)
    ∷ (codes "NOM", Field.nom)
    ∷ (codes "NOMINAL", Field.nom)
    ∷ (codes "TOL", Field.tol)
    ∷ (codes "TOLERANCE", Field.tol)
    ∷ (codes "RAW_MIN", Field.raw_min)
    ∷ (codes "RAWMIN", Field.raw_min)
    ∷ (codes "RAW_MAX", Field.raw_max)
    ∷ (codes "RAWMAX", Field.raw_max)
    ∷ (codes "RAW_NOM", Field.raw_nom)
    ∷ (codes "RAWNOM", Field.raw_nom)
    ∷ (codes "RAW_TOL", Field.raw_tol)
    ∷ (codes "RAWTOL", Field.raw_tol)
    ∷ (codes "ALARM_ENABLE", Field.alarm_enable)
    ∷ (codes "ENABLE", Field.alarm_enable)
    ∷ (codes "ALARM_STATUS", Field.alarm_status)
    ∷ (codes "STATUS", Field.alarm_status)
    ∷ (codes "TRIES_NEEDED", Field.tries_needed)
    ∷ (codes "TRIES_NOW", Field.tries_now)
    ∷ (codes "ALARM_FTD", Field.alarm_ftd)
    ∷ (codes "FTD", Field.alarm_ftd)
    ∷ (codes "ABORT", Field.abort)
    ∷ (codes "ABORT_INHIBIT", Field.abort_inhibit)
    ∷ (codes "FLAGS", Field.flags)
    ∷ (codes "MASK", Field.mask)
    ∷ (codes "BIT_VALUE", Field.bit_value)
    ∷ (codes "BIT_NAMES", Field.bit_names)
    ∷ (codes "BIT_VALUES", Field.bit_values)
    ∷ (codes "UNITS", Field.units)
    ∷ []

-- `DEFAULT_FIELD_FOR_PROPERTY`, and `get_default_field`.
unfoldable pub get_default_field : Property → Option Field
get_default_field Property.reading = some Field.scaled
get_default_field Property.setting = some Field.scaled
get_default_field Property.status = none
get_default_field Property.control = none
get_default_field Property.analog = some Field.all
get_default_field Property.digital = some Field.all
get_default_field Property.description = none
get_default_field Property.index = none
get_default_field Property.long_name = none
get_default_field Property.alarm_list_name = none
get_default_field Property.bit_status = none

-- `ALLOWED_FIELD_FOR_PROPERTY`.
abbrev pub allowed_fields : Property → List Field
allowed_fields Property.reading =
    Field.raw ∷ Field.primary ∷ Field.scaled ∷ Field.min ∷ Field.max ∷ Field.units ∷ []
allowed_fields Property.setting =
    Field.raw ∷ Field.primary ∷ Field.scaled ∷ Field.min ∷ Field.max ∷ Field.units ∷ []
allowed_fields Property.status =
    Field.raw ∷ Field.all ∷ Field.text ∷ Field.extended_text ∷ Field.on ∷ Field.ready ∷ Field.remote
    ∷ Field.positive ∷ Field.ramp ∷ Field.bit_value ∷ Field.bit_names ∷ Field.bit_values ∷ []
allowed_fields Property.control = Field.raw ∷ Field.scaled ∷ []
allowed_fields Property.analog =
    Field.raw ∷ Field.all ∷ Field.text ∷ Field.min ∷ Field.max ∷ Field.nom ∷ Field.tol
    ∷ Field.raw_min ∷ Field.raw_max ∷ Field.raw_nom ∷ Field.raw_tol ∷ Field.alarm_enable
    ∷ Field.alarm_status ∷ Field.tries_needed ∷ Field.tries_now ∷ Field.alarm_ftd ∷ Field.abort
    ∷ Field.abort_inhibit ∷ Field.flags ∷ []
allowed_fields Property.digital =
    Field.raw ∷ Field.all ∷ Field.text ∷ Field.nom ∷ Field.mask ∷ Field.alarm_enable
    ∷ Field.alarm_status ∷ Field.tries_needed ∷ Field.tries_now ∷ Field.alarm_ftd ∷ Field.abort
    ∷ Field.abort_inhibit ∷ Field.flags ∷ []
allowed_fields Property.description = Field.scaled ∷ []
allowed_fields Property.index = Field.scaled ∷ []
allowed_fields Property.long_name = Field.scaled ∷ []
allowed_fields Property.alarm_list_name = Field.scaled ∷ []
allowed_fields Property.bit_status =
    Field.raw ∷ Field.all ∷ Field.text ∷ Field.on ∷ Field.ready ∷ Field.remote ∷ Field.positive
    ∷ Field.ramp ∷ Field.bit_value ∷ Field.bit_names ∷ Field.bit_values ∷ []

-- `parse_field`.
unfoldable pub parse_field : Text → Result Field
unfolding find upper
parse_field s = or_value_error (find (upper s) field_aliases)
