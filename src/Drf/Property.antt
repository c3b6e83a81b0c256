-- ===== src/Drf/Property.antt =====
-- pacsys/drf3/property.py: the properties of a device, their qualifier characters and aliases.
use pacsys.Prelude.{
  value_error, upper, text_eq, index_error, ℕ, Bool, Option, none, some, List, [], ◌∷◌, ◌==◌,
  if◌then◌else◌, Result, ok, err, Text, codes,
}

-- `DRF_PROPERTY`.
pub data Property : Type 0 where
  reading setting status control analog digital description index long_name alarm_list_name
        bit_status :
      Property

-- The member's value: the qualifier character, if there is one.
abbrev pub qualifier : Property → Option ℕ
qualifier reading = some b':'
qualifier setting = some b'_'
qualifier status = some b'|'
qualifier control = some b'&'
qualifier analog = some b'@'
qualifier digital = some b'$'
qualifier description = some b'~'
qualifier index = some b'^'
qualifier long_name = some b'#'
qualifier alarm_list_name = some b'!'
qualifier bit_status = none

-- The member's name.
abbrev pub property_name : Property → Text
property_name reading = codes "READING"
property_name setting = codes "SETTING"
property_name status = codes "STATUS"
property_name control = codes "CONTROL"
property_name analog = codes "ANALOG"
property_name digital = codes "DIGITAL"
property_name description = codes "DESCRIPTION"
property_name index = codes "INDEX"
property_name long_name = codes "LONG_NAME"
property_name alarm_list_name = codes "ALARM_LIST_NAME"
property_name bit_status = codes "BIT_STATUS"

abbrev property_number : Property → ℕ
property_number reading = 0
property_number setting = 1
property_number status = 2
property_number control = 3
property_number analog = 4
property_number digital = 5
property_number description = 6
property_number index = 7
property_number long_name = 8
property_number alarm_list_name = 9
property_number bit_status = 10

unfoldable pub property_eq : Property → Property → Bool
property_eq p q = property_number p == property_number q

-- A dictionary with text keys, as its items in order.
unfoldable pub find {ℓ} : {A : Type ℓ} → Text → List (Text × A) → Option A
unfolding text_eq
find k [] = none
find k ((j, v) ∷ m) = if text_eq j k then some v else find k m

-- `DRF_PROPERTY_ALIASES`.
abbrev property_aliases : List (Text × Property)
property_aliases =
    (codes "READING", reading)
    ∷ (codes "READ", reading)
    ∷ (codes "PRREAD", reading)
    ∷ (codes "SETTING", setting)
    ∷ (codes "SET", setting)
    ∷ (codes "PRSET", setting)
    ∷ (codes "STATUS", status)
    ∷ (codes "BASIC_STATUS", status)
    ∷ (codes "STS", status)
    ∷ (codes "PRBSTS", status)
    ∷ (codes "CONTROL", control)
    ∷ (codes "BASIC_CONTROL", control)
    ∷ (codes "CTRL", control)
    ∷ (codes "PRBCTL", control)
    ∷ (codes "ANALOG", analog)
    ∷ (codes "ANALOG_ALARM", analog)
    ∷ (codes "AA", analog)
    ∷ (codes "PRANAB", analog)
    ∷ (codes "DIGITAL", digital)
    ∷ (codes "DIGITAL_ALARM", digital)
    ∷ (codes "DA", digital)
    ∷ (codes "PRDABL", digital)
    ∷ (codes "DESCRIPTION", description)
    ∷ (codes "DESC", description)
    ∷ (codes "PRDESC", description)
    ∷ (codes "INDEX", index)
    ∷ (codes "IDX", index)
    ∷ (codes "PRIDX", index)
    ∷ (codes "LONG_NAME", long_name)
    ∷ (codes "LNGNAM", long_name)
    ∷ (codes "PRLNAM", long_name)
    ∷ (codes "ALARM_LIST_NAME", alarm_list_name)
    ∷ (codes "LSTNAM", alarm_list_name)
    ∷ (codes "PRALNM", alarm_list_name)
    ∷ (codes "BIT_STATUS", bit_status)
    ∷ (codes "BITSTATUS", bit_status)
    ∷ []

-- `raw_string.upper() in DRF_PROPERTY_ALIASES`, with the entry that is found.
unfoldable pub property_alias : Text → Option Property
unfolding find upper
property_alias raw = find (upper raw) property_aliases

abbrev pub or_value_error {ℓ} : {A : Type ℓ} → Option A → Result A
or_value_error none = err value_error
or_value_error (some a) = ok a

-- `parse_property`.
unfoldable parse_property : Text → Result Property
unfolding property_alias
parse_property raw = or_value_error (property_alias raw)

-- `DRF_PROPERTY(char)` for a qualifier character.
unfoldable of_qualifier : ℕ → Option Property
of_qualifier c =
    if c == b':'
    then some reading
    else if c == b'_'
    then some setting
    else if c == b'|'
    then some status
    else if c == b'&'
    then some control
    else if c == b'@'
    then some analog
    else if c == b'$'
    then some digital
    else if c == b'~'
    then some description
    else if c == b'^'
    then some index
    else if c == b'#'
    then some long_name
    else if c == b'!'
    then some alarm_list_name
    else none

-- `get_default_property`: the second character of the request, if it has more than two.
unfoldable pub get_default_property : Text → Result Property
unfolding of_qualifier
get_default_property (a ∷ c ∷ d ∷ rest) = elim (of_qualifier c) [
  | none ↦ ok reading
  | some p ↦ ok p
]
get_default_property (a ∷ c ∷ []) = ok reading
get_default_property _ = err index_error
