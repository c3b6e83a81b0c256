-- ===== src/Digital/Status.antt =====
-- `StatusBit` and `DigitalStatus` of pacsys/digital_status.py, with what is found and inferred from the bits.
use pacsys.Prelude.{
  ℕ, ◌+◌, ◌^◌, bit_or, Bool, false, ◌&&◌, ◌||◌, Option, none, some, List, [], ◌∷◌, map, leb, ◌==◌,
  if◌then◌else◌, Result, ok, err, Text, codes, key_error, index_error, text_eq, is_upper,
}

-- `str.lower` and `str.strip`.
unfoldable to_lower : ℕ → ℕ
to_lower c = if is_upper c then c + 32 else c

unfoldable pub lower : Text → Text
unfolding to_lower
lower = map to_lower

abbrev is_blank : ℕ → Bool
is_blank c = c == b' ' || leb 9 c && leb c 13 || leb 28 c && leb c 31

unfoldable left_stripped : Text → Text
left_stripped [] = []
left_stripped (c ∷ cs) = let rest = left_stripped cs in if is_blank c then rest else c ∷ cs

unfoldable right_stripped : Text → Text
right_stripped [] = []
right_stripped (c ∷ cs) = after (right_stripped cs)
  where
    after : Text → Text
    after [] = if is_blank c then [] else c ∷ []
    after (d ∷ ds) = c ∷ d ∷ ds

unfoldable pub strip : Text → Text
unfolding left_stripped right_stripped
strip s = right_stripped (left_stripped s)

pub record StatusBit : Type 0 where
  pub position : ℕ
  pub name : Text
  pub value : Text
  pub is_set : Bool

-- The legacy attributes, which a status may leave open.
pub data LegacyKey : Type 0 where
  on ready remote positive ramp : LegacyKey

pub record Legacy : Type 0 where
  pub on_value : Option Bool
  pub ready_value : Option Bool
  pub remote_value : Option Bool
  pub positive_value : Option Bool
  pub ramp_value : Option Bool

pub record DigitalStatus : Type 0 where
  pub device : Text
  pub raw_value : ℕ
  pub bits : List StatusBit
  pub legacy : Legacy

abbrev pub is_member : Text → List Text → Bool
is_member s [] = false
is_member s (t ∷ ts) = text_eq s t || is_member s ts

-- `_LEGACY_DISPLAY_NAMES`.
unfoldable display_names : LegacyKey → List Text
display_names LegacyKey.on = codes "on" ∷ codes "on/off" ∷ codes "pwr" ∷ codes "power" ∷ []
display_names LegacyKey.ready =
    codes "ready" ∷ codes "ready/tripped" ∷ codes "sts" ∷ codes "status" ∷ []
display_names LegacyKey.remote =
    codes "remote" ∷ codes "remote/local" ∷ codes "ctrl" ∷ codes "control" ∷ []
display_names LegacyKey.positive = codes "positive" ∷ codes "polarity" ∷ codes "pol" ∷ []
display_names LegacyKey.ramp = codes "ramp" ∷ codes "ramp/dc" ∷ codes "ref" ∷ codes "reference" ∷ []

abbrev pub legacy_keys : List LegacyKey
legacy_keys =
    LegacyKey.on ∷ LegacyKey.ready ∷ LegacyKey.remote ∷ LegacyKey.positive ∷ LegacyKey.ramp ∷ []

abbrev no_legacy : Legacy
no_legacy = record {
  on_value = none;
  ready_value = none;
  remote_value = none;
  positive_value = none;
  ramp_value = none;
}

unfoldable set_legacy : LegacyKey → Option Bool → Legacy → Legacy
set_legacy LegacyKey.on b l = record l { on_value = b }
set_legacy LegacyKey.ready b l = record l { ready_value = b }
set_legacy LegacyKey.remote b l = record l { remote_value = b }
set_legacy LegacyKey.positive b l = record l { positive_value = b }
set_legacy LegacyKey.ramp b l = record l { ramp_value = b }

-- The first key that has the name; a bit of no such name says nothing.
unfoldable infer_bit : Text → Bool → List LegacyKey → Legacy → Legacy
unfolding display_names set_legacy
infer_bit name b [] l = l
infer_bit name b (k ∷ ks) l =
    let later = infer_bit name b ks l in
    if is_member name (display_names k) then set_legacy k (some b) l else later

unfoldable infer_loop : List StatusBit → Legacy → Legacy
unfolding infer_bit lower strip
infer_loop [] l = l
infer_loop (b ∷ bs) l = infer_loop bs (infer_bit (lower (strip b.name)) b.is_set legacy_keys l)

-- `_infer_legacy_from_bits`.
unfoldable pub infer_legacy_from_bits : List StatusBit → Legacy
unfolding infer_loop
infer_legacy_from_bits bits = infer_loop bits no_legacy

unfoldable pub raw_loop : List StatusBit → ℕ → ℕ
raw_loop [] raw = raw
raw_loop (b ∷ bs) raw = raw_loop bs (if b.is_set then bit_or raw (2 ^ b.position) else raw)

-- `_reconstruct_raw`.
unfoldable pub reconstruct_raw : List StatusBit → ℕ
unfolding raw_loop
reconstruct_raw bits = raw_loop bits 0

-- `__getitem__`.
pub data BitKey : Type 0 where
  by_name : Text → BitKey
  by_position : ℕ → BitKey

unfoldable at_name : Text → List StatusBit → Result StatusBit
unfolding lower text_eq
at_name key [] = err key_error
at_name key (b ∷ bs) =
    let later = at_name key bs in if text_eq (lower b.name) key then ok b else later

unfoldable pub at_position : ℕ → List StatusBit → Result StatusBit
at_position k [] = err index_error
at_position k (b ∷ bs) = let later = at_position k bs in if b.position == k then ok b else later

unfoldable pub get_item : DigitalStatus → BitKey → Result StatusBit
unfolding at_name at_position lower
get_item s (by_name key) = at_name (lower key) s.bits
get_item s (by_position k) = at_position k s.bits

-- `get`, for a missing key; `__contains__` tests for it.
unfoldable get : DigitalStatus → BitKey → Option StatusBit
unfolding get_item
get s key = found_or_none (get_item s key)
  where
    found_or_none : Result StatusBit → Option StatusBit
    found_or_none (ok b) = some b
    found_or_none (err e) = none
