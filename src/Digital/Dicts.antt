-- ===== src/Digital/Dicts.antt =====
-- `from_status_dict` of pacsys/digital_status.py.
use pacsys.Prelude.{
  ℕ, suc, Bool, true, false, not, Option, none, some, List, [], ◌∷◌, if◌then◌else◌, Text, codes,
  text_eq,
}
use pacsys.Digital.Status.{
  DigitalStatus, LegacyKey, StatusBit, infer_legacy_from_bits, is_member, legacy_keys, lower,
  reconstruct_raw, strip,
}

abbrev false_patterns : List Text
false_patterns =
    codes "no"
    ∷ codes "off"
    ∷ codes "false"
    ∷ codes "tripped"
    ∷ codes "trip"
    ∷ codes "local"
    ∷ codes "negative"
    ∷ codes "minus"
    ∷ codes "dc"
    ∷ codes "0"
    ∷ []
    ∷ []

-- `_text_is_true`.
unfoldable pub text_is_true : Text → Bool
unfolding lower strip
text_is_true t = not (is_member (lower (strip t)) false_patterns)

-- A basic status: Boolean values by lower-case keys, or texts by labels.
pub data StatusDict : Type 0 where
  flags : List (Text × Bool) → StatusDict
  labels : List (Text × Text) → StatusDict

unfoldable flag_of : Text → List (Text × Bool) → Option Bool
unfolding text_eq
flag_of key [] = none
flag_of key ((k, b) ∷ rest) =
    let later = flag_of key rest in if text_eq k key then some b else later

abbrev key_text : LegacyKey → Text
key_text LegacyKey.on = codes "on"
key_text LegacyKey.ready = codes "ready"
key_text LegacyKey.remote = codes "remote"
key_text LegacyKey.positive = codes "positive"
key_text LegacyKey.ramp = codes "ramp"

-- `key.capitalize()`.
abbrev key_label : LegacyKey → Text
key_label LegacyKey.on = codes "On"
key_label LegacyKey.ready = codes "Ready"
key_label LegacyKey.remote = codes "Remote"
key_label LegacyKey.positive = codes "Positive"
key_label LegacyKey.ramp = codes "Ramp"

abbrev bool_text : Bool → Text
bool_text true = codes "True"
bool_text false = codes "False"

unfoldable flag_bit : ℕ → LegacyKey → Option Bool → List StatusBit → List StatusBit
flag_bit i k none rest = rest
flag_bit i k (some b) rest =
    record { position = i; name = key_label k; value = bool_text b; is_set = b } ∷ rest

unfoldable flag_bits : List (Text × Bool) → ℕ → List LegacyKey → List StatusBit
unfolding flag_bit flag_of
flag_bits d i [] = []
flag_bits d i (k ∷ ks) = flag_bit i k (flag_of (key_text k) d) (flag_bits d (suc i) ks)

abbrev raw_or : Option ℕ → ℕ → ℕ
raw_or none n = n
raw_or (some raw) n = raw

-- `_from_legacy_dict`.
unfoldable from_legacy_dict : Text → List (Text × Bool) → Option ℕ → DigitalStatus
unfolding flag_of flag_bits reconstruct_raw
from_legacy_dict device d raw_value =
    let bits = flag_bits d 0 legacy_keys in
    record {
      device = device;
      raw_value = raw_or raw_value (reconstruct_raw bits);
      bits = bits;
      legacy = record {
        on_value = flag_of (key_text LegacyKey.on) d;
        ready_value = flag_of (key_text LegacyKey.ready) d;
        remote_value = flag_of (key_text LegacyKey.remote) d;
        positive_value = flag_of (key_text LegacyKey.positive) d;
        ramp_value = flag_of (key_text LegacyKey.ramp) d;
      };
    }

unfoldable label_bits : ℕ → List (Text × Text) → List StatusBit
unfolding text_is_true
label_bits i [] = []
label_bits i ((name, value) ∷ rest) =
    record { position = i; name = name; value = value; is_set = text_is_true value }
    ∷ label_bits (suc i) rest

-- `_from_grpc_dict`.
unfoldable from_grpc_dict : Text → List (Text × Text) → Option ℕ → DigitalStatus
unfolding label_bits reconstruct_raw infer_legacy_from_bits
from_grpc_dict device d raw_value =
    let bits = label_bits 0 d in
    record {
      device = device;
      raw_value = raw_or raw_value (reconstruct_raw bits);
      bits = bits;
      legacy = infer_legacy_from_bits bits;
    }

-- `from_status_dict`.
unfoldable pub from_status_dict : Text → StatusDict → Option ℕ → DigitalStatus
unfolding from_legacy_dict from_grpc_dict
from_status_dict device (flags []) raw_value = from_grpc_dict device [] raw_value
from_status_dict device (flags (f ∷ fs)) raw_value = from_legacy_dict device (f ∷ fs) raw_value
from_status_dict device (labels d) raw_value = from_grpc_dict device d raw_value
