-- ===== src/Digital/Arrays.antt =====
-- `from_bit_arrays` of pacsys/digital_status.py.
use pacsys.Prelude.{
  ℕ, zero, suc, ◌^◌, bit_and, Bool, true, false, not, ◌&&◌, List, [], ◌∷◌, ◌==◌, if◌then◌else◌,
  length, Text, get_or, max,
}
use pacsys.Digital.Status.{DigitalStatus, StatusBit, infer_legacy_from_bits}

abbrev pub is_empty : Text → Bool
is_empty [] = true
is_empty (c ∷ cs) = false

-- `raw_value & (1 << i)`, as a truth value.
unfoldable pub bit_of : ℕ → ℕ → Bool
bit_of raw i = not (bit_and raw (2 ^ i) == 0)

unfoldable pub with_bit : ℕ → ℕ → Text → Text → List StatusBit → List StatusBit
unfolding bit_of
with_bit raw i name value rest =
    if is_empty name && is_empty value
    then rest
    else record { position = i; name = name; value = value; is_set = bit_of raw i } ∷ rest

unfoldable pub bit_loop : ℕ → List Text → List Text → ℕ → ℕ → List StatusBit
unfolding with_bit
bit_loop raw names values zero i = []
bit_loop raw names values (suc n) i =
    with_bit raw i (get_or names i []) (get_or values i []) (bit_loop raw names values n (suc i))

-- `from_bit_arrays`.
unfoldable pub from_bit_arrays : Text → ℕ → List Text → List Text → DigitalStatus
unfolding bit_loop infer_legacy_from_bits
from_bit_arrays device raw_value bit_names bit_values =
    let bits =
      bit_loop raw_value bit_names bit_values (max (length bit_names) (length bit_values)) 0 in
    record {
      device = device;
      raw_value = raw_value;
      bits = bits;
      legacy = infer_legacy_from_bits bits;
    }
