-- ===== src/Digital/Runs.antt =====
-- Concrete runs, and the theorems at concrete inputs.
use pacsys.Prelude.{
  ℕ, zero, suc, ◌+◌, ◌-◌, ◌*◌, ◌/◌, ◌%◌, ◌^◌, ◌≤◌, ◌<◌, bit_and, bit_or, ◌≡◌, refl, sym, ap, ◌∙◌,
  ◌≢◌, ◌↔◌, ◌⊎◌, inl, inr, Bool, true, false, not, ◌&&◌, ◌||◌, Option, none, some, List, [], ◌∷◌,
  ◌++◌, map, append-nil, append_assoc, arith, ltb, leb, ◌==◌, if◌then◌else◌, Bool-cases, Result, ok,
  err, ◌>>=◌, ◌>>◌, guard, length, Text, codes, index_error, key_error, get_or,
}
use pacsys.Prelude.Bits.{testbit}
use pacsys.Digital.Status.{BitKey, StatusBit, at_position, get_item, reconstruct_raw}
use pacsys.Digital.Arrays.{from_bit_arrays, is_empty}
use pacsys.Digital.Database.{ExtStatusBitDef, StatusBitDef, defined_bits, from_devdb_bits}
use pacsys.Digital.Dicts.{StatusDict, from_status_dict, text_is_true}
use pacsys.Digital.Lookup.{described, get_item-from_bit_arrays}
use pacsys.Digital.Raw.{reconstruct_raw-from_bit_arrays}
use pacsys.Digital.Sorted.{IsSorted, extended_bits, from_devdb_bits-IsSorted, or_else}

abbrev names : List Text
names = codes "On" ∷ codes "Ready" ∷ [] ∷ codes "Polarity" ∷ []

abbrev values : List Text
values = codes "No" ∷ codes "Yes" ∷ [] ∷ []

get_item-from_bit_arrays_example :
    get_item (from_bit_arrays (codes "Z:ACLTST") 6 names values) (BitKey.by_position 2)
    ≡ described 6 names values 2
get_item-from_bit_arrays_example = get_item-from_bit_arrays (codes "Z:ACLTST") 6 names values 2

undefined_bit : described 6 names values 2 ≡ err index_error
undefined_bit = refl

reconstruct_raw-from_bit_arrays_example :
    testbit 1 (reconstruct_raw (from_bit_arrays (codes "Z:ACLTST") 6 names values).bits)
    ≡ (if is_empty (get_or names 1 []) && is_empty (get_or values 1 []) then 0 else testbit 1 6)
reconstruct_raw-from_bit_arrays_example =
    reconstruct_raw-from_bit_arrays (codes "Z:ACLTST") 6 names values 1

-- Of the word 6, bit 2 has neither a name nor a text.
rebuilt : reconstruct_raw (from_bit_arrays (codes "Z:ACLTST") 6 names values).bits ≡ 2
unfolding reconstruct_raw from_bit_arrays
rebuilt = refl

abbrev status_defs : List StatusBitDef
status_defs =
    record {
      mask = 8;
      pattern_value = 8;
      invert = false;
      short_name = codes "Polarity";
      true_str = codes "Plus";
      false_str = codes "Minus";
    }
    ∷ record {
      mask = 2;
      pattern_value = 0;
      invert = true;
      short_name = codes "Ready";
      true_str = codes "Yes";
      false_str = codes "Tripped";
    }
    ∷ []

abbrev extended_defs : List ExtStatusBitDef
extended_defs =
    record {
      bit_no = 1;
      description = codes "Interlock";
      name_0 = codes "ok";
      name_1 = codes "bad";
    }
    ∷ record { bit_no = 12; description = []; name_0 = codes "0"; name_1 = codes "1" }
    ∷ []

from_devdb_bits-IsSorted_example :
    let s = from_devdb_bits (codes "Z:ACLTST") 4098 status_defs extended_defs in
    IsSorted s.bits
    × (get_item s (BitKey.by_position 12)
        ≡ or_else
            (at_position 12 (defined_bits 4098 0 status_defs))
            (at_position 12 (extended_bits 4098 extended_defs)))
from_devdb_bits-IsSorted_example =
    from_devdb_bits-IsSorted (codes "Z:ACLTST") 4098 status_defs extended_defs 12

abbrev bit_positions : List StatusBit → List (ℕ × Text)
bit_positions bits = map (λ b. (b.position, b.value)) bits

devdb_bits :
    bit_positions (from_devdb_bits (codes "Z:ACLTST") 4098 status_defs extended_defs).bits
    ≡ (1, codes "Yes") ∷ (3, codes "Minus") ∷ (12, codes "1") ∷ []
unfolding from_devdb_bits
devdb_bits = refl

unnamed_bit :
    get_item
      (from_devdb_bits (codes "Z:ACLTST") 4098 status_defs extended_defs)
      (BitKey.by_name (codes "BIT12"))
    ≡ ok (record { position = 12; name = codes "bit12"; value = codes "1"; is_set = true })
unfolding from_devdb_bits get_item
unnamed_bit = refl

tripped_text : text_is_true (codes " Tripped ") ≡ false
unfolding text_is_true pacsys.Prelude.text_eq
tripped_text = refl

legacy_flags :
    (from_status_dict
      (codes "Z:ACLTST")
      (StatusDict.flags ((codes "on", true) ∷ (codes "ramp", true) ∷ []))
      none).raw_value
    ≡ 17
unfolding from_status_dict
legacy_flags = refl
