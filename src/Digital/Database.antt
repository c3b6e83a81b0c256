-- ===== src/Digital/Database.antt =====
-- `from_devdb_bits` of pacsys/digital_status.py.
use pacsys.Prelude.{
  ℕ, zero, suc, ◌-◌, ◌/◌, bit_and, Bool, true, false, not, ◌||◌, List, [], ◌∷◌, ◌++◌, ltb, leb,
  ◌==◌, if◌then◌else◌, Text, codes,
}
use pacsys.Prelude.Bits.{and_not}
use pacsys.Prelude.Decimal.{decimal}
use pacsys.Digital.Status.{DigitalStatus, StatusBit, infer_legacy_from_bits}
use pacsys.Digital.Arrays.{bit_of, is_empty}

-- `StatusBitDef` and `ExtStatusBitDef` of pacsys/devdb.py, with what the status reads of them.
pub record StatusBitDef : Type 0 where
  pub mask : ℕ
  pub pattern_value : ℕ
  pub invert : Bool
  pub short_name : Text
  pub true_str : Text
  pub false_str : Text

pub record ExtStatusBitDef : Type 0 where
  pub bit_no : ℕ
  pub description : Text
  pub name_0 : Text
  pub name_1 : Text

abbrev xor : Bool → Bool → Bool
xor true b = not b
xor false b = b

unfoldable length_loop : ℕ → ℕ → ℕ
length_loop zero n = 0
length_loop (suc fuel) n = let rest = length_loop fuel (n / 2) in if n == 0 then 0 else suc rest

-- `int.bit_length`.
unfoldable bit_length : ℕ → ℕ
unfolding length_loop
bit_length n = length_loop n n

-- `mask & -mask` is `mask & ~(mask - 1)` for a positive mask.
unfoldable bit_position : ℕ → ℕ → ℕ
unfolding bit_length
bit_position mask i = if ltb 0 mask then bit_length (and_not mask (mask - 1)) - 1 else i

unfoldable defined_bit : ℕ → ℕ → StatusBitDef → StatusBit
unfolding bit_position
defined_bit raw i d =
    let is_active = xor (bit_and raw d.mask == d.pattern_value) d.invert in
    record {
      position = bit_position d.mask i;
      name = d.short_name;
      value = if is_active then d.true_str else d.false_str;
      is_set = is_active;
    }

unfoldable pub defined_bits : ℕ → ℕ → List StatusBitDef → List StatusBit
unfolding defined_bit
defined_bits raw i [] = []
defined_bits raw i (d ∷ ds) = defined_bit raw i d ∷ defined_bits raw (suc i) ds

unfoldable pub extended_bit : ℕ → ExtStatusBitDef → StatusBit
unfolding bit_of decimal
extended_bit raw d = record {
  position = d.bit_no;
  name = if is_empty d.description then codes "bit" ++ decimal d.bit_no else d.description;
  value = if bit_of raw d.bit_no then d.name_1 else d.name_0;
  is_set = bit_of raw d.bit_no;
}

abbrev pub is_covered : ℕ → List StatusBit → Bool
is_covered k [] = false
is_covered k (b ∷ bs) = b.position == k || is_covered k bs

-- The extended bits at positions that the others leave open.
unfoldable pub uncovered_bits : ℕ → List StatusBit → List ExtStatusBitDef → List StatusBit
unfolding extended_bit
uncovered_bits raw bits [] = []
uncovered_bits raw bits (d ∷ ds) =
    let rest = uncovered_bits raw bits ds in
    if is_covered d.bit_no bits then rest else extended_bit raw d ∷ rest

-- `list.sort` by position, which keeps the order of equal ones.
unfoldable pub insert_bit : StatusBit → List StatusBit → List StatusBit
insert_bit b [] = b ∷ []
insert_bit b (c ∷ cs) =
    let later = insert_bit b cs in if leb b.position c.position then b ∷ c ∷ cs else c ∷ later

unfoldable pub sort_bits : List StatusBit → List StatusBit
unfolding insert_bit
sort_bits [] = []
sort_bits (b ∷ bs) = insert_bit b (sort_bits bs)

-- `from_devdb_bits`; no extended definitions are an empty list.
unfoldable pub from_devdb_bits : Text → ℕ → List StatusBitDef → List ExtStatusBitDef → DigitalStatus
unfolding defined_bits uncovered_bits sort_bits infer_legacy_from_bits
from_devdb_bits device raw_value bit_defs ext_bit_defs =
    let main = defined_bits raw_value 0 bit_defs in
    let bits = sort_bits (main ++ uncovered_bits raw_value main ext_bit_defs) in
    record {
      device = device;
      raw_value = raw_value;
      bits = bits;
      legacy = infer_legacy_from_bits bits;
    }
