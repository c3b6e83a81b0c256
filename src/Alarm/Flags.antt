-- ===== src/Alarm/Flags.antt =====
-- The accessors of `AlarmBlock`, `AnalogAlarm` and `DigitalAlarm` in pacsys/alarm_block.py: single
-- flag bits, the two-bit fields, and the integers of a digital alarm. A setter that also writes the
-- structured dictionary does so here too.
pub mod Laws
use mathlib.Core.Option.{some}
use mathlib.Core.Option
use pacsys.Prelude.{
  zero, length, ◌-◌, overflow_error, replicate, err, ◌++◌, ◌*◌, ltb, ok, ◌+◌, ◌&&◌, ◌==◌, ◌^◌,
  ◌>>=◌, if◌then◌else◌, ◌%◌, suc, ◌/◌, bit_and, [], ◌∷◌, not, Result, Bool, List, take, bit_or, ℕ,
}
use pacsys.Prelude.Bits.{and_not}
use pacsys.Alarm.Block.{
  AlarmBlock, Key, StructValue, Structured, boolean, alarm_enable, abort, abort_inhibit,
}

-- `AlarmFlags`.
abbrev enable_flag : ℕ
enable_flag = 2 ^ 0

abbrev bad_flag : ℕ
bad_flag = 2 ^ 1

abbrev abort_flag : ℕ
abort_flag = 2 ^ 2

abbrev abort_inhibit_flag : ℕ
abort_inhibit_flag = 2 ^ 3

abbrev digital_flag : ℕ
digital_flag = 2 ^ 7

abbrev low_flag : ℕ
low_flag = 2 ^ 11

abbrev high_flag : ℕ
high_flag = 2 ^ 12

unfoldable pub get_flag : AlarmBlock → ℕ → Bool
get_flag b flag = not (bit_and b.flags flag == 0)

unfoldable pub set_flag : AlarmBlock → ℕ → Bool → AlarmBlock
set_flag b flag value = record b {
  flags = if value then bit_or b.flags flag else and_not b.flags flag;
}

abbrev key_number : Key → ℕ
key_number Key.minimum = 0
key_number Key.maximum = 1
key_number Key.nominal = 2
key_number Key.mask = 3
key_number Key.alarm_enable = 4
key_number Key.abort = 5
key_number Key.abort_inhibit = 6
key_number Key.tries_needed = 7

-- `if self._structured is not None: self._structured[key] = value`.
unfoldable set_structured : AlarmBlock → Key → StructValue → AlarmBlock
set_structured b key value = record b {
  structured =
      Option.map (λ (s : Structured) k. if key_number k == key_number key then some value else s k)
        b.structured;
}

unfoldable pub is_active : AlarmBlock → Bool
unfolding get_flag
is_active b = get_flag b enable_flag

unfoldable set_is_active : AlarmBlock → Bool → AlarmBlock
unfolding set_flag set_structured
set_is_active b value = set_structured (set_flag b enable_flag value) alarm_enable (boolean value)

unfoldable bypass : AlarmBlock → Bool
unfolding is_active
bypass b = not (is_active b)

unfoldable set_bypass : AlarmBlock → Bool → AlarmBlock
unfolding set_is_active
set_bypass b value = set_is_active b (not value)

unfoldable is_bad : AlarmBlock → Bool
unfolding get_flag
is_bad b = get_flag b bad_flag

unfoldable get_abort : AlarmBlock → Bool
unfolding get_flag
get_abort b = get_flag b abort_flag

unfoldable pub set_abort : AlarmBlock → Bool → AlarmBlock
unfolding set_flag set_structured
set_abort b value = set_structured (set_flag b abort_flag value) abort (boolean value)

unfoldable get_abort_inhibit : AlarmBlock → Bool
unfolding get_flag
get_abort_inhibit b = get_flag b abort_inhibit_flag

unfoldable pub set_abort_inhibit : AlarmBlock → Bool → AlarmBlock
unfolding set_flag set_structured
set_abort_inhibit b value =
    set_structured (set_flag b abort_inhibit_flag value) abort_inhibit (boolean value)

unfoldable pub abort_enabled : AlarmBlock → Bool
unfolding get_flag
abort_enabled b = get_flag b abort_flag && not (get_flag b abort_inhibit_flag)

unfoldable is_digital : AlarmBlock → Bool
unfolding get_flag
is_digital b = get_flag b digital_flag

unfoldable is_high : AlarmBlock → Bool
unfolding get_flag
is_high b = get_flag b high_flag

unfoldable is_low : AlarmBlock → Bool
unfolding get_flag
is_low b = get_flag b low_flag

-- `DataLength` and `LimitType`, with their integer values.
pub data DataLength : Type 0 where
  bytes_1 bytes_2 bytes_4 : DataLength

abbrev pub data_length_value : DataLength → ℕ
data_length_value bytes_1 = 0
data_length_value bytes_2 = 1
data_length_value bytes_4 = 2

pub data LimitType : Type 0 where
  nom_tol min_max : LimitType

abbrev pub limit_type_value : LimitType → ℕ
limit_type_value nom_tol = 0
limit_type_value min_max = 2

-- `DataLength(min(q, 2))`.
unfoldable pub data_length : AlarmBlock → DataLength
data_length b =
    let q = b.flags / 2 ^ 5 % 2 ^ 2 in
    if q == 0 then bytes_1 else if q == 1 then bytes_2 else bytes_4

unfoldable pub set_data_length : AlarmBlock → DataLength → AlarmBlock
set_data_length b value = record b {
  flags = bit_or (and_not b.flags 0x60) (data_length_value value % 2 ^ 2 * 2 ^ 5);
}

unfoldable pub data_bytes : AlarmBlock → ℕ
unfolding data_length
data_bytes b = elim (data_length b) [ bytes_1 ↦ 1 | bytes_2 ↦ 2 | bytes_4 ↦ 4 ]

unfoldable pub limit_type : AlarmBlock → LimitType
limit_type b = if b.flags / 2 ^ 8 % 2 ^ 2 == 2 then min_max else nom_tol

unfoldable pub set_limit_type : AlarmBlock → LimitType → AlarmBlock
set_limit_type b value = record b {
  flags = bit_or (and_not b.flags 0x300) (limit_type_value value % 2 ^ 2 * 2 ^ 8);
}

-- `int.from_bytes(raw, "little", signed=False)` and `value.to_bytes(n, "little", signed=False)`.
unfoldable pub from_little : List ℕ → ℕ
from_little [] = 0
from_little (b ∷ bs) = b + 256 * from_little bs

unfoldable pub little_bytes : ℕ → ℕ → List ℕ
little_bytes zero v = []
little_bytes (suc n) v = v % 256 ∷ little_bytes n (v / 256)

unfoldable pub to_little : ℕ → ℕ → Result (List ℕ)
unfolding little_bytes
to_little n v = if ltb v (256 ^ n) then ok (little_bytes n v) else err overflow_error

-- The value fields of `DigitalAlarm`: `data_bytes` bytes, padded to four.
unfoldable pub get_nominal : AlarmBlock → ℕ
unfolding data_bytes from_little
get_nominal b = from_little (take (data_bytes b) b.value1_raw)

unfoldable pub set_nominal : AlarmBlock → ℕ → Result AlarmBlock
unfolding data_bytes to_little
set_nominal b value = do
  packed ← to_little (data_bytes b) value
  ok (record b { value1_raw = packed ++ replicate (4 - length packed) 0 })

unfoldable get_mask : AlarmBlock → ℕ
unfolding data_bytes from_little
get_mask b = from_little (take (data_bytes b) b.value2_raw)

unfoldable pub set_mask : AlarmBlock → ℕ → Result AlarmBlock
unfolding data_bytes to_little
set_mask b value = do
  packed ← to_little (data_bytes b) value
  ok (record b { value2_raw = packed ++ replicate (4 - length packed) 0 })
