-- ===== src/Alarm/Runs.antt =====
-- Concrete runs, and the theorems at concrete inputs.
use pacsys.Prelude.{
  ℕ, ◌^◌, ◌≡◌, refl, ◌⊎◌, true, false, none, some, List, [], ◌∷◌, arith, ok, ◌>>=◌, text_eq,
}
use pacsys.Prelude.Int.{pos}
use pacsys.Alarm.Ftd.{from_word, to_word}
use pacsys.Alarm.Block.{
  pack, AlarmBlock, Key, Structured, boolean, number, from_bytes, to_bytes, unpack,
}
use pacsys.Alarm.RoundTrip.{from_bytes-to_bytes, to_bytes-from_bytes}
use pacsys.Alarm.Flags.{get_flag, set_flag, data_length}
use pacsys.Alarm.Flags.Laws.{get_flag-set_flag}
use pacsys.Alarm.Modify.{digital, Backend, done, fields, exit, enter, write_fields, collect}
use pacsys.Alarm.Modify.Loss.{entered, edit, exit_unchanged, exit_loses_edit}

-- A digital alarm block: two bytes of data, nominal 0x00FF, mask 0xFFFF, two tries, event 0x0F.
abbrev block_bytes : List ℕ
block_bytes =
    0xA1 ∷ 0x00 ∷ 0xFF ∷ 0x00 ∷ 0x00 ∷ 0x00 ∷ 0xFF ∷ 0xFF ∷ 0x00 ∷ 0x00 ∷ 0x00 ∷ 0x02 ∷ 0x0F ∷ 0x80
    ∷ 0x00 ∷ 0x00 ∷ 0x00 ∷ 0x00 ∷ 0x00 ∷ 0x00 ∷ []

abbrev values : Structured
values Key.nominal = some (number (pos 0xFF))
values Key.mask = some (number (pos 0xFFFF))
values Key.alarm_enable = some (boolean true)
values Key.abort = some (boolean false)
values Key.abort_inhibit = some (boolean false)
values Key.tries_needed = some (number (pos 2))
values _ = none

abbrev accepting : Backend
accepting = record { accepts = λ w. true; fresh = none }

abbrev block : AlarmBlock
block = entered block_bytes (some values)

-- `alarm.nominal = 5` is written as the nominal value that was read.
nominal_write :
    exit accepting digital (edit block (5 ∷ 0 ∷ 0 ∷ 0 ∷ []) block.value2_raw 2) block_bytes ≡ (
      done,
      fields
            (number (pos 0xFF))
            (number (pos 0xFFFF))
            (boolean true)
            (boolean false)
            (boolean false)
            (number (pos 2))
          ∷ [],
    )
unfolding exit unpack text_eq to_bytes from_bytes pack data_length to_word
nominal_write = refl

raw_block : AlarmBlock
unfolding unpack from_word
raw_block = unpack block_bytes

from_bytes-to_bytes_example : (to_bytes raw_block >>= from_bytes) ≡ ok raw_block
unfolding raw_block
from_bytes-to_bytes_example = from_bytes-to_bytes raw_block (record {
  flags_lt = omega arith;
  value1_size = refl;
  value2_size = refl;
  needed_lt = omega arith;
  now_lt = omega arith;
  ftd_fits = omega arith;
  fe_size = refl;
  no_structured = refl;
  no_initial = refl;
})

to_bytes-from_bytes_example : (from_bytes block_bytes >>= to_bytes) ≡ ok block_bytes
to_bytes-from_bytes_example = to_bytes-from_bytes block_bytes (omega arith) (omega arith)

get_flag-set_flag_example :
    get_flag (set_flag raw_block (2 ^ 2) true) (2 ^ 3) ≡ get_flag raw_block (2 ^ 3)
get_flag-set_flag_example = get_flag-set_flag raw_block 2 3 true

exit_unchanged_example :
    (enter block_bytes (some values) ≡ ok block)
    × (exit accepting digital block block_bytes ≡ (done, []))
exit_unchanged_example =
    exit_unchanged accepting digital block_bytes (some values) (omega arith) refl

exit_loses_edit_example :
    (exit accepting digital (edit block (5 ∷ 0 ∷ 0 ∷ 0 ∷ []) block.value2_raw 2) block_bytes
      ≡ (done, []))
    ⊎ (exit accepting digital (edit block (5 ∷ 0 ∷ 0 ∷ 0 ∷ []) block.value2_raw 2) block_bytes
        ≡ write_fields accepting (collect values Key.nominal Key.mask))
exit_loses_edit_example =
    exit_loses_edit accepting digital block_bytes values (5 ∷ 0 ∷ 0 ∷ 0 ∷ []) block.value2_raw 2
      (omega arith) refl (omega arith)
