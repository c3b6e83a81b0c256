-- ===== src/Alarm/Modify.antt =====
-- `_AlarmModifyContext` of pacsys/alarm_block.py: which writes leave the context on a normal exit.
-- The backend is a parameter: whether a write succeeds, and the bytes of the read between the two
-- writes of the mixed case. The writes made are returned in order, also when one of them raises.
pub mod Loss
use pacsys.Prelude.{
  text_eq, ℕ, zero, suc, ◌+◌, ◌-◌, ◌*◌, ◌/◌, ◌%◌, ◌^◌, ◌≤◌, ◌<◌, min, max, bit_and, bit_or, ◌≡◌,
  refl, sym, ap, ◌∙◌, ◌≢◌, ◌↔◌, ◌⊎◌, inl, inr, Bool, true, false, not, ◌&&◌, ◌||◌, Option, none,
  some, List, [], ◌∷◌, ◌++◌, map, append-nil, append_assoc, arith, ltb, leb, ◌==◌, if◌then◌else◌,
  Bool-cases, Result, ok, err, ◌>>=◌, ◌>>◌, guard, length, Text, codes,
}
use pacsys.Prelude.Int.{ℤ, pos, eqb_ℤ}
use pacsys.Alarm.Ftd.{to_word}
use pacsys.Alarm.Block.{
  AlarmBlock, Key, StructValue, Structured, boolean, number, minimum, maximum, nominal, mask,
  alarm_enable, abort, abort_inhibit, tries_needed, from_bytes, to_bytes,
}
use pacsys.Alarm.Flags.{
  data_length, set_data_length, data_length_value, limit_type, set_limit_type, limit_type_value,
  DataLength, LimitType,
}

-- `AnalogAlarm` or `DigitalAlarm`.
pub data AlarmClass : Type 0 where
  analog digital : AlarmClass

-- The event with which a raw request was written.
pub data RawEvent : Type 0 where
  at_immediate at_never : RawEvent

-- A write: the raw block, or the six values of a structured dictionary in the order of the code.
pub data Write : Type 0 where
  raw : RawEvent → List ℕ → Write
  fields : StructValue → StructValue → StructValue → StructValue → StructValue → StructValue → Write

pub record Backend : Type 0 where
  -- `result.success` of a write
  pub accepts : Write → Bool
  -- what the read after the structured write returns, if it is bytes
  pub fresh : Option (List ℕ)

pub data Outcome : Type 0 where
  done : Outcome
  raised : Outcome

abbrev Exit : Type 0
Exit = Outcome × List Write

-- Python equality of two values: `True == 1` and `False == 0`.
abbrev as_number : StructValue → ℤ
as_number (boolean b) = if b then pos 1 else pos 0
as_number (number n) = n

abbrev pub get_eq : Option StructValue → Option StructValue → Bool
get_eq none none = true
get_eq none (some v) = false
get_eq (some v) none = false
get_eq (some v) (some w) = eqb_ℤ (as_number v) (as_number w)

-- `backend.write(...)`, and a `RuntimeError` unless it succeeded.
unfoldable perform : Backend → Write → Exit
perform be w = (if be.accepts w then done else raised, w ∷ [])

-- `s["..."]` of six keys, a `KeyError` on a missing one.
unfoldable pub collect : Structured → Key → Key → Option Write
collect s k l = elim (s k) [
  | none ↦ none
  | some a ↦ elim (s l) [
    | none ↦ none
    | some b ↦ elim (s alarm_enable) [
      | none ↦ none
      | some c ↦ elim (s abort) [
        | none ↦ none
        | some d ↦ elim (s abort_inhibit) [
          | none ↦ none
          | some e ↦ elim (s tries_needed) [ none ↦ none | some f ↦ some (fields a b c d e f) ]
        ]
      ]
    ]
  ]
]

unfoldable pub write_fields : Backend → Option Write → Exit
unfolding perform
write_fields be none = (raised, [])
write_fields be (some w) = perform be w

unfoldable write_raw : Backend → RawEvent → Result (List ℕ) → Exit
unfolding perform
write_raw be e (ok l) = perform be (raw e l)
write_raw be e (err x) = (raised, [])

abbrev pub first_key : AlarmClass → Key
first_key analog = minimum
first_key digital = nominal

abbrev pub second_key : AlarmClass → Key
second_key analog = maximum
second_key digital = mask

-- `_write_structured`; without structured values it falls back to the raw block.
unfoldable pub write_structured : Backend → AlarmClass → AlarmBlock → Exit
unfolding write_fields collect write_raw
write_structured be cls b = elim b.structured [
  | none ↦ write_raw be at_never (to_bytes b)
  | some s ↦ write_fields be (collect s (first_key cls) (second_key cls))
]

-- `eng_changed` and `struct_changed`.
unfoldable pub eng_changed : AlarmClass → AlarmBlock → Bool
eng_changed cls b = elim b.structured [
  | none ↦ false
  | some s ↦ elim b.initial_structured [
    | none ↦ false
    | some i ↦
        not (get_eq (s (first_key cls)) (i (first_key cls)))
        || not (get_eq (s (second_key cls)) (i (second_key cls)))
  ]
]

unfoldable pub struct_changed : AlarmBlock → Bool
struct_changed b = elim b.structured [
  | none ↦ false
  | some s ↦ elim b.initial_structured [
    | none ↦ false
    | some i ↦
        not (get_eq (s alarm_enable) (i alarm_enable))
        || (not (get_eq (s abort) (i abort))
            || (not (get_eq (s abort_inhibit) (i abort_inhibit))
                || not (get_eq (s tries_needed) (i tries_needed))))
  ]
]

-- `raw_only_changed`, against the block that was read; the limit type counts for analog alarms.
unfoldable pub differs_raw_only : AlarmClass → AlarmBlock → AlarmBlock → Bool
differs_raw_only cls b init =
    not (to_word b.ftd == to_word init.ftd)
    || (not (text_eq b.fe_data init.fe_data)
        || (not (data_length_value (data_length b) == data_length_value (data_length init))
            || elim cls [
              | analog ↦ not (limit_type_value (limit_type b) == limit_type_value (limit_type init))
              | digital ↦ false
            ]))

-- The user's raw-only fields on top of a block that was read again.
unfoldable patch : AlarmClass → AlarmBlock → AlarmBlock → AlarmBlock
unfolding set_data_length set_limit_type
patch cls b fresh =
    let p = set_data_length (record fresh { ftd = b.ftd; fe_data = b.fe_data }) (data_length b) in
    elim cls [ analog ↦ set_limit_type p (limit_type b) | digital ↦ p ]

-- What follows the structured write of the mixed case, unless that raised.
unfoldable write_patched : Backend → AlarmClass → AlarmBlock → List ℕ → Exit
unfolding write_raw patch
write_patched be cls b current_raw =
    elim (from_bytes (elim be.fresh [ none ↦ current_raw | some l ↦ l ])) [
      | ok f ↦ write_raw be at_immediate (to_bytes (patch cls b f))
      | err x ↦ (raised, [])
    ]

unfoldable and_then : Exit → Exit → Exit
and_then (done, ws) (o, vs) = (o, ws ++ vs)
and_then (raised, ws) _ = (raised, ws)

-- The four branches at the end of `__exit__`.
unfoldable pub choose :
    Backend → AlarmClass → AlarmBlock → List ℕ → Bool → Bool → Bool → Bool → Exit
unfolding write_structured write_patched and_then perform
choose be cls b current_raw raw_changed raw_only eng struct =
    if raw_only && (eng || struct)
    then and_then (write_structured be cls b) (write_patched be cls b current_raw)
    else if raw_only
    then perform be (raw at_never current_raw)
    else if eng || struct
    then write_structured be cls b
    else if raw_changed
    then write_structured be cls b
    else (done, [])

-- The rest of `__exit__` once the current bytes are known: the raw-only fields are compared only if
-- the bytes differ from those of the entry, which are then parsed again.
unfoldable pub compare_raw :
    Backend → AlarmClass → AlarmBlock → List ℕ → Bool → Result AlarmBlock → Exit
unfolding choose eng_changed struct_changed differs_raw_only
compare_raw be cls b current_raw true _ =
    choose be cls b current_raw false false (eng_changed cls b) (struct_changed b)
compare_raw be cls b current_raw false (err x) = (raised, [])
compare_raw be cls b current_raw false (ok init) =
    choose be cls b current_raw true (differs_raw_only cls b init) (eng_changed cls b)
      (struct_changed b)

-- `__exit__` without an exception in the body, after an entry that read `initial_raw`.
unfoldable pub exit_from : Backend → AlarmClass → AlarmBlock → List ℕ → Result (List ℕ) → Exit
unfolding compare_raw
exit_from be cls b initial_raw (err x) = (raised, [])
exit_from be cls b initial_raw (ok current_raw) =
    compare_raw be cls b current_raw (text_eq current_raw initial_raw) (from_bytes initial_raw)

unfoldable pub exit : Backend → AlarmClass → AlarmBlock → List ℕ → Exit
unfolding exit_from
exit be cls b initial_raw = exit_from be cls b initial_raw (to_bytes b)

-- `__enter__` and `read`: the raw bytes are parsed, and the structured values attached twice, once
-- to be changed and once to be compared with.
unfoldable pub enter : List ℕ → Option Structured → Result AlarmBlock
enter l s = do b ← from_bytes l; ok (record b { structured = s; initial_structured = s })
