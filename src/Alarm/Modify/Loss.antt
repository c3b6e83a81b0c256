-- ===== src/Alarm/Modify/Loss.antt =====
-- What the context writes after an entry that attached structured values: nothing if nothing was
-- changed, and the dictionary as it was read after a change to the raw values alone.
use pacsys.Prelude.{
  replicate, ℕ, ◌-◌, ◌^◌, ◌≤◌, ◌<◌, ◌≡◌, refl, ap, ◌∙◌, ◌⊎◌, inl, inr, Bool, true, false, Option,
  none, some, List, [], ◌++◌, arith, ltb, if◌then◌else◌, Bool-cases, ok, err, length,
  overflow_error, take-all, text_eq_refl, length-take, All-take, take,
}
use pacsys.Alarm.Block.{
  tries_needed, abort_inhibit, abort, alarm_enable, AlarmBlock, StructValue, Structured, IsBytes,
  to_bytes, pack, unpack,
}
use pacsys.Alarm.RoundTrip.{from_bytes_long, to_bytes_fits, pack-unpack, get_or_lt}
use pacsys.Alarm.Flags.{little_bytes, data_bytes, limit_type, data_length, set_nominal, set_mask}
use pacsys.Alarm.Modify.{
  collect, write_fields, compare_raw, exit_from, second_key, text_eq, first_key, AlarmClass, analog,
  digital, Backend, done, get_eq, exit, choose, enter, write_structured, differs_raw_only,
  eng_changed, struct_changed,
}

get_eq_refl : (v : Option StructValue) → get_eq v v ≡ true
get_eq_refl none = refl
get_eq_refl (some v) = ground arith

-- The block as it is after an entry.
abbrev pub entered : List ℕ → Option Structured → AlarmBlock
entered l s = record (unpack (take 20 l)) { structured = s; initial_structured = s }

enter-entered : (l : List ℕ) (s : Option Structured) → 20 ≤ length l → enter l s ≡ ok (entered l s)
unfolding enter
enter-entered l s h = rw (from_bytes_long l h)

-- A block with the dictionary that it was entered with.
abbrev untouched : AlarmBlock → Option Structured → AlarmBlock
untouched b s = record b { structured = s; initial_structured = s }

no_eng :
    (cls : AlarmClass) (b : AlarmBlock) (s : Option Structured)
    → eng_changed cls (untouched b s) ≡ false
unfolding eng_changed
no_eng cls b none = refl
no_eng cls b (some s) =
    ground (arith, get_eq_refl (s (first_key cls)), get_eq_refl (s (second_key cls)))

no_struct : (b : AlarmBlock) (s : Option Structured) → struct_changed (untouched b s) ≡ false
unfolding struct_changed
no_struct b none = refl
no_struct b (some s) = ground (
  arith,
  get_eq_refl (s alarm_enable),
  get_eq_refl (s abort),
  get_eq_refl (s abort_inhibit),
  get_eq_refl (s tries_needed),
)

-- An edit of the two raw values and of `tries_needed`, the fields that are neither in the
-- dictionary of the block nor among those that force a raw write.
abbrev pub edit : AlarmBlock → List ℕ → List ℕ → ℕ → AlarmBlock
edit b v1 v2 n = record b { value1_raw = v1; value2_raw = v2; tries_needed = n }

not_raw_only :
    (cls : AlarmClass) (b : AlarmBlock) (s : Option Structured) (v1 v2 : List ℕ) (n : ℕ)
    → differs_raw_only cls (edit (untouched b s) v1 v2 n) b ≡ false
unfolding differs_raw_only data_length limit_type
not_raw_only analog b s v1 v2 n = ground (arith, text_eq_refl b.fe_data)
not_raw_only digital b s v1 v2 n = ground (arith, text_eq_refl b.fe_data)

choose_quiet :
    (be : Backend) (cls : AlarmClass) (b : AlarmBlock) (l : List ℕ) (changed : Bool)
    → choose be cls b l changed false false false
      ≡ (if changed then write_structured be cls b else (done, []))
unfolding choose
choose_quiet be cls b l true = refl
choose_quiet be cls b l false = refl

module _ (be : Backend) (cls : AlarmClass) (l : List ℕ) (s : Option Structured) where
  module _ (bytes : IsBytes l) (full : length l ≡ 20) (v1 v2 : List ℕ) (n : ℕ)
      (fits : n < 256) where
    after : AlarmBlock
    after = edit (entered l s) v1 v2 n

    twenty_bytes : length (take 20 l) ≡ 20
    twenty_bytes = omega (arith, length-take 20 l)

    packed : to_bytes after ≡ ok (pack after)
    unfolding after unpack
    packed =
        let t : List ℕ = take 20 l in
        let bt : IsBytes t = All-take _ 20 l bytes in
        to_bytes_fits (edit (entered l s) v1 v2 n)
          (omega (arith, get_or_lt t 0 bt, get_or_lt t 1 bt)) (get_or_lt t 10 bt) fits

    -- Whatever is written after such an edit is what is written of the block as it was entered.
    exit-edit :
        exit be cls after l
        ≡ (if text_eq (pack after) l then (done, []) else write_structured be cls after)
    unfolding exit
    exit-edit =
        ap (exit_from be cls after l) packed
        ∙ ap (compare_raw be cls after (pack after) (text_eq (pack after) l))
            (from_bytes_long l (omega (arith, full)))
        ∙ quiet (text_eq (pack after) l)
      where
        init : AlarmBlock
        init = unpack (take 20 l)

        quiet :
            (same : Bool)
            → compare_raw be cls after (pack after) same (ok init)
              ≡ (if same then (done, []) else write_structured be cls after)
        quiet true =
            unfold after in
            rw (no_eng cls after s, no_struct after s)
              (choose_quiet be cls after (pack after) false)
        quiet false =
            unfold after in
            rw (no_eng cls after s, no_struct after s, not_raw_only cls init s v1 v2 n)
              (choose_quiet be cls after (pack after) true)

-- Leaving the context with nothing changed writes nothing.
pub exit_unchanged :
    (be : Backend) (cls : AlarmClass) (l : List ℕ) (s : Option Structured)
    → IsBytes l
    → length l ≡ 20
    → (enter l s ≡ ok (entered l s)) × (exit be cls (entered l s) l ≡ (done, []))
unfolding after
exit_unchanged be cls l s bytes full =
    let b : AlarmBlock = entered l s in
    let same : take 20 l ≡ l = take-all 20 l (omega (arith, full)) in
    let bt : IsBytes (take 20 l) = All-take _ 20 l bytes in
    let h : pack b ≡ l =
      unfold pack in pack-unpack (take 20 l) (omega (arith, full, length-take 20 l)) bt ∙ same in
    (
      enter-entered l s (omega (arith, full)),
      exit-edit be cls l s bytes full b.value1_raw b.value2_raw b.tries_needed
            (unfold unpack in get_or_lt (take 20 l) 11 bt)
          ∙ rw (h, text_eq_refl l),
    )

-- After an entry with a dictionary of structured values, a change to the raw values or to
-- `tries_needed` of the block is lost: nothing is written, or what is written is the dictionary as
-- it was read.
pub exit_loses_edit :
    (be : Backend) (cls : AlarmClass) (l : List ℕ) (d : Structured) (v1 v2 : List ℕ) (n : ℕ)
    → IsBytes l
    → length l ≡ 20
    → n < 256
    → (exit be cls (edit (entered l (some d)) v1 v2 n) l ≡ (done, []))
      ⊎ (exit be cls (edit (entered l (some d)) v1 v2 n) l
          ≡ write_fields be (collect d (first_key cls) (second_key cls)))
unfolding after write_structured
exit_loses_edit be cls l d v1 v2 n bytes full fits =
    let b : AlarmBlock = edit (entered l (some d)) v1 v2 n in
    let e = exit-edit be cls l (some d) bytes full v1 v2 n fits in
    elim (Bool-cases (text_eq (pack b) l)) [
      | inl same ↦ inl (e ∙ rw same)
      | inr differ ↦ inr (e ∙ rw differ)
    ]

-- The setters of a digital alarm's pattern and mask make only such an edit.
setters-edit :
    (b : AlarmBlock) (v : ℕ)
    → ((set_nominal b v ≡ err overflow_error)
        ⊎ ((p : List ℕ) × (set_nominal b v ≡ ok (edit b p b.value2_raw b.tries_needed))))
      × ((set_mask b v ≡ err overflow_error)
          ⊎ ((p : List ℕ) × (set_mask b v ≡ ok (edit b b.value1_raw p b.tries_needed))))
unfolding set_nominal set_mask
setters-edit b v =
    let packed : List ℕ = little_bytes (data_bytes b) v in
    let raw_value : List ℕ = packed ++ replicate (4 - length packed) 0 in
    elim (Bool-cases (ltb v (256 ^ data_bytes b))) [
      | inl fits ↦ (inr (raw_value, rw fits), inr (raw_value, rw fits))
      | inr large ↦ (inl (rw large), inl (rw large))
    ]
