-- ===== src/Alarm/Block.antt =====
-- `AlarmBlock` of pacsys/alarm_block.py and its 20 bytes, in the wire order of
-- `struct.Struct("<H4s4sBBH6s")`. Bytes are numbers below 256. The dictionary of structured values
-- is a function of the keys that the module reads or writes.
use pacsys.Prelude.{
  ℕ, ◌+◌, ◌*◌, ◌/◌, ◌%◌, ◌<◌, ◌≡◌, Bool, ◌&&◌, Option, none, List, ◌∷◌, ◌++◌, length, get_or, take,
  drop, replicate, All, Result, ok, err, value_error, struct_error, ltb, if◌then◌else◌,
}
use pacsys.Prelude.Int.{ℤ}
use pacsys.Alarm.Ftd.{Ftd, from_word, to_word, IsWordSized}

pub data Key : Type 0 where
  minimum maximum nominal mask alarm_enable abort abort_inhibit tries_needed : Key

-- A value of the structured dictionary: a bool, or a number in units fine enough to be whole.
pub data StructValue : Type 0 where
  boolean : Bool → StructValue
  number : ℤ → StructValue

abbrev pub Structured : Type 0
Structured = Key → Option StructValue

pub record AlarmBlock : Type 0 where
  pub flags : ℕ
  pub value1_raw : List ℕ
  pub value2_raw : List ℕ
  pub tries_needed : ℕ
  pub tries_now : ℕ
  pub ftd : Ftd
  pub fe_data : List ℕ
  pub structured : Option Structured
  pub initial_structured : Option Structured

-- Two bytes, low byte first.
abbrev word_at : List ℕ → ℕ → ℕ
word_at b i = get_or b i 0 + 256 * get_or b (i + 1) 0

abbrev pub pack_word : ℕ → List ℕ → List ℕ
pack_word w rest = w % 256 ∷ w / 256 ∷ rest

-- `struct` code "ns": cut or padded with zero bytes to n.
abbrev pub pack_bytes : ℕ → List ℕ → List ℕ
pack_bytes n b = take n (b ++ replicate n 0)

-- `AlarmBlock.from_bytes`: bytes 10 and 11 hold `tries_now` and `tries_needed`, in this order.
unfoldable pub unpack : List ℕ → AlarmBlock
unfolding from_word
unpack b = record {
  flags = word_at b 0;
  value1_raw = take 4 (drop 2 b);
  value2_raw = take 4 (drop 6 b);
  tries_needed = get_or b 11 0;
  tries_now = get_or b 10 0;
  ftd = from_word (word_at b 12);
  fe_data = take 6 (drop 14 b);
  structured = none;
  initial_structured = none;
}

unfoldable pub from_bytes : List ℕ → Result AlarmBlock
from_bytes b = if ltb (length b) 20 then err value_error else ok (unpack (take 20 b))

-- `AlarmBlock.to_bytes`; `struct.pack` raises if a number does not fit its code.
unfoldable pub pack : AlarmBlock → List ℕ
pack b = pack_word b.flags (
    pack_bytes 4 b.value1_raw
    ++ (pack_bytes 4 b.value2_raw
        ++ (b.tries_now ∷ b.tries_needed ∷ pack_word (to_word b.ftd) (pack_bytes 6 b.fe_data))))

unfoldable pub to_bytes : AlarmBlock → Result (List ℕ)
to_bytes b =
    if ltb b.flags 65536 && (ltb b.tries_now 256 && ltb b.tries_needed 256)
    then ok (pack b)
    else err struct_error

-- A block whose fields have the sizes of the wire format, with no structured values attached.
pub record IsRaw (b : AlarmBlock) : Type 0 where
  pub flags_lt : b.flags < 65536
  pub value1_size : length b.value1_raw ≡ 4
  pub value2_size : length b.value2_raw ≡ 4
  pub needed_lt : b.tries_needed < 256
  pub now_lt : b.tries_now < 256
  pub ftd_fits : IsWordSized b.ftd
  pub fe_size : length b.fe_data ≡ 6
  pub no_structured : b.structured ≡ none
  pub no_initial : b.initial_structured ≡ none

abbrev pub IsBytes : List ℕ → Type 0
IsBytes = All (λ x. x < 256)
