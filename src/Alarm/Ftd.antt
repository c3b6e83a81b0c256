-- ===== src/Alarm/Ftd.antt =====
-- The frequency-time descriptor `FTD` of pacsys/alarm_block.py, and its 16-bit word.
use pacsys.Prelude.{
  ℕ, ◌+◌, ◌*◌, ◌/◌, ◌%◌, ◌^◌, ◌<◌, ◌≡◌, ◌∙◌, ap, bit_and, bit_or, min, Bool, true, false, ◌==◌,
  if◌then◌else◌, arith,
}
use pacsys.Prelude.Bits.{bit_or-shifted, bit_and-pow_zero, testbit}

pub record Ftd : Type 0 where
  pub is_periodic : Bool
  pub period_ticks : ℕ
  pub clock_event : ℕ
  pub delay_10ms : ℕ

-- `FTD.from_word`: the top bit selects the event form.
unfoldable pub from_word : ℕ → Ftd
from_word value =
    if bit_and value 0x8000 == 0
    then record {
      is_periodic = true;
      period_ticks = value % 2 ^ 15;
      clock_event = 0;
      delay_10ms = 0;
    }
    else record {
      is_periodic = false;
      period_ticks = 0;
      clock_event = value % 2 ^ 8;
      delay_10ms = value / 2 ^ 8 % 2 ^ 7;
    }

-- `FTD.to_word`.
unfoldable pub to_word : Ftd → ℕ
to_word f =
    if f.is_periodic
    then f.period_ticks % 2 ^ 15
    else bit_or (bit_or 0x8000 (f.delay_10ms % 2 ^ 7 * 2 ^ 8)) (f.clock_event % 2 ^ 8)

-- `FTD.periodic_ticks`, `FTD.on_event` and `FTD.default`.
unfoldable periodic_ticks : ℕ → Ftd
periodic_ticks ticks = record {
  is_periodic = true;
  period_ticks = ticks;
  clock_event = 0;
  delay_10ms = 0;
}

unfoldable on_event : ℕ → ℕ → Ftd
on_event event delay_ms = record {
  is_periodic = false;
  period_ticks = 0;
  clock_event = event;
  delay_10ms = min (delay_ms / 10) 127;
}

unfoldable default : Ftd
default = record { is_periodic = true; period_ticks = 0; clock_event = 0; delay_10ms = 0 }

event_word :
    (d e : ℕ) → d < 128 → e < 256 → bit_or (bit_or 0x8000 (d * 2 ^ 8)) e ≡ 32768 + d * 256 + e
event_word d e hd he =
    ap (λ (t : ℕ). bit_or t e) (bit_or-shifted 15 1 (d * 2 ^ 8) (omega arith) ∙ shifted)
    ∙ bit_or-shifted 8 (128 + d) e (omega arith)
    ∙ omega arith
  where
    shifted : 1 * 2 ^ 15 + d * 2 ^ 8 ≡ (128 + d) * 2 ^ 8
    shifted = omega arith

top_bit : (w : ℕ) → w < 65536 → (bit_and w 0x8000 == 0) ≡ (w / 32768 == 0)
top_bit w h = bit_and-pow_zero 15 w ∙ ap (λ (t : ℕ). t == 0) half
  where
    half : testbit 15 w ≡ w / 32768
    half = omega arith

-- Every 16-bit word is the word of the descriptor that it parses to.
pub to_word-from_word : (w : ℕ) → w < 65536 → to_word (from_word w) ≡ w
unfolding to_word from_word
to_word-from_word w h =
    ground (arith, top_bit w h, event_word (w / 2 ^ 8 % 2 ^ 7 % 2 ^ 7) (w % 2 ^ 8 % 2 ^ 8))

-- A descriptor that fits its word: the fields of the other mode are at their defaults.
abbrev pub IsWordSized : Ftd → Type 0
IsWordSized f =
    if f.is_periodic
    then (f.period_ticks < 32768) × (f.clock_event ≡ 0) × (f.delay_10ms ≡ 0)
    else (f.period_ticks ≡ 0) × (f.clock_event < 256) × (f.delay_10ms < 128)

to_word_lt : (f : Ftd) → to_word f < 65536
unfolding to_word
to_word_lt f = ground (arith, event_word (f.delay_10ms % 2 ^ 7) (f.clock_event % 2 ^ 8))

-- Every descriptor that fits comes back from its word.
pub from_word-to_word : (f : Ftd) → IsWordSized f → from_word (to_word f) ≡ f
unfolding to_word from_word
from_word-to_word f h = ground (
  arith,
  top_bit (to_word f) (to_word_lt f),
  event_word (f.delay_10ms % 2 ^ 7) (f.clock_event % 2 ^ 8),
)
