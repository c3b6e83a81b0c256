-- ===== src/Drf/Event.antt =====
-- pacsys/drf3/event.py: when a request is to return data.
pub mod Letter
use pacsys.Prelude.{
  is_word, text_eq, is_digit, to_upper, take_while, drop_while, upper, value_error, ℕ, ◌+◌, ◌-◌,
  ◌*◌, ◌/◌, Bool, true, false, not, ◌&&◌, ◌||◌, Option, none, some, List, [], ◌∷◌, leb, ◌==◌,
  if◌then◌else◌, Result, ok, err, ◌>>=◌, Text, codes,
}
use pacsys.Prelude.Decimal.{number_of}
use pacsys.Drf.Property.{find}
use pacsys.Drf.Range.{at_end, contains}

-- `_java_round(n / d)` is `floor(n / d + 1 / 2)`, computed here without rounding of the quotient.
unfoldable java_round : ℕ → ℕ → ℕ
java_round n d = (2 * n + d) / (2 * d)

-- The unit of `_TIME_FREQ_RE` and what must stand behind it: none, or a letter of `SMUHK` in either case.
unfoldable time_unit : Text → Option ℕ
unfolding at_end to_upper
time_unit [] = some b'M'
time_unit (c ∷ cs) =
    if contains (to_upper c) (codes "SMUHK") && at_end cs
    then some (to_upper c)
    else if at_end (c ∷ cs)
    then some b'M'
    else none

unfoldable milliseconds : ℕ → Option ℕ → Result ℕ
unfolding java_round
milliseconds n none = err value_error
milliseconds n (some u) =
    if n == 0
    then ok 0
    else if u == b'S'
    then ok (n * 1000)
    else if u == b'M'
    then ok n
    else if u == b'U'
    then ok (java_round n 1000)
    else if u == b'H'
    then ok (java_round 1000 n)
    else ok (java_round 1000 (n * 1000))

-- `_parse_time_freq`.
unfoldable parse_time_freq : Text → Result ℕ
unfolding milliseconds time_unit take_while drop_while number_of
parse_time_freq [] = err value_error
parse_time_freq (c ∷ cs) =
    if is_digit c
    then milliseconds (number_of (take_while is_digit (c ∷ cs)))
        (time_unit (drop_while is_digit (c ∷ cs)))
    else err value_error

-- The events, with the raw text that the request gave.
pub record Periodic : Type 0 where
  pub raw_string : Text
  pub cont : Bool
  pub imm : Bool
  pub freq : ℕ

pub record Clock : Type 0 where
  pub raw_string : Text
  pub evt : ℕ
  pub delay : ℕ
  -- The letter of the clock's type, as written; `none` is "either".
  pub clock_type : Option ℕ

pub data Event : Type 0 where
  default immediate never : Event
  periodic : Periodic → Event
  clock : Clock → Event
  state : Text → Event

-- The letter of an event.
abbrev pub mode : Event → ℕ
mode default = b'U'
mode immediate = b'I'
mode never = b'N'
mode (periodic p) = elim p.raw_string [ [] ↦ b'P' | c ∷ cs ↦ to_upper c ]
mode (clock c) = b'E'
mode (state s) = b'S'

abbrev pub raw_string : Event → Text
raw_string default = codes "U"
raw_string immediate = codes "I"
raw_string never = codes "N"
raw_string (periodic p) = p.raw_string
raw_string (clock c) = c.raw_string
raw_string (state s) = s

-- `(?:,(\w+)...)?`: a comma and a word, or nothing of it; with what follows.
unfoldable comma_word : Text → Option (Text × Text)
unfolding take_while drop_while
comma_word [] = none
comma_word (c ∷ []) = none
comma_word (c ∷ d ∷ cs) =
    if c == b',' && is_word d
    then some (take_while is_word (d ∷ cs), drop_while is_word (d ∷ cs))
    else none

-- `F|FALSE|T|TRUE` in either case, up to `$`: whether it starts with a T.
abbrev truth_words : List (Text × Bool)
truth_words =
    (codes "F", false) ∷ (codes "FALSE", false) ∷ (codes "T", true) ∷ (codes "TRUE", true) ∷ []

-- The flag behind the frequency: true if there is none.
unfoldable immediate_flag : Text → Option Bool
unfolding comma_word find upper at_end
immediate_flag t = if at_end t then some true else elim (comma_word t) [
  | none ↦ none
  | some (w, rest) ↦ if at_end rest then find (upper w) truth_words else none
]

unfoldable new_periodic : Text → Bool → Option Bool → Result ℕ → Result Event
new_periodic raw cont none freq = err value_error
new_periodic raw cont (some imm) freq =
    freq >>= λ n. ok (periodic (record { raw_string = raw; cont = cont; imm = imm; freq = n }))

unfoldable periodic_with : Text → Bool → Option (Text × Text) → Result Event
unfolding new_periodic immediate_flag parse_time_freq
periodic_with raw cont none = err value_error
periodic_with raw cont (some (w, rest)) =
    new_periodic raw cont (immediate_flag rest) (parse_time_freq w)

-- `PeriodicEvent.__init__`: `cont` compares the letter as it is written.
unfoldable parse_periodic : Text → Result Event
unfolding at_end comma_word new_periodic periodic_with
parse_periodic [] = err value_error
parse_periodic (c ∷ cs) =
    if at_end cs
    then new_periodic (c ∷ cs) (c == b'P') (some true) (ok 1000)
    else periodic_with (c ∷ cs) (c == b'P') (comma_word cs)

abbrev is_hex : ℕ → Bool
is_hex c = is_digit c || leb b'A' c && leb c b'F' || leb b'a' c && leb c b'f'

abbrev hex_digit : ℕ → ℕ
hex_digit c = if is_digit c then c - b'0' else if leb b'a' c then c - 87 else c - 55

unfoldable hex_loop : ℕ → Text → ℕ
hex_loop acc [] = acc
hex_loop acc (c ∷ cs) = hex_loop (acc * 16 + hex_digit c) cs

unfoldable new_clock : Text → ℕ → Option ℕ → Result ℕ → Result Event
new_clock raw evt kind delay =
    delay >>= λ d. ok (clock (record { raw_string = raw; evt = evt; delay = d; clock_type = kind }))

-- The delay behind the clock's type.
unfoldable clock_delay : Text → Result ℕ
unfolding at_end comma_word parse_time_freq
clock_delay t = if at_end t then ok 0 else elim (comma_word t) [
  | none ↦ err value_error
  | some (w, rest) ↦ if at_end rest then parse_time_freq w else err value_error
]

-- What stands behind the event's number: nothing, or a comma, the clock's type and the delay.
unfoldable clock_tail : Text → ℕ → Text → Result Event
unfolding at_end new_clock clock_delay contains to_upper
clock_tail raw evt [] = new_clock raw evt none (ok 0)
clock_tail raw evt (c ∷ []) = if c == 10 then new_clock raw evt none (ok 0) else err value_error
clock_tail raw evt (c ∷ k ∷ rest) =
    if c == b',' && contains (to_upper k) (codes "HSE")
    then new_clock raw evt (some k) (clock_delay rest)
    else err value_error

-- `ClockEvent.__init__`.
unfoldable parse_clock : Text → Result Event
unfolding clock_tail hex_loop take_while drop_while
parse_clock (e ∷ c ∷ d ∷ cs) =
    if c == b',' && is_hex d
    then clock_tail (e ∷ c ∷ d ∷ cs) (hex_loop 0 (take_while is_hex (d ∷ cs)))
        (drop_while is_hex (d ∷ cs))
    else err value_error
parse_clock _ = err value_error

-- `NeverEvent.__init__`.
unfoldable pub parse_never : Text → Result Event
unfolding upper text_eq
parse_never raw = if text_eq (upper raw) (codes "N") then ok never else err value_error

-- The class `\s`.
abbrev is_space : ℕ → Bool
is_space c = c == b' ' || leb 9 c && leb c 13 || leb 28 c && leb c 31

-- `=|!=|\*|>|<|<=|>=`, up to `$`.
unfoldable is_operator : Text → Bool
unfolding at_end contains
is_operator [] = false
is_operator (c ∷ []) = contains c (codes "=*><")
is_operator (c ∷ d ∷ cs) =
    contains c (codes "=*><") && at_end (d ∷ cs)
    || (contains c (codes "!<>") && d == b'=' && at_end cs)

unfoldable operator_tail : Option (Text × Text) → Bool
unfolding is_operator
operator_tail none = false
operator_tail (some (w, [])) = false
operator_tail (some (w, c ∷ rest)) = c == b',' && is_operator rest

-- `(\d+),(\w+),(operator)`.
unfoldable state_tail : Text → Bool
unfolding drop_while comma_word operator_tail
state_tail [] = false
state_tail (c ∷ cs) = is_digit c && operator_tail (comma_word (drop_while is_digit cs))

-- `(\S+),` and the rest: the repetition may end before any comma, once it has taken a character.
unfoldable state_from : Bool → Text → Bool
unfolding state_tail
state_from seen [] = false
state_from seen (c ∷ cs) =
    let rest = state_from true cs in
    seen && c == b',' && state_tail cs || (not (is_space c) && rest)

-- `StateEvent.__init__`.
unfoldable parse_state : Text → Result Event
unfolding state_from
parse_state (s ∷ c ∷ cs) =
    if c == b',' && state_from false cs then ok (state (s ∷ c ∷ cs)) else err value_error
parse_state _ = err value_error

-- `parse_event`.
unfoldable pub parse_event : Text → Result Event
unfolding to_upper parse_periodic parse_clock parse_never parse_state
parse_event [] = err value_error
parse_event (c ∷ cs) =
    let u = to_upper c in
    if u == b'U'
    then ok default
    else if u == b'I'
    then ok immediate
    else if u == b'P' || u == b'Q'
    then parse_periodic (c ∷ cs)
    else if u == b'E'
    then parse_clock (c ∷ cs)
    else if u == b'S'
    then parse_state (c ∷ cs)
    else if u == b'N'
    then parse_never (c ∷ cs)
    else err value_error
