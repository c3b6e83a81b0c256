-- ===== src/Drf/Written.antt =====
-- The parts of a request as they are written, and that the parser takes them back.
use pacsys.Prelude.Decimal.{decimal}
use pacsys.Prelude.{
  ℕ, ◌≡◌, refl, ap, inl, inr, Bool, true, false, not, ◌||◌, Option, none, some, [], ◌∷◌, ◌++◌,
  arith, ◌==◌, if◌then◌else◌, Bool-cases, ok, ◌>>=◌, Text, is_digit, decimal-every, is_word, every,
  every-append,
}
use pacsys.Drf.Property.{Property}
use pacsys.Drf.Field.{Field, field_eq, field_name, get_default_field}
use pacsys.Drf.Range.{
  full, single, std, Range, Mode, array_range, byte_range, bounds_str, bound_str, contains,
  range_str,
}
use pacsys.Drf.Range.RoundTrip.{bounds_fit, fits, parse_range-range_str}
use pacsys.Drf.Event.{Periodic, Event, mode, parse_event, raw_string}
use pacsys.Drf.Pattern.{in_range, is_dot}
use pacsys.Drf.Pattern.Search.{plain_text, is_body, is_part, is_run, bracket}
use pacsys.Drf.Request.{range_part, or_option, cut, event_of, field_of, range_of}
use pacsys.Drf.Names.{field_name-word, parse_field-field_name}

-- A field that is written, and an event.
unfoldable pub field_word : Option Field → Option Text
field_word none = none
field_word (some f) = some (field_name f)

unfoldable pub event_word : Event → Option Text
event_word e = if mode e == b'U' then none else some (raw_string e)

-- A range as the brackets and the text between them.
unfoldable pub range_body : Option Range → Option (Bool × Text)
unfolding bounds_str
range_body none = none
range_body (some (array_range m l h)) = some (true, bounds_str m l h)
range_body (some (byte_range m l h)) = some (false, bounds_str m l h)

pub contains-append : (c : ℕ) (s t : Text) → contains c (s ++ t) ≡ (contains c s || contains c t)
unfolding contains
contains-append c [] t = refl
contains-append c (d ∷ ds) t = ground (arith, contains-append c ds t)

pub cut-cons : (c : ℕ) (t : Text) → (c == b'<') ≡ false → cut t ≡ none → cut (c ∷ t) ≡ none
unfolding cut
cut-cons c [] h k = refl
cut-cons c (d ∷ ds) h k = rw (h, k) refl

-- A text without an angle bracket before one without an arrow has no arrow.
pub cut-append : (s t : Text) → contains b'<' s ≡ false → cut t ≡ none → cut (s ++ t) ≡ none
unfolding contains
cut-append [] t h k = k
cut-append (c ∷ s) t h k = cut-cons c (s ++ t) (ground arith) (cut-append s t (ground arith) k)

same_char : (p : ℕ → Bool) (c d : ℕ) → (d == c) ≡ true → p d ≡ p c
same_char p c d e = ap p (ground arith)

contains_head : (p : ℕ → Bool) (c d : ℕ) → p c ≡ false → p d ≡ true → (d == c) ≡ false
contains_head p c d h k = elim (Bool-cases (d == c)) [
  | inl e ↦ cc (same_char p c d e, h, k)
  | inr e ↦ e
]

pub every-contains :
    (p : ℕ → Bool) (c : ℕ) (s : Text) → p c ≡ false → every p s ≡ true → contains c s ≡ false
unfolding every contains
every-contains p c [] h k = refl
every-contains p c (d ∷ ds) h k = ground (arith, every-contains p c ds, contains_head p c d)

digits-in_range : (s : Text) → every is_digit s ≡ true → every in_range s ≡ true
unfolding every
digits-in_range [] h = refl
digits-in_range (c ∷ cs) h = ground (arith, digits-in_range cs)

bound_str-body : (o : Option ℕ) → every in_range (bound_str o) ≡ true
unfolding bound_str every
bound_str-body none = refl
bound_str-body (some n) = digits-in_range (decimal n) (decimal-every n)

-- Digits and colons between the brackets: the text of a range that fits.
pub bounds_str-body :
    (m : Mode) (l h : Option ℕ) → bounds_fit m l h ≡ true → every in_range (bounds_str m l h) ≡ true
unfolding every bounds_str bounds_fit
bounds_str-body full l h e = refl
bounds_str-body single none h e = cc
bounds_str-body single (some l) h e = digits-in_range (decimal l) (decimal-every l)
bounds_str-body std l h e = ground (
  arith,
  every-append in_range (bound_str l) (b':' ∷ bound_str h),
  bound_str-body l,
  bound_str-body h,
)

-- No range, or one that fits.
unfoldable pub range_fits : Option Range → Bool
unfolding fits
range_fits none = true
range_fits (some r) = fits r

pub bytes-fits :
    (m : Mode) (l h : Option ℕ) → fits (byte_range m l h) ≡ true → bounds_fit m l h ≡ true
unfolding fits
bytes-fits m none h e = e
bytes-fits m (some l) none e = e
bytes-fits m (some l) (some h) e = ground arith

pub range_body-IsBody : (r : Option Range) → range_fits r ≡ true → is_body (range_body r) ≡ true
unfolding range_fits is_body range_body fits
range_body-IsBody none h = refl
range_body-IsBody (some (array_range m l k)) h = bounds_str-body m l k h
range_body-IsBody (some (byte_range m l k)) h = bounds_str-body m l k (bytes-fits m l k h)

pub bracket-range_body : (r : Option Range) → plain_text (bracket (range_body r)) ≡ range_part r
unfolding plain_text bracket range_body range_part range_str
bracket-range_body none = refl
bracket-range_body (some (array_range m l k)) = refl
bracket-range_body (some (byte_range m l k)) = refl

pub range_of-range_body :
    (r : Option Range) → range_fits r ≡ true → range_of (bracket (range_body r)) ≡ ok r
unfolding range_of range_fits bracket range_body range_str
range_of-range_body none h = refl
range_of-range_body (some (array_range m l k)) h =
    ap (λ x. x >>= λ r. ok (some r)) (parse_range-range_str (array_range m l k) h)
range_of-range_body (some (byte_range m l k)) h =
    ap (λ x. x >>= λ r. ok (some r)) (parse_range-range_str (byte_range m l k) h)

-- No field, or one that has an alias.
unfoldable pub is_written : Option Field → Bool
unfolding field_eq
is_written none = true
is_written (some f) = not (field_eq f Field.empty)

pub field_of-field_word :
    (p : Property) (w : Option Field)
    → is_written w ≡ true
    → field_of p (field_word w) ≡ ok (or_option w (get_default_field p))
unfolding field_of field_word is_written or_option
field_of-field_word p none h = refl
field_of-field_word p (some f) h =
    ap (λ x. x >>= λ g. ok (some g)) (parse_field-field_name f (ground arith))

pub field_word-IsPart : (w : Option Field) → is_part is_word (field_word w) ≡ true
unfolding is_part field_word
field_word-IsPart none = refl
field_word-IsPart (some f) = field_name-word f

-- An event whose text parses to it, is of one line and has no arrow `<-`.
unfoldable pub IsEvent : Event → Type 0
IsEvent e =
    (parse_event (raw_string e) ≡ ok e)
    × ((is_run is_dot (raw_string e) ≡ true) × (cut (raw_string e) ≡ none))

periodic-mode :
    (s : Text) (q : Periodic)
    → q.raw_string ≡ s
    → parse_event s ≡ ok (Event.periodic q)
    → (mode (Event.periodic q) == b'U') ≡ false
unfolding parse_event
periodic-mode [] q e h = cc
periodic-mode (c ∷ cs) q e h = rw e (ground arith)

mode-default :
    (e : Event) → parse_event (raw_string e) ≡ ok e → (mode e == b'U') ≡ true → e ≡ Event.default
mode-default Event.default h k = refl
mode-default Event.immediate h k = cc
mode-default Event.never h k = cc
mode-default (Event.periodic q) h k = cc (periodic-mode q.raw_string q refl h, k)
mode-default (Event.clock q) h k = cc
mode-default (Event.state s) h k = cc

pub event_of-event_word : (e : Event) → IsEvent e → event_of (event_word e) ≡ ok e
unfolding event_of event_word IsEvent
event_of-event_word e (h, k) = ground (arith, mode-default e)

pub event_word-IsPart : (e : Event) → IsEvent e → is_part is_dot (event_word e) ≡ true
unfolding is_part event_word IsEvent
event_word-IsPart e (h, k) = ground arith
