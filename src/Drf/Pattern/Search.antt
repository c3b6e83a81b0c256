-- ===== src/Drf/Pattern/Search.antt =====
-- The parts of a request as texts, each taken by its own part of the expression, and the search for the device.
use pacsys.Prelude.{
  ℕ, ◌≡◌, ap, Bool, true, false, not, ◌||◌, Option, none, some, [], ◌∷◌, ◌++◌, append-nil,
  append_assoc, arith, leb, ◌==◌, if◌then◌else◌, length, Text, every, stops, take_while-append,
  drop_while-append, is_word,
}
use pacsys.Drf.Range.{at_end}
use pacsys.Drf.Pattern.{
  Groups, after_field, after_prop, after_range, closed, first_match, in_range, is_dot, match_full,
  match_tail, opt_event, opt_range, opt_word, search_device, to_end,
}

-- A character that no part behind the device starts with.
unfoldable pub is_plain : ℕ → Bool
is_plain c = not (c == b'.' || c == b'[' || c == b'{' || c == b'@' || c == 10)

-- A text that is not empty, of one class.
unfoldable pub is_run : (ℕ → Bool) → Text → Bool
unfolding every
is_run p [] = false
is_run p (c ∷ cs) = every p (c ∷ cs)

unfoldable pub is_part : (ℕ → Bool) → Option Text → Bool
unfolding is_run
is_part p none = true
is_part p (some w) = is_run p w

-- A range between square brackets (true) or braces (false).
unfoldable pub bracket : Option (Bool × Text) → Option Text
bracket none = none
bracket (some (true, body)) = some (b'[' ∷ (body ++ (b']' ∷ [])))
bracket (some (false, body)) = some (b'{' ∷ (body ++ (b'}' ∷ [])))

unfoldable pub is_body : Option (Bool × Text) → Bool
unfolding every
is_body none = true
is_body (some (square, body)) = every in_range body

-- The texts of the parts: a word behind a dot, a range, an event behind its sign.
unfoldable pub dotted : Option Text → Text
dotted none = []
dotted (some w) = b'.' ∷ w

unfoldable pub plain_text : Option Text → Text
plain_text none = []
plain_text (some s) = s

unfoldable pub timed : Option Text → Text
timed none = []
timed (some s) = b'@' ∷ s

unfoldable pub parts_text : Groups → Text
unfolding dotted plain_text timed
parts_text g = dotted g.prop ++ (plain_text g.rng ++ (dotted g.field ++ timed g.event))

pub opt_word-append :
    (w t : Text)
    → is_run is_word w ≡ true
    → stops is_word t ≡ true
    → opt_word (b'.' ∷ (w ++ t)) ≡ (some w, t)
unfolding opt_word is_run every
opt_word-append [] t h k = cc
opt_word-append (c ∷ cs) t h k =
    ground (arith, take_while-append is_word cs t, drop_while-append is_word cs t)

pub opt_event-every : (e : Text) → is_run is_dot e ≡ true → opt_event (b'@' ∷ e) ≡ (some e, [])
unfolding opt_event is_run every stops
opt_event-every [] h = cc
opt_event-every (c ∷ cs) h =
    ground (arith, take_while-append is_dot cs [], drop_while-append is_dot cs [], append-nil cs)

pub opt_range_square :
    (body t : Text)
    → every in_range body ≡ true
    → opt_range (b'[' ∷ (body ++ (b']' ∷ t))) ≡ (some (b'[' ∷ (body ++ (b']' ∷ []))), t)
unfolding opt_range closed stops
opt_range_square body t h =
    ground (
      arith,
      take_while-append in_range body (b']' ∷ t),
      drop_while-append in_range body (b']' ∷ t),
    )

pub opt_range_curly :
    (body t : Text)
    → every in_range body ≡ true
    → opt_range (b'{' ∷ (body ++ (b'}' ∷ t))) ≡ (some (b'{' ∷ (body ++ (b'}' ∷ []))), t)
unfolding opt_range closed stops
opt_range_curly body t h =
    ground (
      arith,
      take_while-append in_range body (b'}' ∷ t),
      drop_while-append in_range body (b'}' ∷ t),
    )

match_tail-plain : (c : ℕ) (cs : Text) → is_plain c ≡ true → match_tail (c ∷ cs) ≡ none
unfolding match_tail after_prop after_range after_field to_end opt_word opt_range opt_event at_end
    is_plain
match_tail-plain c [] h = ground arith
match_tail-plain c (d ∷ ds) h = ground arith

first_match-some :
    (dev : Text) (m : Option Groups) (g : Groups) (later : Option (Text × Groups))
    → m ≡ some g
    → first_match dev m later ≡ some (dev, g)
unfolding first_match
first_match-some dev m g later e = ap (λ x. first_match dev x later) e

first_match_step :
    (dev : Text) (c : ℕ) (m : Option Groups) (later : Option (Text × Groups))
    → is_plain c ≡ true
    → m ≡ none
    → first_match dev m (if is_dot c then later else none) ≡ later
unfolding first_match is_plain
first_match_step dev c none later h e = ground arith
first_match_step dev c (some g) later h e = cc

search_device-here :
    (dev t : Text) (g : Groups) → match_tail t ≡ some g → search_device dev t ≡ some (dev, g)
unfolding search_device
search_device-here dev [] g k = first_match-some dev (match_tail []) g none k
search_device-here dev (c ∷ cs) g k = first_match-some dev (match_tail (c ∷ cs)) g _ k

search_device-step :
    (dev : Text) (c : ℕ) (cs : Text)
    → is_plain c ≡ true
    → search_device dev (c ∷ cs) ≡ search_device (dev ++ (c ∷ [])) cs
unfolding search_device
search_device-step dev c cs h =
    first_match_step dev c (match_tail (c ∷ cs)) (search_device (dev ++ (c ∷ [])) cs) h
      (match_tail-plain c cs h)

search_device-plain :
    (dev r t : Text) (g : Groups)
    → every is_plain r ≡ true
    → match_tail t ≡ some g
    → search_device dev (r ++ t) ≡ some (dev ++ r, g)
unfolding every
search_device-plain dev [] t g h k = ground (arith, search_device-here dev t g, append-nil dev)
search_device-plain dev (c ∷ cs) t g h k = ground (
  arith,
  search_device-step dev c (cs ++ t),
  search_device-plain (dev ++ (c ∷ [])) cs t g,
  append_assoc dev (c ∷ []) cs,
)

-- A device of at least three plain characters is found before any parts that follow.
pub match_full-plain :
    (dev t : Text) (g : Groups)
    → leb 3 (length dev) ≡ true
    → every is_plain dev ≡ true
    → match_tail t ≡ some g
    → match_full (dev ++ t) ≡ some (dev, g)
unfolding match_full every is_plain
match_full-plain [] t g l h k = ground arith
match_full-plain (a ∷ []) t g l h k = ground arith
match_full-plain (a ∷ b ∷ []) t g l h k = ground arith
match_full-plain (a ∷ b ∷ c ∷ cs) t g l h k =
    ground (arith, search_device-plain (a ∷ b ∷ c ∷ []) cs t g)
