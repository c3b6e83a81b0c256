-- ===== src/Drf/Pattern.antt =====
-- `PATTERN_FULL` of pacsys/drf3/drf3.py: how a request falls into its parts.
pub mod Search
pub mod RoundTrip
pub mod Parts
use pacsys.Prelude.{
  is_word, drop_while, take_while, is_digit, ℕ, Bool, not, ◌&&◌, ◌||◌, Option, none, some, [], ◌∷◌,
  ◌++◌, ◌==◌, if◌then◌else◌, Text,
}
use pacsys.Drf.Range.{at_end}

-- The groups behind the device.
pub record Groups : Type 0 where
  pub prop : Option Text
  pub rng : Option Text
  pub field : Option Text
  pub event : Option Text

-- `(?:\.(\w+))?`: the word behind a dot, and what follows.
unfoldable pub opt_word : Text → Option Text × Text
unfolding take_while drop_while
opt_word [] = (none, [])
opt_word (c ∷ []) = (none, c ∷ [])
opt_word (c ∷ d ∷ cs) =
    if c == b'.' && is_word d
    then (some (take_while is_word (d ∷ cs)), drop_while is_word (d ∷ cs))
    else (none, c ∷ d ∷ cs)

-- The class `[\d:]`.
abbrev pub in_range : ℕ → Bool
in_range c = is_digit c || c == b':'

-- The range up to the closing bracket, which must follow.
unfoldable pub closed : ℕ → ℕ → Text → Text → Text → Option Text × Text
closed left right whole body [] = (none, whole)
closed left right whole body (c ∷ cs) =
    if c == right then (some (left ∷ (body ++ (right ∷ []))), cs) else (none, whole)

-- `(\[[\d:]*\]|\{[\d:]*\})?`.
unfoldable pub opt_range : Text → Option Text × Text
unfolding closed take_while drop_while
opt_range [] = (none, [])
opt_range (c ∷ cs) =
    if c == b'['
    then closed b'[' b']' (c ∷ cs) (take_while in_range cs) (drop_while in_range cs)
    else if c == b'{'
    then closed b'{' b'}' (c ∷ cs) (take_while in_range cs) (drop_while in_range cs)
    else (none, c ∷ cs)

-- The class `.`: any character but a line feed.
abbrev pub is_dot : ℕ → Bool
is_dot c = not (c == 10)

-- `(?:@(.+))?`.
unfoldable pub opt_event : Text → Option Text × Text
unfolding take_while drop_while
opt_event [] = (none, [])
opt_event (c ∷ []) = (none, c ∷ [])
opt_event (c ∷ d ∷ cs) =
    if c == b'@' && is_dot d
    then (some (take_while is_dot (d ∷ cs)), drop_while is_dot (d ∷ cs))
    else (none, c ∷ d ∷ cs)

unfoldable pub to_end : Option Text → Option Text → Option Text → Option Text × Text → Option Groups
unfolding at_end
to_end p r f (e, t) =
    if at_end t then some (record { prop = p; rng = r; field = f; event = e }) else none

unfoldable pub after_field : Option Text → Option Text → Option Text × Text → Option Groups
unfolding to_end opt_event
after_field p r (f, t) = to_end p r f (opt_event t)

unfoldable pub after_range : Option Text → Option Text × Text → Option Groups
unfolding after_field opt_word
after_range p (r, t) = after_field p r (opt_word t)

unfoldable pub after_prop : Option Text × Text → Option Groups
unfolding after_range opt_range
after_prop (p, t) = after_range p (opt_range t)

-- The expression behind the device. Each part begins with a character that no part before it takes,
-- so that the greedy match of the parts is the only one.
unfoldable pub match_tail : Text → Option Groups
unfolding after_prop opt_word
match_tail t = after_prop (opt_word t)

unfoldable pub first_match : Text → Option Groups → Option (Text × Groups) → Option (Text × Groups)
first_match dev (some g) later = some (dev, g)
first_match dev none later = later

-- `.{3,}?` behind its first three characters: the shortest device behind which the rest matches.
unfoldable pub search_device : Text → Text → Option (Text × Groups)
unfolding first_match match_tail
search_device dev [] = first_match dev (match_tail []) none
search_device dev (c ∷ cs) =
    let later = search_device (dev ++ (c ∷ [])) cs in
    first_match dev (match_tail (c ∷ cs)) (if is_dot c then later else none)

-- `PATTERN_FULL.match`, its first group and the others.
unfoldable pub match_full : Text → Option (Text × Groups)
unfolding search_device
match_full (a ∷ b ∷ c ∷ cs) =
    if is_dot a && is_dot b && is_dot c then search_device (a ∷ b ∷ c ∷ []) cs else none
match_full _ = none
