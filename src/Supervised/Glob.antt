-- ===== src/Supervised/Glob.antt =====
-- `fnmatch.fnmatchcase`, as the policies call it.
use pacsys.Prelude.{
  upper, ℕ, zero, suc, Bool, true, false, not, ◌&&◌, ◌||◌, Option, none, some, List, [], ◌∷◌, leb,
  ◌==◌, if◌then◌else◌, length, Text,
}

-- The parts of a pattern.
pub data Item : Type 0 where
  star : Item
  any_one : Item
  class : Bool → List (ℕ × ℕ) → Item
  lit : ℕ → Item

-- The characters and spans of a class, up to the bracket that closes it; none if it is never closed.
unfoldable spans : List (ℕ × ℕ) → Text → Option (List (ℕ × ℕ) × Text)
spans acc [] = none
spans acc (a ∷ []) = if a == b']' then some (acc, []) else none
spans acc (a ∷ d ∷ []) =
    let rest = spans ((a, a) ∷ acc) (d ∷ []) in if a == b']' then some (acc, d ∷ []) else rest
spans acc (a ∷ d ∷ b ∷ rest) =
    let ranged = spans ((a, b) ∷ acc) rest in
    let single = spans ((a, a) ∷ acc) (d ∷ b ∷ rest) in
    if a == b']'
    then some (acc, d ∷ b ∷ rest)
    else if d == b'-' && not (b == b']')
    then ranged
    else single

-- A closing bracket that stands first belongs to the class.
unfoldable class_body : Text → Option (List (ℕ × ℕ) × Text)
unfolding spans
class_body [] = none
class_body (c ∷ cs) = if c == b']' then spans ((c, c) ∷ []) cs else spans [] (c ∷ cs)

unfoldable made_class : Bool → Option (List (ℕ × ℕ) × Text) → Text → Item × Text
made_class negated none whole = (lit b'[', whole)
made_class negated (some (ranges, rest)) whole = (class negated ranges, rest)

unfoldable bracketed : Text → Item × Text
unfolding made_class class_body
bracketed [] = (lit b'[', [])
bracketed (c ∷ cs) =
    if c == b'!'
    then made_class true (class_body cs) (c ∷ cs)
    else made_class false (class_body (c ∷ cs)) (c ∷ cs)

unfoldable next_item : ℕ → Text → Item × Text
unfolding bracketed
next_item c cs =
    if c == b'*'
    then (star, cs)
    else if c == b'?'
    then (any_one, cs)
    else if c == b'['
    then bracketed cs
    else (lit c, cs)

-- Each round takes a character, so the length of the pattern is fuel enough.
unfoldable items : ℕ → Text → List Item
unfolding next_item
items fuel [] = []
items zero (c ∷ cs) = []
items (suc fuel) (c ∷ cs) = (next_item c cs).0 ∷ items fuel ((next_item c cs).1)

unfoldable in_spans : ℕ → List (ℕ × ℕ) → Bool
in_spans c [] = false
in_spans c ((a, b) ∷ rest) = leb a c && leb c b || in_spans c rest

unfoldable matches_one : Item → ℕ → Bool
unfolding in_spans
matches_one star c = false
matches_one any_one c = true
matches_one (class true ranges) c = not (in_spans c ranges)
matches_one (class false ranges) c = in_spans c ranges
matches_one (lit d) c = c == d

-- `.*` before the rest of a pattern.
unfoldable anywhere : (Text → Bool) → Text → Bool
anywhere rest [] = rest []
anywhere rest (c ∷ cs) = let later = anywhere rest cs in rest (c ∷ cs) || later

unfoldable then_rest : Item → (Text → Bool) → Text → Bool
unfolding matches_one
then_rest item rest [] = false
then_rest item rest (c ∷ cs) = matches_one item c && rest cs

unfoldable match_item : Item → (Text → Bool) → Text → Bool
unfolding anywhere then_rest
match_item star rest = anywhere rest
match_item any_one rest = then_rest any_one rest
match_item (class n ranges) rest = then_rest (class n ranges) rest
match_item (lit c) rest = then_rest (lit c) rest

unfoldable match_items : List Item → Text → Bool
unfolding match_item
match_items [] [] = true
match_items [] (c ∷ cs) = false
match_items (item ∷ rest) t = match_item item (match_items rest) t

-- `fnmatch.fnmatchcase(name.upper(), pattern.upper())`.
unfoldable pub matches_glob : Text → Text → Bool
unfolding match_items items upper
matches_glob name pattern = match_items (items (length pattern) (upper pattern)) (upper name)
