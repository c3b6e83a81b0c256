-- ===== src/Drf/Pattern/Parts.antt =====
-- The parts that the expression finds make up the request again.
use pacsys.Prelude.{
  ℕ, ◌≡◌, refl, sym, ap, ◌∙◌, ◌⊎◌, inl, inr, Bool, true, false, ◌&&◌, Option, none, some, [], ◌∷◌,
  ◌++◌, append_assoc, arith, if◌then◌else◌, Text, take_while, drop_while, take_while-drop_while,
  is_word,
}
use pacsys.Drf.Range.{at_end}
use pacsys.Drf.Pattern.{
  match_full, after_field, after_range, after_prop, first_match, search_device, match_tail, Groups,
  closed, in_range, is_dot, opt_event, opt_range, opt_word, to_end,
}
use pacsys.Drf.Pattern.Search.{dotted, parts_text, plain_text, timed}

opt_word-whole : (t : Text) → dotted ((opt_word t).0) ++ (opt_word t).1 ≡ t
unfolding opt_word dotted
opt_word-whole [] = refl
opt_word-whole (c ∷ []) = refl
opt_word-whole (c ∷ d ∷ cs) = ground (arith, take_while-drop_while is_word (d ∷ cs))

opt_event-whole : (t : Text) → timed ((opt_event t).0) ++ (opt_event t).1 ≡ t
unfolding opt_event timed
opt_event-whole [] = refl
opt_event-whole (c ∷ []) = refl
opt_event-whole (c ∷ d ∷ cs) = ground (arith, take_while-drop_while is_dot (d ∷ cs))

closed-whole :
    (left right : ℕ) (body cs : Text)
    → plain_text ((closed left right (left ∷ (body ++ cs)) body cs).0)
        ++ (closed left right (left ∷ (body ++ cs)) body cs).1
      ≡ left ∷ (body ++ cs)
unfolding closed plain_text
closed-whole left right body [] = refl
closed-whole left right body (c ∷ cs) = ground (arith, append_assoc body (right ∷ []) cs)

opt_range-whole : (t : Text) → plain_text ((opt_range t).0) ++ (opt_range t).1 ≡ t
unfolding opt_range plain_text
opt_range-whole [] = refl
opt_range-whole (c ∷ cs) = ground (
  arith,
  take_while-drop_while in_range cs,
  closed-whole b'[' b']' (take_while in_range cs) (drop_while in_range cs),
  closed-whole b'{' b'}' (take_while in_range cs) (drop_while in_range cs),
)

-- A text is the parts of some groups, with at most a line feed behind them.
unfoldable IsMade : Text → Groups → Type 0
unfolding at_end parts_text
IsMade t g = (eol : Text) × ((at_end eol ≡ true) × (t ≡ parts_text g ++ eol))

to_end-made :
    (p r f : Option Text) (m : Option Text × Text) (g : Groups)
    → to_end p r f m ≡ some g
    → (g ≡ record { prop = p; rng = r; field = f; event = m.0 }) × (at_end (m.1) ≡ true)
unfolding to_end
to_end-made p r f (e, t) g h = ground arith

four-append : (a b c d e : Text) → (a ++ (b ++ (c ++ d))) ++ e ≡ a ++ (b ++ (c ++ (d ++ e)))
four-append a b c d e =
    append_assoc a (b ++ (c ++ d)) e
    ∙ ap (λ x. a ++ x) (append_assoc b (c ++ d) e ∙ ap (λ x. b ++ x) (append_assoc c d e))

made_from :
    (p r f e : Option Text) (t t1 t2 t3 eol : Text) (g : Groups)
    → dotted p ++ t1 ≡ t
    → plain_text r ++ t2 ≡ t1
    → dotted f ++ t3 ≡ t2
    → timed e ++ eol ≡ t3
    → g ≡ record { prop = p; rng = r; field = f; event = e }
    → t ≡ parts_text g ++ eol
unfolding parts_text
made_from p r f e t t1 t2 t3 eol g h1 h2 h3 h4 hg =
    sym h1
    ∙ ap (λ x. dotted p ++ x)
        (sym h2 ∙ ap (λ x. plain_text r ++ x) (sym h3 ∙ ap (λ x. dotted f ++ x) (sym h4)))
    ∙ sym (four-append (dotted p) (plain_text r) (dotted f) (timed e) eol)
    ∙ ap (λ x. parts_text x ++ eol) (sym hg)

match_tail-IsMade : (t : Text) (g : Groups) → match_tail t ≡ some g → IsMade t g
unfolding match_tail after_prop after_range after_field IsMade
match_tail-IsMade t g h =
    let w = opt_word t in
    let r = opt_range (w.1) in
    let f = opt_word (r.1) in
    let e = opt_event (f.1) in
    let m = to_end-made (w.0) (r.0) (f.0) e g h in
    (
      e.1,
      (
        m.1,
        made_from (w.0) (r.0) (f.0) (e.0) t (w.1) (r.1) (f.1) (e.1) g (opt_word-whole t)
            (opt_range-whole (w.1)) (opt_word-whole (r.1)) (opt_event-whole (f.1)) (m.0),
      ),
    )

made-append :
    (dev t : Text) (g : Groups)
    → IsMade t g
    → (eol : Text) × ((at_end eol ≡ true) × (dev ++ t ≡ dev ++ (parts_text g ++ eol)))
unfolding IsMade
made-append dev t g (eol, (h, k)) = (eol, (h, ap (λ x. dev ++ x) k))

first_match-cases :
    (dev : Text) (m : Option Groups) (later : Option (Text × Groups)) (d : Text) (g : Groups)
    → first_match dev m later ≡ some (d, g)
    → ((m ≡ some g) × (dev ≡ d)) ⊎ (later ≡ some (d, g))
unfolding first_match
first_match-cases dev (some x) later d g h = inl (ground arith)
first_match-cases dev none later d g h = inr h

found :
    (dev t d : Text) (g : Groups)
    → (match_tail t ≡ some g) × (dev ≡ d)
    → (eol : Text) × ((at_end eol ≡ true) × (dev ++ t ≡ d ++ (parts_text g ++ eol)))
found dev t d g (m, e) = rw (← e) (made-append dev t g (match_tail-IsMade t g m))

shifted :
    (dev d : Text) (c : ℕ) (cs : Text) (g : Groups)
    → (eol : Text) × ((at_end eol ≡ true) × ((dev ++ (c ∷ [])) ++ cs ≡ d ++ (parts_text g ++ eol)))
    → (eol : Text) × ((at_end eol ≡ true) × (dev ++ (c ∷ cs) ≡ d ++ (parts_text g ++ eol)))
shifted dev d c cs g (eol, (h, k)) = (eol, (h, sym (append_assoc dev (c ∷ []) cs) ∙ k))

guarded :
    (test : Bool) (m : Option (Text × Groups)) (d : Text) (g : Groups)
    → (if test then m else none) ≡ some (d, g)
    → m ≡ some (d, g)
guarded true m d g h = h
guarded false m d g h = cc

search_device-made :
    (dev t d : Text) (g : Groups)
    → search_device dev t ≡ some (d, g)
    → (eol : Text) × ((at_end eol ≡ true) × (dev ++ t ≡ d ++ (parts_text g ++ eol)))
unfolding search_device
search_device-made dev [] d g h = elim (first_match-cases dev (match_tail []) none d g h) [
  | inl x ↦ found dev [] d g x
  | inr y ↦ cc
]
search_device-made dev (c ∷ cs) d g h = elim (first_match-cases dev (match_tail (c ∷ cs)) _ d g h) [
  | inl x ↦ found dev (c ∷ cs) d g x
  | inr y ↦ shifted dev d c cs g (
      search_device-made (dev ++ (c ∷ [])) cs d g
        (guarded (is_dot c) (search_device (dev ++ (c ∷ [])) cs) d g y))
]

-- Where the expression matches, the device and the parts that it finds make up the request again, but
-- for a line feed that may stand at its end.
pub match_full-made :
    (s dev : Text) (g : Groups)
    → match_full s ≡ some (dev, g)
    → (eol : Text) × ((at_end eol ≡ true) × (s ≡ dev ++ (parts_text g ++ eol)))
unfolding match_full
match_full-made [] dev g h = cc
match_full-made (a ∷ []) dev g h = cc
match_full-made (a ∷ b ∷ []) dev g h = cc
match_full-made (a ∷ b ∷ c ∷ cs) dev g h =
    search_device-made (a ∷ b ∷ c ∷ []) cs dev g
      (guarded (is_dot a && is_dot b && is_dot c) _ dev g h)
