-- ===== src/Drf/Pattern/RoundTrip.antt =====
-- The expression of a request finds the parts that the request is put together from.
use pacsys.Prelude.{
  ℕ, ◌≡◌, refl, ap, ◌∙◌, Bool, true, false, ◌&&◌, Option, none, some, [], ◌∷◌, ◌++◌, append_assoc,
  arith, leb, ◌==◌, length, Text, every, stops, is_word,
}
use pacsys.Drf.Range.{at_end}
use pacsys.Drf.Pattern.{
  after_field, after_prop, after_range, is_dot, match_full, match_tail, opt_event, opt_range,
  opt_word, to_end,
}
use pacsys.Drf.Pattern.Search.{
  is_plain, is_run, is_part, bracket, is_body, dotted, plain_text, timed, parts_text,
  opt_word-append, opt_event-every, opt_range_square, opt_range_curly, match_full-plain,
}

opt_event-timed : (e : Option Text) → is_part is_dot e ≡ true → opt_event (timed e) ≡ (e, [])
unfolding opt_event timed is_part
opt_event-timed none h = refl
opt_event-timed (some s) h = opt_event-every s h

opt_word-dotted :
    (f e : Option Text)
    → is_part is_word f ≡ true
    → is_part is_dot e ≡ true
    → opt_word (dotted f ++ timed e) ≡ (f, timed e)
unfolding opt_word dotted timed is_part is_run stops
opt_word-dotted none none h k = refl
opt_word-dotted none (some []) h k = cc
opt_word-dotted none (some (c ∷ cs)) h k = refl
opt_word-dotted (some w) none h k = ground (arith, opt_word-append w [])
opt_word-dotted (some w) (some s) h k = ground (arith, opt_word-append w (b'@' ∷ s))

opt_range-bracket :
    (r : Option (Bool × Text)) (f e : Option Text)
    → is_body r ≡ true
    → opt_range (plain_text (bracket r) ++ (dotted f ++ timed e)) ≡ (bracket r, dotted f ++ timed e)
unfolding opt_range bracket plain_text is_body dotted timed
opt_range-bracket none none none h = refl
opt_range-bracket none none (some s) h = refl
opt_range-bracket none (some w) e h = refl
opt_range-bracket (some (true, body)) f e h = ground (
  arith,
  opt_range_square body (dotted f ++ timed e),
  append_assoc body (b']' ∷ []) (dotted f ++ timed e),
)
opt_range-bracket (some (false, body)) f e h = ground (
  arith,
  opt_range_curly body (dotted f ++ timed e),
  append_assoc body (b'}' ∷ []) (dotted f ++ timed e),
)

-- A field alone cannot be told from a property: behind no property it follows a range.
unfoldable leads : Option Text → Option (Bool × Text) → Option Text → Bool
leads none none (some w) = false
leads _ _ _ = true

prop-stops :
    (r : Option (Bool × Text)) (f e : Option Text)
    → stops is_word (plain_text (bracket r) ++ (dotted f ++ timed e)) ≡ true
unfolding stops plain_text bracket dotted timed
prop-stops none none none = refl
prop-stops none none (some s) = refl
prop-stops none (some w) e = refl
prop-stops (some (true, body)) f e = refl
prop-stops (some (false, body)) f e = refl

opt_word_bracket : (c : ℕ) (t : Text) → (c == b'.') ≡ false → opt_word (c ∷ t) ≡ (none, c ∷ t)
unfolding opt_word
opt_word_bracket c [] h = refl
opt_word_bracket c (d ∷ ds) h = ground arith

opt_word-prop :
    (p : Option Text) (r : Option (Bool × Text)) (f e : Option Text)
    → is_part is_word p ≡ true
    → is_part is_dot e ≡ true
    → leads p r f ≡ true
    → opt_word (dotted p ++ (plain_text (bracket r) ++ (dotted f ++ timed e)))
      ≡ (p, plain_text (bracket r) ++ (dotted f ++ timed e))
unfolding dotted is_part leads bracket plain_text
opt_word-prop (some w) r f e h k l =
    opt_word-append w (plain_text (bracket r) ++ (dotted f ++ timed e)) h (prop-stops r f e)
opt_word-prop none none none e h k l = opt_word-dotted none e refl k
opt_word-prop none none (some w) e h k l = cc
opt_word-prop none (some (true, body)) f e h k l = opt_word_bracket b'[' _ refl
opt_word-prop none (some (false, body)) f e h k l = opt_word_bracket b'{' _ refl

match_tail-parts :
    (p : Option Text) (r : Option (Bool × Text)) (f e : Option Text)
    → is_part is_word p ≡ true
    → is_body r ≡ true
    → is_part is_word f ≡ true
    → is_part is_dot e ≡ true
    → leads p r f ≡ true
    → match_tail (dotted p ++ (plain_text (bracket r) ++ (dotted f ++ timed e)))
      ≡ some (record { prop = p; rng = bracket r; field = f; event = e })
unfolding match_tail after_prop after_range after_field to_end at_end
match_tail-parts p r f e hp hr hf he l =
    ap after_prop (opt_word-prop p r f e hp he l)
    ∙ ap (after_range p) (opt_range-bracket r f e hr)
    ∙ ap (after_field p (bracket r)) (opt_word-dotted f e hf he)
    ∙ ap (to_end p (bracket r) f) (opt_event-timed e he)

-- Parts with the texts that the expression asks for.
unfoldable pub is_parts : Option Text → Option (Bool × Text) → Option Text → Option Text → Bool
unfolding is_part is_body leads
is_parts p r f e =
    is_part is_word p && is_body r && is_part is_word f && is_part is_dot e && leads p r f

unfoldable pub is_device : Text → Bool
unfolding every is_plain
is_device dev = leb 3 (length dev) && every is_plain dev

-- The expression finds a device, a property, a range, a field and an event in the text that they are
-- put together to, if the device has at least three characters and none of `.[{@` or a line feed,
-- property and field are words, and a field without a property stands behind a range.
pub match_full-parts :
    (dev : Text) (p : Option Text) (r : Option (Bool × Text)) (f e : Option Text)
    → is_device dev ≡ true
    → is_parts p r f e ≡ true
    → match_full (dev ++ parts_text (record { prop = p; rng = bracket r; field = f; event = e }))
      ≡ some (dev, record { prop = p; rng = bracket r; field = f; event = e })
unfolding is_device is_parts parts_text
match_full-parts dev p r f e hd h = ground (
  arith,
  match_full-plain dev (dotted p ++ (plain_text (bracket r) ++ (dotted f ++ timed e)))
      (record { prop = p; rng = bracket r; field = f; event = e }),
  match_tail-parts p r f e,
)
