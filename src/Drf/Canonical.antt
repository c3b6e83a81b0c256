-- ===== src/Drf/Canonical.antt =====
-- Requests in canonical form are parsed back (`to_canonical` and `parse_request` of pacsys/drf3/drf3.py).
use pacsys.Drf.Device.{parse_device}
use pacsys.Prelude.{
  ℕ, ◌≡◌, refl, sym, ap, ◌∙◌, Bool, true, false, Option, none, some, [], ◌∷◌, ◌++◌, arith, ◌==◌,
  if◌then◌else◌, ok, ◌>>=◌, Text, is_word, every,
}
use pacsys.Drf.Property.{Property, property_name}
use pacsys.Drf.Field.{Field, field_name, get_default_field}
use pacsys.Drf.Range.{Range, Mode, array_range, byte_range, bounds_str, contains, range_str}
use pacsys.Drf.Range.RoundTrip.{bounds_fit, fits}
use pacsys.Drf.Event.{mode, raw_string, Event}
use pacsys.Drf.Pattern.{match_full, Groups, in_range}
use pacsys.Drf.Pattern.RoundTrip.{match_full-parts, is_parts, is_device}
use pacsys.Drf.Pattern.Search.{parts_text, timed, dotted, is_part, is_run, bracket}
use pacsys.Drf.Request.{
  cut, assemble, resolve_word, parse_split, resolve, split_at, split_extra, parse_request,
  parse_groups, range_part, or_option,
}
use pacsys.Drf.Names.{property_alias-property_name, property_name-word, field_name-word}
use pacsys.Drf.Written.{
  cut-cons, cut-append, field_word, event_word, range_body, contains-append, every-contains,
  bounds_str-body, range_fits, bytes-fits, range_body-IsBody, bracket-range_body,
  range_of-range_body, is_written, field_of-field_word, field_word-IsPart, IsEvent,
  event_of-event_word, event_word-IsPart,
}

-- A request written out in canonical form, without an extra.
unfoldable pub canonical_text : Text → Property → Option Range → Option Field → Event → Text
unfolding range_part dotted timed field_word event_word
canonical_text dev p r w e =
    dev
    ++ (b'.'
        ∷ (property_name p ++ (range_part r ++ (dotted (field_word w) ++ timed (event_word e)))))

unfoldable canonical_groups : Property → Option Range → Option Field → Event → Groups
unfolding bracket range_body field_word event_word
canonical_groups p r w e = record {
  prop = some (property_name p);
  rng = bracket (range_body r);
  field = field_word w;
  event = event_word e;
}

canonical-parts :
    (p : Property) (r : Option Range) (w : Option Field) (e : Event)
    → range_fits r ≡ true
    → IsEvent e
    → is_parts (some (property_name p)) (range_body r) (field_word w) (event_word e) ≡ true
unfolding is_parts is_part
canonical-parts p r w e hr he = ground (
  arith,
  property_name-word p,
  range_body-IsBody r hr,
  field_word-IsPart w,
  event_word-IsPart e he,
)

match_full-canonical_text :
    (dev : Text) (p : Property) (r : Option Range) (w : Option Field) (e : Event)
    → is_device dev ≡ true
    → range_fits r ≡ true
    → IsEvent e
    → match_full (canonical_text dev p r w e) ≡ some (dev, canonical_groups p r w e)
unfolding canonical_text canonical_groups parts_text
match_full-canonical_text dev p r w e hd hr he =
    ap
      (λ x. match_full (
        dev
        ++ (b'.' ∷ (property_name p ++ (x ++ (dotted (field_word w) ++ timed (event_word e)))))))
      (sym (bracket-range_body r))
    ∙ match_full-parts dev (some (property_name p)) (range_body r) (field_word w) (event_word e) hd
        (canonical-parts p r w e hr he)

run-every : (p : ℕ → Bool) (s : Text) → is_run p s ≡ true → every p s ≡ true
unfolding is_run
run-every p [] h = cc
run-every p (c ∷ cs) h = h

name-arrow : (s : Text) → is_run is_word s ≡ true → contains b'<' s ≡ false
name-arrow s h = every-contains is_word b'<' s refl (run-every is_word s h)

bounds-arrow :
    (m : Mode) (l h : Option ℕ) → bounds_fit m l h ≡ true → contains b'<' (bounds_str m l h) ≡ false
bounds-arrow m l h e =
    every-contains in_range b'<' (bounds_str m l h) refl (bounds_str-body m l h e)

range_part-arrow : (r : Option Range) → range_fits r ≡ true → contains b'<' (range_part r) ≡ false
unfolding range_part range_str range_fits fits contains
range_part-arrow none h = refl
range_part-arrow (some (array_range m l k)) h =
    ground (arith, bounds-arrow m l k h, contains-append b'<' (bounds_str m l k) (b']' ∷ []))
range_part-arrow (some (byte_range m l k)) h = ground (
  arith,
  bounds-arrow m l k (bytes-fits m l k h),
  contains-append b'<' (bounds_str m l k) (b'}' ∷ []),
)

dotted-arrow : (w : Option Field) → contains b'<' (dotted (field_word w)) ≡ false
unfolding dotted field_word contains
dotted-arrow none = refl
dotted-arrow (some f) = name-arrow (field_name f) (field_name-word f)

timed-arrow : (e : Event) → IsEvent e → cut (timed (event_word e)) ≡ none
unfolding timed event_word IsEvent cut
timed-arrow e (h, (k, l)) = go (mode e == b'U')
  where
    go : (b : Bool) → cut (timed (if b then none else some (raw_string e))) ≡ none
    go true = refl
    go false = cut-cons b'@' (raw_string e) refl l

canonical_text-arrow :
    (dev : Text) (p : Property) (r : Option Range) (w : Option Field) (e : Event)
    → contains b'<' dev ≡ false
    → range_fits r ≡ true
    → IsEvent e
    → cut (canonical_text dev p r w e) ≡ none
unfolding canonical_text
canonical_text-arrow dev p r w e hd hr he =
    let end = timed (event_word e) in
    let field = dotted (field_word w) ++ end in
    let range = range_part r ++ field in
    cut-append dev (b'.' ∷ (property_name p ++ range)) hd (
      cut-cons b'.' (property_name p ++ range) refl (
        cut-append (property_name p) range (name-arrow (property_name p) (property_name-word p)) (
          cut-append (range_part r) field (range_part-arrow r hr)
            (cut-append (dotted (field_word w)) end (dotted-arrow w) (timed-arrow e he)))))

parse_groups-canonical :
    (s dev : Text) (p : Property) (r : Option Range) (w : Option Field) (e : Event)
    → range_fits r ≡ true
    → is_written w ≡ true
    → IsEvent e
    → parse_groups s none (some (dev, canonical_groups p r w e))
      ≡ ok (record {
        raw = s;
        device = parse_device dev;
        property = p;
        range = r;
        field = or_option w (get_default_field p);
        event = e;
        extra = none;
        property_explicit = true;
      })
unfolding parse_groups resolve resolve_word assemble canonical_groups
parse_groups-canonical s dev p r w e hr hw he = ground (
  arith,
  property_alias-property_name p,
  range_of-range_body r hr,
  field_of-field_word p w hw,
  event_of-event_word e he,
)

split_extra-none : (s : Text) → cut s ≡ none → split_extra s ≡ ok (s, none)
unfolding split_extra split_at
split_extra-none s h = ap (split_at s) h

pub parse_canonical :
    (s dev : Text) (p : Property) (r : Option Range) (w : Option Field) (e : Event)
    → s ≡ canonical_text dev p r w e
    → is_device dev ≡ true
    → contains b'<' dev ≡ false
    → range_fits r ≡ true
    → is_written w ≡ true
    → IsEvent e
    → parse_request s
      ≡ ok (record {
        raw = s;
        device = parse_device dev;
        property = p;
        range = r;
        field = or_option w (get_default_field p);
        event = e;
        extra = none;
        property_explicit = true;
      })
unfolding parse_request parse_split
parse_canonical s dev p r w e hs hd ha hr hw he =
    ap (λ x. x >>= parse_split)
      (split_extra-none s (ap cut hs ∙ canonical_text-arrow dev p r w e ha hr he))
    ∙ ap (parse_groups s none) (ap match_full hs ∙ match_full-canonical_text dev p r w e hd hr he)
    ∙ parse_groups-canonical s dev p r w e hr hw he
