-- ===== src/Drf/Write.antt =====
-- Requests that the library writes are parsed back: `to_canonical`, and `strip_event` and
-- `replace_event` of pacsys/drf_utils.py.
use pacsys.Drf.Utils.{replace_event, strip_event, without_event}
use pacsys.Prelude.{
  ◌≡◌, refl, sym, ap, ◌∙◌, true, Option, none, some, ◌∷◌, ◌++◌, Result, ok, ◌>>=◌, Text, every,
  text_eq, upper, to_upper,
}
use pacsys.Drf.Property.{property_name, Property}
use pacsys.Drf.Field.{Field, get_default_field}
use pacsys.Drf.Range.{Range}
use pacsys.Drf.Event.{parse_never, parse_event, Event}
use pacsys.Drf.Pattern.Search.{is_run}
use pacsys.Drf.Request.{
  cut, range_part, parse_request, Request, chosen_field, event_part, extra_part, field_part,
  or_device, or_else, or_option, rest_part, to_canonical,
}
use pacsys.Drf.Canonical.{parse_canonical}
use pacsys.Drf.Written.{IsEvent, is_written}
use pacsys.Drf.Requested.{
  is_known, IsRequest, changed, written, to_canonical-canonical_text, written-default,
  written-IsWritten,
}

-- The request that a canonical text is parsed to.
abbrev pub made : Text → Text → Property → Option Range → Option Field → Event → Result Request
made s dev p r f e = ok (record {
  raw = s;
  device = dev;
  property = p;
  range = r;
  field = f;
  event = e;
  extra = none;
  property_explicit = true;
})

pub parse_request-changed :
    (r : Request) (q : Option Property) (e : Option Event) (f : Option Field)
    → IsRequest r
    → is_written (written (or_else q r.property) (chosen_field q r.property none r.field)) ≡ true
    → or_option
        (written (or_else q r.property) (chosen_field q r.property none r.field))
        (get_default_field (or_else q r.property))
      ≡ f
    → IsEvent (or_else e r.event)
    → parse_request (to_canonical r (changed q e))
      ≡ made
          (to_canonical r (changed q e))
          r.device
          (or_else q r.property)
          r.range
          f
          (or_else e r.event)
unfolding IsRequest
parse_request-changed r q e f (hd, (ha, (hp, (hr, (hf, (he, hx)))))) hw hk hn =
    parse_canonical (to_canonical r (changed q e)) r.device (or_else q r.property) r.range
      (written (or_else q r.property) (chosen_field q r.property none r.field)) (or_else e r.event)
      (to_canonical-canonical_text r q e hx) hd ha hr hw hn
    ∙ ap
        (λ d.
          made (to_canonical r (changed q e)) d (or_else q r.property) r.range
            (or_option (written (or_else q r.property) (chosen_field q r.property none r.field))
              (get_default_field (or_else q r.property)))
            (or_else e r.event))
        hp
    ∙ ap
        (λ g.
          made (to_canonical r (changed q e)) r.device (or_else q r.property) r.range g
            (or_else e r.event))
        hk

pub request-known : (r : Request) → IsRequest r → is_known r.property r.field ≡ true
unfolding IsRequest
request-known r (hd, (ha, (hp, (hr, (hf, (he, hx)))))) = hf

request-event : (r : Request) → IsRequest r → IsEvent r.event
unfolding IsRequest
request-event r (hd, (ha, (hp, (hr, (hf, (he, hx)))))) = he

request-extra : (r : Request) → IsRequest r → r.extra ≡ none
unfolding IsRequest
request-extra r (hd, (ha, (hp, (hr, (hf, (he, hx)))))) = hx

pub never-IsEvent : IsEvent Event.never
unfolding IsEvent parse_event parse_never to_upper upper text_eq is_run every cut
never-IsEvent = (refl, (refl, refl))

default-IsEvent : IsEvent Event.default
unfolding IsEvent parse_event to_upper is_run every cut
default-IsEvent = (refl, (refl, refl))

parse_request-event :
    (r : Request) (e : Option Event)
    → IsRequest r
    → IsEvent (or_else e r.event)
    → parse_request (to_canonical r (changed none e))
      ≡ made
          (to_canonical r (changed none e))
          r.device
          r.property
          r.range
          r.field
          (or_else e r.event)
unfolding or_else chosen_field or_option
parse_request-event r e h hn =
    parse_request-changed r none e r.field h
      (written-IsWritten r.property r.field (request-known r h))
      (written-default r.property r.field (request-known r h)) hn

-- A request has no extra, a canonical device name of at least three characters without any of
-- `.[{@<` and a line feed, a range that fits, a field that is read back and an event
-- whose text is one line without `<-` and parses to it. Then its canonical text parses to it, with this text as its raw one and its property
-- as explicit.
pub parse_request-to_canonical :
    (r : Request)
    → IsRequest r
    → parse_request (to_canonical r (changed none none))
      ≡ ok (record r { raw = to_canonical r (changed none none); property_explicit = true })
unfolding or_else
parse_request-to_canonical r h =
    parse_request-event r none h (request-event r h)
    ∙ ap
        (λ x. ok (record r {
          raw = to_canonical r (changed none none);
          extra = x;
          property_explicit = true;
        }))
        (sym (request-extra r h))

-- A request has no extra, a canonical device name of at least three characters without any of
-- `.[{@<` and a line feed, a range that fits, a field that is read back and an event
-- whose text is one line without `<-` and parses to it. A text parses to another such event. Then replacing the event of the request by this
-- text and parsing the result gives the request with the other event.
pub replace_event-parse_request :
    (drf text : Text) (r : Request) (e : Event)
    → parse_request drf ≡ ok r
    → IsRequest r
    → parse_event text ≡ ok e
    → IsEvent e
    → (replace_event drf text >>= parse_request)
      ≡ made (to_canonical r (changed none (some e))) r.device r.property r.range r.field e
unfolding replace_event or_else
replace_event-parse_request drf text r e h hr ht he =
    ap
      (λ m.
        (m >>= λ q. (parse_event text >>= λ x. ok (to_canonical q (changed none (some x)))))
        >>= parse_request)
      h
    ∙ ap (λ m. (m >>= λ x. ok (to_canonical r (changed none (some x)))) >>= parse_request) ht
    ∙ parse_request-event r (some e) hr he

without_event-to_canonical :
    (r : Request)
    → r.extra ≡ none
    → without_event r ≡ to_canonical r (changed none (some Event.default))
unfolding without_event to_canonical rest_part or_device or_else or_option chosen_field event_part
    extra_part
without_event-to_canonical r h = rw h (
    ap
      (λ t.
        r.device
        ++ (b'.'
            ∷ (property_name r.property
                ++ (range_part r.range ++ (field_part r.property r.field ++ t)))))
      refl)

parse_request-without_event :
    (r : Request)
    → IsRequest r
    → parse_request (without_event r)
      ≡ made (without_event r) r.device r.property r.range r.field Event.default
unfolding or_else
parse_request-without_event r h =
    ap parse_request (without_event-to_canonical r (request-extra r h))
    ∙ parse_request-event r (some Event.default) h default-IsEvent
    ∙ ap (λ s. made s r.device r.property r.range r.field Event.default)
        (sym (without_event-to_canonical r (request-extra r h)))

-- A request has no extra, a canonical device name of at least three characters without any of
-- `.[{@<` and a line feed, a range that fits, a field that is read back and an event
-- whose text is one line without `<-` and parses to it. Then what `strip_event` makes of a text that parses to it is parsed to that request
-- with the default event.
pub strip_event-parse_request :
    (drf : Text) (r : Request)
    → parse_request drf ≡ ok r
    → IsRequest r
    → (strip_event drf >>= parse_request)
      ≡ made (without_event r) r.device r.property r.range r.field Event.default
unfolding strip_event
strip_event-parse_request drf r h hr =
    ap (λ m. (m >>= λ q. ok (without_event q)) >>= parse_request) h
    ∙ parse_request-without_event r hr
