-- ===== src/Drf/Runs.antt =====
-- Concrete runs of the parser, and the theorems at concrete inputs.
use pacsys.Drf.Device.{parse_device}
use pacsys.Prelude.{◌≡◌, refl, true, false, none, some, ◌++◌, ok, ◌>>=◌, Text, codes}
use pacsys.Drf.Property.{property_eq, Property}
use pacsys.Drf.Field.{Field}
use pacsys.Drf.Range.{array_range, std, contains, at_end}
use pacsys.Drf.Event.{Periodic, Event, parse_event}
use pacsys.Drf.Pattern.Parts.{match_full-made}
use pacsys.Drf.Pattern.{match_full, Groups}
use pacsys.Drf.Pattern.RoundTrip.{is_parts, is_device, match_full-parts}
use pacsys.Drf.Pattern.Search.{bracket, parts_text, is_run}
use pacsys.Drf.Request.{cut, Request, parse_request, to_canonical}
use pacsys.Drf.Utils.{
  write_property, for_write, prepare_for_write, replace_event, strip_event, ensure_immediate_event,
  without_event,
}
use pacsys.Drf.Written.{IsEvent, range_fits}
use pacsys.Drf.Write.{
  made, never-IsEvent, parse_request-to_canonical, replace_event-parse_request,
  strip_event-parse_request,
}
use pacsys.Drf.Prepare.{is_writable, kept_field, prepare_for_write-parse_request}
use pacsys.Drf.Requested.{IsRequest, changed, is_known}

abbrev once_a_second : Event
once_a_second =
    Event.periodic (record { raw_string = codes "p,1000"; cont = false; imm = true; freq = 1000 })

-- The upper-case letter makes the event continuous, the lower-case one does not.
abbrev once_a_second_upper : Event
once_a_second_upper =
    Event.periodic (record { raw_string = codes "P,1000"; cont = true; imm = true; freq = 1000 })

lower_periodic_test : parse_event (codes "p,1000") ≡ ok once_a_second
unfolding parse_event
lower_periodic_test = refl

upper_periodic_test : parse_event (codes "P,1000") ≡ ok once_a_second_upper
unfolding parse_event
upper_periodic_test = refl

abbrev request_text : Text
request_text = codes "M:OUTTMP.READ[0:3].RAW@p,1000"

abbrev request : Request
request = record {
  raw = request_text;
  device = codes "M:OUTTMP";
  property = Property.reading;
  range = some (array_range std (some 0) (some 3));
  field = some Field.raw;
  event = once_a_second;
  extra = none;
  property_explicit = true;
}

request_parses : parse_request request_text ≡ ok request
unfolding parse_request
request_parses = refl

request-IsEvent : IsEvent once_a_second
unfolding IsEvent parse_event is_run cut
request-IsEvent = (refl, (refl, refl))

request-IsRequest : IsRequest request
unfolding IsRequest is_device contains parse_device range_fits is_known
request-IsRequest = (refl, (refl, (refl, (refl, (refl, (request-IsEvent, refl))))))

immediate_test :
    ensure_immediate_event (codes "M:OUTTMP<-LOGGER:1") ≡ ok (codes "M:OUTTMP<-LOGGER:1")
unfolding ensure_immediate_event
immediate_test = refl

immediate_extra_test :
    ensure_immediate_event (codes "M:OUTTMP@U<-FTP") ≡ ok (codes "M:OUTTMP@I<-FTP")
unfolding ensure_immediate_event
immediate_extra_test = refl

write_test : prepare_for_write (codes "M_OUTTMP.RAW") ≡ ok (codes "M:OUTTMP.SETTING.RAW@N")
unfolding prepare_for_write
write_test = refl

write_reading_test : prepare_for_write request_text ≡ ok (codes "M:OUTTMP.SETTING[0:3]@N")
unfolding prepare_for_write
write_reading_test = refl

match_full-parts_example :
    match_full (
      codes "M:OUTTMP"
      ++ parts_text (record {
        prop = some (codes "READ");
        rng = bracket (some (true, codes "0:3"));
        field = some (codes "RAW");
        event = some (codes "p,1000");
      }))
    ≡ some (
      codes "M:OUTTMP",
      record {
        prop = some (codes "READ");
        rng = bracket (some (true, codes "0:3"));
        field = some (codes "RAW");
        event = some (codes "p,1000");
      },
    )
unfolding is_device is_parts
match_full-parts_example =
    match_full-parts (codes "M:OUTTMP") (some (codes "READ")) (some (true, codes "0:3"))
      (some (codes "RAW")) (some (codes "p,1000")) refl refl

parse_request-to_canonical_example :
    parse_request (to_canonical request (changed none none))
    ≡ ok (record request {
      raw = to_canonical request (changed none none);
      property_explicit = true;
    })
parse_request-to_canonical_example = parse_request-to_canonical request request-IsRequest

replace_event_example :
    (replace_event request_text (codes "N") >>= parse_request)
    ≡ made
        (to_canonical request (changed none (some Event.never)))
        request.device
        request.property
        request.range
        request.field
        Event.never
unfolding parse_event
replace_event_example =
    replace_event-parse_request request_text (codes "N") request Event.never request_parses
      request-IsRequest refl never-IsEvent

prepare_for_write_example :
    ((prepare_for_write request_text >>= parse_request)
      ≡ made
          (for_write request)
          (codes "M:OUTTMP")
          (write_property Property.reading)
          request.range
          (kept_field Property.reading (some Field.raw))
          Event.never)
    × ((is_writable (write_property Property.reading) ≡ true)
        × (property_eq (write_property Property.reading) Property.reading
            ≡ is_writable Property.reading))
prepare_for_write_example =
    prepare_for_write-parse_request request_text request request_parses request-IsRequest

strip_event_example :
    (strip_event request_text >>= parse_request)
    ≡ made
        (without_event request)
        request.device
        request.property
        request.range
        request.field
        Event.default
strip_event_example =
    strip_event-parse_request request_text request request_parses request-IsRequest

abbrev periodic_p : Periodic
periodic_p = record { raw_string = codes "P,1000"; cont = true; imm = true; freq = 1000 }

abbrev periodic_lower : Periodic
periodic_lower = record { raw_string = codes "p,1000"; cont = false; imm = true; freq = 1000 }

abbrev found_groups : Groups
found_groups = record {
  prop = some (codes "READ");
  rng = some (codes "[3]");
  field = none;
  event = some (codes "I");
}

match_full-made_example :
    (eol : Text) × ((at_end eol ≡ true)
      × (codes "M:OUTTMP.READ[3]@I" ≡ codes "M:OUTTMP" ++ (parts_text found_groups ++ eol)))
unfolding match_full
match_full-made_example =
    match_full-made (codes "M:OUTTMP.READ[3]@I") (codes "M:OUTTMP") found_groups refl

-- A state event that compares with `<=` is read back.
state-IsEvent : IsEvent (Event.state (codes "S,G:AMANDA,100,0,<="))
unfolding IsEvent parse_event is_run cut
state-IsEvent = (refl, (refl, refl))
