-- ===== src/Drf/Prepare.antt =====
-- Requests that are prepared for a write (`prepare_for_write` of pacsys/drf_utils.py).
use pacsys.Drf.Utils.{for_write, prepare_for_write, write_property}
use pacsys.Prelude.{
  ◌≡◌, refl, ap, ◌∙◌, Bool, true, not, ◌&&◌, Option, none, some, if◌then◌else◌, ok, ◌>>=◌, Text,
}
use pacsys.Drf.Property.{property_eq, Property}
use pacsys.Drf.Field.{Field, get_default_field}
use pacsys.Drf.Event.{Event}
use pacsys.Drf.Request.{parse_request, Request, chosen_field, or_else, or_option}
use pacsys.Drf.Written.{is_written}
use pacsys.Drf.Requested.{is_known, IsRequest, written, written-default, written-IsWritten}
use pacsys.Drf.Write.{made, parse_request-changed, request-known, never-IsEvent}

-- A property that is written, neither a reading nor a status.
unfoldable pub is_writable : Property → Bool
unfolding property_eq
is_writable p = not (property_eq p Property.reading) && not (property_eq p Property.status)

-- The field of a request that is prepared for a write.
unfoldable pub kept_field : Property → Option Field → Option Field
unfolding is_writable write_property get_default_field
kept_field p f = if is_writable p then f else get_default_field (write_property p)

write_field :
    (p : Property) (f : Option Field)
    → is_known p f ≡ true
    → or_option
        (written (write_property p) (chosen_field (some (write_property p)) p none f))
        (get_default_field (write_property p))
      ≡ kept_field p f
unfolding kept_field chosen_field or_option written is_known write_property property_eq
    get_default_field
write_field Property.reading f h = refl
write_field Property.setting f h = written-default Property.setting f h
write_field Property.status f h = refl
write_field Property.control f h = written-default Property.control f h
write_field Property.analog f h = written-default Property.analog f h
write_field Property.digital f h = written-default Property.digital f h
write_field Property.description f h = written-default Property.description f h
write_field Property.index f h = written-default Property.index f h
write_field Property.long_name f h = written-default Property.long_name f h
write_field Property.alarm_list_name f h = written-default Property.alarm_list_name f h
write_field Property.bit_status f h = written-default Property.bit_status f h

write_field-IsWritten :
    (p : Property) (f : Option Field)
    → is_known p f ≡ true
    → is_written (written (write_property p) (chosen_field (some (write_property p)) p none f))
      ≡ true
unfolding chosen_field or_option written is_written write_property property_eq
write_field-IsWritten Property.reading f h = refl
write_field-IsWritten Property.setting f h = written-IsWritten Property.setting f h
write_field-IsWritten Property.status f h = refl
write_field-IsWritten Property.control f h = written-IsWritten Property.control f h
write_field-IsWritten Property.analog f h = written-IsWritten Property.analog f h
write_field-IsWritten Property.digital f h = written-IsWritten Property.digital f h
write_field-IsWritten Property.description f h = written-IsWritten Property.description f h
write_field-IsWritten Property.index f h = written-IsWritten Property.index f h
write_field-IsWritten Property.long_name f h = written-IsWritten Property.long_name f h
write_field-IsWritten Property.alarm_list_name f h = written-IsWritten Property.alarm_list_name f h
write_field-IsWritten Property.bit_status f h = written-IsWritten Property.bit_status f h

parse_request-for_write :
    (r : Request)
    → IsRequest r
    → parse_request (for_write r)
      ≡ made
          (for_write r)
          r.device
          (write_property r.property)
          r.range
          (kept_field r.property r.field)
          Event.never
unfolding for_write or_else
parse_request-for_write r h =
    parse_request-changed r (some (write_property r.property)) (some Event.never)
      (kept_field r.property r.field) h
      (write_field-IsWritten r.property r.field (request-known r h))
      (write_field r.property r.field (request-known r h)) never-IsEvent

write_property-writable : (p : Property) → is_writable (write_property p) ≡ true
unfolding is_writable write_property
write_property-writable Property.reading = refl
write_property-writable Property.setting = refl
write_property-writable Property.status = refl
write_property-writable Property.control = refl
write_property-writable Property.analog = refl
write_property-writable Property.digital = refl
write_property-writable Property.description = refl
write_property-writable Property.index = refl
write_property-writable Property.long_name = refl
write_property-writable Property.alarm_list_name = refl
write_property-writable Property.bit_status = refl

write_property-kept : (p : Property) → property_eq (write_property p) p ≡ is_writable p
unfolding is_writable write_property property_eq
write_property-kept Property.reading = refl
write_property-kept Property.setting = refl
write_property-kept Property.status = refl
write_property-kept Property.control = refl
write_property-kept Property.analog = refl
write_property-kept Property.digital = refl
write_property-kept Property.description = refl
write_property-kept Property.index = refl
write_property-kept Property.long_name = refl
write_property-kept Property.alarm_list_name = refl
write_property-kept Property.bit_status = refl

-- A request has no extra, a canonical device name of at least three characters without any of
-- `.[{@<` and a line feed, a range that fits, a field that is read back and an event
-- whose text is one line without `<-` and parses to it. Then what `prepare_for_write` makes of a text that parses to it is parsed to a
-- request of the same device and range with the event that returns no data, for a property that is
-- neither a reading nor a status: the property of the request, with its field, unless it was one of
-- these two, whose field gives way to the default one.
pub prepare_for_write-parse_request :
    (drf : Text) (r : Request)
    → parse_request drf ≡ ok r
    → IsRequest r
    → ((prepare_for_write drf >>= parse_request)
        ≡ made
            (for_write r)
            r.device
            (write_property r.property)
            r.range
            (kept_field r.property r.field)
            Event.never)
      × ((is_writable (write_property r.property) ≡ true)
          × (property_eq (write_property r.property) r.property ≡ is_writable r.property))
unfolding prepare_for_write
prepare_for_write-parse_request drf r h hr = (
  ap (λ m. (m >>= λ q. ok (for_write q)) >>= parse_request) h ∙ parse_request-for_write r hr,
  (write_property-writable r.property, write_property-kept r.property),
)
