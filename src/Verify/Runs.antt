-- ===== src/Verify/Runs.antt =====
-- Concrete verified writes, and the theorem at a concrete input.
use pacsys.Prelude.{
  ℕ, suc, ◌≡◌, refl, true, false, none, some, [], arith, ltb, if◌then◌else◌, Result, ok, Text,
  codes,
}
use pacsys.Prelude.Int.{pos}
use pacsys.Drf.Property.{Property}
use pacsys.Drf.Event.{Event}
use pacsys.Drf.Extra.{Extra}
use pacsys.Drf.Request.{Request}
use pacsys.Verify.Context.{
  Choice, Value, Verify, default_verify, push_verify, pop_verify, resolve_verify,
}
use pacsys.Drf.Field.{Field}
use pacsys.Verify.Control.{Command, control, control_status}
use pacsys.Verify.Readback.{resolve_field, Machine, Reading, WriteResult, build_drf, write}
use pacsys.Verify.Honest.{IsHonest, IsPlain, write-IsHonest}

abbrev stored : Value → ℕ → ℕ
stored (Value.number (pos n)) old = n
stored _ old = old

abbrev plain_result : Text → WriteResult
plain_result d = record {
  drf = d;
  facility_code = pos 0;
  error_code = pos 0;
  message = none;
  verified = none;
  readback = none;
  skipped = false;
  attempts = 0;
}

-- A device that keeps a number and follows a setting after a delay: it moves by one whenever the clock does.
abbrev device : Machine (ℕ × ℕ)
device = record {
  read = λ d s. (s, Reading.read_value (Value.number (pos (s.0))));
  write = λ d x s. ((s.0, stored x (s.1)), ok (plain_result d));
  sleep = λ n s. if ltb (s.0) (s.1) then (suc (s.0), s.1) else s;
  close = λ a b t. none;
}

abbrev outtmp : Request
outtmp = record {
  raw = codes "M:OUTTMP";
  device = codes "M:OUTTMP";
  property = Property.reading;
  range = none;
  field = none;
  event = Event.default;
  extra = none;
  property_explicit = false;
}

extra_test :
    build_drf
      (record outtmp { extra = some (Extra.logger, codes "LOGGER:1:2") })
      Property.reading
      none
      (codes "I")
    ≡ codes "M:OUTTMP.READING@I<-LOGGER"
unfolding build_drf
extra_test = refl

abbrev careful : Verify
careful = record default_verify { check_first = true }

setting_test : build_drf outtmp Property.setting none (codes "N") ≡ codes "M:OUTTMP.SETTING@N"
unfolding build_drf
setting_test = refl

abbrev run : Choice → (ℕ × ℕ) × Result WriteResult
run c = write device [] outtmp (Value.number (pos 5)) none c (3, 3)

abbrev second_attempt : WriteResult
second_attempt = record (plain_result (codes "M:OUTTMP.SETTING@N")) {
  verified = some true;
  readback = some (Value.number (pos 5));
  attempts = 2;
}

verified_test : (run (Choice.given careful)).1 ≡ ok second_attempt
unfolding write
verified_test = refl

stack_test :
    resolve_verify Choice.wanted (pop_verify (push_verify careful [])) ≡ some default_verify
unfolding resolve_verify push_verify pop_verify
stack_test = refl

device-IsPlain : IsPlain device
device-IsPlain d y t w h = ground arith

write-IsHonest_example :
    IsHonest device
      (Value.number (pos 5))
      careful
      (3, 3)
      (run (Choice.given careful)).0
      second_attempt
unfolding resolve_verify
write-IsHonest_example =
    write-IsHonest device [] outtmp (Value.number (pos 5)) none (Choice.given careful) careful
      (3, 3) second_attempt device-IsPlain refl verified_test

-- A device that is off: the command is not confirmed by its status, which stays as it is.
abbrev stuck : Machine ℕ
stuck = record {
  read = λ d n. (suc n, Reading.read_value (Value.number (pos 0)));
  write = λ d x n. (n, ok (plain_result d));
  sleep = λ k n. n;
  close = λ a b t. none;
}

abbrev unconfirmed : WriteResult
unconfirmed = record (plain_result (codes "M:OUTTMP.CONTROL@N")) {
  verified = some false;
  readback = some (Value.flag false);
  attempts = 3;
}

control_test :
    control stuck (λ l. ok true) [] outtmp Command.on Choice.wanted 0 ≡ (3, ok unconfirmed)
unfolding control
control_test = refl

-- The status field of every command is one that the property has.
status_fields_test :
    (resolve_field (some (control_status Command.reset).0) Property.status ≡ ok (some Field.ready))
    × (resolve_field (some (control_status Command.local).0) Property.status
        ≡ ok (some Field.remote))
unfolding resolve_field
status_fields_test = (refl, refl)
