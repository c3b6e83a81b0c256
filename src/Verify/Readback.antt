-- ===== src/Verify/Readback.antt =====
-- `Device.write` and `_verify_readback` of pacsys/device.py, with the names of requests of pacsys/_device_base.py.
use pacsys.Prelude.{
  runtime_error, value_error, Exn, ℕ, zero, suc, Bool, true, false, ◌||◌, Option, none, some, List,
  [], ◌∷◌, ◌++◌, ltb, ◌==◌, if◌then◌else◌, Result, ok, err, ◌>>=◌, Text, codes, upper,
}
use pacsys.Prelude.Int.{ℤ, pos}
use pacsys.Drf.Property.{Property, property_name}
use pacsys.Drf.Field.{Field, allowed_fields, field_eq, field_name, get_default_field, parse_field}
use pacsys.Drf.Range.{Range, range_str}
use pacsys.Drf.Extra.{Extra, extra_name}
use pacsys.Drf.Request.{Request, same_field}
use pacsys.Verify.Context.{Choice, Value, Verify, resolve_verify, values_match}

-- `_build_drf`.
unfoldable range_text : Option Range → Text
unfolding range_str
range_text none = []
range_text (some r) = range_str r

unfoldable field_text : Property → Option Field → Text
unfolding same_field get_default_field
field_text p none = []
field_text p (some f) = if same_field (get_default_field p) f then [] else codes "." ++ field_name f

unfoldable extra_text : Option (Extra × Text) → Text
extra_text none = []
extra_text (some (e, t)) = codes "<-" ++ extra_name e

unfoldable pub build_drf : Request → Property → Option Field → Text → Text
unfolding range_text field_text extra_text
build_drf r p f event =
    r.device
    ++ (codes "."
        ++ (property_name p
            ++ (range_text r.range
                ++ (field_text p f ++ (codes "@" ++ (event ++ extra_text r.extra))))))

-- `_resolve_field`.
unfoldable is_listed : Field → List Field → Bool
unfolding field_eq
is_listed f [] = false
is_listed f (g ∷ gs) = field_eq f g || is_listed f gs

unfoldable pub resolve_field : Option Text → Property → Result (Option Field)
unfolding get_default_field parse_field is_listed
resolve_field none p = ok (get_default_field p)
resolve_field (some t) p = parse_field (upper t) >>= λ f.
    if is_listed f (allowed_fields p) then ok (some f) else err value_error

-- `WriteResult`.
pub record WriteResult : Type 0 where
  pub drf : Text
  pub facility_code : ℤ
  pub error_code : ℤ
  pub message : Option Text
  pub verified : Option Bool
  pub readback : Option Value
  pub skipped : Bool
  pub attempts : ℕ

-- What a read of the backend ends with: a value, a `DeviceError` with its text, or another exception.
pub data Reading : Type 0 where
  read_value : Value → Reading
  device_error : Text → Reading
  raised : Exn → Reading

-- `success`.
unfoldable pub is_zero : ℤ → Bool
is_zero (ℤ.pos n) = n == 0
is_zero (ℤ.negsuc n) = false

-- The backend and the clock, with the state of the world: a call may change it.
pub record Machine (S : Type 0) : Type 0 where
  pub read : Text → S → S × Reading
  pub write : Text → Value → S → S × Result WriteResult
  pub sleep : ℕ → S → S
  pub close : Value → Value → ℕ → Option Bool

-- What the loop of `_verify_readback` keeps.
pub record Progress : Type 0 where
  pub last_readback : Option Value
  pub last_error : Option Text

unfoldable message_of : Option Text → Option Text → Option Text
message_of message none = message
message_of message (some e) = some (codes "Readback failed: " ++ e)

-- After the last attempt.
unfoldable pub unverified : WriteResult → Verify → Progress → WriteResult
unfolding message_of
unverified w v p = record w {
  message = message_of w.message p.last_error;
  verified = some false;
  readback = p.last_readback;
  skipped = false;
  attempts = v.max_attempts;
}

unfoldable pub confirmed : WriteResult → Value → ℕ → WriteResult
confirmed w x attempt = record w {
  verified = some true;
  readback = some x;
  skipped = false;
  attempts = attempt;
}

-- `if attempt < v.max_attempts: time.sleep(v.retry_delay)`.
unfoldable pub pause : {S : Type 0} → Machine S → Verify → ℕ → S → S
pause m v attempt s = if ltb attempt v.max_attempts then m.sleep v.retry_delay s else s

-- One attempt with what it read; `rest` are the attempts behind it.
unfoldable pub attempted :
    {S : Type 0}
    → Machine S
    → WriteResult
    → Value
    → Verify
    → ℕ
    → Progress
    → S × Reading
    → (Progress → S → S × Result WriteResult)
    → S × Result WriteResult
unfolding pause confirmed values_match
attempted m w expected v attempt p (s, raised e) rest = (s, err e)
attempted m w expected v attempt p (s, device_error e) rest =
    rest (record p { last_error = some e }) (pause m v attempt s)
attempted m w expected v attempt p (s, read_value x) rest =
    if values_match m.close x expected v.tolerance
    then (s, ok (confirmed w x attempt))
    else rest (record { last_readback = some x; last_error = none }) (pause m v attempt s)

-- The loop from an attempt on, with the number of attempts left.
unfoldable pub readback_loop :
    {S : Type 0}
    → Machine S
    → WriteResult
    → Text
    → Value
    → Verify
    → ℕ
    → ℕ
    → Progress
    → S
    → S × Result WriteResult
unfolding attempted unverified
readback_loop m w drf expected v zero attempt p s = (s, ok (unverified w v p))
readback_loop m w drf expected v (suc left) attempt p s =
    attempted m w expected v attempt p (m.read drf s)
      (λ q t. readback_loop m w drf expected v left (suc attempt) q t)

-- `_verify_readback`.
unfoldable pub verify_readback :
    {S : Type 0} → Machine S → WriteResult → Text → Value → Verify → S → S × Result WriteResult
unfolding readback_loop
verify_readback m w drf expected v s =
    readback_loop m w drf expected v v.max_attempts 1
      (record { last_readback = none; last_error = none }) (m.sleep v.initial_delay s)

-- The request that is read back: an empty `readback` is none.
unfoldable pub readback_drf : Option Text → Text → Text
readback_drf none drf = drf
readback_drf (some []) drf = drf
readback_drf (some (c ∷ cs)) drf = c ∷ cs

-- The result of a write that was not necessary.
unfoldable pub skipping : Text → Value → WriteResult
skipping drf x = record {
  drf = drf;
  facility_code = pos 0;
  error_code = pos 0;
  message = none;
  verified = some true;
  readback = some x;
  skipped = true;
  attempts = 0;
}

unfoldable pub after_write :
    {S : Type 0}
    → Machine S
    → Text
    → Value
    → Option Verify
    → S × Result WriteResult
    → S × Result WriteResult
unfolding verify_readback readback_drf is_zero
after_write m drf x v (s, err e) = (s, err e)
after_write m drf x none (s, ok w) = (s, ok w)
after_write m drf x (some v) (s, ok w) =
    if is_zero w.error_code
    then verify_readback m w (readback_drf v.readback drf) x v s
    else (s, ok w)

-- What `check_first` makes of the current value. Every exception of the read escapes; for a `DeviceError` stands
-- `runtime_error`.
unfoldable pub checked :
    {S : Type 0}
    → Machine S
    → Text
    → Value
    → Verify
    → S × Reading
    → (S → S × Result WriteResult)
    → S × Result WriteResult
unfolding skipping values_match
checked m write_drf x v (s, raised e) rest = (s, err e)
checked m write_drf x v (s, device_error e) rest = (s, err runtime_error)
checked m write_drf x v (s, read_value current) rest =
    if values_match m.close current x v.tolerance
    then (s, ok (skipping write_drf current))
    else rest s

unfoldable pub checked_write :
    {S : Type 0} → Machine S → Text → Text → Value → Option Verify → S → S × Result WriteResult
unfolding after_write checked readback_drf
checked_write m write_drf read_drf x none s = after_write m read_drf x none (m.write write_drf x s)
checked_write m write_drf read_drf x (some v) s =
    if v.check_first
    then checked m write_drf x v (m.read (readback_drf v.readback read_drf) s)
        (λ t. after_write m read_drf x (some v) (m.write write_drf x t))
    else after_write m read_drf x (some v) (m.write write_drf x s)

unfoldable pub resolved_write :
    {S : Type 0}
    → Machine S
    → Request
    → Value
    → Option Verify
    → Result (Option Field)
    → S
    → S × Result WriteResult
unfolding checked_write build_drf
resolved_write m r x v (err e) s = (s, err e)
resolved_write m r x v (ok f) s =
    checked_write m (build_drf r Property.setting f (codes "N"))
      (build_drf r Property.setting f (codes "I")) x v s

-- `Device.write`, with the thread's stack of contexts.
unfoldable pub write :
    {S : Type 0}
    → Machine S
    → List Verify
    → Request
    → Value
    → Option Text
    → Choice
    → S
    → S × Result WriteResult
unfolding resolved_write resolve_verify resolve_field
write m stack r x field choice s =
    resolved_write m r x (resolve_verify choice stack) (resolve_field field Property.setting) s
