-- ===== src/Verify/Control.antt =====
-- `Device.control` of pacsys/device.py, with the commands of pacsys/types.py.
use pacsys.Prelude.{
  runtime_error, Bool, true, false, not, Option, none, some, List, [], ◌∷◌, ◌==◌, if◌then◌else◌,
  Result, ok, err, Text, codes,
}
use pacsys.Prelude.Int.{ℤ, pos}
use pacsys.Drf.Property.{Property}
use pacsys.Drf.Field.{Field}
use pacsys.Drf.Request.{Request}
use pacsys.Verify.Context.{Choice, Value, Verify, resolve_verify, values_match}
use pacsys.Verify.Readback.{
  Machine, Reading, WriteResult, build_drf, is_zero, readback_drf, resolve_field, skipping,
  verify_readback,
}

-- `BasicControl`, with its ordinals.
pub data Command : Type 0 where
  reset on off positive negative ramp dc local remote trip : Command

abbrev ordinal : Command → ℤ
ordinal reset = pos 0
ordinal on = pos 1
ordinal off = pos 2
ordinal positive = pos 3
ordinal negative = pos 4
ordinal ramp = pos 5
ordinal dc = pos 6
ordinal local = pos 7
ordinal remote = pos 8
ordinal trip = pos 9

-- `CONTROL_STATUS_MAP`: the status field that a command changes, and what it becomes.
abbrev pub control_status : Command → Text × Bool
control_status on = (codes "on", true)
control_status off = (codes "on", false)
control_status reset = (codes "ready", true)
control_status trip = (codes "ready", false)
control_status positive = (codes "positive", true)
control_status negative = (codes "positive", false)
control_status ramp = (codes "ramp", true)
control_status dc = (codes "ramp", false)
control_status remote = (codes "remote", true)
control_status local = (codes "remote", false)

-- The truth of a value that was read; of an array it is what numpy says, which raises for most.
unfoldable truth : (List ℤ → Result Bool) → Value → Result Bool
truth of_array (Value.flag b) = ok b
truth of_array (Value.number (ℤ.pos n)) = ok (not (n == 0))
truth of_array (Value.number (ℤ.negsuc n)) = ok true
truth of_array (Value.words []) = ok false
truth of_array (Value.words (c ∷ cs)) = ok true
truth of_array (Value.array l) = of_array l

unfoldable with_readback : WriteResult → Result Bool → Result WriteResult
with_readback w (err e) = err e
with_readback w (ok b) = ok (record w { readback = some (Value.flag b) })

-- The readback of a result is made a `bool`, if there is one.
unfoldable as_flag : (List ℤ → Result Bool) → WriteResult → Option Value → Result WriteResult
unfolding with_readback truth
as_flag of_array w none = ok w
as_flag of_array w (some y) = with_readback w (truth of_array y)

unfoldable flagged :
    {S : Type 0} → (List ℤ → Result Bool) → S × Result WriteResult → S × Result WriteResult
unfolding as_flag
flagged of_array (s, err e) = (s, err e)
flagged of_array (s, ok w) = (s, as_flag of_array w w.readback)

unfoldable after_command :
    {S : Type 0}
    → Machine S
    → (List ℤ → Result Bool)
    → Text
    → Bool
    → Option Verify
    → S × Result WriteResult
    → S × Result WriteResult
unfolding flagged verify_readback readback_drf is_zero
after_command m of_array drf b v (s, err e) = (s, err e)
after_command m of_array drf b none (s, ok w) = (s, ok w)
after_command m of_array drf b (some v) (s, ok w) =
    if is_zero w.error_code
    then flagged of_array (verify_readback m w (readback_drf v.readback drf) (Value.flag b) v s)
    else (s, ok w)

-- What `check_first` makes of the truth of the current status.
unfoldable status_checked :
    {S : Type 0}
    → Machine S
    → Text
    → Bool
    → Verify
    → S × Result Bool
    → (S → S × Result WriteResult)
    → S × Result WriteResult
unfolding skipping values_match
status_checked m write_drf b v (s, err e) rest = (s, err e)
status_checked m write_drf b v (s, ok current) rest =
    if values_match m.close (Value.flag current) (Value.flag b) v.tolerance
    then (s, ok (skipping write_drf (Value.flag current)))
    else rest s

-- For a `DeviceError` that escapes stands `runtime_error`.
unfoldable status_read : {S : Type 0} → (List ℤ → Result Bool) → S × Reading → S × Result Bool
unfolding truth
status_read of_array (s, Reading.raised e) = (s, err e)
status_read of_array (s, Reading.device_error e) = (s, err runtime_error)
status_read of_array (s, Reading.read_value y) = (s, truth of_array y)

unfoldable commanded :
    {S : Type 0}
    → Machine S
    → (List ℤ → Result Bool)
    → Text
    → Text
    → Command
    → Option Verify
    → S
    → S × Result WriteResult
unfolding after_command status_checked status_read readback_drf
commanded m of_array write_drf read_drf c none s =
    after_command m of_array read_drf (control_status c).1 none
      (m.write write_drf (Value.number (ordinal c)) s)
commanded m of_array write_drf read_drf c (some v) s =
    if v.check_first
    then status_checked m write_drf ((control_status c).1) v
        (status_read of_array (m.read (readback_drf v.readback read_drf) s))
        (λ t.
          after_command m of_array read_drf (control_status c).1 (some v)
            (m.write write_drf (Value.number (ordinal c)) t))
    else after_command m of_array read_drf (control_status c).1 (some v)
        (m.write write_drf (Value.number (ordinal c)) s)

unfoldable control_field :
    {S : Type 0}
    → Machine S
    → (List ℤ → Result Bool)
    → Request
    → Command
    → Option Verify
    → Result (Option Field)
    → S
    → S × Result WriteResult
unfolding commanded build_drf
control_field m of_array r c v (err e) s = (s, err e)
control_field m of_array r c v (ok f) s =
    commanded m of_array (build_drf r Property.control none (codes "N"))
      (build_drf r Property.status f (codes "I")) c v s

-- `Device.control`. Every command has a status field, and each of these is allowed, so that it makes no difference
-- when the field is looked up.
unfoldable pub control :
    {S : Type 0}
    → Machine S
    → (List ℤ → Result Bool)
    → List Verify
    → Request
    → Command
    → Choice
    → S
    → S × Result WriteResult
unfolding control_field resolve_verify resolve_field
control m of_array stack r c choice s =
    control_field m of_array r c (resolve_verify choice stack)
      (resolve_field (some (control_status c).0) Property.status) s
