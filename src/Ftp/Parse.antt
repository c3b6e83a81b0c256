-- ===== src/Ftp/Parse.antt =====
-- The reply parsers of pacsys/acnet/ftp.py.
pub mod Setup
pub mod Reads
pub mod Replies
pub mod Points
pub mod RoundTrip
pub mod Described
use pacsys.Prelude.{
  drop, take, value_error, replicate, acnet_error, ℕ, zero, suc, ◌+◌, ◌-◌, ◌*◌, ◌/◌, ◌%◌, ◌^◌, ◌≤◌,
  ◌<◌, bit_and, bit_or, ◌≡◌, refl, sym, ap, ◌∙◌, ◌≢◌, ◌↔◌, ◌⊎◌, inl, inr, Bool, true, false, not,
  ◌&&◌, ◌||◌, Option, none, some, List, [], ◌∷◌, ◌++◌, map, append-nil, append_assoc, arith, ltb,
  leb, ◌==◌, if◌then◌else◌, Bool-cases, Result, ok, err, ◌>>=◌, ◌>>◌, guard, length, Text, codes,
  Exn,
}
use pacsys.Prelude.Int.{ℤ, pos, eqb_ℤ}
use pacsys.Ftp.Wire.{i16_at, i32_at, is_negative, u16_at, u32_at}
use pacsys.Ftp.Device.{Device}

-- `FTPClassCode`.
pub record ClassCode : Type 0 where
  pub ftp : ℕ
  pub snap : ℕ
  pub error : ℤ

-- `FTPDataPoint`: a time in microseconds and a raw value.
abbrev pub Point : Type 0
Point = ℕ × ℤ

-- "<hHH".
unfoldable pub class_code_at : List ℕ → ℕ → Result ClassCode
unfolding i16_at u16_at
class_code_at b i = i16_at b i >>= λ e.
    u16_at b (i + 2) >>= λ f. u16_at b (i + 4) >>= λ s. ok (record { ftp = f; snap = s; error = e })

unfoldable pub class_loop : List ℕ → ℕ → ℕ → Result (List ClassCode)
unfolding class_code_at
class_loop b zero offset = ok []
class_loop b (suc n) offset =
    let rest = class_loop b n (offset + 6) in
    if ltb (length b) (offset + 6)
    then err value_error
    else class_code_at b offset >>= λ c. rest >>= λ cs. ok (c ∷ cs)

-- A status below zero raises an `AcnetError`.
unfoldable pub unless_negative : {B : Type 0} → ℤ → Result B → Result B
unless_negative s r = if is_negative s then err acnet_error else r

-- `parse_class_info_reply`.
unfoldable pub parse_class_info_reply : List ℕ → ℕ → Result (List ClassCode)
unfolding i16_at unless_negative class_loop
parse_class_info_reply b n =
    if ltb (length b) 2
    then err value_error
    else i16_at b 0 >>= λ s. unless_negative s (class_loop b n 2)

unfoldable status_loop : List ℕ → ℕ → ℕ → Result (List ℤ)
unfolding i16_at
status_loop b zero offset = ok []
status_loop b (suc n) offset =
    let rest = status_loop b n (offset + 2) in
    if ltb (length b) (offset + 2)
    then err value_error
    else i16_at b offset >>= λ s. rest >>= λ ss. ok (s ∷ ss)

abbrev reply_type_setup : ℕ
reply_type_setup = 1

abbrev reply_type_data : ℕ
reply_type_data = 2

unfoldable setup_statuses : List ℕ → ℕ → Result (List ℤ)
unfolding u16_at status_loop
setup_statuses b n =
    if ltb (length b) 4
    then err value_error
    else u16_at b 2 >>= λ t. if t == reply_type_setup then status_loop b n 4 else err value_error

-- `parse_continuous_first_reply`.
unfoldable parse_continuous_first_reply : List ℕ → ℕ → Result (List ℤ)
unfolding i16_at unless_negative setup_statuses
parse_continuous_first_reply b n =
    if ltb (length b) 2
    then err value_error
    else i16_at b 0 >>= λ s. unless_negative s (setup_statuses b n)

-- A value of four bytes or of two.
unfoldable pub value_at : ℕ → List ℕ → ℕ → Result ℤ
unfolding i32_at i16_at
value_at data_length b i = if data_length == 4 then i32_at b i else i16_at b i

abbrev pub value_size : ℕ → ℕ
value_size data_length = if data_length == 4 then 4 else 2

-- The time of a point, which some classes leave out.
unfoldable pub time_at : Bool → List ℕ → ℕ → Result ℕ
unfolding u16_at
time_at true b i = u16_at b i
time_at false b i = ok 0

abbrev pub time_size : Bool → ℕ
time_size true = 2
time_size false = 0

unfoldable pub point_at : Bool → ℕ → List ℕ → ℕ → Result Point
unfolding time_at value_at
point_at timed data_length b i =
    time_at timed b i >>= λ t. value_at data_length b (i + time_size timed) >>= λ v. ok (t * 100, v)

-- The first point is left out where it is metadata.
unfoldable pub kept : Bool → Point → List Point → List Point
kept true p ps = ps
kept false p ps = p ∷ ps

-- Up to a number of points from a position on, as long as the data have them.
unfoldable pub point_loop : Bool → ℕ → List ℕ → Bool → ℕ → ℕ → Result (List Point)
unfolding point_at kept
point_loop timed data_length b skip zero cursor = ok []
point_loop timed data_length b skip (suc n) cursor =
    let rest =
      point_loop timed data_length b false n (cursor + time_size timed + value_size data_length) in
    if ltb (length b) (cursor + (time_size timed + data_length))
    then ok []
    else point_at timed data_length b cursor >>= λ p. rest >>= λ ps. ok (kept skip p ps)

-- `results[di] = points`.
unfoldable put_points : ℕ → List Point → List (ℕ × List Point) → List (ℕ × List Point)
put_points di ps [] = (di, ps) ∷ []
put_points di ps ((k, qs) ∷ rest) =
    let later = put_points di ps rest in if k == di then (k, ps) ∷ rest else (k, qs) ∷ later

unfoldable pub with_points : Device → List Point → List (ℕ × List Point) → List (ℕ × List Point)
unfolding put_points
with_points d [] results = results
with_points d (p ∷ ps) results = put_points d.di (p ∷ ps) results

-- The points of a device whose status is zero, from its index and number in the header.
unfoldable pub device_points :
    List ℕ → Device → ℕ → List (ℕ × List Point) → Result (List (ℕ × List Point))
unfolding u16_at point_loop with_points
device_points b d offset results = u16_at b (offset + 2) >>= λ index. u16_at b (offset + 4) >>= λ n.
    point_loop true d.data_length b false n index >>= λ ps. ok (with_points d ps results)

unfoldable pub device_loop :
    List ℕ → List Device → ℕ → List (ℕ × List Point) → Result (List (ℕ × List Point))
unfolding i16_at device_points
device_loop b [] offset results = ok results
device_loop b (d ∷ ds) offset results =
    if ltb (length b) (offset + 6)
    then ok results
    else i16_at b offset >>= λ e.
        (if eqb_ℤ e (pos 0) then device_points b d offset results else ok results) >>= λ r.
        device_loop b ds (offset + 6) r

unfoldable pub data_devices : List ℕ → List Device → ℤ → ℕ → Result (List (ℕ × List Point))
unfolding device_loop
data_devices b ds error reply_type =
    if is_negative error || not (reply_type == reply_type_data)
    then ok []
    else device_loop b ds 8 []

-- `parse_continuous_data_reply`: the points of the devices, by their device index.
unfoldable pub parse_continuous_data_reply : List ℕ → List Device → Result (List (ℕ × List Point))
unfolding i16_at u16_at data_devices
parse_continuous_data_reply b ds =
    if ltb (length b) 8
    then ok []
    else i16_at b 0 >>= λ e. u16_at b 2 >>= λ t. data_devices b ds e t

-- `parse_snapshot_data_reply`.
unfoldable pub snapshot_points : List ℕ → Device → Bool → Bool → ℤ → Result (List Point)
unfolding unless_negative u16_at point_loop
snapshot_points b d timed skip s =
    unless_negative s (u16_at b 2 >>= λ n. point_loop timed d.data_length b skip n 4)

unfoldable pub parse_snapshot_data_reply : List ℕ → Device → Bool → Bool → Result (List Point)
unfolding i16_at snapshot_points
parse_snapshot_data_reply b d timed skip =
    if ltb (length b) 4 then ok [] else i16_at b 0 >>= λ s. snapshot_points b d timed skip s
