-- ===== src/Ftp/Parse/Described.antt =====
-- A data reply of a continuous plot as a front-end lays it out, and what pacsys/acnet/ftp.py reads of it.
use pacsys.Prelude.{
  length-drop, ℕ, zero, suc, ◌+◌, ◌≤◌, ◌≡◌, refl, ap, ◌∙◌, Bool, true, false, not, ◌||◌, List, [],
  ◌∷◌, ◌++◌, map, arith, ◌==◌, if◌then◌else◌, ok, ◌>>=◌, length, All, drop,
}
use pacsys.Prelude.Int.{ℤ, pos, negsuc, eqb_ℤ}
use pacsys.Ftp.Wire.{half_16, is_negative, u16_at, u16_bytes, u32_bytes}
use pacsys.Ftp.Device.{Device}
use pacsys.Ftp.Parse.{
  Point, data_devices, device_loop, device_points, parse_continuous_data_reply, with_points,
}
use pacsys.Ftp.Parse.Reads.{if_not_lt}
use pacsys.Ftp.Parse.Points.{
  Fits, IsSample, IsSize, Sample, encode_samples, i16_at-bytes, points_of, u16_at-bytes, word,
}
use pacsys.Ftp.Parse.RoundTrip.{Announces, drop_append, point_loop-encode_samples}

-- What a reply says of a device: its status, the index and the number of its points, and these, with what follows.
pub record Entry : Type 0 where
  pub device : Device
  pub status : ℤ
  pub index : ℕ
  pub number : ℕ
  pub samples : List Sample
  pub rest : List ℕ

unfoldable encode_headers : List Entry → List ℕ → List ℕ
encode_headers [] body = body
encode_headers (e ∷ es) body =
    u16_bytes (word half_16 e.status)
    ++ (u16_bytes e.index ++ (u16_bytes e.number ++ encode_headers es body))

-- The points of a device stand at its index.
abbrev IsPlotted : List ℕ → Entry → Type 0
IsPlotted b e =
    (e.index ≤ length b)
    × ((drop e.index b ≡ encode_samples true e.device.data_length e.samples e.rest)
        × (IsSize e.device.data_length
            × (All (IsSample e.device.data_length) e.samples
                × Announces true e.device.data_length e.number e.samples e.rest)))

abbrev IsLocated : List ℕ → Entry → ℤ → Type 0
IsLocated b e (pos zero) = IsPlotted b e
IsLocated b e (pos (suc n)) = Unit
IsLocated b e (negsuc n) = Unit

abbrev IsEntry : List ℕ → Entry → Type 0
IsEntry b e = Fits half_16 e.status × IsLocated b e e.status

abbrev entry_points : Entry → ℤ → List (ℕ × List Point) → List (ℕ × List Point)
entry_points e (pos zero) results = with_points e.device (points_of true e.samples) results
entry_points e (pos (suc n)) results = results
entry_points e (negsuc n) results = results

-- The points of the devices without an error, by their device index.
unfoldable pub collected : List Entry → List (ℕ × List Point) → List (ℕ × List Point)
unfolding with_points
collected [] results = results
collected (e ∷ es) results = collected es (entry_points e e.status results)

device_points-IsPlotted :
    (b : List ℕ) (e : Entry) (offset : ℕ) (results : List (ℕ × List Point))
    → IsPlotted b e
    → u16_at b (offset + 2) ≡ ok e.index
    → u16_at b (offset + 4) ≡ ok e.number
    → device_points b e.device offset results
      ≡ ok (with_points e.device (points_of true e.samples) results)
unfolding device_points
device_points-IsPlotted b e offset results (h, (f, (sized, (v, a)))) i n =
    rw (i, n)
      (ap (λ r. r >>= λ ps. ok (with_points e.device ps results))
        (point_loop-encode_samples true e.device.data_length b sized e.samples e.rest false e.number
          e.index h f v a))

entry_read :
    (b : List ℕ) (e : Entry) (status : ℤ) (offset : ℕ) (results : List (ℕ × List Point))
    → IsLocated b e status
    → u16_at b (offset + 2) ≡ ok e.index
    → u16_at b (offset + 4) ≡ ok e.number
    → (if eqb_ℤ status (pos 0) then device_points b e.device offset results else ok results)
      ≡ ok (entry_points e status results)
entry_read b e (pos zero) offset results h i n = device_points-IsPlotted b e offset results h i n
entry_read b e (pos (suc k)) offset results h i n = ground arith
entry_read b e (negsuc k) offset results h i n = ground arith

device_loop-encode_headers :
    (b : List ℕ) (es : List Entry) (body : List ℕ) (offset : ℕ) (results : List (ℕ × List Point))
    → offset ≤ length b
    → drop offset b ≡ encode_headers es body
    → All (IsEntry b) es
    → device_loop b (map (λ e. e.device) es) offset results ≡ ok (collected es results)
unfolding device_loop encode_headers collected
device_loop-encode_headers b [] body offset results h f v = refl
device_loop-encode_headers b (e ∷ es) body offset results h f ((fits, located), v) =
    let more = encode_headers es body in
    let tail_of = u16_bytes e.index ++ (u16_bytes e.number ++ more) in
    let long : offset + 6 ≤ length b = omega (arith, h, length-drop offset b, ap length f) in
    if_not_lt _ _ (length b) (offset + 6) long
    ∙ ap
        (λ r. r >>= λ s.
          (if eqb_ℤ s (pos 0) then device_points b e.device offset results else ok results) >>= λ r.
          device_loop b (map (λ e. e.device) es) (offset + 6) r)
        (i16_at-bytes b tail_of offset e.status fits f)
    ∙ ap (λ r. r >>= λ r. device_loop b (map (λ e. e.device) es) (offset + 6) r)
        (entry_read b e e.status offset results located
          (u16_at-bytes b (u16_bytes e.number ++ more) (offset + 2) e.index
            (drop_append b (u16_bytes (word half_16 e.status)) tail_of offset 2 refl f))
          (u16_at-bytes b more (offset + 4) e.number (
            drop_append b (u16_bytes (word half_16 e.status) ++ u16_bytes e.index)
              (u16_bytes e.number ++ more) offset 4 refl f)))
    ∙ device_loop-encode_headers b es body (offset + 6) (entry_points e e.status results) long
        (drop_append b
          (u16_bytes (word half_16 e.status) ++ (u16_bytes e.index ++ u16_bytes e.number)) more
          offset 6 refl f)
        v

-- A data reply: a status, a type, four bytes that nothing reads, a header for each device, and the points.
unfoldable pub data_reply : ℤ → ℕ → ℕ → List Entry → List ℕ → List ℕ
unfolding encode_headers
data_reply status reply_type reserved es body =
    u16_bytes (word half_16 status)
    ++ (u16_bytes reply_type ++ (u32_bytes reserved ++ encode_headers es body))

data_devices_of :
    (b : List ℕ) (ds : List Device) (results : List (ℕ × List Point)) (c : Bool)
    → device_loop b ds 8 [] ≡ ok results
    → (if c then ok [] else device_loop b ds 8 []) ≡ ok (if c then [] else results)
data_devices_of b ds results true e = refl
data_devices_of b ds results false e = e

-- A data reply of a continuous plot gives the samples of each device without an error, wherever in the reply they
-- stand, with their times in microseconds; a later device replaces the points of an earlier one with its index. A
-- reply with a negative status or of another type gives none.
pub parse_continuous_data_reply-data_reply :
    (status : ℤ) (reply_type reserved : ℕ) (es : List Entry) (body : List ℕ)
    → Fits half_16 status
    → All (IsEntry (data_reply status reply_type reserved es body)) es
    → parse_continuous_data_reply
        (data_reply status reply_type reserved es body)
        (map (λ e. e.device) es)
      ≡ ok (if is_negative status || not (reply_type == 2) then [] else collected es [])
unfolding parse_continuous_data_reply data_reply data_devices
parse_continuous_data_reply-data_reply status reply_type reserved es body h v =
    let b = data_reply status reply_type reserved es body in
    let headers = encode_headers es body in
    let ds = map (λ e. e.device) es in
    if_not_lt _ _ (length b) 8 (omega arith)
    ∙ ap (λ r. r >>= λ s. u16_at b 2 >>= λ t. data_devices b ds s t)
        (i16_at-bytes b (u16_bytes reply_type ++ (u32_bytes reserved ++ headers)) 0 status h refl)
    ∙ ap (λ r. r >>= λ t. data_devices b ds status t)
        (u16_at-bytes b (u32_bytes reserved ++ headers) 2 reply_type refl)
    ∙ data_devices_of b ds (collected es []) (is_negative status || not (reply_type == 2))
        (device_loop-encode_headers b es body 8 [] (omega arith) refl v)
