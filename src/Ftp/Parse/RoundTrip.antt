-- ===== src/Ftp/Parse/RoundTrip.antt =====
-- The points that the reply parsers of pacsys/acnet/ftp.py read are those that a front-end encoded.
use pacsys.Prelude.{
  acnet_error, ℕ, zero, suc, ◌+◌, ◌*◌, ◌≤◌, ◌<◌, ◌≡◌, refl, sym, ap, ◌∙◌, ◌⊎◌, inl, inr, Bool, true,
  false, List, [], ◌∷◌, ◌++◌, arith, if◌then◌else◌, Result, ok, err, ◌>>=◌, length, subst, All,
  drop, drop-length_append, length-drop, length-append,
}
use pacsys.Prelude.Int.{ℤ, pos, negsuc}
use pacsys.Ftp.Wire.{half_16, is_negative, u16_at, u16_bytes}
use pacsys.Ftp.Device.{Device}
use pacsys.Ftp.Parse.{
  Point, kept, parse_snapshot_data_reply, point_at, point_loop, snapshot_points, time_at, time_size,
  unless_negative, value_at, value_size,
}
use pacsys.Ftp.Parse.Reads.{if_lt, if_not_lt}
use pacsys.Ftp.Parse.Points.{
  Fits, IsSample, IsSize, Sample, drop-drop, encode_samples, encode_time, encode_value, half_of,
  i16_at-bytes, length-encode_time, length-encode_value, points_of, size_value, stamp, u16_at-bytes,
  value_at-encoded, skipping_first, word,
}

-- The number of points that a reply announces is that of its samples, or more if it ends within the next point.
abbrev pub Announces : Bool → ℕ → ℕ → List Sample → List ℕ → Type 0
Announces timed size n ps rest =
    (n ≡ length ps) ⊎ ((length ps ≤ n) × (length rest < time_size timed + size))

pub drop_append :
    {B : Type 0} (b xs ys : List B) (i n : ℕ)
    → n ≡ length xs
    → drop i b ≡ xs ++ ys
    → drop (i + n) b ≡ ys
drop_append b xs ys i n e f =
    drop-drop i n b ∙ ap (drop n) f ∙ ap (λ k. drop k (xs ++ ys)) e ∙ drop-length_append xs ys

time_at-encoded :
    (timed : Bool) (b rest : List ℕ) (i t : ℕ)
    → drop i b ≡ encode_time timed t ++ rest
    → (time_at timed b i >>= λ x. ok (x * 100)) ≡ ok (stamp timed t)
unfolding time_at encode_time
time_at-encoded true b rest i t e = ap (λ r. r >>= λ x. ok (x * 100)) (u16_at-bytes b rest i t e)
time_at-encoded false b rest i t e = refl

abbrev stamped : ℕ → ℤ → Result Point
stamped x w = ok (x * 100, w)

both :
    (r : Result ℕ) (s : Result ℤ) (t : ℕ) (v : ℤ)
    → (r >>= λ x. ok (x * 100)) ≡ ok t
    → s ≡ ok v
    → (r >>= λ x. s >>= λ w. stamped x w) ≡ ok (t, v)
both (ok x) (ok w) t v e f = cc
both (ok x) (err e) t v g f = cc
both (err e) s t v g f = cc

module _ (timed : Bool) (size : ℕ) (b : List ℕ) (sized : IsSize size) where
  point_at-encoded :
      (rest : List ℕ) (i t : ℕ) (v : ℤ)
      → Fits (half_of size) v
      → drop i b ≡ encode_time timed t ++ (encode_value size v ++ rest)
      → point_at timed size b i ≡ ok (stamp timed t, v)
  unfolding point_at
  point_at-encoded rest i t v h e =
      both (time_at timed b i) (value_at size b (i + time_size timed)) (stamp timed t) v
        (time_at-encoded timed b _ i t e)
        (value_at-encoded b rest (i + time_size timed) v size sized h (
          drop_append b (encode_time timed t) (encode_value size v ++ rest) i (time_size timed)
            (sym (length-encode_time timed t)) e))

  next_cursor :
      (rest : List ℕ) (i t : ℕ) (v : ℤ)
      → drop i b ≡ encode_time timed t ++ (encode_value size v ++ rest)
      → drop (i + time_size timed + value_size size) b ≡ rest
  next_cursor rest i t v e =
      drop_append b (encode_value size v) rest (i + time_size timed) (value_size size)
        (sym (length-encode_value size v sized))
        (drop_append b (encode_time timed t) (encode_value size v ++ rest) i (time_size timed)
          (sym (length-encode_time timed t)) e)

  long_enough :
      (rest : List ℕ) (i t : ℕ) (v : ℤ)
      → i ≤ length b
      → drop i b ≡ encode_time timed t ++ (encode_value size v ++ rest)
      → i + (time_size timed + size) ≤ length b
  long_enough rest i t v h e = omega (
    arith,
    h,
    length-drop i b,
    ap length e,
    length-append (encode_time timed t) (encode_value size v ++ rest),
    length-append (encode_value size v) rest,
    length-encode_time timed t,
    length-encode_value size v sized,
    size_value size sized,
  )

  too_short_to_read :
      (i : ℕ)
      → i ≤ length b
      → length (drop i b) < time_size timed + size
      → length b < i + (time_size timed + size)
  too_short_to_read i h k = omega (arith, h, k, length-drop i b)

  fewer :
      (n t : ℕ) (w : ℤ) (ps : List Sample) (rest : List ℕ)
      → Announces timed size (suc n) ((t, w) ∷ ps) rest
      → Announces timed size n ps rest
  fewer n t w ps rest (inl same) = inl (omega (arith, same))
  fewer n t w ps rest (inr (few, short)) = inr (omega (arith, few), short)

  kept-points_of :
      (skip : Bool) (p : Sample) (ps : List Sample)
      → kept skip (stamp timed p.0, p.1) (points_of timed ps)
        ≡ skipping_first skip (points_of timed (p ∷ ps))
  unfolding kept
  kept-points_of true p ps = refl
  kept-points_of false p ps = refl

  skipping_first-nil : (skip : Bool) → skipping_first {B = Point} skip [] ≡ []
  skipping_first-nil true = refl
  skipping_first-nil false = refl

  -- The loop over the points from a position on reads the samples that are encoded there.
  pub point_loop-encode_samples :
      (ps : List Sample) (rest : List ℕ) (skip : Bool) (n i : ℕ)
      → i ≤ length b
      → drop i b ≡ encode_samples timed size ps rest
      → All (IsSample size) ps
      → Announces timed size n ps rest
      → point_loop timed size b skip n i ≡ ok (skipping_first skip (points_of timed ps))
  unfolding point_loop encode_samples
  point_loop-encode_samples [] rest skip zero i h e v a = ap ok (sym (skipping_first-nil skip))
  point_loop-encode_samples [] rest skip (suc n) i h e v (inl same) = absurd (omega (arith, same))
  point_loop-encode_samples [] rest skip (suc n) i h e v (inr (_, short)) =
      if_lt _ _ (length b) (i + (time_size timed + size))
        (too_short_to_read i h (subst (λ l. length l < time_size timed + size) (sym e) short))
      ∙ ap ok (sym (skipping_first-nil skip))
  point_loop-encode_samples ((t, w) ∷ ps) rest skip zero i h e v (inl same) =
      absurd (omega (arith, same))
  point_loop-encode_samples ((t, w) ∷ ps) rest skip zero i h e v (inr (few, _)) =
      absurd (omega (arith, few))
  point_loop-encode_samples ((t, w) ∷ ps) rest skip (suc n) i h e v a =
      let more = encode_samples timed size ps rest in
      let fits = long_enough more i t w h e in
      if_not_lt _ _ (length b) (i + (time_size timed + size)) fits
      ∙ ap
          (λ r. r >>= λ p.
            point_loop timed size b false n (i + time_size timed + value_size size) >>= λ qs.
            ok (kept skip p qs))
          (point_at-encoded more i t w (v.0) e)
      ∙ ap (λ r. r >>= λ qs. ok (kept skip (stamp timed t, w) qs))
          (point_loop-encode_samples ps rest false n (i + time_size timed + value_size size)
            (omega (arith, fits, size_value size sized)) (next_cursor more i t w e) (v.1)
            (fewer n t w ps rest a))
      ∙ ap ok (kept-points_of skip (t, w) ps)

-- The reply to a retrieval: a status, a number of points, and samples.
unfoldable pub snapshot_data_reply : ℤ → ℕ → Bool → ℕ → List Sample → List ℕ → List ℕ
unfolding encode_samples
snapshot_data_reply status n timed size ps rest =
    u16_bytes (word half_16 status) ++ (u16_bytes n ++ encode_samples timed size ps rest)

snapshot_status :
    (status : ℤ) (d : Device) (timed skip : Bool) (b : List ℕ) (n : ℕ) (ps : List Point)
    → u16_at b 2 ≡ ok n
    → point_loop timed d.data_length b skip n 4 ≡ ok ps
    → snapshot_points b d timed skip status
      ≡ (if is_negative status then err acnet_error else ok ps)
unfolding snapshot_points unless_negative
snapshot_status (negsuc k) d timed skip b n ps e f = refl
snapshot_status (pos k) d timed skip b n ps e f = rw e f

parse_snapshot_data_reply-short :
    (b : List ℕ) (d : Device) (timed skip : Bool)
    → length b < 4
    → parse_snapshot_data_reply b d timed skip ≡ ok []
unfolding parse_snapshot_data_reply
parse_snapshot_data_reply-short b d timed skip h = if_lt _ _ (length b) 4 h

-- A reply to a retrieval with a status and a number of points raises an `AcnetError` where its status is negative.
-- Else its points are the samples that it announces, or those that it contains whole if it ends early, with their
-- times in microseconds, and without the first where that is metadata. A reply of fewer than four bytes gives no
-- points and raises nothing, also where it is a negative status alone.
pub parse_snapshot_data_reply-snapshot_data_reply :
    (status : ℤ) (n : ℕ) (d : Device) (timed skip : Bool) (ps : List Sample) (rest short : List ℕ)
    → Fits half_16 status
    → IsSize d.data_length
    → All (IsSample d.data_length) ps
    → Announces timed d.data_length n ps rest
    → length short < 4
    → (parse_snapshot_data_reply
          (snapshot_data_reply status n timed d.data_length ps rest)
          d
          timed
          skip
        ≡ (if is_negative status
            then err acnet_error
            else ok (skipping_first skip (points_of timed ps))))
      × (parse_snapshot_data_reply short d timed skip ≡ ok [])
unfolding parse_snapshot_data_reply snapshot_data_reply
parse_snapshot_data_reply-snapshot_data_reply status n d timed skip ps rest short h sized v a l =
    let b = snapshot_data_reply status n timed d.data_length ps rest in
    let e = encode_samples timed d.data_length ps rest in
    (
      if_not_lt _ _ (length b) 4 (omega arith)
          ∙ ap (λ r. r >>= λ s. snapshot_points b d timed skip s)
              (i16_at-bytes b (u16_bytes n ++ e) 0 status h refl)
          ∙ snapshot_status status d timed skip b n _ (u16_at-bytes b e 2 n refl) (
              point_loop-encode_samples timed d.data_length b sized ps rest skip n 4 (omega arith)
                refl v a),
      parse_snapshot_data_reply-short short d timed skip l,
    )
