-- ===== src/Ftp/Build/Sizes.antt =====
-- The sizes of the packets that pacsys/acnet/ftp.py builds.
use pacsys.Prelude.{
  ℕ, ◌+◌, ◌*◌, ◌^◌, ◌≤◌, ◌<◌, ◌≡◌, refl, ap, ◌∙◌, List, [], ◌∷◌, arith, Result, ok, err, length,
  All, length-append, replicate, struct_error,
}
use pacsys.Prelude.Bits.{bit_or-shifted}
use pacsys.Ftp.Wire.{joined, pack_u16, pack_u32, packed}
use pacsys.Ftp.Device.{Device, dipi}
use pacsys.Ftp.Build.{blocks, continuous_block, continuous_packet, snapshot_block}

-- The number of bytes, where there is no error.
unfoldable pub size_of : Result (List ℕ) → Result ℕ
size_of (ok b) = ok (length b)
size_of (err e) = err e

unfoldable pub added : Result ℕ → Result ℕ → Result ℕ
added (err e) n = err e
added (ok m) (err e) = err e
added (ok m) (ok n) = ok (m + n)

pub size_of-joined : (p q : Result (List ℕ)) → size_of (joined p q) ≡ added (size_of p) (size_of q)
unfolding size_of joined added
size_of-joined (err e) q = refl
size_of-joined (ok b) (err e) = refl
size_of-joined (ok b) (ok c) = ap ok (length-append b c)

unfoldable pub total : List (Result (List ℕ)) → Result ℕ
total [] = ok 0
total (p ∷ ps) = added (size_of p) (total ps)

pub size_of-packed : (ps : List (Result (List ℕ))) → size_of (packed ps) ≡ total ps
unfolding packed total size_of
size_of-packed [] = refl
size_of-packed (p ∷ ps) =
    size_of-joined p (packed ps) ∙ ap (λ n. added (size_of p) n) (size_of-packed ps)

pub size_of-pack_u16 : (w : ℕ) → w < 65536 → size_of (pack_u16 w) ≡ ok 2
unfolding pack_u16 size_of
size_of-pack_u16 w h = ground arith

pub size_of-pack_u16_large : (w : ℕ) → 65536 ≤ w → size_of (pack_u16 w) ≡ err struct_error
unfolding pack_u16 size_of
size_of-pack_u16_large w h = ground arith

pub size_of-pack_u32 : (w : ℕ) → w < 4294967296 → size_of (pack_u32 w) ≡ ok 4
unfolding pack_u32 size_of
size_of-pack_u32 w h = ground arith

pub size_of-blocks :
    (f : Device → Result (List ℕ)) (k : ℕ) (ds : List Device)
    → All (λ d. size_of (f d) ≡ ok k) ds
    → size_of (blocks f ds) ≡ ok (k * length ds)
unfolding blocks size_of added
size_of-blocks f k [] h = ap ok (omega arith)
size_of-blocks f k (d ∷ ds) h =
    size_of-joined (f d) (blocks f ds) ∙ rw (h.0, size_of-blocks f k ds (h.1)) (ap ok (omega arith))

-- A device whose numbers fit the message.
pub record IsFit (d : Device) : Type 0 where
  pub di_lt : d.di < 2 ^ 24
  pub pi_lt : d.pi < 256
  pub ssdn_size : length d.ssdn ≡ 8
  pub offset_lt : d.offset < 4294967296

pub dipi_lt : (d : Device) → IsFit d → dipi d < 4294967296
unfolding dipi
dipi_lt d v = omega (arith, bit_or-shifted 24 d.pi d.di v.di_lt, v.pi_lt, v.di_lt)

sixteen :
    (n : Result ℕ)
    → added (ok 4) (added (ok 4) (added (ok 8) (added n (added (ok 4) (ok 0)))))
      ≡ added (ok 16) (added n (ok 4))
unfolding added
sixteen (ok n) = ap ok (omega arith)
sixteen (err e) = refl

thirty_two :
    (n : Result ℕ)
    → added (ok 2) (
        added (ok 4) (
          added (ok 2) (
            added (ok 2) (
              added (ok 2) (
                added (ok 2) (
                  added (ok 2) (
                    added
                      (ok 2)
                      (added (ok 2) (added (ok 2) (added (ok 10) (added n (ok 0))))))))))))
      ≡ added (ok 32) n
unfolding added
thirty_two (ok n) = ap ok (omega arith)
thirty_two (err e) = refl

pub size_of-continuous_block :
    (period : ℕ) (d : Device) (n : Result ℕ)
    → IsFit d
    → size_of (pack_u16 period) ≡ n
    → size_of (continuous_block period d) ≡ added (ok 16) (added n (ok 4))
unfolding continuous_block total added size_of
size_of-continuous_block period d n v h =
    size_of-packed (
      pack_u32 (dipi d) ∷ pack_u32 d.offset ∷ ok d.ssdn ∷ pack_u16 period ∷ ok (replicate 4 0) ∷ [])
    ∙ rw
        (
          size_of-pack_u32 (dipi d) (dipi_lt d v),
          size_of-pack_u32 d.offset v.offset_lt,
          v.ssdn_size,
          h,
        )
        (sixteen n)

size_of-snapshot_block : (d : Device) → IsFit d → size_of (snapshot_block d) ≡ ok 20
unfolding snapshot_block total added size_of
size_of-snapshot_block d v =
    size_of-packed (pack_u32 (dipi d) ∷ pack_u32 d.offset ∷ ok d.ssdn ∷ ok (replicate 4 0) ∷ [])
    ∙ rw
        (
          size_of-pack_u32 (dipi d) (dipi_lt d v),
          size_of-pack_u32 d.offset v.offset_lt,
          v.ssdn_size,
        )
        refl

pub All-continuous_block :
    (period : ℕ) (ds : List Device)
    → All IsFit ds
    → period < 65536
    → All (λ d. size_of (continuous_block period d) ≡ ok 22) ds
unfolding added
All-continuous_block period [] v h = tt
All-continuous_block period (d ∷ ds) v h = (
  size_of-continuous_block period d (ok 2) (v.0) (size_of-pack_u16 period h),
  All-continuous_block period ds (v.1) h,
)

pub All-snapshot_block :
    (ds : List Device) → All IsFit ds → All (λ d. size_of (snapshot_block d) ≡ ok 20) ds
All-snapshot_block [] v = tt
All-snapshot_block (d ∷ ds) v = (size_of-snapshot_block d (v.0), All-snapshot_block ds (v.1))

-- The size of the header, and of the devices behind it.
pub size_of-continuous_packet :
    (ds : List Device) (return_period priority event task period size : ℕ) (n : Result ℕ)
    → length ds < 65536
    → return_period < 65536
    → priority < 65536
    → event < 65536
    → task < 4294967296
    → size < 65536
    → size_of (blocks (continuous_block period) ds) ≡ n
    → size_of (continuous_packet ds return_period priority event task period size) ≡ added (ok 32) n
unfolding continuous_packet total added size_of
size_of-continuous_packet ds r p e t period size n hd hr hp he ht hs hb =
    size_of-packed (
      pack_u16 6
      ∷ pack_u32 t
      ∷ pack_u16 (length ds)
      ∷ pack_u16 r
      ∷ pack_u16 size
      ∷ pack_u16 e
      ∷ pack_u16 0
      ∷ pack_u16 0
      ∷ pack_u16 p
      ∷ pack_u16 0
      ∷ ok (replicate 10 0)
      ∷ blocks (continuous_block period) ds
      ∷ [])
    ∙ rw
        (
          size_of-pack_u16 6 (omega arith),
          size_of-pack_u32 t ht,
          size_of-pack_u16 (length ds) hd,
          size_of-pack_u16 r hr,
          size_of-pack_u16 size hs,
          size_of-pack_u16 e he,
          size_of-pack_u16 0 (omega arith),
          size_of-pack_u16 p hp,
          hb,
        )
        (thirty_two n)
