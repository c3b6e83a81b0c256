-- ===== src/Ftp/Build/Snapshot.antt =====
-- The size of a snapshot's setup, and the bits of its selection word (pacsys/acnet/ftp.py).
use pacsys.Prelude.{
  ℕ, ◌+◌, ◌*◌, ◌/◌, ◌^◌, ◌<◌, bit_and, bit_or, ◌≡◌, refl, sym, ap, ◌∙◌, Option, none, some, List,
  [], ◌∷◌, ◌++◌, arith, ok, length, All, length-append, length-replicate, length-take, replicate,
}
use pacsys.Prelude.Bits.{bit_or-shifted, bit_and_halves, bit_and-zero}
use pacsys.Ftp.Wire.{pack_u16, pack_u32}
use pacsys.Ftp.Device.{Device, dipi}
use pacsys.Ftp.Build.{
  Setup, arm_block, blocks, build_arm_trigger_word, build_snapshot_setup, events_of, snapshot_block,
}
use pacsys.Ftp.Build.Sizes.{
  IsFit, added, dipi_lt, size_of, size_of-blocks, size_of-pack_u16, size_of-pack_u32,
  size_of-packed, total, All-snapshot_block,
}

unfoldable pub ArmFits : Option (Device × (ℕ × ℕ)) → Type 0
ArmFits none = Unit {0}
ArmFits (some (d, (mask, value))) = IsFit d × ((mask < 4294967296) × (value < 4294967296))

size_of-arm_block :
    (arm : Option (Device × (ℕ × ℕ))) → ArmFits arm → size_of (arm_block arm) ≡ ok 24
unfolding arm_block ArmFits total added size_of
size_of-arm_block none v = refl
size_of-arm_block (some (d, (mask, value))) v =
    size_of-packed
      (pack_u32 (dipi d) ∷ pack_u32 d.offset ∷ ok d.ssdn ∷ pack_u32 mask ∷ pack_u32 value ∷ [])
    ∙ rw
        (
          size_of-pack_u32 (dipi d) (dipi_lt d (v.0)),
          size_of-pack_u32 d.offset (v.0).offset_lt,
          (v.0).ssdn_size,
          size_of-pack_u32 mask (v.1.0),
          size_of-pack_u32 value (v.1.1),
        )
        refl

length-events_of : (n : ℕ) (b : List ℕ) → length (events_of n b) ≡ n
unfolding events_of
length-events_of n b = omega (
  arith,
  length-take n (b ++ replicate n 255),
  length-append b (replicate n 255),
  length-replicate {A = ℕ} n 255,
)

two_bits : (v : ℕ) → bit_and v 3 < 4
two_bits v = omega (arith, bit_and_halves v 3, bit_and_halves (v / 2) 1, bit_and-zero (v / 2 / 2))

or_low : (k a x y : ℕ) → x ≡ a * 2 ^ k → y < 2 ^ k → bit_or x y ≡ x + y
or_low k a x y h l = ap (λ z. bit_or z y) h ∙ bit_or-shifted k a y l ∙ ap (λ z. z + y) (sym h)

-- The selection word is the sum of its fields.
arm_word_fields :
    (source am pm ts tm : ℕ)
    → build_arm_trigger_word source am pm ts tm
      ≡ bit_and tm 3 * 1024
        + bit_and ts 3 * 256
        + 128
        + bit_and pm 3 * 32
        + bit_and am 3 * 4
        + bit_and source 3
unfolding build_arm_trigger_word
arm_word_fields source am pm ts tm =
    let a = bit_and source 3 in
    let b = bit_and am 3 in
    let c = bit_and pm 3 in
    let d = bit_and ts 3 in
    let e = bit_and tm 3 in
    rw
      (
        or_low 10 e (e * 1024) (d * 256) (omega arith) (omega (arith, two_bits ts)),
        or_low 8 (e * 4 + d) (e * 1024 + d * 256) 128 (omega arith) (omega arith),
        or_low 7 (e * 8 + d * 2 + 1) (e * 1024 + d * 256 + 128) (c * 32) (omega arith)
            (omega (arith, two_bits pm)),
        or_low 5 (e * 32 + d * 8 + 4 + c) (e * 1024 + d * 256 + 128 + c * 32) (b * 4) (omega arith)
            (omega (arith, two_bits am)),
        or_low 2 (e * 256 + d * 64 + 32 + c * 8 + b) (e * 1024 + d * 256 + 128 + c * 32 + b * 4) a
            (omega arith) (omega (arith, two_bits source)),
      )
      refl

arm_word_lt : (source am pm ts tm : ℕ) → build_arm_trigger_word source am pm ts tm < 65536
arm_word_lt source am pm ts tm = omega (
  arith,
  arm_word_fields source am pm ts tm,
  two_bits source,
  two_bits am,
  two_bits pm,
  two_bits ts,
  two_bits tm,
)

-- The numbers of a setup that fit the message.
pub record IsSetup (s : Setup) : Type 0 where
  pub rate_lt : s.rate_hz < 4294967296
  pub points_lt : s.num_points < 4294967296
  pub delay_lt : s.arm_delay < 4294967296
  pub priority_lt : s.priority < 65536
  pub task_lt : s.task_name < 4294967296
  pub arm_fits : ArmFits s.arm_device

-- The setup of a snapshot has 68 bytes and 20 for each device, if the devices and the numbers of the setup fit the
-- message.
snapshot_size :
    (ds : List Device) (s : Setup)
    → All IsFit ds
    → length ds < 65536
    → IsSetup s
    → size_of (build_snapshot_setup ds s) ≡ ok (68 + 20 * length ds)
unfolding build_snapshot_setup total added size_of
snapshot_size ds s v h w =
    size_of-packed (
      pack_u16 7
      ∷ pack_u32 s.task_name
      ∷ pack_u16 (length ds)
      ∷ pack_u16 (
          build_arm_trigger_word s.arm_source s.arm_modifier s.plot_mode s.trigger_source
            s.trigger_modifier)
      ∷ pack_u16 s.priority
      ∷ pack_u32 s.rate_hz
      ∷ pack_u32 s.arm_delay
      ∷ ok (events_of 8 s.arm_events)
      ∷ ok (events_of 4 s.sample_events)
      ∷ pack_u32 s.num_points
      ∷ arm_block s.arm_device
      ∷ ok (replicate 8 0)
      ∷ blocks snapshot_block ds
      ∷ [])
    ∙ rw
        (
          size_of-pack_u16 7 (omega arith),
          size_of-pack_u32 s.task_name w.task_lt,
          size_of-pack_u16 (length ds) h,
          size_of-pack_u16
              (build_arm_trigger_word s.arm_source s.arm_modifier s.plot_mode s.trigger_source
                s.trigger_modifier)
              (arm_word_lt s.arm_source s.arm_modifier s.plot_mode s.trigger_source
                s.trigger_modifier),
          size_of-pack_u16 s.priority w.priority_lt,
          size_of-pack_u32 s.rate_hz w.rate_lt,
          size_of-pack_u32 s.arm_delay w.delay_lt,
          length-events_of 8 s.arm_events,
          length-events_of 4 s.sample_events,
          size_of-pack_u32 s.num_points w.points_lt,
          size_of-arm_block s.arm_device w.arm_fits,
          size_of-blocks snapshot_block 20 ds (All-snapshot_block ds v),
        )
        (ap ok (omega arith))
