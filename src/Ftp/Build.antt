-- ===== src/Ftp/Build.antt =====
-- The packet builders of pacsys/acnet/ftp.py.
pub mod Sizes
pub mod Continuous
pub mod Snapshot
use pacsys.Prelude.{
  min, max, replicate, take, zero_division_error, ℕ, zero, suc, ◌+◌, ◌-◌, ◌*◌, ◌/◌, ◌%◌, ◌^◌, ◌≤◌,
  ◌<◌, bit_and, bit_or, ◌≡◌, refl, sym, ap, ◌∙◌, ◌≢◌, ◌↔◌, ◌⊎◌, inl, inr, Bool, true, false, not,
  ◌&&◌, ◌||◌, Option, none, some, List, [], ◌∷◌, ◌++◌, map, append-nil, append_assoc, arith, ltb,
  leb, ◌==◌, if◌then◌else◌, Bool-cases, Result, ok, err, ◌>>=◌, ◌>>◌, guard, length, Text, codes,
}
use pacsys.Prelude.Int.{ℤ, mod_ℤ}
use pacsys.Ftp.Wire.{joined, pack_u16, pack_u32, packed}
use pacsys.Ftp.Device.{Device, dipi}

abbrev typecode_class_info : ℕ
typecode_class_info = 1

abbrev typecode_continuous : ℕ
typecode_continuous = 6

abbrev typecode_snapshot_setup : ℕ
typecode_snapshot_setup = 7

abbrev typecode_snapshot_retrieve : ℕ
typecode_snapshot_retrieve = 8

abbrev typecode_snapshot_control : ℕ
typecode_snapshot_control = 5

abbrev max_acnet_msg_size : ℕ
max_acnet_msg_size = 8320

-- The blocks of the devices, behind each other.
unfoldable pub blocks : (Device → Result (List ℕ)) → List Device → Result (List ℕ)
unfolding joined
blocks f [] = ok []
blocks f (d ∷ ds) = joined (f d) (blocks f ds)

unfoldable class_block : Device → Result (List ℕ)
unfolding packed pack_u32 dipi
class_block d = packed (pack_u32 (dipi d) ∷ ok d.ssdn ∷ [])

-- `build_class_info_request`.
unfoldable build_class_info_request : List Device → Result (List ℕ)
unfolding packed pack_u16 blocks class_block
build_class_info_request devices =
    packed
      (pack_u16 typecode_class_info ∷ pack_u16 (length devices) ∷ blocks class_block devices ∷ [])

-- `_calculate_msg_size`.
unfoldable pub calculate_msg_size : ℕ → ℕ → ℕ → ℕ → Result ℕ
calculate_msg_size num_devices num_data_words rate return_period =
    let size = num_data_words * 2 * rate + 6 * num_devices in
    if return_period == 0
    then err zero_division_error
    else ok (min ((size + size / 2) / (return_period * 2)) (max_acnet_msg_size / 2))

unfoldable pub data_words : List Device → ℕ
data_words [] = 0
data_words (d ∷ ds) = (if d.data_length == 2 then 2 else 3) + data_words ds

-- `max(1, int(100000 / effective_rate))`.
unfoldable pub sample_period_10us : ℕ → Result ℕ
sample_period_10us rate = if rate == 0 then err zero_division_error else ok (max 1 (100000 / rate))

unfoldable pub continuous_block : ℕ → Device → Result (List ℕ)
unfolding packed pack_u16 pack_u32 dipi
continuous_block period d =
    packed (
      pack_u32 (dipi d) ∷ pack_u32 d.offset ∷ ok d.ssdn ∷ pack_u16 period ∷ ok (replicate 4 0) ∷ [])

unfoldable pub continuous_packet : List Device → ℕ → ℕ → ℕ → ℕ → ℕ → ℕ → Result (List ℕ)
unfolding packed pack_u16 pack_u32 blocks continuous_block
continuous_packet devices return_period priority reference_event task_name period msg_size =
    packed (
      pack_u16 typecode_continuous
      ∷ pack_u32 task_name
      ∷ pack_u16 (length devices)
      ∷ pack_u16 return_period
      ∷ pack_u16 msg_size
      ∷ pack_u16 reference_event
      ∷ pack_u16 0
      ∷ pack_u16 0
      ∷ pack_u16 priority
      ∷ pack_u16 0
      ∷ ok (replicate 10 0)
      ∷ blocks (continuous_block period) devices
      ∷ [])

-- `build_continuous_setup`, for the whole part of the rate.
unfoldable pub build_continuous_setup : List Device → ℕ → ℕ → ℕ → ℕ → ℕ → Result (List ℕ)
unfolding sample_period_10us calculate_msg_size data_words continuous_packet
build_continuous_setup devices effective_rate return_period priority reference_event task_name =
    sample_period_10us effective_rate >>= λ period.
    calculate_msg_size (length devices) (data_words devices) effective_rate return_period
    >>= λ size.
        continuous_packet devices return_period priority reference_event task_name period size

-- `_build_arm_trigger_word`.
unfoldable pub build_arm_trigger_word : ℕ → ℕ → ℕ → ℕ → ℕ → ℕ
build_arm_trigger_word arm_source arm_modifier plot_mode trigger_source trigger_modifier =
    bit_or
      (bit_or
        (bit_or
          (bit_or (bit_or (bit_and trigger_modifier 3 * 2 ^ 10) (bit_and trigger_source 3 * 2 ^ 8))
            (2 ^ 7))
          (bit_and plot_mode 3 * 2 ^ 5))
        (bit_and arm_modifier 3 * 2 ^ 2))
      (bit_and arm_source 3)

-- `b[:n].ljust(n, b"\xff")`.
unfoldable pub events_of : ℕ → List ℕ → List ℕ
events_of n b = take n (b ++ replicate n 255)

-- The arm device with its mask and value, if there is one.
unfoldable pub arm_block : Option (Device × (ℕ × ℕ)) → Result (List ℕ)
unfolding packed pack_u32 dipi
arm_block none = ok (replicate 24 0)
arm_block (some (d, (mask, value))) =
    packed (pack_u32 (dipi d) ∷ pack_u32 d.offset ∷ ok d.ssdn ∷ pack_u32 mask ∷ pack_u32 value ∷ [])

unfoldable pub snapshot_block : Device → Result (List ℕ)
unfolding packed pack_u32 dipi
snapshot_block d =
    packed (pack_u32 (dipi d) ∷ pack_u32 d.offset ∷ ok d.ssdn ∷ ok (replicate 4 0) ∷ [])

-- The arguments of `build_snapshot_setup` behind the devices; `arm` are the five parts of the selection word.
pub record Setup : Type 0 where
  pub rate_hz : ℕ
  pub num_points : ℕ
  pub arm_source : ℕ
  pub arm_modifier : ℕ
  pub plot_mode : ℕ
  pub arm_delay : ℕ
  pub arm_events : List ℕ
  pub trigger_source : ℕ
  pub trigger_modifier : ℕ
  pub sample_events : List ℕ
  pub priority : ℕ
  pub arm_device : Option (Device × (ℕ × ℕ))
  pub task_name : ℕ

-- `build_snapshot_setup`.
unfoldable pub build_snapshot_setup : List Device → Setup → Result (List ℕ)
unfolding packed pack_u16 pack_u32 build_arm_trigger_word events_of arm_block blocks snapshot_block
build_snapshot_setup devices s = packed (
    pack_u16 typecode_snapshot_setup
    ∷ pack_u32 s.task_name
    ∷ pack_u16 (length devices)
    ∷ pack_u16 (
        build_arm_trigger_word s.arm_source s.arm_modifier s.plot_mode s.trigger_source
          s.trigger_modifier)
    ∷ pack_u16 s.priority
    ∷ pack_u32 s.rate_hz
    ∷ pack_u32 s.arm_delay
    ∷ ok (events_of 8 s.arm_events)
    ∷ ok (events_of 4 s.sample_events)
    ∷ pack_u32 s.num_points
    ∷ arm_block s.arm_device
    ∷ ok (replicate 8 0)
    ∷ blocks snapshot_block devices
    ∷ [])

-- `build_retrieve_request`; the point number -1 is sequential access.
unfoldable pub build_retrieve_request : ℕ → ℕ → ℤ → ℕ → Result (List ℕ)
unfolding packed pack_u16 pack_u32
build_retrieve_request item_number num_points point_number task_name = packed (
    pack_u16 typecode_snapshot_retrieve
    ∷ pack_u32 task_name
    ∷ pack_u16 item_number
    ∷ pack_u16 num_points
    ∷ pack_u32 (mod_ℤ point_number 4294967296)
    ∷ [])

-- `build_snapshot_control`.
unfoldable pub build_snapshot_control : ℕ → ℕ → Result (List ℕ)
unfolding packed pack_u16 pack_u32
build_snapshot_control subtype task_name =
    packed (pack_u16 typecode_snapshot_control ∷ pack_u32 task_name ∷ pack_u16 subtype ∷ [])
