-- ===== src/Alarm/Flags/Laws.antt =====
-- What the setters change, and what they leave alone.
use native.Mathlib.Nat.{pow-suc}
use pacsys.Prelude.{
  take-length_append, ℕ, zero, ◌+◌, ◌-◌, ◌*◌, ◌/◌, ◌%◌, ◌^◌, ◌≤◌, ◌<◌, max, bit_or, ◌≡◌, refl, sym,
  ap, ◌∙◌, Bool, true, false, not, ◌&&◌, ◌++◌, arith, ◌==◌, if◌then◌else◌,
}
use pacsys.Prelude.Bits.{
  testbit, testbit_le, testbit-bit_or, testbit-and_not, testbit-pow, bit_and-pow_zero, and_not,
}
use pacsys.Alarm.Block.{AlarmBlock}
use pacsys.Alarm.Flags.{
  replicate, take, to_little, List, overflow_error, err, nom_tol, get_nominal, min_max, ok,
  set_limit_type, set_nominal, limit_type, suc, limit_type_value, data_bytes, set_data_length,
  length, LimitType, from_little, data_length, little_bytes, get_flag, set_flag, set_abort,
  set_abort_inhibit, abort_enabled, is_active, DataLength, bytes_1, bytes_2, bytes_4,
  data_length_value,
}

flag-testbit : (b : AlarmBlock) (k : ℕ) → get_flag b (2 ^ k) ≡ not (testbit k b.flags == 0)
unfolding get_flag
flag-testbit b k = ap not (bit_and-pow_zero k b.flags)

-- Writing one flag bit: that bit reads back as written, and every other bit as before.
pub get_flag-set_flag :
    (b : AlarmBlock) (k j : ℕ) (value : Bool)
    → get_flag (set_flag b (2 ^ k) value) (2 ^ j) ≡ (if k == j then value else get_flag b (2 ^ j))
unfolding set_flag
get_flag-set_flag b k j true =
    rw (flag-testbit _ j, flag-testbit b j, testbit-bit_or j b.flags (2 ^ k))
      (ground (arith, testbit-pow j k, testbit_le j b.flags))
get_flag-set_flag b k j false =
    rw (flag-testbit _ j, flag-testbit b j, testbit-and_not j b.flags (2 ^ k))
      (ground (arith, testbit-pow j k, testbit_le j b.flags))

-- After both abort bits are written, an abort is enabled exactly if it was asked for and not
-- inhibited, and the alarm is active as before.
abort_enabled-set :
    (b : AlarmBlock) (a i : Bool)
    → (abort_enabled (set_abort_inhibit (set_abort b a) i) ≡ (a && not i))
      × (is_active (set_abort_inhibit (set_abort b a) i) ≡ is_active b)
unfolding abort_enabled set_abort_inhibit set_abort is_active
abort_enabled-set b a i =
    let b' : AlarmBlock = set_flag b (2 ^ 2) a in
    (
      ground (
        arith,
        get_flag-set_flag b' 3 2 i,
        get_flag-set_flag b' 3 3 i,
        get_flag-set_flag b 2 2 a,
      ),
      ground (arith, get_flag-set_flag b' 3 0 i, get_flag-set_flag b 2 0 a),
    )

two_bits : (a : ℕ) → a / 2 ^ 5 % 2 ^ 2 ≡ testbit 5 a + 2 * testbit 6 a
two_bits a = omega arith

limit_bits : (a : ℕ) → a / 2 ^ 8 % 2 ^ 2 ≡ testbit 8 a + 2 * testbit 9 a
limit_bits a = omega arith

module _ (k flags clear bits : ℕ) where
  field_bit :
      testbit k (bit_or (and_not flags clear) bits)
      ≡ max (testbit k flags - testbit k clear) (testbit k bits)
  field_bit =
      testbit-bit_or k (and_not flags clear) bits
      ∙ ap (λ (t : ℕ). max t (testbit k bits)) (testbit-and_not k flags clear)

length_field :
    (flags : ℕ) (v : DataLength)
    → bit_or (and_not flags 0x60) (data_length_value v % 2 ^ 2 * 2 ^ 5) / 2 ^ 5 % 2 ^ 2
      ≡ data_length_value v
length_field flags bytes_1 = rw two_bits (
    omega (
      arith,
      field_bit 5 flags 0x60 0,
      field_bit 6 flags 0x60 0,
      testbit_le 5 flags,
      testbit_le 6 flags,
    ))
length_field flags bytes_2 = rw two_bits (
    omega (
      arith,
      field_bit 5 flags 0x60 32,
      field_bit 6 flags 0x60 32,
      testbit_le 5 flags,
      testbit_le 6 flags,
    ))
length_field flags bytes_4 = rw two_bits (
    omega (
      arith,
      field_bit 5 flags 0x60 64,
      field_bit 6 flags 0x60 64,
      testbit_le 5 flags,
      testbit_le 6 flags,
    ))

limit_field :
    (flags : ℕ) (v : LimitType)
    → bit_or (and_not flags 0x300) (limit_type_value v % 2 ^ 2 * 2 ^ 8) / 2 ^ 8 % 2 ^ 2
      ≡ limit_type_value v
limit_field flags nom_tol = rw limit_bits (
    omega (
      arith,
      field_bit 8 flags 0x300 0,
      field_bit 9 flags 0x300 0,
      testbit_le 8 flags,
      testbit_le 9 flags,
    ))
limit_field flags min_max = rw limit_bits (
    omega (
      arith,
      field_bit 8 flags 0x300 512,
      field_bit 9 flags 0x300 512,
      testbit_le 8 flags,
      testbit_le 9 flags,
    ))

length_keeps :
    (flags : ℕ) (v : DataLength)
    → bit_or (and_not flags 0x60) (data_length_value v % 2 ^ 2 * 2 ^ 5) / 2 ^ 8 % 2 ^ 2
      ≡ flags / 2 ^ 8 % 2 ^ 2
length_keeps flags bytes_1 =
    rw (limit_bits, limit_bits) (omega (arith, field_bit 8 flags 0x60 0, field_bit 9 flags 0x60 0))
length_keeps flags bytes_2 =
    rw (limit_bits, limit_bits)
      (omega (arith, field_bit 8 flags 0x60 32, field_bit 9 flags 0x60 32))
length_keeps flags bytes_4 =
    rw (limit_bits, limit_bits)
      (omega (arith, field_bit 8 flags 0x60 64, field_bit 9 flags 0x60 64))

limit_keeps :
    (flags : ℕ) (v : LimitType)
    → bit_or (and_not flags 0x300) (limit_type_value v % 2 ^ 2 * 2 ^ 8) / 2 ^ 5 % 2 ^ 2
      ≡ flags / 2 ^ 5 % 2 ^ 2
limit_keeps flags nom_tol =
    rw (two_bits, two_bits) (omega (arith, field_bit 5 flags 0x300 0, field_bit 6 flags 0x300 0))
limit_keeps flags min_max =
    rw (two_bits, two_bits)
      (omega (arith, field_bit 5 flags 0x300 512, field_bit 6 flags 0x300 512))

-- The two-bit fields read back as they were set, and setting one leaves the other alone.
field_setters :
    (b : AlarmBlock) (n : DataLength) (k : LimitType)
    → (data_length (set_data_length b n) ≡ n)
      × (limit_type (set_data_length b n) ≡ limit_type b)
      × (limit_type (set_limit_type b k) ≡ k)
      × (data_length (set_limit_type b k) ≡ data_length b)
unfolding data_length set_data_length limit_type set_limit_type
field_setters b n k = (
  rw (length_field b.flags n) (read_length n),
  rw (length_keeps b.flags n),
  rw (limit_field b.flags k) (read_limit k),
  rw (limit_keeps b.flags k),
)
  where
    read_length :
        (n : DataLength)
        → (if data_length_value n == 0
            then bytes_1
            else if data_length_value n == 1
            then bytes_2
            else bytes_4)
          ≡ n
    read_length bytes_1 = refl
    read_length bytes_2 = refl
    read_length bytes_4 = refl

    read_limit : (k : LimitType) → (if limit_type_value k == 2 then min_max else nom_tol) ≡ k
    read_limit nom_tol = refl
    read_limit min_max = refl

from_little-little_bytes : (n v : ℕ) → v < 256 ^ n → from_little (little_bytes n v) ≡ v
unfolding from_little little_bytes
from_little-little_bytes zero zero h = refl
from_little-little_bytes zero (suc v) h = absurd (omega arith)
from_little-little_bytes (suc n) v h =
    omega
      (arith, pow-suc 256 n, from_little-little_bytes n (v / 256) (omega (arith, pow-suc 256 n)))

length-little_bytes : (n v : ℕ) → length (little_bytes n v) ≡ n
unfolding little_bytes
length-little_bytes zero v = refl
length-little_bytes (suc n) v = ap suc (length-little_bytes n (v / 256))

take_packed :
    (n v : ℕ)
    → take n (little_bytes n v ++ replicate (4 - length (little_bytes n v)) 0) ≡ little_bytes n v
take_packed n v =
    let p : List ℕ = little_bytes n v in
    ap (λ (t : ℕ). take t (p ++ replicate (4 - length p) 0)) (sym (length-little_bytes n v))
    ∙ take-length_append p (replicate (4 - length p) 0)

-- A digital alarm's nominal pattern reads back as it was set, if it fits the block's data length;
-- a larger one raises and changes nothing.
get_nominal-set_nominal :
    (b : AlarmBlock) (v : ℕ)
    → (v < 256 ^ data_bytes b
        → (b' : AlarmBlock) × (set_nominal b v ≡ ok b')
          × (get_nominal b' ≡ v)
          × (b'.flags ≡ b.flags))
      × (256 ^ data_bytes b ≤ v → set_nominal b v ≡ err overflow_error)
unfolding set_nominal get_nominal to_little
get_nominal-set_nominal b v =
    let packed : List ℕ = little_bytes (data_bytes b) v in
    (
      λ h. (
        record b { value1_raw = packed ++ replicate (4 - length packed) 0 },
        ground arith,
        ap from_little (take_packed (data_bytes b) v) ∙ from_little-little_bytes (data_bytes b) v h,
        refl,
      ),
      λ h. ground arith,
    )
