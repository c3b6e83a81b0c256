-- ===== src/Ftp/Build/Continuous.antt =====
-- The size of the continuous setup that pacsys/acnet/ftp.py builds.
use pacsys.Prelude.{
  ℕ, zero, suc, ◌+◌, ◌*◌, ◌/◌, ◌≤◌, ◌<◌, ◌≡◌, refl, ◌∙◌, ◌⊎◌, inl, inr, List, ◌∷◌, arith, ◌==◌,
  if◌then◌else◌, Result, ok, err, length, All, struct_error,
}
use native.Mathlib.Nat.{mul-div-le}
use pacsys.Ftp.Device.{Device}
use pacsys.Ftp.Build.{
  min, max, blocks, build_continuous_setup, calculate_msg_size, continuous_block, continuous_packet,
  data_words, sample_period_10us,
}
use pacsys.Ftp.Build.Sizes.{
  IsFit, added, size_of, size_of-joined, size_of-blocks, size_of-continuous_block,
  size_of-continuous_packet, size_of-pack_u16_large, All-continuous_block,
}

-- At one sample in a second the period does not fit its two bytes.
rate_one : (rate : ℕ) → 1 ≤ rate → (rate ≡ 1) ⊎ (2 ≤ rate)
rate_one rate h = omega arith

sample_period_10us-ok : (rate : ℕ) → 1 ≤ rate → sample_period_10us rate ≡ ok (max 1 (100000 / rate))
unfolding sample_period_10us
sample_period_10us-ok rate h = ground arith

calculate_msg_size-ok :
    (n words rate period : ℕ)
    → 1 ≤ period
    → (size : ℕ) × ((calculate_msg_size n words rate period ≡ ok size) × (size < 65536))
unfolding calculate_msg_size
calculate_msg_size-ok n words rate period h =
    let size = words * 2 * rate + 6 * n in
    (min ((size + size / 2) / (period * 2)) 4160, (ground arith, omega arith))

distributed : (k q : ℕ) → suc (suc k) * q ≡ q + (q + k * q)
distributed k q = ground arith

period_lt : (rate : ℕ) → 2 ≤ rate → max 1 (100000 / rate) < 65536
period_lt zero h = omega (arith, h)
period_lt (suc zero) h = omega (arith, h)
period_lt (suc (suc k)) h =
    let q = 100000 / suc (suc k) in omega (arith, mul-div-le 100000 (suc (suc k)), distributed k q)

blocks-slow :
    (d : Device) (ds : List Device)
    → IsFit d
    → size_of (blocks (continuous_block 100000) (d ∷ ds)) ≡ err struct_error
unfolding blocks added
blocks-slow d ds v =
    size_of-joined (continuous_block 100000 d) (blocks (continuous_block 100000) ds)
    ∙ rw
        (size_of-continuous_block 100000 d (err struct_error) v
          (size_of-pack_u16_large 100000 (omega arith)))
        refl

module _ (d : Device) (ds : List Device) (period priority event task : ℕ) where
  -- The setup behind its sample period and its message size.
  packet-size :
      (rate size : ℕ) (n : Result ℕ)
      → 1 ≤ rate
      → calculate_msg_size (length (d ∷ ds)) (data_words (d ∷ ds)) rate period ≡ ok size
      → size_of (continuous_packet (d ∷ ds) period priority event task (max 1 (100000 / rate)) size)
        ≡ n
      → size_of (build_continuous_setup (d ∷ ds) rate period priority event task) ≡ n
  unfolding build_continuous_setup
  packet-size rate size n hr e h = rw (sample_period_10us-ok rate hr, e) h

  module _ (hn : length (d ∷ ds) < 65536) (h1 : 1 ≤ period) (hq : period < 65536)
      (hp : priority < 65536) (he : event < 65536) (ht : task < 4294967296) where
    built :
        (rate : ℕ) (n : Result ℕ)
        → 1 ≤ rate
        → size_of (blocks (continuous_block (max 1 (100000 / rate))) (d ∷ ds)) ≡ n
        → size_of (build_continuous_setup (d ∷ ds) rate period priority event task)
          ≡ added (ok 32) n
    built rate n hr h =
        let (size, (e, hs)) =
          calculate_msg_size-ok (length (d ∷ ds)) (data_words (d ∷ ds)) rate period h1 in
        packet-size rate size (added (ok 32) n) hr e (
          size_of-continuous_packet (d ∷ ds) period priority event task (max 1 (100000 / rate)) size
            n hn hq hp he ht hs h)

    built_slow :
        All IsFit (d ∷ ds)
        → size_of (build_continuous_setup (d ∷ ds) 1 period priority event task) ≡ err struct_error
    unfolding added
    built_slow v = built 1 (err struct_error) (omega arith) (blocks-slow d ds (v.0))

    built_fast :
        (rate : ℕ)
        → All IsFit (d ∷ ds)
        → 2 ≤ rate
        → size_of (build_continuous_setup (d ∷ ds) rate period priority event task)
          ≡ ok (32 + 22 * length (d ∷ ds))
    unfolding added
    built_fast rate v h = built rate (ok (22 * length (d ∷ ds))) (omega (arith, h)) (
        size_of-blocks (continuous_block (max 1 (100000 / rate))) 22 (d ∷ ds)
          (All-continuous_block (max 1 (100000 / rate)) (d ∷ ds) v (period_lt rate h)))

    -- At a rate of at least two samples in a second, the setup of devices that fit the message has 32 bytes and 22
    -- for each device, if the numbers of the header fit; at one sample in a second it raises.
    pub continuous_size :
        (rate : ℕ)
        → All IsFit (d ∷ ds)
        → 1 ≤ rate
        → size_of (build_continuous_setup (d ∷ ds) rate period priority event task)
          ≡ (if rate == 1 then err struct_error else ok (32 + 22 * length (d ∷ ds)))
    continuous_size rate v hr = elim (rate_one rate hr) [
      | inl one ↦ rw one (built_slow v)
      | inr more ↦ built_fast rate v more ∙ ground arith
    ]
