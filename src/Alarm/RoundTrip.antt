-- ===== src/Alarm/RoundTrip.antt =====
-- Alarm blocks to bytes and back, both ways.
use pacsys.Prelude.{
  length-replicate, replicate, length-append, All-take, get_or, length-take, ℕ, zero, suc, ◌+◌, ◌*◌,
  ◌/◌, ◌%◌, ◌≤◌, ◌<◌, ◌≡◌, ◌↔◌, refl, sym, ap, ◌∙◌, none, List, [], ◌∷◌, ◌++◌, length, take, ok,
  err, value_error, ◌>>=◌, arith,
}
use pacsys.Alarm.Ftd.{Ftd, from_word, to_word, to_word-from_word, from_word-to_word}
use pacsys.Alarm.Block.{
  AlarmBlock, IsRaw, IsBytes, unpack, from_bytes, pack, to_bytes, pack_word, pack_bytes,
}

four :
    (l : List ℕ) → length l ≡ 4 → (a : ℕ) × (b : ℕ) × (c : ℕ) × (d : ℕ) × (l ≡ a ∷ b ∷ c ∷ d ∷ [])
four [] h = absurd (omega arith)
four (a ∷ []) h = absurd (omega arith)
four (a ∷ b ∷ []) h = absurd (omega arith)
four (a ∷ b ∷ c ∷ []) h = absurd (omega arith)
four (a ∷ b ∷ c ∷ d ∷ []) h = (a, b, c, d, refl)
four (a ∷ b ∷ c ∷ d ∷ e ∷ l) h = absurd (omega arith)

split :
    (n : ℕ) (l : List ℕ) → length l ≡ suc n → (a : ℕ) × (r : List ℕ) × (l ≡ a ∷ r) × (length r ≡ n)
split n [] h = absurd (omega arith)
split n (a ∷ r) h = (a, r, refl, omega arith)

six :
    (l : List ℕ)
    → length l ≡ 6
    → (a : ℕ) × (b : ℕ) × (c : ℕ) × (d : ℕ) × (e : ℕ) × (f : ℕ) × (l ≡ a ∷ b ∷ c ∷ d ∷ e ∷ f ∷ [])
six l h =
    let (a, r, p, q) = split 5 l h in
    let (b, s, p', q') = split 4 r q in
    let (c, d, e, f, o) = four s q' in
    (a, b, c, d, e, f, p ∙ ap (λ (t : List ℕ). a ∷ t) (p' ∙ ap (λ (t : List ℕ). b ∷ t) o))

module _ (flags needed now : ℕ) (ftd : Ftd) where
  abbrev block : List ℕ → List ℕ → List ℕ → AlarmBlock
  block v1 v2 fe = record {
    flags = flags;
    value1_raw = v1;
    value2_raw = v2;
    tries_needed = needed;
    tries_now = now;
    ftd = ftd;
    fe_data = fe;
    structured = none;
    initial_structured = none;
  }

  word_join : (w : ℕ) → w % 256 + 256 * (w / 256) ≡ w
  word_join w = omega arith

  unpack-pack :
      (v1 v2 fe : List ℕ)
      → length v1 ≡ 4
      → length v2 ≡ 4
      → length fe ≡ 6
      → from_word (to_word ftd) ≡ ftd
      → unpack (take 20 (pack (block v1 v2 fe))) ≡ block v1 v2 fe
  unfolding unpack pack
  unpack-pack v1 v2 fe h1 h2 h3 hf =
      let (a, b, c, d, p) = four v1 h1 in
      let (a', b', c', d', p') = four v2 h2 in
      let (x1, x2, x3, x4, x5, x6, q) = six fe h3 in
      rw (p, p', q, word_join flags, word_join (to_word ftd), hf)

length-pack_bytes : (n : ℕ) (v : List ℕ) → length (pack_bytes n v) ≡ n
length-pack_bytes n v = omega (
  arith,
  length-take n (v ++ replicate n 0),
  length-append v (replicate n 0),
  length-replicate {A = ℕ} n 0,
)

length-pack : (b : AlarmBlock) → length (pack b) ≡ 20
unfolding pack
length-pack b =
    let v1 : List ℕ = pack_bytes 4 b.value1_raw in
    let v2 : List ℕ = pack_bytes 4 b.value2_raw in
    let fe : List ℕ = pack_bytes 6 b.fe_data in
    let tail : List ℕ = b.tries_now ∷ b.tries_needed ∷ pack_word (to_word b.ftd) fe in
    omega (
      arith,
      length-append v1 (v2 ++ tail),
      length-append v2 tail,
      length-pack_bytes 4 b.value1_raw,
      length-pack_bytes 4 b.value2_raw,
      length-pack_bytes 6 b.fe_data,
    )

pub from_bytes_long : (l : List ℕ) → 20 ≤ length l → from_bytes l ≡ ok (unpack (take 20 l))
unfolding from_bytes
from_bytes_long l h = ground arith

to_bytes_raw : (b : AlarmBlock) → IsRaw b → to_bytes b ≡ ok (pack b)
unfolding to_bytes
to_bytes_raw b r = ground arith

-- The bytes of a block whose fields have the wire sizes parse back to that block.
pub from_bytes-to_bytes : (b : AlarmBlock) → IsRaw b → (to_bytes b >>= from_bytes) ≡ ok b
from_bytes-to_bytes b r =
    rw (to_bytes_raw b r)
      (from_bytes_long (pack b) (omega (arith, length-pack b)) ∙ ap ok (parsed ∙ same))
  where
    bare : AlarmBlock
    bare = block b.flags b.tries_needed b.tries_now b.ftd b.value1_raw b.value2_raw b.fe_data

    parsed : unpack (take 20 (pack b)) ≡ bare
    parsed =
        unfold pack in
        unpack-pack b.flags b.tries_needed b.tries_now b.ftd b.value1_raw b.value2_raw b.fe_data
          r.value1_size r.value2_size r.fe_size (from_word-to_word b.ftd r.ftd_fits)

    same : bare ≡ b
    same = λ i. record b {
      structured = sym r.no_structured i;
      initial_structured = sym r.no_initial i;
    }

chunk :
    (n : ℕ) (l : List ℕ)
    → length l ≡ 4 + n
    → (a : ℕ) × (b : ℕ) × (c : ℕ) × (d : ℕ) × (r : List ℕ) × (l ≡ a ∷ b ∷ c ∷ d ∷ r)
      × (length r ≡ n)
chunk n [] h = absurd (omega arith)
chunk n (a ∷ []) h = absurd (omega arith)
chunk n (a ∷ b ∷ []) h = absurd (omega arith)
chunk n (a ∷ b ∷ c ∷ []) h = absurd (omega arith)
chunk n (a ∷ b ∷ c ∷ d ∷ r) h = (a, b, c, d, r, refl, omega arith)

split_word : (a b : ℕ) → a < 256 → ((a + 256 * b) % 256 ≡ a) × ((a + 256 * b) / 256 ≡ b)
split_word a b h = (omega arith, omega arith)

module _ (a0 a1 a2 a3 a4 a5 a6 a7 a8 a9 b0 b1 b2 b3 b4 b5 b6 b7 b8 b9 : ℕ) where
  abbrev twenty : List ℕ
  twenty =
      a0 ∷ a1 ∷ a2 ∷ a3 ∷ a4 ∷ a5 ∷ a6 ∷ a7 ∷ a8 ∷ a9 ∷ b0 ∷ b1 ∷ b2 ∷ b3 ∷ b4 ∷ b5 ∷ b6 ∷ b7 ∷ b8
      ∷ b9 ∷ []

  pack-unpack-twenty : IsBytes twenty → pack (unpack twenty) ≡ twenty
  unfolding pack unpack
  pack-unpack-twenty h =
      let fits : b2 + 256 * b3 < 65536 = omega arith in
      rw (
        (split_word a0 a1 (omega arith)).0,
        (split_word a0 a1 (omega arith)).1,
        to_word-from_word (b2 + 256 * b3) fits,
        (split_word b2 b3 (omega arith)).0,
        (split_word b2 b3 (omega arith)).1,
      )

pub pack-unpack : (l : List ℕ) → length l ≡ 20 → IsBytes l → pack (unpack l) ≡ l
pack-unpack l h bytes =
    let (a0, a1, a2, a3, r1, e1, h1) = chunk 16 l h in
    let (a4, a5, a6, a7, r2, e2, h2) = chunk 12 r1 h1 in
    let (a8, a9, b0, b1, r3, e3, h3) = chunk 8 r2 h2 in
    let (b2, b3, b4, b5, r4, e4, h4) = chunk 4 r3 h3 in
    let (b6, b7, b8, b9, e5) = four r4 h4 in
    let e : l ≡ twenty a0 a1 a2 a3 a4 a5 a6 a7 a8 a9 b0 b1 b2 b3 b4 b5 b6 b7 b8 b9 =
      cc (e1, e2, e3, e4, e5) in
    rw e (
      pack-unpack-twenty a0 a1 a2 a3 a4 a5 a6 a7 a8 a9 b0 b1 b2 b3 b4 b5 b6 b7 b8 b9
        (rw e at bytes))

pub to_bytes_fits :
    (b : AlarmBlock)
    → b.flags < 65536
    → b.tries_now < 256
    → b.tries_needed < 256
    → to_bytes b ≡ ok (pack b)
unfolding to_bytes
to_bytes_fits b hf hn ht = ground arith

pub get_or_lt : (l : List ℕ) (i : ℕ) → IsBytes l → get_or l i 0 < 256
get_or_lt [] i h = omega arith
get_or_lt (x ∷ l) zero h = h.0
get_or_lt (x ∷ l) (suc i) h = get_or_lt l i h.1

-- At least 20 bytes parse to a block that writes the first 20 of them.
pub to_bytes-from_bytes :
    (l : List ℕ) → IsBytes l → 20 ≤ length l → (from_bytes l >>= to_bytes) ≡ ok (take 20 l)
unfolding unpack
to_bytes-from_bytes l bytes h =
    let t : List ℕ = take 20 l in
    let bt : IsBytes t = All-take _ 20 l bytes in
    rw (from_bytes_long l h) (
      to_bytes_fits (unpack t) (omega (arith, get_or_lt t 0 bt, get_or_lt t 1 bt))
        (get_or_lt t 10 bt) (get_or_lt t 11 bt)
      ∙ ap ok (pack-unpack t (omega (arith, length-take 20 l)) bt))

-- Fewer than 20 bytes are refused, and nothing else is.
from_bytes_short : (l : List ℕ) → (from_bytes l ≡ err value_error) ↔ (length l < 20)
unfolding from_bytes
from_bytes_short l = ground arith
