-- ===== src/Ftp/Parse/Replies.antt =====
-- What the reply parsers of pacsys/acnet/ftp.py raise, and when.
use pacsys.Prelude.{
  All, ℕ, zero, suc, ◌+◌, ◌*◌, ◌≤◌, ◌<◌, ◌≡◌, refl, sym, ap, ◌∙◌, ◌⊎◌, inl, inr, Bool, true, false,
  not, ◌||◌, List, [], ◌∷◌, arith, ltb, ◌==◌, if◌then◌else◌, Result, ok, err, ◌>>=◌, length, Exn,
  get_or, value_error,
}
use pacsys.Prelude.Int.{ℤ, pos, eqb_ℤ}
use pacsys.Ftp.Wire.{half_16, i16_at, is_negative, signed, u16_at, u16_of}
use pacsys.Ftp.Device.{Device}
use pacsys.Ftp.Parse.{
  Point, class_code_at, class_loop, data_devices, device_loop, device_points,
  parse_class_info_reply, parse_continuous_data_reply, point_at, point_loop, time_size,
  unless_negative, value_size,
}
use pacsys.Ftp.Parse.Reads.{
  IsOk, u16_at-IsOk, bind-IsOk, i16_at-IsOk, class_code_at-IsOk, le_or_lt, if_lt, if_not_lt,
  point_at-IsOk, guarded_IsOk,
}

-- How many elements a result has.
unfoldable pub count_of : {B : Type 0} → Result (List B) → Result ℕ
count_of (ok l) = ok (length l)
count_of (err e) = err e

count_of-cons :
    {B : Type 0} (r : Result B) (rest : Result (List B))
    → IsOk r
    → count_of (r >>= λ x. rest >>= λ xs. ok (x ∷ xs)) ≡ (count_of rest >>= λ n. ok (suc n))
unfolding count_of
count_of-cons (ok x) (ok xs) h = refl
count_of-cons (ok x) (err e) h = refl
count_of-cons (err e) rest h = cc

too_short :
    {B : Type 0} (size offset n : ℕ) (r : Result (List B))
    → size < offset + 6
    → count_of (if ltb size (offset + 6) then err value_error else r)
      ≡ (if ltb size (offset + 6 * suc n) then err value_error else ok (suc n))
unfolding count_of
too_short size offset n r h =
    ap count_of (if_lt _ _ size (offset + 6) h)
    ∙ sym (if_lt _ _ size (offset + 6 * suc n) (omega (arith, h)))

long_enough :
    {B : Type 0} (size offset n : ℕ) (r : Result (List B)) (c : Result ℕ)
    → offset + 6 ≤ size
    → count_of r ≡ (c >>= λ k. ok (suc k))
    → c ≡ (if ltb size (offset + 6 + 6 * n) then err value_error else ok n)
    → count_of (if ltb size (offset + 6) then err value_error else r)
      ≡ (if ltb size (offset + 6 * suc n) then err value_error else ok (suc n))
long_enough size offset n r c h e k =
    ap count_of (if_not_lt _ _ size (offset + 6) h)
    ∙ e
    ∙ ap (λ x. x >>= λ j. ok (suc j)) k
    ∙ elim (le_or_lt (offset + 6 + 6 * n) size) [
      | inl fits ↦
          ap (λ x. x >>= λ j. ok (suc j)) (if_not_lt _ _ size (offset + 6 + 6 * n) fits)
          ∙ sym (if_not_lt _ _ size (offset + 6 * suc n) (omega (arith, fits)))
      | inr short ↦
          ap (λ x. x >>= λ j. ok (suc j)) (if_lt _ _ size (offset + 6 + 6 * n) short)
          ∙ sym (if_lt _ _ size (offset + 6 * suc n) (omega (arith, short)))
    ]

class_loop-count :
    (b : List ℕ) (n offset : ℕ)
    → offset ≤ length b
    → count_of (class_loop b n offset)
      ≡ (if ltb (length b) (offset + 6 * n) then err value_error else ok n)
unfolding class_loop count_of
class_loop-count b zero offset h =
    sym (if_not_lt _ _ (length b) (offset + 6 * 0) (omega (arith, h)))
class_loop-count b (suc n) offset h = elim (le_or_lt (offset + 6) (length b)) [
  | inr short ↦
      too_short (length b) offset n
        (class_code_at b offset >>= λ c. class_loop b n (offset + 6) >>= λ cs. ok (c ∷ cs)) short
  | inl fits ↦
      let ih = class_loop-count b n (offset + 6) fits in
      let e =
        count_of-cons (class_code_at b offset) (class_loop b n (offset + 6))
          (class_code_at-IsOk b offset fits) in
      long_enough (length b) offset n
        (class_code_at b offset >>= λ c. class_loop b n (offset + 6) >>= λ cs. ok (c ∷ cs))
        (count_of (class_loop b n (offset + 6))) fits e ih
]

-- The overall status at the beginning of a reply.
abbrev pub status_of : List ℕ → ℤ
status_of b = signed half_16 (get_or b 0 0 + 256 * get_or b 1 0)

i16_at-status : (b : List ℕ) → 2 ≤ length b → i16_at b 0 ≡ ok (status_of b)
unfolding i16_at u16_at u16_of
i16_at-status [] h = absurd (omega (arith, h))
i16_at-status (a ∷ []) h = absurd (omega (arith, h))
i16_at-status (a ∷ c ∷ b) h = refl

class_info_long :
    (b : List ℕ) (n : ℕ) (t : Bool)
    → is_negative (status_of b) ≡ t
    → 2 ≤ length b
    → count_of (unless_negative (status_of b) (class_loop b n 2)) ≡ (
        if t
        then err Exn.acnet_error
        else if ltb (length b) (2 + 6 * n)
        then err value_error
        else ok n)
unfolding unless_negative count_of
class_info_long b n true e h = rw e refl
class_info_long b n false e h = rw e (class_loop-count b n 2 h)

-- A class code reply of fewer than two bytes raises a `ValueError`; else one with a negative status raises an
-- `AcnetError`; else one without six bytes for each device raises a `ValueError`; and any other gives a class code for
-- each device. No reply raises an error of `struct`.
pub parse_class_info_reply-count :
    (b : List ℕ) (n : ℕ)
    → count_of (parse_class_info_reply b n) ≡ (
        if ltb (length b) 2
        then err value_error
        else if is_negative (status_of b)
        then err Exn.acnet_error
        else if ltb (length b) (2 + 6 * n)
        then err value_error
        else ok n)
unfolding parse_class_info_reply count_of
parse_class_info_reply-count b n = elim (le_or_lt 2 (length b)) [
  | inr short ↦ ap count_of (if_lt _ _ (length b) 2 short) ∙ sym (if_lt _ _ (length b) 2 short)
  | inl fits ↦
      ap count_of (if_not_lt _ _ (length b) 2 fits)
      ∙ ap (λ r. count_of (r >>= λ s. unless_negative s (class_loop b n 2))) (i16_at-status b fits)
      ∙ class_info_long b n (is_negative (status_of b)) refl fits
      ∙ sym (if_not_lt _ _ (length b) 2 fits)
]

point_loop-IsOk :
    (timed : Bool) (size : ℕ) (b : List ℕ) (skip : Bool) (n cursor : ℕ)
    → (size ≡ 2) ⊎ (size ≡ 4)
    → IsOk (point_loop timed size b skip n cursor)
unfolding point_loop
point_loop-IsOk timed size b skip zero cursor e = ([], refl)
point_loop-IsOk timed size b skip (suc n) cursor e =
    guarded_IsOk (length b) (cursor + (time_size timed + size)) [] _ (λ fits.
      bind-IsOk (point_at timed size b cursor) _ (point_at-IsOk timed size b cursor e fits) (λ p.
        bind-IsOk (point_loop timed size b false n (cursor + time_size timed + value_size size)) _
          (point_loop-IsOk timed size b false n (cursor + time_size timed + value_size size) e)
          (λ ps. (_, refl))))

abbrev IsSized : Device → Type 0
IsSized d = (d.data_length ≡ 2) ⊎ (d.data_length ≡ 4)

device_points-IsOk :
    (b : List ℕ) (d : Device) (offset : ℕ) (results : List (ℕ × List Point))
    → IsSized d
    → offset + 6 ≤ length b
    → IsOk (device_points b d offset results)
unfolding device_points
device_points-IsOk b d offset results e h =
    bind-IsOk (u16_at b (offset + 2)) _ (u16_at-IsOk b (offset + 2) (omega (arith, h))) (λ i.
      bind-IsOk (u16_at b (offset + 4)) _ (u16_at-IsOk b (offset + 4) (omega (arith, h))) (λ n.
        bind-IsOk (point_loop true d.data_length b false n i) _
          (point_loop-IsOk true d.data_length b false n i e) (λ ps. (_, refl))))

chosen_IsOk : {B : Type 0} (t : Bool) (r : Result B) (x : B) → IsOk r → IsOk (if t then r else ok x)
chosen_IsOk true r x h = h
chosen_IsOk false r x h = (x, refl)

not_chosen_IsOk :
    {B : Type 0} (t : Bool) (r : Result (List B)) → IsOk r → IsOk (if t then ok [] else r)
not_chosen_IsOk true r h = ([], refl)
not_chosen_IsOk false r h = h

device_loop-IsOk :
    (b : List ℕ) (ds : List Device) (offset : ℕ) (results : List (ℕ × List Point))
    → All IsSized ds
    → IsOk (device_loop b ds offset results)
unfolding device_loop
device_loop-IsOk b [] offset results v = (results, refl)
device_loop-IsOk b (d ∷ ds) offset results v =
    guarded_IsOk (length b) (offset + 6) results _ (λ fits.
      bind-IsOk (i16_at b offset) _ (i16_at-IsOk b offset (omega (arith, fits))) (λ e.
        bind-IsOk (if eqb_ℤ e (pos 0) then device_points b d offset results else ok results) _
          (chosen_IsOk (eqb_ℤ e (pos 0)) (device_points b d offset results) results
            (device_points-IsOk b d offset results (v.0) fits))
          (λ r. device_loop-IsOk b ds (offset + 6) r (v.1))))

data_devices-IsOk :
    (b : List ℕ) (ds : List Device) (e : ℤ) (t : ℕ) → All IsSized ds → IsOk (data_devices b ds e t)
unfolding data_devices
data_devices-IsOk b ds e t v =
    not_chosen_IsOk (is_negative e || not (t == 2)) (device_loop b ds 8 [])
      (device_loop-IsOk b ds 8 [] v)

-- No data reply of a continuous plot makes its parser raise, however short it is and whatever its indices and
-- numbers of points are, for devices of two or four bytes.
pub parse_continuous_data_reply-IsOk :
    (b : List ℕ) (ds : List Device) → All IsSized ds → IsOk (parse_continuous_data_reply b ds)
unfolding parse_continuous_data_reply
parse_continuous_data_reply-IsOk b ds v = guarded_IsOk (length b) 8 [] _ (λ fits.
    bind-IsOk (i16_at b 0) _ (i16_at-IsOk b 0 (omega (arith, fits))) (λ e.
      bind-IsOk (u16_at b 2) _ (u16_at-IsOk b 2 (omega (arith, fits)))
        (λ t. data_devices-IsOk b ds e t v)))
