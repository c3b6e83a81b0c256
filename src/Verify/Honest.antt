-- ===== src/Verify/Honest.antt =====
-- What the result of a verified write says is so (`Device.write` of pacsys/device.py).
use pacsys.Prelude.{
  ℕ, zero, suc, ◌+◌, ◌≤◌, ◌≡◌, refl, sym, ap, ◌∙◌, ◌≢◌, Bool, true, false, Option, none, some, List,
  arith, if◌then◌else◌, Result, ok, err, Text, codes, Exn, subst,
}
use pacsys.Drf.Field.{Field}
use pacsys.Drf.Property.{Property}
use pacsys.Drf.Request.{Request}
use pacsys.Verify.Context.{Choice, Value, Verify, resolve_verify, values_match}
use pacsys.Verify.Readback.{
  Machine, Progress, Reading, WriteResult, after_write, attempted, build_drf, checked, confirmed,
  is_zero, pause, readback_drf, readback_loop, resolve_field, skipping, unverified, verify_readback,
  write, resolved_write, checked_write,
}

-- A result that says verified has a readback that matches the value; the attempts are within their number; and after a
-- write that was skipped the backend has seen one read alone.
pub record IsHonest {S : Type 0} (m : Machine S) (x : Value) (v : Verify) (s t : S)
    (w : WriteResult) : Type 0 where
  pub matched :
      w.verified ≡ some true
      → (y : Value) × ((w.readback ≡ some y) × (values_match m.close y x v.tolerance ≡ true))
  pub tried : w.attempts ≤ v.max_attempts
  pub untouched : w.skipped ≡ true → (d : Text) × (t ≡ (m.read d s).0)

-- What a backend returns of a write says nothing of a verification.
abbrev pub IsPlain : {S : Type 0} → Machine S → Type 0
IsPlain m =
    (d : Text) (y : Value) (t : _) (w : WriteResult)
    → (m.write d y t).1 ≡ ok w
    → (w.verified ≡ none) × ((w.attempts ≡ 0) × (w.skipped ≡ false))

ok_injective : {A : Type 0} {a b : A} → ok a ≡ ok b → a ≡ b
ok_injective h = ground arith

none_ne_some : {A : Type 0} {a : A} → none ≢ some a
none_ne_some h = cc

false_ne_true : false ≢ true
false_ne_true h = cc

module _ {S : Type 0} (m : Machine S) (x : Value) (v : Verify) (s : S) where
  abbrev IsGood : S × Result WriteResult → Type 0
  IsGood r = (w : WriteResult) → r.1 ≡ ok w → IsHonest m x v s (r.0) w

  err-IsGood : (t : S) (e : Exn) → IsGood (t, err e)
  err-IsGood t e w h = cc

  ok-IsGood : (t : S) (u : WriteResult) → IsHonest m x v s t u → IsGood (t, ok u)
  ok-IsGood t u a w h = subst (λ y. IsHonest m x v s t y) (ok_injective h) a

  unverified-IsGood : (t : S) (w : WriteResult) (p : Progress) → IsGood (t, ok (unverified w v p))
  unfolding unverified
  unverified-IsGood t w p =
      ok-IsGood t (unverified w v p)
        (record { matched = λ h. cc; tried = omega arith; untouched = λ h. cc })

  confirmed-IsHonest :
      (t : S) (w : WriteResult) (y : Value) (n : ℕ)
      → values_match m.close y x v.tolerance ≡ true
      → n ≤ v.max_attempts
      → IsHonest m x v s t (confirmed w y n)
  unfolding confirmed
  confirmed-IsHonest t w y n h le = record {
    matched = λ k. (y, (refl, h));
    tried = le;
    untouched = λ k. cc;
  }

  skipping-IsHonest :
      (d e : Text) (y : Value)
      → values_match m.close y x v.tolerance ≡ true
      → IsHonest m x v s (m.read e s).0 (skipping d y)
  unfolding skipping
  skipping-IsHonest d e y h = record {
    matched = λ k. (y, (refl, h));
    tried = omega arith;
    untouched = λ k. (e, refl);
  }

  chosen-IsGood :
      (b : Bool) (r q : S × Result WriteResult)
      → (b ≡ true → IsGood r)
      → IsGood q
      → IsGood (if b then r else q)
  chosen-IsGood true r q f g = f refl
  chosen-IsGood false r q f g = g

  attempted-IsGood :
      (w : WriteResult) (n : ℕ) (p : Progress) (r : S × Reading)
      (rest : Progress → S → S × Result WriteResult)
      → n ≤ v.max_attempts
      → ((q : Progress) (t : S) → IsGood (rest q t))
      → IsGood (attempted m w x v n p r rest)
  unfolding attempted
  attempted-IsGood w n p (t, Reading.raised e) rest le f = err-IsGood t e
  attempted-IsGood w n p (t, Reading.device_error e) rest le f =
      f (record p { last_error = some e }) (pause m v n t)
  attempted-IsGood w n p (t, Reading.read_value y) rest le f =
      chosen-IsGood (values_match m.close y x v.tolerance) (t, ok (confirmed w y n)) _
        (λ h. ok-IsGood t (confirmed w y n) (confirmed-IsHonest t w y n h le))
        (f (record { last_readback = some y; last_error = none }) (pause m v n t))

  readback_loop-IsGood :
      (w : WriteResult) (d : Text) (left n : ℕ) (p : Progress) (t : S)
      → n + left ≡ suc v.max_attempts
      → IsGood (readback_loop m w d x v left n p t)
  unfolding readback_loop
  readback_loop-IsGood w d zero n p t e = unverified-IsGood t w p
  readback_loop-IsGood w d (suc left) n p t e =
      attempted-IsGood w n p (m.read d t) _ (omega (arith, e))
        (λ q u. readback_loop-IsGood w d left (suc n) q u (omega (arith, e)))

  module _ (plain : IsPlain m) where
    plain-IsGood :
        (d : Text) (y : Value) (t : S) (w : WriteResult)
        → (m.write d y t).1 ≡ ok w
        → IsGood ((m.write d y t).0, ok w)
    plain-IsGood d y t w h =
        let (a, (b, c)) = plain d y t w h in
        ok-IsGood ((m.write d y t).0) w (record {
          matched = λ k. absurd (none_ne_some (sym a ∙ k));
          tried = omega (arith, b);
          untouched = λ k. absurd (false_ne_true (sym c ∙ k));
        })

    after_result :
        (d e : Text) (y : Value) (t : S) (r : S × Result WriteResult)
        → m.write d y t ≡ r
        → IsGood (after_write m e x (some v) r)
    unfolding after_write verify_readback
    after_result d e y t (u, err f) h = err-IsGood u f
    after_result d e y t (u, ok w) h =
        chosen-IsGood (is_zero w.error_code) (verify_readback m w (readback_drf v.readback e) x v u)
          (u, ok w)
          (λ k.
            readback_loop-IsGood w (readback_drf v.readback e) v.max_attempts 1 _ _ (omega arith))
          (subst (λ z. IsGood (z, ok w)) (ap (λ q. q.0) h) (plain-IsGood d y t w (ap (λ q. q.1) h)))

    after_write-IsGood :
        (d e : Text) (y : Value) (t : S) → IsGood (after_write m e x (some v) (m.write d y t))
    after_write-IsGood d e y t = after_result d e y t (m.write d y t) refl

    checked-IsGood :
        (d e : Text) (r : S × Reading) (rest : S → S × Result WriteResult)
        → m.read e s ≡ r
        → ((t : S) → IsGood (rest t))
        → IsGood (checked m d x v r rest)
    unfolding checked
    checked-IsGood d e (t, Reading.raised f) rest h g = err-IsGood t f
    checked-IsGood d e (t, Reading.device_error f) rest h g = err-IsGood t _
    checked-IsGood d e (t, Reading.read_value y) rest h g =
        chosen-IsGood (values_match m.close y x v.tolerance) (t, ok (skipping d y)) (rest t)
          (λ k.
            subst (λ z. IsGood (z, ok (skipping d y))) (ap (λ q. q.0) h)
              (ok-IsGood ((m.read e s).0) (skipping d y) (skipping-IsHonest d e y k)))
          (g t)

    checked_write-IsGood : (d e : Text) → IsGood (checked_write m d e x (some v) s)
    unfolding checked_write
    checked_write-IsGood d e =
        chosen-IsGood v.check_first _ (after_write m e x (some v) (m.write d x s))
          (λ k.
            checked-IsGood d (readback_drf v.readback e) (m.read (readback_drf v.readback e) s) _
              refl (λ t. after_write-IsGood d e x t))
          (after_write-IsGood d e x s)

    resolved_write-IsGood :
        (r : Request) (f : Result (Option Field)) → IsGood (resolved_write m r x (some v) f s)
    unfolding resolved_write
    resolved_write-IsGood r (err e) = err-IsGood s e
    resolved_write-IsGood r (ok f) =
        checked_write-IsGood (build_drf r Property.setting f (codes "N"))
          (build_drf r Property.setting f (codes "I"))

-- If a backend's own results say nothing of a verification, then the result of a write with a verification has, where
-- it says verified, a readback that matches the value within the tolerance; its attempts are at most the number
-- allowed; and where it says skipped, the backend has done a single read and no write.
pub write-IsHonest :
    {S : Type 0} (m : Machine S) (stack : List Verify) (r : Request) (x : Value)
    (field : Option Text) (choice : Choice) (v : Verify) (s : S) (w : WriteResult)
    → IsPlain m
    → resolve_verify choice stack ≡ some v
    → (write m stack r x field choice s).1 ≡ ok w
    → IsHonest m x v s (write m stack r x field choice s).0 w
unfolding write
write-IsHonest m stack r x field choice v s w plain e h =
    subst (λ o. IsGood m x v s (resolved_write m r x o (resolve_field field Property.setting) s))
      (sym e) (resolved_write-IsGood m x v s plain r (resolve_field field Property.setting)) w h
