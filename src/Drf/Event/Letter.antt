-- ===== src/Drf/Event/Letter.antt =====
-- The letter of a periodic event (`PeriodicEvent` of pacsys/drf3/event.py) in either case.
use pacsys.Prelude.{
  ℕ, ◌≡◌, refl, sym, ◌∙◌, Bool, true, false, Option, none, some, ◌∷◌, arith, ◌==◌, if◌then◌else◌,
  Result, ok, err, Text,
}
use pacsys.Drf.Event.{
  Event, Periodic, comma_word, immediate_flag, new_periodic, parse_event, parse_periodic,
  parse_time_freq, periodic_with,
}
use pacsys.Drf.Range.{at_end}

-- What stands behind the letter, as the flag and the frequency.
unfoldable flag_of : Bool → Option (Text × Text) → Option Bool
unfolding immediate_flag
flag_of true m = some true
flag_of false none = none
flag_of false (some (w, rest)) = immediate_flag rest

unfoldable freq_of : Bool → Option (Text × Text) → Result ℕ
unfolding parse_time_freq
freq_of true m = ok 1000
freq_of false none = ok 0
freq_of false (some (w, rest)) = parse_time_freq w

periodic_with-parts :
    (raw : Text) (cont : Bool) (m : Option (Text × Text))
    → periodic_with raw cont m ≡ new_periodic raw cont (flag_of false m) (freq_of false m)
unfolding periodic_with new_periodic flag_of freq_of
periodic_with-parts raw cont none = refl
periodic_with-parts raw cont (some (w, rest)) = refl

parse_periodic-parts :
    (c : ℕ) (cs : Text)
    → parse_periodic (c ∷ cs)
      ≡ new_periodic
          (c ∷ cs)
          (c == b'P')
          (flag_of (at_end cs) (comma_word cs))
          (freq_of (at_end cs) (comma_word cs))
unfolding parse_periodic flag_of freq_of
parse_periodic-parts c cs = branch (at_end cs)
  where
    branch :
        (b : Bool)
        → (if b
            then new_periodic (c ∷ cs) (c == b'P') (some true) (ok 1000)
            else periodic_with (c ∷ cs) (c == b'P') (comma_word cs))
          ≡ new_periodic
              (c ∷ cs)
              (c == b'P')
              (flag_of b (comma_word cs))
              (freq_of b (comma_word cs))
    branch true = refl
    branch false = periodic_with-parts (c ∷ cs) (c == b'P') (comma_word cs)

new_periodic-cont :
    (raw : Text) (cont : Bool) (i : Option Bool) (f : Result ℕ) (p : Periodic)
    → new_periodic raw cont i f ≡ ok (Event.periodic p)
    → p.cont ≡ cont
unfolding new_periodic
new_periodic-cont raw cont none f p h = cc
new_periodic-cont raw cont (some b) (err e) p h = cc
new_periodic-cont raw cont (some b) (ok n) p h = ground arith

-- A periodic event is continuous if its letter is an upper-case P, and is not if it is a lower-case one,
-- whatever stands behind the letter.
cont-letter :
    (t : Text) (p q : Periodic)
    → parse_event (b'P' ∷ t) ≡ ok (Event.periodic p)
    → parse_event (b'p' ∷ t) ≡ ok (Event.periodic q)
    → (p.cont ≡ true) × (q.cont ≡ false)
unfolding parse_event
cont-letter t p q h k = (
  new_periodic-cont (b'P' ∷ t) true (flag_of (at_end t) (comma_word t))
      (freq_of (at_end t) (comma_word t)) p (sym (parse_periodic-parts b'P' t) ∙ h),
  new_periodic-cont (b'p' ∷ t) false (flag_of (at_end t) (comma_word t))
      (freq_of (at_end t) (comma_word t)) q (sym (parse_periodic-parts b'p' t) ∙ k),
)
