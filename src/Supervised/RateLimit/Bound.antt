-- ===== src/Supervised/RateLimit/Bound.antt =====
-- The rate limit over any sequence of requests (`RateLimitPolicy` of pacsys/supervised/_policies.py).
use pacsys.Prelude.{
  ℕ, zero, suc, ◌+◌, ◌≤◌, ◌<◌, ◌≡◌, refl, sym, ap, ◌∙◌, ◌⊎◌, inl, inr, Bool, true, false, ◌&&◌,
  List, [], ◌∷◌, ◌++◌, append-nil, append_assoc, arith, ltb, leb, if◌then◌else◌, ok, length, Text,
  subst, text_eq→eq, text_eq,
}
use pacsys.Supervised.RateLimit.{
  RateLimit, Times, check_rate, count_request, is_stale, last, new_rate_limit, pruned, put, recent,
  stale_after, times_of,
}
use pacsys.Supervised.RateLimit.Window.{
  ascends, ascends-append, ascends-recent, ascends-weaken, length-recent_le, once, once-pruned,
  once-put, recent-append, recent-recent, recent_stale, times_of-prune, times_of-put,
}

-- The times up to `at` that the window ending there holds.
unfoldable pub in_window : ℕ → ℕ → List ℕ → ℕ
in_window w at [] = 0
in_window w at (t ∷ ts) = (if leb t at && ltb at (t + w) then 1 else 0) + in_window w at ts

in_window-append :
    (w at : ℕ) (ts us : List ℕ) → in_window w at (ts ++ us) ≡ in_window w at ts + in_window w at us
unfolding in_window
in_window-append w at [] us = omega arith
in_window-append w at (t ∷ ts) us = omega (arith, in_window-append w at ts us)

in_window-le-recent : (w at : ℕ) (ts : List ℕ) → in_window w at ts ≤ length (recent w at ts)
unfolding in_window recent
in_window-le-recent w at [] = omega arith
in_window-le-recent w at (t ∷ ts) = ground (arith, in_window-le-recent w at ts)

-- The times at which the requests of a peer are allowed.
unfoldable pub served : Text → RateLimit → List (ℕ × Text) → List ℕ
unfolding check_rate
served p l [] = []
served p l ((now, q) ∷ rest) =
    let later = served p ((check_rate now q l).0) rest in
    if (check_rate now q l).1 && text_eq q p then now ∷ later else later

-- A clock that does not go back.
unfoldable pub is_clock : ℕ → List (ℕ × Text) → Bool
is_clock since [] = true
is_clock since ((now, q) ∷ rest) = leb since now && is_clock now rest

-- The state of the policy for a peer whose requests were allowed at the times given.
pub record Holds (p : Text) (now : ℕ) (l : RateLimit) (ts : List ℕ) : Type 0 where
  pub unique : once p l.timestamps ≡ true
  pub ordered : ascends 0 now (times_of p l.timestamps) ≡ true
  pub kept :
      (at : ℕ) → now ≤ at → recent l.window at (times_of p l.timestamps) ≡ recent l.window at ts
  pub bounded : (at : ℕ) → in_window l.window at ts ≤ l.max_requests

times_of-pruned :
    (now : ℕ) (p : Text) (m : Times)
    → once p m ≡ true
    → (times_of p (pruned now m) ≡ times_of p m)
      ⊎ ((times_of p (pruned now m) ≡ []) × (is_stale now (last (times_of p m)) ≡ true))
unfolding pruned
times_of-pruned now p m h = ground (arith, times_of-prune now p m)

recent-pruned :
    (w now since at : ℕ) (p : Text) (m : Times)
    → w ≤ stale_after
    → once p m ≡ true
    → ascends 0 since (times_of p m) ≡ true
    → now ≤ at
    → recent w at (times_of p (pruned now m)) ≡ recent w at (times_of p m)
unfolding recent
recent-pruned w now since at p m hw ho ha hn = elim (times_of-pruned now p m ho) [
  | inl e ↦ ap (λ ts. recent w at ts) e
  | inr (e, k) ↦
      ap (λ ts. recent w at ts) e ∙ sym (recent_stale w now at 0 since (times_of p m) hw hn ha k)
]

pruned-ascends :
    (now since : ℕ) (p : Text) (m : Times)
    → once p m ≡ true
    → ascends 0 since (times_of p m) ≡ true
    → since ≤ now
    → ascends 0 now (times_of p (pruned now m)) ≡ true
unfolding ascends
pruned-ascends now since p m ho ha hn = elim (times_of-pruned now p m ho) [
  | inl e ↦
      ap (λ ts. ascends 0 now ts) e
      ∙ ascends-weaken 0 0 since now (times_of p m) ha (omega arith) hn
  | inr (e, k) ↦ ap (λ ts. ascends 0 now ts) e ∙ ground arith
]

-- Dropping stale times leaves the state of a peer as it was.
pruned-Holds :
    (p : Text) (since now : ℕ) (l : RateLimit) (ts : List ℕ)
    → l.window ≤ stale_after
    → since ≤ now
    → Holds p since l ts
    → Holds p now (record l { timestamps = pruned now l.timestamps }) ts
pruned-Holds p since now l ts hw hn h = record {
  unique = once-pruned now p l.timestamps h.unique;
  ordered = pruned-ascends now since p l.timestamps h.unique h.ordered hn;
  kept = λ at k.
      recent-pruned l.window now since at p l.timestamps hw h.unique h.ordered k
      ∙ h.kept at (omega arith);
  bounded = h.bounded;
}

times_of-other :
    (p q : Text) (us : List ℕ) (m : Times)
    → text_eq q p ≡ false
    → times_of p (put q us m) ≡ times_of p m
times_of-other p q us m e = ground (arith, times_of-put p q us m)

times_of-own :
    (p q : Text) (us : List ℕ) (m : Times) → text_eq q p ≡ true → times_of p (put q us m) ≡ us
times_of-own p q us m e = ground (arith, times_of-put p q us m)

-- The request of another peer.
other-Holds :
    (p q : Text) (now : ℕ) (l : RateLimit) (us ts : List ℕ)
    → text_eq q p ≡ false
    → Holds p now l ts
    → Holds p now (record l { timestamps = put q us l.timestamps }) ts
other-Holds p q now l us ts e h = record {
  unique = once-put p q us l.timestamps h.unique;
  ordered = ap (λ x. ascends 0 now x) (times_of-other p q us l.timestamps e) ∙ h.ordered;
  kept =
      λ at k. ap (λ x. recent l.window at x) (times_of-other p q us l.timestamps e) ∙ h.kept at k;
  bounded = h.bounded;
}

-- A request of the peer that is refused: the times out of the window are forgotten.
refused-Holds :
    (p q : Text) (now : ℕ) (l : RateLimit) (ts : List ℕ)
    → text_eq q p ≡ true
    → Holds p now l ts
    → Holds p now
        (record l {
          timestamps = put q (recent l.window now (times_of p l.timestamps)) l.timestamps;
        })
        ts
refused-Holds p q now l ts e h =
    let us = recent l.window now (times_of p l.timestamps) in
    let own : times_of p (put q us l.timestamps) ≡ us = times_of-own p q us l.timestamps e in
    record {
      unique = once-put p q us l.timestamps h.unique;
      ordered =
          ap (λ x. ascends 0 now x) own
          ∙ ascends-recent l.window now 0 now (times_of p l.timestamps) h.ordered;
      kept = λ at k.
          ap (λ x. recent l.window at x) own
          ∙ recent-recent l.window now at (times_of p l.timestamps) k
          ∙ h.kept at k;
      bounded = h.bounded;
    }

in_window-add :
    (w at now n : ℕ) (ts : List ℕ)
    → ((at2 : ℕ) → in_window w at2 ts ≤ n)
    → length (recent w now ts) < n
    → in_window w at (ts ++ (now ∷ [])) ≤ n
unfolding in_window
in_window-add w at now n ts h k = ground (
  arith,
  h at,
  in_window-append w at ts (now ∷ []),
  in_window-le-recent w at ts,
  length-recent_le w now at ts,
)

-- A request of the peer that is allowed.
allowed-Holds :
    (p q : Text) (now : ℕ) (l : RateLimit) (ts : List ℕ)
    → text_eq q p ≡ true
    → Holds p now l ts
    → length (recent l.window now (times_of p l.timestamps)) < l.max_requests
    → Holds p now
        (record l {
          timestamps =
              put q (recent l.window now (times_of p l.timestamps) ++ (now ∷ [])) l.timestamps;
        })
        (ts ++ (now ∷ []))
allowed-Holds p q now l ts e h k =
    let us = recent l.window now (times_of p l.timestamps) ++ (now ∷ []) in
    let own : times_of p (put q us l.timestamps) ≡ us = times_of-own p q us l.timestamps e in
    record {
      unique = once-put p q us l.timestamps h.unique;
      ordered =
          ap (λ x. ascends 0 now x) own
          ∙ ascends-append 0 now now (recent l.window now (times_of p l.timestamps))
              (ascends-recent l.window now 0 now (times_of p l.timestamps) h.ordered) (omega arith);
      kept = λ at m.
          ap (λ x. recent l.window at x) own
          ∙ recent-append l.window at (recent l.window now (times_of p l.timestamps)) (now ∷ [])
          ∙ ap (λ x. x ++ recent l.window at (now ∷ []))
              (recent-recent l.window now at (times_of p l.timestamps) m ∙ h.kept at m)
          ∙ sym (recent-append l.window at ts (now ∷ []));
      bounded = λ at.
          in_window-add l.window at now l.max_requests ts h.bounded
            (rw (← h.kept now (omega arith)) k);
    }

times_of-same : (p q : Text) (m : Times) → text_eq q p ≡ true → times_of q m ≡ times_of p m
times_of-same p q m e = ap (λ x. times_of x m) (text_eq→eq q p e)

counted :
    (p q : Text) (now : ℕ) (l : RateLimit) (ts us : List ℕ) (full same : Bool)
    → us ≡ recent l.window now (times_of q l.timestamps)
    → leb l.max_requests (length us) ≡ full
    → text_eq q p ≡ same
    → Holds p now l ts
    → let r : RateLimit × Bool =
        (if full
          then (record l { timestamps = put q us l.timestamps }, false)
          else (record l { timestamps = put q (us ++ (now ∷ [])) l.timestamps }, true)) in
      Holds p now (r.0) (if r.1 && same then ts ++ (now ∷ []) else ts)
counted p q now l ts us true false eu ef es h = other-Holds p q now l us ts es h
counted p q now l ts us false false eu ef es h = other-Holds p q now l (us ++ (now ∷ [])) ts es h
counted p q now l ts us true true eu ef es h =
    let e = eu ∙ ap (λ x. recent l.window now x) (times_of-same p q l.timestamps es) in
    rw e (refused-Holds p q now l ts es h)
counted p q now l ts us false true eu ef es h =
    let e = eu ∙ ap (λ x. recent l.window now x) (times_of-same p q l.timestamps es) in
    rw e (allowed-Holds p q now l ts es h (rw (← e) (ground arith)))

check_rate-Holds :
    (p q : Text) (since now : ℕ) (l : RateLimit) (ts : List ℕ)
    → l.window ≤ stale_after
    → since ≤ now
    → Holds p since l ts
    → Holds p now
        (check_rate now q l).0
        (if (check_rate now q l).1 && text_eq q p then ts ++ (now ∷ []) else ts)
unfolding check_rate count_request
check_rate-Holds p q since now l ts hw hn h =
    let m = record l { timestamps = pruned now l.timestamps } in
    let us = recent l.window now (times_of q (pruned now l.timestamps)) in
    counted p q now m ts us (leb l.max_requests (length us)) (text_eq q p) refl refl refl
      (pruned-Holds p since now l ts hw hn h)

check_rate-window :
    (now : ℕ) (q : Text) (l : RateLimit)
    → ((check_rate now q l).0.window ≡ l.window)
      × ((check_rate now q l).0.max_requests ≡ l.max_requests)
unfolding check_rate count_request
check_rate-window now q l = ground arith

if-append :
    (b : Bool) (ts : List ℕ) (t : ℕ) (us : List ℕ)
    → ts ++ (if b then t ∷ us else us) ≡ (if b then ts ++ (t ∷ []) else ts) ++ us
if-append true ts t us = sym (append_assoc ts (t ∷ []) us)
if-append false ts t us = refl

same-bound :
    (w v n m at : ℕ) (ts : List ℕ) → v ≡ w → m ≡ n → in_window v at ts ≤ m → in_window w at ts ≤ n
same-bound w v n m at ts e f h = rw (← e, ← f) h

run-bounded :
    (p : Text) (since at : ℕ) (l : RateLimit) (ts : List ℕ) (reqs : List (ℕ × Text))
    → l.window ≤ stale_after
    → Holds p since l ts
    → is_clock since reqs ≡ true
    → in_window l.window at (ts ++ served p l reqs) ≤ l.max_requests
unfolding served is_clock
run-bounded p since at l ts [] hw h hc = rw append-nil (h.bounded at)
run-bounded p since at l ts ((now, q) ∷ rest) hw h hc =
    let r = check_rate now q l in
    let sizes = check_rate-window now q l in
    same-bound l.window r.0.window l.max_requests r.0.max_requests at _ (sizes.0) (sizes.1) (
      rw (if-append (r.1 && text_eq q p) ts now (served p r.0 rest)) (
        run-bounded p now at r.0 (if r.1 && text_eq q p then ts ++ (now ∷ []) else ts) rest
          (omega (arith, sizes.0)) (check_rate-Holds p q since now l ts hw (ground arith) h)
          (ground arith)))

empty-Holds :
    (p : Text) (n w : ℕ) → Holds p 0 (record { max_requests = n; window = w; timestamps = [] }) []
unfolding once ascends times_of in_window
empty-Holds p n w = record {
  unique = refl;
  ordered = refl;
  kept = λ at h. refl;
  bounded = λ at. omega arith;
}

new_rate_limit-ok :
    (l : RateLimit) (n w : ℕ)
    → new_rate_limit n w ≡ ok l
    → record { max_requests = n; window = w; timestamps = [] } ≡ l
unfolding new_rate_limit
new_rate_limit-ok l zero w h = cc
new_rate_limit-ok l (suc n) zero h = cc
new_rate_limit-ok l (suc n) (suc w) h = ground arith

-- With a window of at most an hour and a clock that does not go back, of any sequence of requests by any peers no
-- span of the window's length holds more allowed requests of one peer than the policy's maximum.
pub served-le-max_requests :
    (n w at : ℕ) (p : Text) (l : RateLimit) (reqs : List (ℕ × Text))
    → new_rate_limit n w ≡ ok l
    → w ≤ stale_after
    → is_clock 0 reqs ≡ true
    → in_window w at (served p l reqs) ≤ n
served-le-max_requests n w at p l reqs h hw hc =
    subst (λ x. in_window w at (served p x reqs) ≤ n) (new_rate_limit-ok l n w h)
      (run-bounded p 0 at (record { max_requests = n; window = w; timestamps = [] }) [] reqs hw
        (empty-Holds p n w) hc)
