-- ===== src/Supervised/RateLimit/Window.antt =====
-- Times of requests within a window that slides, and the dictionary that holds them
-- (`RateLimitPolicy` of pacsys/supervised/_policies.py).
use pacsys.Prelude.{
  ℕ, ◌+◌, ◌≤◌, ◌<◌, ◌≡◌, refl, ap, ◌∙◌, ◌≢◌, ◌⊎◌, inl, Bool, true, false, not, ◌&&◌, Option, none,
  some, List, [], ◌∷◌, ◌++◌, arith, leb, if◌then◌else◌, length, Text, text_eq, text_eq→eq,
}
use pacsys.Supervised.RateLimit.{
  Times, is_stale, last, prune, pruned, put, recent, stale_after, times_of,
}

-- Times that ascend from lo to hi.
unfoldable pub ascends : ℕ → ℕ → List ℕ → Bool
ascends lo hi [] = leb lo hi
ascends lo hi (t ∷ ts) = leb lo t && ascends t hi ts

pub ascends-weaken :
    (lo lo2 hi hi2 : ℕ) (ts : List ℕ)
    → ascends lo hi ts ≡ true
    → lo2 ≤ lo
    → hi ≤ hi2
    → ascends lo2 hi2 ts ≡ true
unfolding ascends
ascends-weaken lo lo2 hi hi2 [] h a b = ground arith
ascends-weaken lo lo2 hi hi2 (t ∷ ts) h a b = ground (arith, ascends-weaken t t hi hi2 ts)

pub ascends-recent :
    (w now lo hi : ℕ) (ts : List ℕ)
    → ascends lo hi ts ≡ true
    → ascends lo hi (recent w now ts) ≡ true
unfolding ascends recent
ascends-recent w now lo hi [] h = h
ascends-recent w now lo hi (t ∷ ts) h =
    ground (arith, ascends-recent w now t hi ts, ascends-weaken t lo hi hi (recent w now ts))

pub ascends-append :
    (lo hi now : ℕ) (ts : List ℕ)
    → ascends lo hi ts ≡ true
    → hi ≤ now
    → ascends lo now (ts ++ (now ∷ [])) ≡ true
unfolding ascends
ascends-append lo hi now [] h k = ground arith
ascends-append lo hi now (t ∷ ts) h k = ground (arith, ascends-append t hi now ts)

head-le-last : (lo hi l : ℕ) (ts : List ℕ) → ascends lo hi ts ≡ true → last ts ≡ some l → lo ≤ l
unfolding ascends last
head-le-last lo hi l [] h e = cc
head-le-last lo hi l (t ∷ []) h e = ground arith
head-le-last lo hi l (t ∷ u ∷ ts) h e = ground (arith, head-le-last t hi l (u ∷ ts))

recent_stale_last :
    (w now at lo hi l : ℕ) (ts : List ℕ)
    → w ≤ stale_after
    → now ≤ at
    → ascends lo hi ts ≡ true
    → last ts ≡ some l
    → l + stale_after < now
    → recent w at ts ≡ []
unfolding ascends last recent
recent_stale_last w now at lo hi l [] hw hn h e k = refl
recent_stale_last w now at lo hi l (t ∷ []) hw hn h e k = ground arith
recent_stale_last w now at lo hi l (t ∷ u ∷ ts) hw hn h e k =
    ground (arith, recent_stale_last w now at t hi l (u ∷ ts), head-le-last t hi l (u ∷ ts))

last-cons : (u : ℕ) (ts : List ℕ) → last (u ∷ ts) ≢ none
unfolding last
last-cons u [] h = cc
last-cons u (t ∷ ts) h = last-cons t ts h

last-none : (ts : List ℕ) → last ts ≡ none → ts ≡ []
unfolding last
last-none [] h = refl
last-none (t ∷ []) h = cc
last-none (t ∷ u ∷ ts) h = absurd (last-cons u ts h)

-- Times that are stale are out of a window of at most an hour.
pub recent_stale :
    (w now at lo hi : ℕ) (ts : List ℕ)
    → w ≤ stale_after
    → now ≤ at
    → ascends lo hi ts ≡ true
    → is_stale now (last ts) ≡ true
    → recent w at ts ≡ []
unfolding is_stale recent
recent_stale w now at lo hi ts hw hn h k = stale_cases (last ts) refl k
  where
    stale_cases : (o : Option ℕ) → last ts ≡ o → is_stale now o ≡ true → recent w at ts ≡ []
    stale_cases none e q = rw (last-none ts e) refl
    stale_cases (some l) e q = recent_stale_last w now at lo hi l ts hw hn h e (ground arith)

pub recent-recent :
    (w now at : ℕ) (ts : List ℕ) → now ≤ at → recent w at (recent w now ts) ≡ recent w at ts
unfolding recent
recent-recent w now at [] h = refl
recent-recent w now at (t ∷ ts) h = ground (arith, recent-recent w now at ts)

pub recent-append :
    (w at : ℕ) (ts us : List ℕ) → recent w at (ts ++ us) ≡ recent w at ts ++ recent w at us
unfolding recent
recent-append w at [] us = refl
recent-append w at (t ∷ ts) us = ground (arith, recent-append w at ts us)

pub length-recent_le :
    (w now at : ℕ) (ts : List ℕ) → now ≤ at → length (recent w at ts) ≤ length (recent w now ts)
unfolding recent
length-recent_le w now at [] h = omega arith
length-recent_le w now at (t ∷ ts) h = ground (arith, length-recent_le w now at ts)

-- The peer stands in the dictionary at most once.
unfoldable pub absent : Text → Times → Bool
absent p [] = true
absent p ((q, ts) ∷ rest) = not (text_eq q p) && absent p rest

unfoldable pub once : Text → Times → Bool
unfolding absent
once p [] = true
once p ((q, ts) ∷ rest) = if text_eq q p then absent p rest else once p rest

absent-prune : (now : ℕ) (p : Text) (m : Times) → absent p m ≡ true → absent p (prune now m) ≡ true
unfolding absent prune
absent-prune now p [] h = refl
absent-prune now p ((q, ts) ∷ rest) h = ground (arith, absent-prune now p rest)

once-absent : (p : Text) (m : Times) → absent p m ≡ true → once p m ≡ true
unfolding once absent
once-absent p [] h = refl
once-absent p ((q, ts) ∷ rest) h = ground (arith, once-absent p rest)

once-prune : (now : ℕ) (p : Text) (m : Times) → once p m ≡ true → once p (prune now m) ≡ true
unfolding once prune
once-prune now p [] h = refl
once-prune now p ((q, ts) ∷ rest) h =
    ground (arith, once-prune now p rest, absent-prune now p rest, once-absent p (prune now rest))

times_of-absent : (p : Text) (m : Times) → absent p m ≡ true → times_of p m ≡ []
unfolding absent times_of
times_of-absent p [] h = refl
times_of-absent p ((q, ts) ∷ rest) h = ground (arith, times_of-absent p rest)

pub once-pruned : (now : ℕ) (p : Text) (m : Times) → once p m ≡ true → once p (pruned now m) ≡ true
unfolding pruned
once-pruned now p m h = ground (arith, once-prune now p m)

text_eq_comm : (s t : Text) → text_eq s t ≡ text_eq t s
unfolding text_eq
text_eq_comm [] [] = refl
text_eq_comm [] (y ∷ ys) = refl
text_eq_comm (x ∷ xs) [] = refl
text_eq_comm (x ∷ xs) (y ∷ ys) = ground (arith, text_eq_comm xs ys)

-- A text that equals one of two texts equals the other only if these are equal.
same-text : (k p q : Text) → text_eq k p ≡ true → text_eq k q ≡ text_eq q p
same-text k p q h = ap (λ (x : Text). text_eq x q) (text_eq→eq k p h) ∙ text_eq_comm p q

absent-put :
    (p q : Text) (us : List ℕ) (m : Times)
    → absent p m ≡ true
    → text_eq q p ≡ false
    → absent p (put q us m) ≡ true
unfolding absent put
absent-put p q us [] h e = ground arith
absent-put p q us ((k, ts) ∷ rest) h e = ground (arith, absent-put p q us rest)

pub once-put : (p q : Text) (us : List ℕ) (m : Times) → once p m ≡ true → once p (put q us m) ≡ true
unfolding once put absent
once-put p q us [] h = ground arith
once-put p q us ((k, ts) ∷ rest) h =
    ground (arith, once-put p q us rest, absent-put p q us rest, same-text k p q)

-- The times of a peer after those of another are put into the dictionary.
pub times_of-put :
    (p q : Text) (us : List ℕ) (m : Times)
    → times_of p (put q us m) ≡ (if text_eq q p then us else times_of p m)
unfolding times_of put
times_of-put p q us [] = refl
times_of-put p q us ((k, ts) ∷ rest) =
    ground (arith, times_of-put p q us rest, same-text k q p, same-text k p q, text_eq_comm p q)

-- Pruning leaves the times of a peer, or drops them where they are stale.
pub times_of-prune :
    (now : ℕ) (p : Text) (m : Times)
    → once p m ≡ true
    → (times_of p (prune now m) ≡ times_of p m)
      ⊎ ((times_of p (prune now m) ≡ []) × (is_stale now (last (times_of p m)) ≡ true))
unfolding once times_of prune
times_of-prune now p [] h = inl refl
times_of-prune now p ((k, ts) ∷ rest) h = ground (
  arith,
  times_of-prune now p rest,
  once-absent p rest,
  times_of-absent p rest,
  absent-prune now p rest,
  times_of-absent p (prune now rest),
)
