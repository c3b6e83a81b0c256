-- ===== src/Supervised/Reorder/Laws.antt =====
-- The map from the requests of a client to those that the policies leave
-- (`_reorder_map` of pacsys/supervised/_server.py).
use pacsys.Prelude.{
  length-append, ℕ, suc, ◌<◌, ◌≡◌, refl, sym, ap, ◌∙◌, inl, inr, Bool, true, false, not, ◌&&◌,
  Option, none, some, List, [], ◌∷◌, ◌++◌, append_assoc, arith, if◌then◌else◌, Bool-cases, Result,
  ok, err, length, Text, get_elem?, text_eq→eq, text_eq,
}
use pacsys.Supervised.Access.{and_then}
use pacsys.Supervised.Context.{is_in}
use pacsys.Supervised.Reorder.{
  texts_eq, reorder_map, slots_from, numbered, reorder_loop, take_position, behind, placed,
}
use pacsys.Supervised.Handlers.{pick, picked}

-- No number stands twice.
unfoldable pub is_distinct : List ℕ → Bool
unfolding is_in
is_distinct [] = true
is_distinct (i ∷ is) = not (is_in i is) && is_distinct is

unfoldable indices : List (Text × ℕ) → List ℕ
indices [] = []
indices ((d, i) ∷ rest) = i ∷ indices rest

-- Every position holds its request.
unfoldable Points : List Text → List (Text × ℕ) → Type 0
Points ds [] = Unit {0}
Points ds ((d, i) ∷ rest) = (get_elem? ds i ≡ some d) × Points ds rest

-- What taking a position leaves.
record Taken (ds : List Text) (d : Text) (ps : List (Text × ℕ)) (i : ℕ) (left : List (Text × ℕ))
    : Type 0 where
  found : get_elem? ds i ≡ some d
  rest : Points ds left
  gone : is_in i (indices left) ≡ false
  member : is_in i (indices ps) ≡ true
  kept : (j : ℕ) → is_in j (indices left) ≡ true → is_in j (indices ps) ≡ true
  distinct : is_distinct (indices left) ≡ true

taken_here :
    (d e : Text) (k : ℕ) (ps : List (Text × ℕ)) (i : ℕ) (left : List (Text × ℕ))
    → text_eq e d ≡ true
    → take_position d ((e, k) ∷ ps) ≡ some (i, left)
    → (i ≡ k) × (left ≡ ps)
unfolding take_position
taken_here d e k ps i left m h = ground arith

here :
    (ds : List Text) (d e : Text) (k : ℕ) (ps : List (Text × ℕ)) (i : ℕ) (left : List (Text × ℕ))
    → Points ds ((e, k) ∷ ps)
    → is_distinct (indices ((e, k) ∷ ps)) ≡ true
    → text_eq e d ≡ true
    → take_position d ((e, k) ∷ ps) ≡ some (i, left)
    → Taken ds d ((e, k) ∷ ps) i left
unfolding take_position Points indices is_distinct is_in
here ds d e k ps i left hp hd m h =
    let (a, b) = taken_here d e k ps i left m h in
    rw (a, b)
      (record {
        found = hp.0 ∙ ap some (text_eq→eq e d m);
        rest = hp.1;
        gone = ground arith;
        member = ground arith;
        kept = λ j q. ground arith;
        distinct = ground arith;
      })

behind-some :
    (e : Text) (k : ℕ) (o : Option (ℕ × List (Text × ℕ))) (i : ℕ) (left : List (Text × ℕ))
    → behind (e, k) o ≡ some (i, left)
    → (left2 : List (Text × ℕ)) × ((o ≡ some (i, left2)) × (left ≡ (e, k) ∷ left2))
unfolding behind
behind-some e k none i left h = cc
behind-some e k (some (j, l)) i left h = (l, (ground arith, ground arith))

taken_later :
    (d e : Text) (k : ℕ) (ps : List (Text × ℕ)) (i : ℕ) (left : List (Text × ℕ))
    → text_eq e d ≡ false
    → take_position d ((e, k) ∷ ps) ≡ some (i, left)
    → behind (e, k) (take_position d ps) ≡ some (i, left)
unfolding take_position
taken_later d e k ps i left m h = ground arith

there :
    (ds : List Text) (d e : Text) (k : ℕ) (ps : List (Text × ℕ)) (i : ℕ) (left : List (Text × ℕ))
    → Points ds ((e, k) ∷ ps)
    → is_distinct (indices ((e, k) ∷ ps)) ≡ true
    → Taken ds d ps i left
    → Taken ds d ((e, k) ∷ ps) i ((e, k) ∷ left)
unfolding Points indices is_distinct is_in
there ds d e k ps i left hp hd t = record {
  found = t.found;
  rest = (hp.0, t.rest);
  gone = ground (arith, t.gone, t.member);
  member = ground (arith, t.member);
  kept = λ j q. ground (arith, t.kept j);
  distinct = ground (arith, t.distinct, t.kept k);
}

take_position-Taken :
    (ds : List Text) (d : Text) (ps : List (Text × ℕ)) (i : ℕ) (left : List (Text × ℕ))
    → Points ds ps
    → is_distinct (indices ps) ≡ true
    → take_position d ps ≡ some (i, left)
    → Taken ds d ps i left
unfolding take_position Points indices is_distinct is_in
take_position-Taken ds d [] i left hp hd h = cc
take_position-Taken ds d ((e, k) ∷ ps) i left hp hd h = elim (Bool-cases (text_eq e d)) [
  | inl m ↦ here ds d e k ps i left hp hd m h
  | inr m ↦
      let (left2, (t, b)) =
        behind-some e k (take_position d ps) i left (taken_later d e k ps i left m h) in
      rw b (
        there ds d e k ps i left2 hp hd
          (take_position-Taken ds d ps i left2 (hp.1) (ground arith) t))
]

-- What a loop over positions gives: numbers among them, each once, that lead back to the requests.
record Placed (ds original : List Text) (ps : List (Text × ℕ)) (js : List ℕ) : Type 0 where
  looked_up : pick js ds ≡ ok original
  distinct : is_distinct js ≡ true
  members : (j : ℕ) → is_in j js ≡ true → is_in j (indices ps) ≡ true

ok_cons :
    (i : ℕ) (r : Result (List ℕ)) (js : List ℕ)
    → and_then r (λ is. ok (i ∷ is)) ≡ ok js
    → (is : List ℕ) × ((r ≡ ok is) × (js ≡ i ∷ is))
unfolding and_then
ok_cons i (err e) js h = cc
ok_cons i (ok is) js h = (is, (refl, ground arith))

nil-ok : (js : List ℕ) → ok [] ≡ ok js → js ≡ []
nil-ok js h = ground arith

pick-nil : (ds : List Text) → pick [] ds ≡ ok []
unfolding pick
pick-nil ds = refl

placed-ok :
    (o : Option (ℕ × List (Text × ℕ))) (rest : List (Text × ℕ) → Result (List ℕ)) (js : List ℕ)
    → placed o rest ≡ ok js
    → (i : ℕ) × ((left : List (Text × ℕ)) × ((is : List ℕ) × ((o ≡ some (i, left))
            × ((rest left ≡ ok is) × (js ≡ i ∷ is)))))
unfolding placed
placed-ok none rest js h = cc
placed-ok (some (i, left)) rest js h =
    let (is, (e, k)) = ok_cons i (rest left) js h in (i, (left, (is, (refl, (e, k)))))

pick-cons :
    (ds original : List Text) (d : Text) (i : ℕ) (is : List ℕ)
    → get_elem? ds i ≡ some d
    → pick is ds ≡ ok original
    → pick (i ∷ is) ds ≡ ok (d ∷ original)
unfolding pick picked and_then
pick-cons ds original d i is h k = rw (h, k) refl

reorder_loop-Placed :
    (ds original : List Text) (ps : List (Text × ℕ)) (js : List ℕ)
    → Points ds ps
    → is_distinct (indices ps) ≡ true
    → reorder_loop original ps ≡ ok js
    → Placed ds original ps js
unfolding reorder_loop is_distinct is_in
reorder_loop-Placed ds [] ps js hp hd h =
    rw (nil-ok js h)
      (record { looked_up = pick-nil ds; distinct = ground arith; members = λ j q. ground arith })
reorder_loop-Placed ds (d ∷ original) ps js hp hd h =
    let (i, (left, (is, (e, (k, c))))) =
      placed-ok (take_position d ps) (λ l. reorder_loop original l) js h in
    let t = take_position-Taken ds d ps i left hp hd e in
    let q = reorder_loop-Placed ds original left is t.rest t.distinct k in
    rw c (record {
      looked_up = pick-cons ds original d i is t.found q.looked_up;
      distinct = ground (arith, q.distinct, q.members i, t.gone);
      members = λ j m. ground (arith, q.members j, t.kept j, t.member);
    })

get_elem?-middle :
    (pre : List Text) (d : Text) (ds : List Text)
    → get_elem? (pre ++ (d ∷ ds)) (length pre) ≡ some d
get_elem?-middle [] d ds = refl
get_elem?-middle (x ∷ xs) d ds = get_elem?-middle xs d ds

numbered-Points :
    (pre ds whole : List Text) (k : ℕ)
    → whole ≡ pre ++ ds
    → k ≡ length pre
    → Points whole (numbered k ds)
unfolding Points numbered
numbered-Points pre [] whole k e l = tt
numbered-Points pre (d ∷ ds) whole k e l = (
  rw (e, l) (get_elem?-middle pre d ds),
  numbered-Points (pre ++ (d ∷ [])) ds whole (suc k) (e ∙ sym (append_assoc pre (d ∷ []) ds))
      (omega (arith, l, length-append pre (d ∷ []))),
)

numbered-low : (k i : ℕ) (ds : List Text) → i < k → is_in i (indices (numbered k ds)) ≡ false
unfolding is_in indices numbered
numbered-low k i [] h = refl
numbered-low k i (d ∷ ds) h = ground (arith, numbered-low (suc k) i ds)

numbered-distinct : (k : ℕ) (ds : List Text) → is_distinct (indices (numbered k ds)) ≡ true
unfolding is_distinct indices numbered
numbered-distinct k [] = refl
numbered-distinct k (d ∷ ds) =
    ground (arith, numbered-distinct (suc k) ds, numbered-low (suc k) k ds)

slots_from-numbered : (k : ℕ) (ds : List Text) → slots_from k (length ds) ≡ indices (numbered k ds)
unfolding slots_from indices numbered
slots_from-numbered k [] = refl
slots_from-numbered k (d ∷ ds) = ap (λ x. k ∷ x) (slots_from-numbered (suc k) ds)

pick-numbered :
    (whole : List Text) (k : ℕ) (ds : List Text)
    → Points whole (numbered k ds)
    → pick (indices (numbered k ds)) whole ≡ ok ds
unfolding Points numbered indices
pick-numbered whole k [] h = pick-nil whole
pick-numbered whole k (d ∷ ds) h =
    pick-cons whole ds d k (indices (numbered (suc k) ds)) (h.0)
      (pick-numbered whole (suc k) ds (h.1))

texts_eq→eq : (xs ys : List Text) → texts_eq xs ys ≡ true → xs ≡ ys
unfolding texts_eq
texts_eq→eq [] [] h = refl
texts_eq→eq [] (y ∷ ys) h = cc
texts_eq→eq (x ∷ xs) [] h = cc
texts_eq→eq (x ∷ xs) (y ∷ ys) h = ground (arith, text_eq→eq x y, texts_eq→eq xs ys)

ok-injective : (xs ys : List ℕ) → ok xs ≡ ok ys → xs ≡ ys
ok-injective xs ys h = ground arith

same-order :
    (ds : List Text)
    → (pick (slots_from 0 (length ds)) ds ≡ ok ds) × (is_distinct (slots_from 0 (length ds)) ≡ true)
same-order ds =
    rw (slots_from-numbered 0 ds)
      (pick-numbered ds 0 ds (numbered-Points [] ds ds 0 refl refl), numbered-distinct 0 ds)

reorder_cases :
    (original modified : List Text) (js : List ℕ) (b : Bool)
    → texts_eq original modified ≡ b
    → (if b
        then ok (slots_from 0 (length original))
        else reorder_loop original (numbered 0 modified))
      ≡ ok js
    → (pick js modified ≡ ok original) × (is_distinct js ≡ true)
reorder_cases original modified js true e h =
    rw (← ok-injective _ js h, ← texts_eq→eq original modified e) (same-order original)
reorder_cases original modified js false e h =
    let q =
      reorder_loop-Placed modified original (numbered 0 modified) js
        (numbered-Points [] modified modified 0 refl refl) (numbered-distinct 0 modified) h in
    (q.looked_up, q.distinct)

-- The map that answers a client leads each of its requests to that request among those that the policies leave,
-- and no two of them to the same one.
pub reorder_map-pick :
    (original modified : List Text) (js : List ℕ)
    → reorder_map original modified ≡ ok js
    → (pick js modified ≡ ok original) × (is_distinct js ≡ true)
unfolding reorder_map
reorder_map-pick original modified js h =
    reorder_cases original modified js (texts_eq original modified) refl h
