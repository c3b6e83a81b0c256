-- ===== src/Ftp/Snapshot/Tracked.antt =====
-- Every device of a snapshot has a state, and a terminal one once the ready event is set.
use pacsys.Prelude.{
  ℕ, ◌≡◌, refl, sym, ap, ◌∙◌, ◌≢◌, ◌⊎◌, inl, inr, Bool, true, not, ◌||◌, List, [], ◌∷◌, arith,
  Result, ok, ◌>>=◌, subst, All,
}
use pacsys.Prelude.Int.{ℤ}
use pacsys.Ftp.Tables.{stored, found, found-stored, found-stored_other}
use pacsys.Ftp.Snapshot.{SnapshotState, Tables, is_terminal, noted}

abbrev pub States : Type 0
States = List (ℕ × SnapshotState)

-- A device has a state, and a terminal one if the event is set.
unfoldable pub IsTracked : Bool → States → ℕ → Type 0
IsTracked set states d =
    (s : SnapshotState) × ((found d states ≡ ok s) × ((not set || is_terminal s) ≡ true))

pub All-map : {P Q : ℕ → Type 0} (l : List ℕ) → All P l → ((e : ℕ) → P e → Q e) → All Q l
All-map [] h f = tt
All-map (x ∷ l) h f = (f x h.0, All-map l h.1 f)

pub eq_or_ne : (m n : ℕ) → (m ≡ n) ⊎ (m ≢ n)
eq_or_ne m n = ground arith

-- A device keeps being tracked when a state is stored that the event allows.
pub stored-IsTracked :
    (set : Bool) (d e : ℕ) (s : SnapshotState) (states : States)
    → (not set || is_terminal s) ≡ true
    → IsTracked set states e
    → IsTracked set (stored d s states) e
unfolding IsTracked
stored-IsTracked set d e s states h (old, (f, g)) = elim (eq_or_ne d e) [
  | inl same ↦
      subst (λ x. IsTracked set (stored d s states) x) same (s, (found-stored d s states, h))
  | inr other ↦ (old, (found-stored_other d e s states other ∙ f, g))
]

pub stored_self :
    (set : Bool) (d : ℕ) (s : SnapshotState) (states : States)
    → (not set || is_terminal s) ≡ true
    → IsTracked set (stored d s states) d
unfolding IsTracked
stored_self set d s states h = (s, (found-stored d s states, h))

noted-states :
    (status : ℤ) (s : SnapshotState) (d : ℕ) (t : Tables)
    → (noted status s d t).states ≡ stored d s t.states
unfolding noted
noted-states status SnapshotState.pending d t = refl
noted-states status SnapshotState.wait_event d t = refl
noted-states status SnapshotState.wait_delay d t = refl
noted-states status SnapshotState.collecting d t = refl
noted-states status SnapshotState.ready d t = refl
noted-states status SnapshotState.error d t = refl

pub noted-IsTracked :
    (set : Bool) (status : ℤ) (s : SnapshotState) (d e : ℕ) (t : Tables)
    → (not set || is_terminal s) ≡ true
    → IsTracked set t.states e
    → IsTracked set (noted status s d t).states e
noted-IsTracked set status s d e t h k =
    subst (λ x. IsTracked set x e) (sym (noted-states status s d t))
      (stored-IsTracked set d e s t.states h k)

pub noted_self :
    (set : Bool) (status : ℤ) (s : SnapshotState) (d : ℕ) (t : Tables)
    → (not set || is_terminal s) ≡ true
    → IsTracked set (noted status s d t).states d
noted_self set status s d t h =
    subst (λ x. IsTracked set x d) (sym (noted-states status s d t))
      (stored_self set d s t.states h)

-- A result that is no error and satisfies a predicate.
abbrev pub Gives : {B : Type 0} → (B → Type 0) → Result B → Type 0
Gives {B} P r = (x : B) × ((r ≡ ok x) × P x)

pub bind-Gives :
    {B C : Type 0} (Q : C → Type 0) (r : Result B) (x : B) (f : B → Result C)
    → r ≡ ok x
    → Gives Q (f x)
    → Gives Q (r >>= f)
bind-Gives Q r x f e (y, (g, q)) = (y, (ap (λ z. z >>= f) e ∙ g, q))
