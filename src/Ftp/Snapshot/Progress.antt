-- ===== src/Ftp/Snapshot/Progress.antt =====
-- The state of a snapshot as a whole.
use pacsys.Prelude.{
  subst, ℕ, ◌≤◌, ◌≡◌, refl, sym, ap, ◌∙◌, Bool, true, false, not, ◌||◌, [], ◌∷◌, arith, leb,
  if◌then◌else◌, any,
}
use pacsys.Ftp.Snapshot.{
  SnapshotState, aggregate, is_error, is_ready_state, least, least_progressed, lesser, rank,
}
use pacsys.Ftp.Snapshot.Tracked.{States}

abbrev lower : ℕ → ℕ → ℕ
lower m n = if leb m n then m else n

-- The least number of a state, that of `READY` where there is none.
unfoldable pub least_rank : States → ℕ
least_rank [] = 5
least_rank ((di, s) ∷ rest) = lower (rank s) (least_rank rest)

unfoldable pub has_error : States → Bool
has_error states = any (λ (di, s). is_error s) states

unfoldable has_unready : States → Bool
has_unready states = any (λ (di, s). not (is_ready_state s)) states

abbrev pub rank_or_error : States → ℕ
rank_or_error states = if has_error states then 6 else least_rank states

lower_assoc : (a b c : ℕ) → lower (lower a b) c ≡ lower a (lower b c)
lower_assoc a b c = ground arith

lower_bound : (a b n : ℕ) → b ≤ n → lower a b ≤ n
lower_bound a b n h = ground arith

lower_left : (a b n : ℕ) → a ≤ n → lower a b ≤ n
lower_left a b n h = ground arith

lower_same : (a b : ℕ) → b ≤ a → lower a b ≡ b
lower_same a b h = ground arith

lower_first : (a b : ℕ) → a ≤ b → lower a b ≡ a
lower_first a b h = ground arith

least_rank_bound : (states : States) → least_rank states ≤ 5
unfolding least_rank
least_rank_bound [] = omega arith
least_rank_bound ((di, s) ∷ rest) = lower_bound (rank s) (least_rank rest) 5 (least_rank_bound rest)

rank-lesser : (s t : SnapshotState) → rank (lesser s t) ≡ lower (rank s) (rank t)
rank-lesser s t = go (leb (rank s) (rank t))
  where
    go : (b : Bool) → rank (if b then s else t) ≡ (if b then rank s else rank t)
    go true = refl
    go false = refl

ready-rank : (t : SnapshotState) → is_ready_state t ≡ true → rank t ≡ 5
ready-rank SnapshotState.ready h = refl
ready-rank SnapshotState.error h = cc
ready-rank SnapshotState.pending h = cc
ready-rank SnapshotState.wait_event h = cc
ready-rank SnapshotState.wait_delay h = cc
ready-rank SnapshotState.collecting h = cc

rank_bound : (s : SnapshotState) → is_error s ≡ false → rank s ≤ 5
rank_bound SnapshotState.ready h = omega arith
rank_bound SnapshotState.error h = cc
rank_bound SnapshotState.pending h = omega arith
rank_bound SnapshotState.wait_event h = omega arith
rank_bound SnapshotState.wait_delay h = omega arith
rank_bound SnapshotState.collecting h = omega arith

ready_first : (t : SnapshotState) (n : ℕ) → is_ready_state t ≡ true → n ≤ 5 → lower (rank t) n ≡ n
ready_first t n e h = ap (λ m. lower m n) (ready-rank t e) ∙ lower_same 5 n h

least_step :
    (s t : SnapshotState) (rest : States) (b : Bool)
    → is_ready_state t ≡ b
    → rank (least s rest) ≡ lower (rank s) (least_rank rest)
    → rank (least (lesser s t) rest) ≡ lower (rank (lesser s t)) (least_rank rest)
    → rank (if b then least s rest else least (lesser s t) rest)
      ≡ lower (rank s) (lower (rank t) (least_rank rest))
least_step s t rest true e ih other =
    ih ∙ ap (lower (rank s)) (sym (ready_first t (least_rank rest) e (least_rank_bound rest)))
least_step s t rest false e ih other =
    other
    ∙ ap (λ n. lower n (least_rank rest)) (rank-lesser s t)
    ∙ lower_assoc (rank s) (rank t) (least_rank rest)

rank-least :
    (s : SnapshotState) (states : States)
    → rank s ≤ 5
    → rank (least s states) ≡ lower (rank s) (least_rank states)
unfolding least least_rank
rank-least s [] h = sym (lower_first (rank s) 5 h)
rank-least s ((di, t) ∷ rest) h =
    least_step s t rest (is_ready_state t) refl (rank-least s rest h) (
      rank-least (lesser s t) rest
        (subst (λ n. n ≤ 5) (sym (rank-lesser s t)) (lower_left (rank s) (rank t) 5 h)))

ready_step :
    (s : SnapshotState) (rest : States) (b : Bool)
    → is_ready_state s ≡ b
    → (not b || has_unready rest) ≡ false
    → (has_unready rest ≡ false → least_rank rest ≡ 5)
    → lower (rank s) (least_rank rest) ≡ 5
ready_step s rest true e k ih = ready_first s (least_rank rest) e (least_rank_bound rest) ∙ ih k
ready_step s rest false e k ih = cc

least_rank_of_ready : (states : States) → has_unready states ≡ false → least_rank states ≡ 5
unfolding least_rank has_unready
least_rank_of_ready [] h = refl
least_rank_of_ready ((di, s) ∷ rest) h =
    ready_step s rest (is_ready_state s) refl h (least_rank_of_ready rest)

progressed_step :
    (s : SnapshotState) (rest : States) (b : Bool)
    → is_ready_state s ≡ b
    → rank s ≤ 5
    → (not b || has_unready rest) ≡ true
    → (has_unready rest ≡ true → rank (least_progressed rest) ≡ least_rank rest)
    → rank (if b then least_progressed rest else least s rest) ≡ lower (rank s) (least_rank rest)
progressed_step s rest true e h k ih =
    ih k ∙ sym (ready_first s (least_rank rest) e (least_rank_bound rest))
progressed_step s rest false e h k ih = rank-least s rest h

no_error_first : (a b : Bool) → (a || b) ≡ false → (a ≡ false) × (b ≡ false)
no_error_first a b h = ground arith

rank-least_progressed :
    (states : States)
    → has_error states ≡ false
    → has_unready states ≡ true
    → rank (least_progressed states) ≡ least_rank states
unfolding least_progressed least_rank has_unready has_error
rank-least_progressed [] h k = cc
rank-least_progressed ((di, s) ∷ rest) h k =
    let (this, later) = no_error_first (is_error s) (has_error rest) h in
    progressed_step s rest (is_ready_state s) refl (rank_bound s this) k
      (rank-least_progressed rest later)

aggregate_case :
    (states : States) (e u : Bool)
    → has_error states ≡ e
    → has_unready states ≡ u
    → rank (
        if e
        then SnapshotState.error
        else if not u
        then SnapshotState.ready
        else least_progressed states)
      ≡ (if e then 6 else least_rank states)
aggregate_case states true u f g = refl
aggregate_case states false true f g = rank-least_progressed states f g
aggregate_case states false false f g = sym (least_rank_of_ready states g)

-- The state of a snapshot is `ERROR` if that of a device is, and else the least progressed of the states of its
-- devices, `READY` where there are none.
pub rank-aggregate : (states : States) → rank (aggregate states) ≡ rank_or_error states
unfolding aggregate has_error has_unready
rank-aggregate states = aggregate_case states (has_error states) (has_unready states) refl refl
