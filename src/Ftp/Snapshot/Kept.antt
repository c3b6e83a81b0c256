-- ===== src/Ftp/Snapshot/Kept.antt =====
-- The operations of a snapshot keep its devices tracked.
use pacsys.Prelude.{
  ℕ, ◌≡◌, refl, sym, Bool, true, false, not, ◌||◌, List, [], ◌∷◌, arith, if◌then◌else◌, ok, subst,
  All,
}
use pacsys.Prelude.Int.{ℤ}
use pacsys.Ftp.Tables.{stored, found}
use pacsys.Ftp.Snapshot.{
  SnapshotState, Tables, all_terminal, fail_devices, fail_unless_ready, ftp_status_to_state,
  is_terminal, move_devices, moved, noted, reset_devices, start_tables,
}
use pacsys.Ftp.Snapshot.Tracked.{
  Gives, IsTracked, States, All-map, bind-Gives, noted-IsTracked, noted_self, stored-IsTracked,
  stored_self,
}

abbrev pub AllTracked : Bool → List ℕ → Tables → Type 0
AllTracked set ds t = All (IsTracked set t.states) ds

fail_unless_ready-IsTracked :
    (status : ℤ) (d e : ℕ) (t : Tables) (s : SnapshotState) (set : Bool)
    → IsTracked set t.states e
    → IsTracked set (fail_unless_ready status d t s).states e
unfolding fail_unless_ready
fail_unless_ready-IsTracked status d e t SnapshotState.ready set h = h
fail_unless_ready-IsTracked status d e t SnapshotState.pending set h =
    noted-IsTracked set status SnapshotState.error d e t (ground arith) h
fail_unless_ready-IsTracked status d e t SnapshotState.wait_event set h =
    noted-IsTracked set status SnapshotState.error d e t (ground arith) h
fail_unless_ready-IsTracked status d e t SnapshotState.wait_delay set h =
    noted-IsTracked set status SnapshotState.error d e t (ground arith) h
fail_unless_ready-IsTracked status d e t SnapshotState.collecting set h =
    noted-IsTracked set status SnapshotState.error d e t (ground arith) h
fail_unless_ready-IsTracked status d e t SnapshotState.error set h =
    noted-IsTracked set status SnapshotState.error d e t (ground arith) h

fail_unless_ready_self :
    (status : ℤ) (d : ℕ) (t : Tables) (s : SnapshotState)
    → found d t.states ≡ ok s
    → IsTracked true (fail_unless_ready status d t s).states d
unfolding fail_unless_ready IsTracked
fail_unless_ready_self status d t SnapshotState.ready h = (SnapshotState.ready, (h, refl))
fail_unless_ready_self status d t SnapshotState.pending h =
    noted_self true status SnapshotState.error d t refl
fail_unless_ready_self status d t SnapshotState.wait_event h =
    noted_self true status SnapshotState.error d t refl
fail_unless_ready_self status d t SnapshotState.wait_delay h =
    noted_self true status SnapshotState.error d t refl
fail_unless_ready_self status d t SnapshotState.collecting h =
    noted_self true status SnapshotState.error d t refl
fail_unless_ready_self status d t SnapshotState.error h =
    noted_self true status SnapshotState.error d t refl

-- An error reply leaves every device in a terminal state.
pub fail_devices-AllTracked :
    (status : ℤ) (ds es : List ℕ) (t : Tables)
    → AllTracked false ds t
    → AllTracked true es t
    → Gives (λ x. AllTracked true ds x × AllTracked true es x) (fail_devices status ds t)
unfolding fail_devices IsTracked
fail_devices-AllTracked status [] es t h k = (t, (refl, (tt, k)))
fail_devices-AllTracked status (d ∷ ds) es t ((s, (f, g)), h) k =
    let u = fail_unless_ready status d t s in
    let (x, (e, (all_ds, (this, all_es)))) =
      fail_devices-AllTracked status ds (d ∷ es) u
        (All-map ds h (λ e. fail_unless_ready-IsTracked status d e t s false))
        (
          fail_unless_ready_self status d t s f,
          All-map es k (λ e. fail_unless_ready-IsTracked status d e t s true),
        ) in
    bind-Gives _ (found d t.states) s
      (λ old. fail_devices status ds (fail_unless_ready status d t old)) f
      (x, (e, ((this, all_ds), all_es)))

moved-IsTracked :
    (set : Bool) (status : ℤ) (d e : ℕ) (t : Tables) (s : SnapshotState)
    → (not set || is_terminal s) ≡ true
    → IsTracked set t.states e
    → IsTracked set (moved status d t s).states e
unfolding moved
moved-IsTracked true status d e t s h k =
    subst
      (λ b.
        IsTracked true (if b then t else noted status (ftp_status_to_state status false) d t).states
          e)
      (sym h) k
moved-IsTracked false status d e t s h k = go (is_terminal s)
  where
    go :
        (b : Bool)
        → IsTracked false
            (if b then t else noted status (ftp_status_to_state status false) d t).states
            e
    go true = k
    go false = noted-IsTracked false status (ftp_status_to_state status false) d e t refl k

-- A status update keeps what is tracked, and never takes a device out of a terminal state.
pub move_devices-AllTracked :
    (set : Bool) (ds : List ℕ) (ss : List ℤ) (es : List ℕ) (t : Tables)
    → AllTracked set ds t
    → AllTracked set es t
    → Gives (λ x. AllTracked set es x) (move_devices ds ss t)
unfolding move_devices IsTracked
move_devices-AllTracked set [] ss es t h k = (t, (refl, k))
move_devices-AllTracked set (d ∷ ds) [] es t h k = (t, (refl, k))
move_devices-AllTracked set (d ∷ ds) (s ∷ ss) es t ((old, (f, g)), h) k =
    bind-Gives _ (found d t.states) old (λ o. move_devices ds ss (moved s d t o)) f
      (move_devices-AllTracked set ds ss es (moved s d t old)
        (All-map ds h (λ e. moved-IsTracked set s d e t old g))
        (All-map es k (λ e. moved-IsTracked set s d e t old g)))

pub found-terminal :
    (d : ℕ) (s : SnapshotState) (states : States)
    → all_terminal states ≡ true
    → found d states ≡ ok s
    → is_terminal s ≡ true
unfolding all_terminal found
found-terminal d s [] a f = cc
found-terminal d s ((k, v) ∷ states) a f = ground (arith, found-terminal d s states)

-- Where every state is a terminal one, so is that of each device.
pub all_terminal-IsTracked :
    (states : States) (e : ℕ)
    → all_terminal states ≡ true
    → IsTracked false states e
    → IsTracked true states e
unfolding IsTracked
all_terminal-IsTracked states e a (s, (f, g)) = (s, (f, found-terminal e s states a f))

-- A restart gives every device a state again.
pub reset_devices-AllTracked :
    (ds es : List ℕ) (t : Tables) → AllTracked false es t → AllTracked false es (reset_devices ds t)
unfolding reset_devices
reset_devices-AllTracked [] es t k = k
reset_devices-AllTracked (d ∷ ds) es t k =
    reset_devices-AllTracked ds es _
      (All-map es k (λ e. stored-IsTracked false d e SnapshotState.pending t.states refl))

-- The setup reply gives every device a state.
pub start_tables-AllTracked :
    (ds : List ℕ) (ss : List ℤ) (es : List ℕ) (t : Tables)
    → AllTracked false es t
    → AllTracked false ds (start_tables ds ss t) × AllTracked false es (start_tables ds ss t)
unfolding start_tables
start_tables-AllTracked [] ss es t k = (tt, k)
start_tables-AllTracked (d ∷ ds) [] es t k =
    let (a, (b, c)) =
      start_tables-AllTracked ds [] (d ∷ es)
        (record t { states = stored d SnapshotState.pending t.states })
        (
          stored_self false d SnapshotState.pending t.states refl,
          All-map es k (λ e. stored-IsTracked false d e SnapshotState.pending t.states refl),
        ) in
    ((b, a), c)
start_tables-AllTracked (d ∷ ds) (s ∷ ss) es t k =
    let (a, (b, c)) =
      start_tables-AllTracked ds ss (d ∷ es) (noted s (ftp_status_to_state s true) d t) (
        noted_self false s (ftp_status_to_state s true) d t refl,
        All-map es k (λ e. noted-IsTracked false s (ftp_status_to_state s true) d e t refl),
      ) in
    ((b, a), c)
