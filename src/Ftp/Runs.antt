-- ===== src/Ftp/Runs.antt =====
-- Concrete runs, and the theorems at concrete inputs.
use pacsys.Prelude.{
  ℕ, ◌+◌, ◌*◌, ◌≡◌, refl, inl, inr, true, false, not, ◌||◌, List, [], ◌∷◌, ◌++◌, arith, ltb, ◌==◌,
  if◌then◌else◌, ok, err, length, replicate, acnet_error, value_error, struct_error,
  zero_division_error,
}
use pacsys.Prelude.Int.{pos, negsuc}
use pacsys.Ftp.Device.{Device}
use pacsys.Ftp.Wire.{is_negative, u16_bytes}
use pacsys.Ftp.Build.{
  build_arm_trigger_word, build_continuous_setup, build_retrieve_request, build_snapshot_control,
}
use pacsys.Ftp.Build.Sizes.{IsFit, size_of}
use pacsys.Ftp.Build.Continuous.{continuous_size}
use pacsys.Ftp.Parse.{
  parse_class_info_reply, parse_continuous_data_reply, parse_snapshot_data_reply,
}
use pacsys.Ftp.Parse.Replies.{
  count_of, parse_class_info_reply-count, parse_continuous_data_reply-IsOk, status_of,
}
use pacsys.Ftp.Parse.Reads.{IsOk}
use pacsys.Ftp.Parse.Points.{Sample, points_of, skipping_first}
use pacsys.Ftp.Parse.RoundTrip.{parse_snapshot_data_reply-snapshot_data_reply, snapshot_data_reply}
use pacsys.Ftp.Parse.Described.{
  Entry, collected, data_reply, parse_continuous_data_reply-data_reply,
}
use pacsys.Ftp.Snapshot.{
  all_terminal, Handle, SnapshotState, aggregate, monitor_step, new_handle, rank, wait,
}
use pacsys.Ftp.Snapshot.Actions.{Action, run}
use pacsys.Ftp.Snapshot.Outcome.{all_ready, run-monitor_step-IsOk, run-wait}
use pacsys.Ftp.Snapshot.Ended.{run-wait_of_IsStuck}
use pacsys.Ftp.Snapshot.Progress.{rank-aggregate, rank_or_error}

abbrev outtmp : Device
outtmp = record {
  di = 27235;
  pi = 12;
  ssdn = 0 ∷ 0 ∷ 66 ∷ 0 ∷ 33 ∷ 16 ∷ 2 ∷ 0 ∷ [];
  offset = 0;
  data_length = 2;
}

abbrev wide : Device
wide = record { di = 5; pi = 12; ssdn = replicate 8 0; offset = 4; data_length = 4 }

abbrev outtmp_fits : IsFit outtmp
outtmp_fits = record {
  di_lt = omega arith;
  pi_lt = omega arith;
  ssdn_size = refl;
  offset_lt = omega arith;
}

abbrev wide_fits : IsFit wide
wide_fits = record {
  di_lt = omega arith;
  pi_lt = omega arith;
  ssdn_size = refl;
  offset_lt = omega arith;
}

continuous_size_example :
    size_of (build_continuous_setup (outtmp ∷ wide ∷ []) 1440 3 0 2 99) ≡ ok 76
continuous_size_example =
    continuous_size outtmp (wide ∷ []) 3 0 2 99 (omega arith) (omega arith) (omega arith)
      (omega arith) (omega arith) (omega arith) 1440 (outtmp_fits, (wide_fits, tt)) (omega arith)

one_hertz : build_continuous_setup (outtmp ∷ []) 1 3 0 2 99 ≡ err struct_error
unfolding build_continuous_setup
one_hertz = refl

below_one_hertz : build_continuous_setup (outtmp ∷ []) 0 3 0 2 99 ≡ err zero_division_error
unfolding build_continuous_setup
below_one_hertz = refl

arm_word_post_trigger : build_arm_trigger_word 2 0 2 0 0 ≡ 0xC2
unfolding build_arm_trigger_word
arm_word_post_trigger = refl

retrieve_sequential :
    build_retrieve_request 1 512 (negsuc 0) 7
    ≡ ok (8 ∷ 0 ∷ 7 ∷ 0 ∷ 0 ∷ 0 ∷ 1 ∷ 0 ∷ 0 ∷ 2 ∷ 255 ∷ 255 ∷ 255 ∷ 255 ∷ [])
unfolding build_retrieve_request
retrieve_sequential = refl

control_restart : build_snapshot_control 1 7 ≡ ok (5 ∷ 0 ∷ 7 ∷ 0 ∷ 0 ∷ 0 ∷ 1 ∷ 0 ∷ [])
unfolding build_snapshot_control
control_restart = refl

abbrev class_reply : List ℕ
class_reply = 0 ∷ 0 ∷ 0 ∷ 0 ∷ 16 ∷ 0 ∷ 13 ∷ 0 ∷ 0 ∷ 0 ∷ []

parse_class_info_reply-count_example : count_of (parse_class_info_reply class_reply 2) ≡ (
    if ltb (length class_reply) 2
    then err value_error
    else if is_negative (status_of class_reply)
    then err acnet_error
    else if ltb (length class_reply) (2 + 6 * 2)
    then err value_error
    else ok 2)
parse_class_info_reply-count_example = parse_class_info_reply-count class_reply 2

abbrev short_reply : List ℕ
short_reply = 0 ∷ 0 ∷ 2 ∷ 0 ∷ 0 ∷ 0 ∷ 0 ∷ 0 ∷ 0 ∷ 0 ∷ 255 ∷ 255 ∷ 9 ∷ 0 ∷ []

parse_continuous_data_reply-IsOk_example :
    IsOk (parse_continuous_data_reply short_reply (outtmp ∷ wide ∷ []))
parse_continuous_data_reply-IsOk_example =
    parse_continuous_data_reply-IsOk short_reply (outtmp ∷ wide ∷ []) (inl refl, (inr refl, tt))

abbrev samples : List Sample
samples = (10, pos 300) ∷ (11, negsuc 0) ∷ []

abbrev entries : List Entry
entries =
    record { device = outtmp; status = pos 0; index = 20; number = 2; samples = samples; rest = [] }
    ∷ record { device = wide; status = negsuc 4336; index = 0; number = 0; samples = []; rest = [] }
    ∷ []

abbrev body : List ℕ
body = 10 ∷ 0 ∷ 44 ∷ 1 ∷ 11 ∷ 0 ∷ 255 ∷ 255 ∷ []

parse_continuous_data_reply-data_reply_example :
    parse_continuous_data_reply (data_reply (pos 0) 2 0 entries body) (outtmp ∷ wide ∷ [])
    ≡ ok (if is_negative (pos 0) || not (2 == 2) then [] else collected entries [])
unfolding data_reply pacsys.Ftp.Parse.Points.encode_samples
parse_continuous_data_reply-data_reply_example =
    parse_continuous_data_reply-data_reply (pos 0) 2 0 entries body (omega arith) (
      (
        omega arith,
        (omega arith, (refl, (inl refl, ((omega arith, (omega arith, tt)), inl refl)))),
      ),
      ((omega arith, tt), tt),
    )

collected_points : collected entries [] ≡ (27235, (1000, pos 300) ∷ (1100, negsuc 0) ∷ []) ∷ []
unfolding collected
collected_points = refl

-- A rejection: the status alone.
abbrev rejection : List ℕ
rejection = 15 ∷ 255 ∷ []

parse_snapshot_data_reply-snapshot_data_reply_example :
    (parse_snapshot_data_reply
        (snapshot_data_reply (pos 0) 512 true 2 samples (7 ∷ []))
        outtmp
        true
        true
      ≡ (if is_negative (pos 0)
          then err acnet_error
          else ok (skipping_first true (points_of true samples))))
    × (parse_snapshot_data_reply rejection outtmp true true ≡ ok [])
parse_snapshot_data_reply-snapshot_data_reply_example =
    parse_snapshot_data_reply-snapshot_data_reply (pos 0) 512 outtmp true true samples (7 ∷ [])
      rejection (omega arith) (inl refl) (omega arith, (omega arith, tt))
      (inr (omega arith, omega arith)) (omega arith)

-- A status update for one device: its status, or zero where the data are ready.
abbrev update : ℕ → List ℕ
update status = 0 ∷ 0 ∷ (replicate 22 0 ++ (u16_bytes status ++ replicate 16 0))

abbrev started : Handle
started = new_handle (27235 ∷ []) (pos 0 ∷ [])

abbrev capture : List Action
capture =
    Action.replying (pos 0, (update 1039, false))
    ∷ Action.monitoring_round
    ∷ Action.replying (pos 0, (update 0, true))
    ∷ Action.monitoring_round
    ∷ []

run-wait_example :
    let seen = run capture started in
    let h = run (Action.monitoring_round ∷ []) seen in
    (wait seen h ≡ (
      if seen.ready_event
      then if all_ready (27235 ∷ []) h.tables.states then ok true else err acnet_error
      else ok false))
    × ((not (all_terminal seen.tables.states) || seen.ready_event) ≡ true)
run-wait_example = run-wait 27235 [] (pos 0 ∷ []) capture (Action.monitoring_round ∷ []) refl

captured : wait (run capture started) (run capture started) ≡ ok true
unfolding wait run new_handle
captured = refl

-- After a restart between its test of the event and its lock, `wait` returns true for a device that is pending.
restarted_in_between :
    let seen = run capture started in wait seen (run (Action.restarting ∷ []) seen) ≡ ok true
unfolding wait run new_handle
restarted_in_between = refl

run-monitor_step-IsOk_example : IsOk (monitor_step (run capture started))
run-monitor_step-IsOk_example = run-monitor_step-IsOk (27235 ∷ []) (pos 0 ∷ []) capture

-- A restart after the last reply.
abbrev restarted : Handle
restarted = run (capture ++ Action.restarting ∷ []) started

restarted_IsStuck : (restarted.monitoring ≡ false) × (restarted.ready_event ≡ false)
unfolding run new_handle
restarted_IsStuck = (refl, refl)

run-wait_of_IsStuck_example :
    wait (run capture restarted) (run (Action.restarting ∷ []) (run capture restarted)) ≡ ok false
run-wait_of_IsStuck_example =
    run-wait_of_IsStuck restarted capture (Action.restarting ∷ []) restarted_IsStuck

-- An update of the previous cycle that the monitor meets only after a restart makes the snapshot ready.
stale_update :
    let h =
      run
        (Action.replying (pos 0, (update 0, false))
          ∷ Action.restarting
          ∷ Action.monitoring_round
          ∷ [])
        started in
    wait h h ≡ ok true
unfolding wait run new_handle
stale_update = refl

rank-aggregate_example :
    rank (aggregate ((1, SnapshotState.ready) ∷ (2, SnapshotState.collecting) ∷ []))
    ≡ rank_or_error ((1, SnapshotState.ready) ∷ (2, SnapshotState.collecting) ∷ [])
rank-aggregate_example =
    rank-aggregate ((1, SnapshotState.ready) ∷ (2, SnapshotState.collecting) ∷ [])
