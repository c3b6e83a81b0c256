-- ===== src/Ftp/Parse/Setup.antt =====
-- The parsers of the setup replies and status updates of a snapshot of pacsys/acnet/ftp.py.
use pacsys.Prelude.{
  ℕ, zero, suc, ◌+◌, List, [], ◌∷◌, ltb, if◌then◌else◌, Result, ok, err, ◌>>=◌, length, drop, take,
  replicate, value_error,
}
use pacsys.Prelude.Int.{ℤ}
use pacsys.Ftp.Wire.{i16_at, is_negative, u16_at, u32_at}
use pacsys.Ftp.Parse.{unless_negative}

-- `SnapshotSetupReply`, with the error, the reference point and the arm time of each device.
pub record SetupReply : Type 0 where
  pub arm_trigger_word : ℕ
  pub sample_rate_hz : ℕ
  pub arm_delay : ℕ
  pub arm_events : List ℕ
  pub num_points : ℕ
  pub per_device : List (ℤ × (ℕ × (ℕ × ℕ)))

unfoldable setup_device_at : List ℕ → ℕ → Result (ℤ × (ℕ × (ℕ × ℕ)))
unfolding i16_at u32_at
setup_device_at b i = i16_at b i >>= λ e. u32_at b (i + 2) >>= λ r.
    u32_at b (i + 6) >>= λ s. u32_at b (i + 10) >>= λ n. ok (e, (r, (s, n)))

unfoldable setup_device_loop : List ℕ → ℕ → ℕ → Result (List (ℤ × (ℕ × (ℕ × ℕ))))
unfolding setup_device_at
setup_device_loop b zero offset = ok []
setup_device_loop b (suc n) offset =
    let rest = setup_device_loop b n (offset + 18) in
    if ltb (length b) (offset + 18)
    then ok []
    else setup_device_at b offset >>= λ d. rest >>= λ ds. ok (d ∷ ds)

unfoldable setup_fields : List ℕ → ℕ → Result SetupReply
unfolding u16_at u32_at setup_device_loop
setup_fields b n =
    if ltb (length b) 24
    then err value_error
    else u16_at b 2 >>= λ w. u32_at b 4 >>= λ r. u32_at b 8 >>= λ d. u32_at b 20 >>= λ p.
        setup_device_loop b n 24 >>= λ ds. ok (record {
          arm_trigger_word = w;
          sample_rate_hz = r;
          arm_delay = d;
          arm_events = take 8 (drop 12 b);
          num_points = p;
          per_device = ds;
        })

-- `parse_snapshot_setup_reply`.
unfoldable parse_snapshot_setup_reply : List ℕ → ℕ → Result SetupReply
unfolding i16_at unless_negative setup_fields
parse_snapshot_setup_reply b n =
    if ltb (length b) 2
    then err value_error
    else i16_at b 0 >>= λ s. unless_negative s (setup_fields b n)

unfoldable pub update_loop : List ℕ → ℕ → ℕ → Result (List ℤ)
unfolding i16_at
update_loop b zero offset = ok []
update_loop b (suc n) offset =
    let rest = update_loop b n (offset + 18) in
    if ltb (length b) (offset + 2)
    then ok []
    else i16_at b offset >>= λ s. rest >>= λ ss. ok (s ∷ ss)

unfoldable pub update_states : List ℕ → ℕ → ℤ → Result (List ℤ)
unfolding update_loop
update_states b n overall =
    if is_negative overall then ok (replicate n overall) else update_loop b n 24

-- `_parse_status_update_states`.
unfoldable pub parse_status_update_states : List ℕ → ℕ → Result (List ℤ)
unfolding i16_at update_states
parse_status_update_states b n =
    if ltb (length b) 24 then ok [] else i16_at b 0 >>= λ s. update_states b n s
