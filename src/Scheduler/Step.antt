-- ===== src/Scheduler/Step.antt =====
-- `step_component` of scheduler.c: one call of the driver for one component.
use lo_ra_home.Prelude.{
  ℕ, ◌+◌, ◌*◌, [], Bool, true, false, none, some, u8, inc32, ltb, if◌then◌else◌, get_or, set,
  bit_or, ◌<<<◌,
}
use lo_ra_home.Driver.{
  DrvErr, DrvState, empty, warmup, idle, reading, ready, sleeping, retired, Reading, no_reading,
  Vtable, Ctx, is_error, is_not_ready, is_faulted,
}
use lo_ra_home.Driver.Calls.{start_read, poll}
use lo_ra_home.Scheduler.{Sched, max_channels, vacant}

module _ {W S : Type 0} where
  -- The counters and the next attempt behind an error of the driver.
  unfoldable pub failed_step : Sched W S → ℕ → Vtable W S → Ctx W S → ℕ → Sched W S
  failed_step s slot v c now_us = record s {
    stat_errors = inc32 s.stat_errors;
    stat_faulted = if is_faulted c then inc32 s.stat_faulted else s.stat_faulted;
    next_due_us = set s.next_due_us slot (now_us + v.min_interval_ms * 1000);
  }

  -- The first case: what `lh_driver_start_read` answered.
  unfoldable pub start_step :
      Sched W S → ℕ → Vtable W S → ℕ → W × Ctx W S × DrvErr → W × Sched W S × Bool
  unfolding failed_step
  start_step s slot v now_us (w, c, err) =
      let s1 = record s { components = set s.components slot c } in
      if is_not_ready err
      then (w, s1, true)
      else if is_error err
      then (w, failed_step s1 slot v c now_us, true)
      else (w, record s1 { channel_cursor = set s.channel_cursor slot 0 }, true)

  -- A reading is kept, and the cursor moves on.
  unfoldable pub keep_reading : Sched W S → ℕ → Vtable W S → ℕ → ℕ → Reading → Sched W S
  keep_reading s slot v now_us channel out =
      let next = u8 (channel + 1) in
      let s1 =
        if ltb channel max_channels
        then record s {
          latest = set s.latest slot (set (get_or s.latest slot []) channel out);
          latest_valid =
              set s.latest_valid slot (bit_or (get_or s.latest_valid slot 0) (u8 (1 <<< channel)));
        }
        else s in
      let s2 = record s1 { stat_readings = inc32 s.stat_readings } in
      if ltb next v.channel_count
      then record s2 { channel_cursor = set s.channel_cursor slot next }
      else record s2 {
        channel_cursor = set s.channel_cursor slot 0;
        next_due_us = set s.next_due_us slot (now_us + v.min_interval_ms * 1000);
      }

  -- The second case: what `lh_driver_poll` answered.
  unfoldable pub poll_step :
      Sched W S → ℕ → Vtable W S → ℕ → ℕ → W × Ctx W S × DrvErr × Reading → W × Sched W S × Bool
  unfolding failed_step keep_reading
  poll_step s slot v now_us channel (w, c, err, out) =
      let s1 = record s { components = set s.components slot c } in
      let failed = failed_step s1 slot v c now_us in
      if is_not_ready err
      then (w, s1, true)
      else if is_error err
      then (w, record failed { channel_cursor = set s.channel_cursor slot 0 }, true)
      else (w, keep_reading s1 slot v now_us channel out, true)

  -- The `switch`
  unfoldable pub step_from :
      DrvState → W → Sched W S → ℕ → Ctx W S → Vtable W S → ℕ → W × Sched W S × Bool
  unfolding start_step poll_step
  step_from warmup w s slot c v now_us = start_step s slot v now_us (start_read w c now_us)
  step_from idle w s slot c v now_us = start_step s slot v now_us (start_read w c now_us)
  step_from sleeping w s slot c v now_us = start_step s slot v now_us (start_read w c now_us)
  step_from reading w s slot c v now_us =
      let channel = get_or s.channel_cursor slot 0 in
      poll_step s slot v now_us channel (poll w c no_reading channel now_us)
  step_from ready w s slot c v now_us =
      let channel = get_or s.channel_cursor slot 0 in
      poll_step s slot v now_us channel (poll w c no_reading channel now_us)
  step_from empty w s slot c v now_us = (w, s, false)
  step_from retired w s slot c v now_us = (w, s, false)

  -- `step_component`
  unfoldable pub step_component : S → W → Sched W S → ℕ → ℕ → W × Sched W S × Bool
  unfolding step_from
  step_component blank w s slot now_us =
      let c = get_or s.components slot (vacant blank) in
      elim c.vt [
        | none ↦ (w, s, false)
        | some v ↦
            if is_faulted c
            then (w, s, false)
            else if ltb now_us (get_or s.next_due_us slot 0)
            then (w, s, false)
            else step_from c.state w s slot c v now_us
      ]
