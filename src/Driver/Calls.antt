-- ===== src/Driver/Calls.antt =====
-- The calls of driver.c on a component that is bound.
use lo_ra_home.Prelude.{ℕ, not, none, some, ltb, leb, if◌then◌else◌}
use lo_ra_home.Driver.{
  DrvErr, drv_ok, err_timeout, err_not_ready, err_state, err_no_channel, err_faulted, DrvState,
  empty, warmup, idle, reading, ready, sleeping, retired, Reading, Vtable, Ctx, is_ok, is_not_ready,
  is_retired, op_timeout_ms, fail, elapsed_ms, first_state,
}

module _ {W S : Type 0} where
  -- What `lh_driver_start_read` makes of the answer of `vt->start_read`.
  unfoldable pub started : Ctx W S → W × S × DrvErr → W × Ctx W S × DrvErr
  unfolding fail
  started c (w, s, err) =
      let c1 = record c { scratch = s } in
      if is_ok err then (w, record c1 { state = reading }, drv_ok) else (w, fail c1 err, err)

  -- `lh_driver_start_read` from `ctx->op_started_us = now_us` on.
  unfoldable pub dispatch_read : Vtable W S → W → Ctx W S → ℕ → W × Ctx W S × DrvErr
  unfolding started
  dispatch_read v w c now_us =
      let c1 = record c { op_started_us = now_us } in
      elim v.start_read [
        | none ↦ (w, record c1 { state = reading }, drv_ok)
        | some start ↦ started c1 (start w c.bus_addr c.scratch)
      ]

  -- The `switch` of `lh_driver_start_read`, with the test for a faulted component before it.
  unfoldable pub start_from : DrvState → Vtable W S → W → Ctx W S → ℕ → W × Ctx W S × DrvErr
  unfolding dispatch_read
  start_from retired v w c now_us = (w, c, err_faulted)
  start_from warmup v w c now_us =
      if ltb (elapsed_ms c now_us) v.warmup_ms
      then (w, c, err_not_ready)
      else dispatch_read v w (record c { state = idle }) now_us
  start_from sleeping v w c now_us =
      let c1 = record c { op_started_us = now_us } in
      if ltb 0 v.warmup_ms
      then (w, record c1 { state = warmup }, err_not_ready)
      else dispatch_read v w (record c1 { state = idle }) now_us
  start_from idle v w c now_us = dispatch_read v w c now_us
  start_from ready v w c now_us = dispatch_read v w c now_us
  start_from reading v w c now_us = (w, c, err_not_ready)
  start_from empty v w c now_us = (w, c, err_state)

  -- `lh_driver_start_read`
  unfoldable pub start_read : W → Ctx W S → ℕ → W × Ctx W S × DrvErr
  unfolding start_from
  start_read w c now_us = elim c.vt [
    | none ↦ (w, c, err_state)
    | some v ↦ start_from c.state v w c now_us
  ]

  -- `lh_driver_poll` behind the call of `vt->poll` and the test of the deadline.
  unfoldable pub collected : Ctx W S → ℕ → W → Reading → DrvErr → W × Ctx W S × DrvErr × Reading
  unfolding fail
  collected c channel w out err =
      let failed = fail c err in
      if is_not_ready err
      then (w, c, err_not_ready, out)
      else if is_ok err
      then (
        w,
        record c { state = ready; consecutive_errors = 0 },
        drv_ok,
        record out { channel = channel },
      )
      else (
        w,
        record failed { state = if is_retired failed.state then retired else idle },
        err,
        out,
      )

  -- What `lh_driver_poll` makes of the answer of `vt->poll`.
  unfoldable pub polled :
      Vtable W S → Ctx W S → ℕ → ℕ → W × S × DrvErr × Reading → W × Ctx W S × DrvErr × Reading
  unfolding collected op_timeout_ms
  polled v c channel now_us (w, s, err, out) =
      let late = ltb (op_timeout_ms v) (elapsed_ms c now_us) in
      let verdict =
        if is_not_ready err then (if late then err_timeout else err_not_ready) else err in
      collected (record c { scratch = s }) channel w out verdict

  -- `lh_driver_poll`; `out` is what the reading held before.
  unfoldable pub poll : W → Ctx W S → Reading → ℕ → ℕ → W × Ctx W S × DrvErr × Reading
  unfolding polled
  poll w c out channel now_us =
      let answer : Vtable W S → W × Ctx W S × DrvErr × Reading =
        λ v. polled v c channel now_us (v.poll w c.bus_addr c.scratch out channel) in
      elim c.vt [
        | none ↦ (w, c, err_state, out)
        | some v ↦
            if is_retired c.state
            then (w, c, err_faulted, out)
            else if leb v.channel_count channel
            then (w, c, err_no_channel, out)
            else elim c.state [ reading ↦ answer v | ready ↦ answer v | _ ↦ (w, c, err_state, out) ]
      ]

  -- What `lh_driver_sleep` makes of the answer of `vt->sleep`.
  unfoldable pub slept : Ctx W S → W × S × DrvErr → W × Ctx W S × DrvErr
  unfolding fail
  slept c (w, s, err) =
      let c1 = record c { scratch = s } in
      if is_ok err then (w, record c1 { state = sleeping }, drv_ok) else (w, fail c1 err, err)

  -- `lh_driver_sleep`
  unfoldable pub sleep : W → Ctx W S → W × Ctx W S × DrvErr
  unfolding slept
  sleep w c = elim c.vt [
    | none ↦ (w, c, err_state)
    | some v ↦ elim c.state [
      | retired ↦ (w, c, err_faulted)
      | empty ↦ (w, c, err_state)
      | _ ↦ elim v.sleep [
        | none ↦ (w, record c { state = sleeping }, drv_ok)
        | some go ↦ slept c (go w c.bus_addr c.scratch)
      ]
    ]
  ]

  -- `lh_driver_clear_fault`
  unfoldable pub clear_fault : Ctx W S → ℕ → Ctx W S
  clear_fault c now_us = elim c.vt [
    | none ↦ c
    | some v ↦
        if not (is_retired c.state)
        then c
        else record c { consecutive_errors = 0; op_started_us = now_us; state = first_state v }
  ]
