-- ===== src/Driver/Health.antt =====
-- The count of errors of a component: what raises it, what clears it, and when the component is
-- retired.
use lo_ra_home.Prelude.{
  ℕ, ◌≤◌, ◌<◌, ◌≡◌, ◌⊎◌, inl, inr, refl, arith, false, ltb, if◌then◌else◌, Option-cases,
}
use lo_ra_home.Driver.{
  DrvErr, drv_ok, err_timeout, err_not_ready, DrvState, empty, warmup, idle, reading, ready,
  sleeping, retired, Reading, Vtable, Ctx, is_error, is_not_ready, is_retired, op_timeout_ms, fail,
  elapsed_ms, bind, initialised,
}
use lo_ra_home.Driver.Calls.{
  started, dispatch_read, start_from, start_read, collected, polled, poll, slept, sleep,
  clear_fault,
}

-- A component is retired at three errors, and not before.
abbrev pub Books : DrvState → ℕ → Type 0
Books retired n = n ≡ 3
Books empty n = n < 3
Books warmup n = n < 3
Books idle n = n < 3
Books reading n = n < 3
Books ready n = n < 3
Books sleeping n = n < 3

-- A reading came out, and the count is cleared; or the count is not lower.
abbrev pub Counted : ℕ → DrvState → ℕ → DrvErr → Type 0
Counted before state after err = (after ≡ 0) × (state ≡ ready) × (err ≡ drv_ok) ⊎ (before ≤ after)

-- An answer that is not counted leaves the count as it was.
abbrev pub Patient : ℕ → ℕ → DrvErr → Type 0
Patient before after err_not_ready = after ≡ before
Patient before after _ = Unit {0}

module _ {W S : Type 0} where
  -- What a call does to the count.
  pub record Sound (c : Ctx W S) (after : Ctx W S) (err : DrvErr) : Type 0 where
    pub books : Books after.state after.consecutive_errors
    pub counted : Counted c.consecutive_errors after.state after.consecutive_errors err
    pub patient : Patient c.consecutive_errors after.consecutive_errors err
    pub same_vt : after.vt ≡ c.vt

  fail-Sound :
      (c : Ctx W S) (err : DrvErr)
      → Books c.state c.consecutive_errors
      → is_retired c.state ≡ false
      → Sound c (fail c err) err
  unfolding fail is_error
  fail-Sound c err h live = ground arith

  still-Sound : (c : Ctx W S) (err : DrvErr) → Books c.state c.consecutive_errors → Sound c c err
  still-Sound c err h = ground arith

  started-Sound :
      (c : Ctx W S) (w : W) (s : S) (err : DrvErr)
      → Books c.state c.consecutive_errors
      → is_retired c.state ≡ false
      → Sound c (started c (w, s, err)).1 (started c (w, s, err)).2
  unfolding started
  started-Sound c w s err h live = ground (arith, fail-Sound (record c { scratch = s }) err h live)

  dispatch_read-Sound :
      (v : Vtable W S) (w : W) (c : Ctx W S) (now_us : ℕ)
      → Books c.state c.consecutive_errors
      → is_retired c.state ≡ false
      → Sound c (dispatch_read v w c now_us).1 (dispatch_read v w c now_us).2
  unfolding dispatch_read
  dispatch_read-Sound v w c now_us h live = elim (Option-cases v.start_read) [
    | inl e ↦ ground (arith, e)
    | inr (f, e) ↦
        (let (w', s, err) = f w c.bus_addr c.scratch in
          ground (arith, e, started-Sound (record c { op_started_us = now_us }) w' s err h live))
  ]

  start_from-Sound :
      (st : DrvState) (v : Vtable W S) (w : W) (c : Ctx W S) (now_us : ℕ)
      → c.state ≡ st
      → Books c.state c.consecutive_errors
      → Sound c (start_from st v w c now_us).1 (start_from st v w c now_us).2
  unfolding start_from
  start_from-Sound empty v w c now_us e h = ground (arith, e)
  start_from-Sound warmup v w c now_us e h =
      ground (arith, e, dispatch_read-Sound v w (record c { state = idle }) now_us)
  start_from-Sound idle v w c now_us e h = ground (arith, e, dispatch_read-Sound v w c now_us)
  start_from-Sound reading v w c now_us e h = ground (arith, e)
  start_from-Sound ready v w c now_us e h = ground (arith, e, dispatch_read-Sound v w c now_us)
  start_from-Sound sleeping v w c now_us e h =
      ground (
        arith,
        e,
        dispatch_read-Sound v w (record c { state = idle; op_started_us = now_us }) now_us,
      )
  start_from-Sound retired v w c now_us e h = ground (arith, e)

  pub start_read-Sound :
      (w : W) (c : Ctx W S) (now_us : ℕ)
      → Books c.state c.consecutive_errors
      → Sound c (start_read w c now_us).1 (start_read w c now_us).2
  unfolding start_read
  start_read-Sound w c now_us h = elim (Option-cases c.vt) [
    | inl e ↦ ground (arith, e)
    | inr (v, e) ↦ ground (arith, e, start_from-Sound c.state v w c now_us refl h)
  ]

  collected-Sound :
      (c : Ctx W S) (channel : ℕ) (w : W) (out : Reading) (err : DrvErr)
      → Books c.state c.consecutive_errors
      → is_retired c.state ≡ false
      → Sound c (collected c channel w out err).1 (collected c channel w out err).2
  unfolding collected
  collected-Sound c channel w out err h live = ground (arith, fail-Sound c err h live)

  polled-Sound :
      (v : Vtable W S) (c : Ctx W S) (channel now_us : ℕ) (a : W × S × DrvErr × Reading)
      → Books c.state c.consecutive_errors
      → is_retired c.state ≡ false
      → Sound c (polled v c channel now_us a).1 (polled v c channel now_us a).2
  unfolding polled
  polled-Sound v c channel now_us (w, s, err, out) h live =
      let late = ltb (op_timeout_ms v) (elapsed_ms c now_us) in
      let verdict =
        if is_not_ready err then (if late then err_timeout else err_not_ready) else err in
      let one = collected-Sound (record c { scratch = s }) channel w out verdict h live in
      record {
        books = one.books;
        counted = one.counted;
        patient = one.patient;
        same_vt = one.same_vt;
      }

  pub poll-Sound :
      (w : W) (c : Ctx W S) (out : Reading) (channel now_us : ℕ)
      → Books c.state c.consecutive_errors
      → Sound c (poll w c out channel now_us).1 (poll w c out channel now_us).2
  unfolding poll
  poll-Sound w c out channel now_us h = elim (Option-cases c.vt) [
    | inl e ↦ ground (arith, e)
    | inr (v, e) ↦
        ground
          (arith, e, polled-Sound v c channel now_us (v.poll w c.bus_addr c.scratch out channel) h)
  ]

  slept-Sound :
      (c : Ctx W S) (a : W × S × DrvErr)
      → Books c.state c.consecutive_errors
      → is_retired c.state ≡ false
      → Sound c (slept c a).1 (slept c a).2
  unfolding slept
  slept-Sound c (w, s, err) h live =
      ground (arith, fail-Sound (record c { scratch = s }) err h live)

  pub sleep-Sound :
      (w : W) (c : Ctx W S)
      → Books c.state c.consecutive_errors
      → Sound c (sleep w c).1 (sleep w c).2
  unfolding sleep
  sleep-Sound w c h = elim (Option-cases c.vt) [
    | inl e ↦ ground (arith, e)
    | inr (v, e) ↦ elim (Option-cases v.sleep) [
      | inl d ↦ ground (arith, e, d)
      | inr (f, d) ↦ ground (arith, e, d, slept-Sound c (f w c.bus_addr c.scratch) h)
    ]
  ]

  pub clear_fault-Books :
      (c : Ctx W S) (now_us : ℕ)
      → Books c.state c.consecutive_errors
      → Books (clear_fault c now_us).state (clear_fault c now_us).consecutive_errors
  unfolding clear_fault
  clear_fault-Books c now_us h = elim (Option-cases c.vt) [
    | inl e ↦ ground (arith, e)
    | inr (v, e) ↦ ground (arith, e)
  ]

  pub bind-Books :
      (w : W) (c : Ctx W S) (v : Vtable W S) (bus_addr component_id now_us : ℕ)
      → 0 < v.channel_count
      → Books
          (bind w c v bus_addr component_id now_us).1.state
          (bind w c v bus_addr component_id now_us).1.consecutive_errors
  unfolding bind initialised
  bind-Books w c v bus_addr component_id now_us h = elim (Option-cases v.init) [
    | inl e ↦ ground (arith, e)
    | inr (f, e) ↦ (let (w', s, err) = f w bus_addr v.blank in ground (arith, e))
  ]
