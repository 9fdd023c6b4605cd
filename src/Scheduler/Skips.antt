-- ===== src/Scheduler/Skips.antt =====
-- What a step of one component leaves alone.
use lo_ra_home.Prelude.{
  ℕ, ◌+◌, ◌*◌, ◌^◌, ◌≡◌, ◌≢◌, inl, inr, arith, [], u8, get_or, set, bit_or, get_or-set_ne,
  Option-cases,
}
use lo_ra_home.Driver.{
  DrvErr, DrvState, empty, warmup, idle, reading, ready, sleeping, retired, Reading, no_reading,
  Vtable, Ctx,
}
use lo_ra_home.Driver.Calls.{start_read, poll}
use lo_ra_home.Scheduler.{Sched, vacant}
use lo_ra_home.Scheduler.Step.{
  failed_step, start_step, keep_reading, poll_step, step_from, step_component,
}

module _ {W S : Type 0} where
  -- The entries of slot `j` and the number of components are the same.
  pub record Kept (blank : S) (j : ℕ) (s t : Sched W S) : Type 0 where
    pub same_component : get_or t.components j (vacant blank) ≡ get_or s.components j (vacant blank)
    pub same_due : get_or t.next_due_us j 0 ≡ get_or s.next_due_us j 0
    pub same_latest : get_or t.latest j [] ≡ get_or s.latest j []
    pub same_valid : get_or t.latest_valid j 0 ≡ get_or s.latest_valid j 0
    pub same_cursor : get_or t.channel_cursor j 0 ≡ get_or s.channel_cursor j 0
    pub same_count : t.component_count ≡ s.component_count
    pub same_rotation : t.rotation ≡ s.rotation

  start_step-Kept :
      (blank : S) (j slot : ℕ) (s : Sched W S) (v : Vtable W S) (now_us : ℕ)
      (a : W × Ctx W S × DrvErr)
      → slot ≢ j
      → Kept blank j s (start_step s slot v now_us a).1
  unfolding start_step failed_step
  start_step-Kept blank j slot s v now_us (w, c, err) ne = ground (
    arith,
    get_or-set_ne s.components slot j c (vacant blank) ne,
    get_or-set_ne s.next_due_us slot j (now_us + v.min_interval_ms * 1000) 0 ne,
    get_or-set_ne s.channel_cursor slot j 0 0 ne,
  )

  keep_reading-Kept :
      (blank : S) (j slot : ℕ) (s : Sched W S) (v : Vtable W S) (now_us channel : ℕ) (out : Reading)
      → slot ≢ j
      → Kept blank j s (keep_reading s slot v now_us channel out)
  unfolding keep_reading
  keep_reading-Kept blank j slot s v now_us channel out ne = ground (
    arith,
    get_or-set_ne s.next_due_us slot j (now_us + v.min_interval_ms * 1000) 0 ne,
    get_or-set_ne s.channel_cursor slot j 0 0 ne,
    get_or-set_ne s.channel_cursor slot j (u8 (channel + 1)) 0 ne,
    get_or-set_ne s.latest slot j (set (get_or s.latest slot []) channel out) [] ne,
    get_or-set_ne s.latest_valid slot j
        (bit_or (get_or s.latest_valid slot 0) (u8 (1 * 2 ^ channel))) 0 ne,
  )

  poll_step-Kept :
      (blank : S) (j slot : ℕ) (s : Sched W S) (v : Vtable W S) (now_us channel : ℕ)
      (a : W × Ctx W S × DrvErr × Reading)
      → slot ≢ j
      → Kept blank j s (poll_step s slot v now_us channel a).1
  unfolding poll_step failed_step
  poll_step-Kept blank j slot s v now_us channel (w, c, err, out) ne = ground (
    arith,
    get_or-set_ne s.components slot j c (vacant blank) ne,
    get_or-set_ne s.next_due_us slot j (now_us + v.min_interval_ms * 1000) 0 ne,
    get_or-set_ne s.channel_cursor slot j 0 0 ne,
    keep_reading-Kept blank j slot (record s { components = set s.components slot c }) v now_us
        channel out ne,
  )

  step_from-Kept :
      (st : DrvState) (blank : S) (j : ℕ) (w : W) (s : Sched W S) (slot : ℕ) (c : Ctx W S)
      (v : Vtable W S) (now_us : ℕ)
      → slot ≢ j
      → Kept blank j s (step_from st w s slot c v now_us).1
  unfolding step_from
  step_from-Kept empty blank j w s slot c v now_us ne = ground arith
  step_from-Kept retired blank j w s slot c v now_us ne = ground arith
  step_from-Kept warmup blank j w s slot c v now_us ne =
      start_step-Kept blank j slot s v now_us (start_read w c now_us) ne
  step_from-Kept idle blank j w s slot c v now_us ne =
      start_step-Kept blank j slot s v now_us (start_read w c now_us) ne
  step_from-Kept sleeping blank j w s slot c v now_us ne =
      start_step-Kept blank j slot s v now_us (start_read w c now_us) ne
  step_from-Kept reading blank j w s slot c v now_us ne =
      let channel = get_or s.channel_cursor slot 0 in
      poll_step-Kept blank j slot s v now_us channel (poll w c no_reading channel now_us) ne
  step_from-Kept ready blank j w s slot c v now_us ne =
      let channel = get_or s.channel_cursor slot 0 in
      poll_step-Kept blank j slot s v now_us channel (poll w c no_reading channel now_us) ne

  -- A step of one component leaves every other one as it was, with its readings and its due time.
  pub step_component-Kept :
      (blank : S) (j : ℕ) (w : W) (s : Sched W S) (slot now_us : ℕ)
      → slot ≢ j
      → Kept blank j s (step_component blank w s slot now_us).1
  unfolding step_component
  step_component-Kept blank j w s slot now_us ne =
      let c = get_or s.components slot (vacant blank) in
      elim (Option-cases c.vt) [
        | inl e ↦ ground (arith, e)
        | inr (v, e) ↦ ground (arith, e, step_from-Kept c.state blank j w s slot c v now_us ne)
      ]
