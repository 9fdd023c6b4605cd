-- ===== src/Scheduler/Valid.antt =====
-- The arrays of the scheduler behind a step.
use lo_ra_home.Prelude.{
  ℕ, ◌+◌, ◌*◌, ◌^◌, ◌≤◌, ◌<◌, ◌≡◌, inl, inr, arith, [], u8, subst, Option-cases, get_or, set,
  get_or_past, bit_or, Option-cases,
}
use native.Mathlib.Decide.{dec_lt}
use lo_ra_home.Driver.{
  Ctx, Vtable, DrvState, empty, warmup, idle, sleeping, retired, reading, ready, DrvErr, Reading,
  no_reading,
}
use lo_ra_home.Driver.Calls.{start_read, poll}
use lo_ra_home.Driver.Health.{Books, start_read-Sound, poll-Sound}
use lo_ra_home.Scheduler.{Sched, vacant}
use lo_ra_home.Scheduler.Step.{
  step_component, step_from, poll_step, start_step, failed_step, keep_reading,
}
use lo_ra_home.Scheduler.Ticks.{Steady}
use lo_ra_home.Scheduler.Bounds.{Fits, IsValid, put_component, put_cursor, put_due, put_latest}

module _ {W S : Type 0} where
  start_step-IsValid :
      (blank : S) (s : Sched W S) (slot : ℕ) (v : Vtable W S) (now_us : ℕ)
      (a : W × Ctx W S × DrvErr)
      → IsValid blank s
      → Books a.1.state a.1.consecutive_errors
      → a.1.vt ≡ (get_or s.components slot (vacant blank)).vt
      → IsValid blank (start_step s slot v now_us a).1
  unfolding start_step failed_step
  start_step-IsValid blank s slot v now_us (w, c, err) i books same =
      let s1 = record s { components = set s.components slot c } in
      let one = put_component blank s slot c i books same in
      ground (
        arith,
        one,
        put_cursor blank s1 slot 0 one (omega arith),
        put_due blank s1 slot (now_us + v.min_interval_ms * 1000) one,
      )

  keep_reading-IsValid :
      (blank : S) (s : Sched W S) (slot : ℕ) (v : Vtable W S) (now_us channel : ℕ) (out : Reading)
      → IsValid blank s
      → slot < 8
      → v.channel_count ≤ 4
      → IsValid blank (keep_reading s slot v now_us channel out)
  unfolding keep_reading
  keep_reading-IsValid blank s slot v now_us channel out i h few =
      let next = u8 (channel + 1) in
      let flags = bit_or (get_or s.latest_valid slot 0) (u8 (1 * 2 ^ channel)) in
      let s1 = record s {
        latest = set s.latest slot (set (get_or s.latest slot []) channel out);
        latest_valid = set s.latest_valid slot flags;
      } in
      let one = put_latest blank s slot channel flags out i h in
      let due = now_us + v.min_interval_ms * 1000 in
      ground (
        arith,
        λ (p : next < 4). put_cursor blank s slot next i p,
        λ (p : next < 4). put_cursor blank s1 slot next one p,
        put_due blank (record s { channel_cursor = set s.channel_cursor slot 0 }) slot due
            (put_cursor blank s slot 0 i (omega arith)),
        put_due blank (record s1 { channel_cursor = set s.channel_cursor slot 0 }) slot due
            (put_cursor blank s1 slot 0 one (omega arith)),
      )

  poll_step-IsValid :
      (blank : S) (s : Sched W S) (slot : ℕ) (v : Vtable W S) (now_us channel : ℕ)
      (a : W × Ctx W S × DrvErr × Reading)
      → IsValid blank s
      → slot < 8
      → v.channel_count ≤ 4
      → Books a.1.state a.1.consecutive_errors
      → a.1.vt ≡ (get_or s.components slot (vacant blank)).vt
      → IsValid blank (poll_step s slot v now_us channel a).1
  unfolding poll_step failed_step
  poll_step-IsValid blank s slot v now_us channel (w, c, err, out) i h few books same =
      let s1 = record s { components = set s.components slot c } in
      let one = put_component blank s slot c i books same in
      ground (
        arith,
        one,
        put_due blank (record s1 { channel_cursor = set s.channel_cursor slot 0 }) slot
            (now_us + v.min_interval_ms * 1000) (put_cursor blank s1 slot 0 one (omega arith)),
        keep_reading-IsValid blank s1 slot v now_us channel out one h few,
      )

  step_from-IsValid :
      (st : DrvState) (blank : S) (w : W) (s : Sched W S) (slot : ℕ) (v : Vtable W S) (now_us : ℕ)
      → IsValid blank s
      → slot < 8
      → v.channel_count ≤ 4
      → IsValid blank (step_from st w s slot (get_or s.components slot (vacant blank)) v now_us).1
  unfolding step_from
  step_from-IsValid st blank w s slot v now_us i h few =
      let c = get_or s.components slot (vacant blank) in
      let channel = get_or s.channel_cursor slot 0 in
      let one = start_read-Sound w c now_us (i.slots slot).books in
      let two = poll-Sound w c no_reading channel now_us (i.slots slot).books in
      let starts =
        start_step-IsValid blank s slot v now_us (start_read w c now_us) i one.books one.same_vt in
      let polls =
        poll_step-IsValid blank s slot v now_us channel (poll w c no_reading channel now_us) i h few
          two.books two.same_vt in
      elim st
        as (λ k.
          IsValid blank
            (step_from k w s slot (get_or s.components slot (vacant blank)) v now_us).1) [
              | empty ↦ i
              | retired ↦ i
              | warmup ↦ starts
              | idle ↦ starts
              | sleeping ↦ starts
              | reading ↦ polls
              | ready ↦ polls
            ]

  step_component-IsValid :
      (blank : S) (w : W) (s : Sched W S) (slot now_us : ℕ)
      → IsValid blank s
      → IsValid blank (step_component blank w s slot now_us).1
  unfolding step_component
  step_component-IsValid blank w s slot now_us i =
      let c = get_or s.components slot (vacant blank) in
      elim (Option-cases c.vt) [
        | inl e ↦ ground (arith, e)
        | inr (v, e) ↦
            (let few : v.channel_count ≤ 4 = subst Fits e (i.slots slot).fits in
              elim (dec_lt slot 8) [
                | yes h ↦
                    ground (arith, e, step_from-IsValid c.state blank w s slot v now_us i h few)
                | no h ↦ absurd (
                    let past =
                      get_or_past s.components slot (vacant blank)
                        (omega (arith, i.size_components)) in
                    ground (arith, past, e))
              ])
      ]

  pub IsValid-Steady : (blank : S) → Steady {W = W} blank (IsValid blank)
  IsValid-Steady blank = record {
    step = λ w s slot now_us i. step_component-IsValid blank w s slot now_us i;
    counted = λ s n i. ground (arith, i);
    turned = λ s n i. ground (arith, i);
  }
