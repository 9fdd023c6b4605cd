-- ===== src/Tests/SchedulerRuns.antt =====
-- The scheduler of scheduler.c at concrete inputs. The world counts the measurements that were begun.
use lo_ra_home.Prelude.{ℕ, ◌+◌, ◌≡◌, refl, arith, List, [], ◌∷◌, none, some, get_or, replicate}
use lo_ra_home.Driver.{drv_ok, ready, retired, Vtable, Ctx, bind, is_error}
use lo_ra_home.Driver.Calls.{
  start_read, start_from, dispatch_read, started, poll, polled, collected,
}
use lo_ra_home.Scheduler.{Sched, vacant, init, add, bound}
use lo_ra_home.Scheduler.Step.{step_component, step_from, start_step, poll_step, keep_reading}
use lo_ra_home.Scheduler.Tick.{turns, tick, step_all}
use lo_ra_home.Scheduler.Ticks.{ticks, ticks_retired}
use lo_ra_home.Scheduler.Bounds.{IsValid}
use lo_ra_home.Scheduler.Runs.{Call, to_add, to_tick, to_record, run, run_init-IsValid, call}
use lo_ra_home.Scheduler.Stale.{Measured, ticks_never_restart}

-- Two channels, no warmup, a second between measurements; a poll hands out how many were begun.
abbrev sensor : Vtable ℕ ℕ
sensor = record {
  name = 0x62 ∷ [];
  type_id = 1;
  channel_count = 2;
  warmup_ms = 0;
  min_interval_ms = 1000;
  blank = 0;
  init = none;
  start_read = some (λ w a s. (w + 1, s, drv_ok));
  poll = λ w a s out channel. (w, s, drv_ok, record out { value = w });
  sleep = none;
}

abbrev calls : List (Call ℕ ℕ)
calls = to_add sensor 0x76 1 0 ∷ to_add sensor 0x77 2 0 ∷ to_tick 0 ∷ to_record 12 ∷ to_tick 10 ∷ []

run_init-IsValid_example : IsValid 0 (run 0 0 (init 0) calls).1
run_init-IsValid_example = run_init-IsValid 0 calls 0

abbrev component : Ctx ℕ ℕ
component = record {
  vt = some sensor;
  bus_addr = 0x76;
  component_id = 1;
  state = ready;
  consecutive_errors = 0;
  op_started_us = 40;
  scratch = 0;
}

abbrev off : Ctx ℕ ℕ
off = record component { state = retired; consecutive_errors = 3 }

-- One component is there, and it is retired.
abbrev retired_only : Sched ℕ ℕ
retired_only = record (run 0 0 (init 0) []).1 {
  components = off ∷ replicate 7 (vacant 0);
  component_count = 1;
}

ticks_retired_example :
    (let t = (ticks 0 0 retired_only (0 ∷ 10 ∷ 2000000 ∷ [])).1 in
      (get_or t.components 0 (vacant 0) ≡ get_or retired_only.components 0 (vacant 0))
      × (get_or t.latest 0 [] ≡ get_or retired_only.latest 0 []))
ticks_retired_example = ticks_retired 0 (0 ∷ 10 ∷ 2000000 ∷ []) 0 retired_only 0 refl

-- Both components have answered for the first of their channels.
abbrev half_read : Sched ℕ ℕ
half_read = (run 0 0 (init 0) calls).1

half_read-Measured : Measured 0 sensor 0 0 half_read
unfolding init add bound step_component step_from start_step poll_step keep_reading turns tick
    step_all ticks run call lo_ra_home.Scheduler.record_tick bind is_error start_read start_from
    dispatch_read started poll polled collected
half_read-Measured = record {
  inside = omega arith;
  cursor_inside = omega arith;
  driver = refl;
  is_ready = refl;
  same_start = refl;
  cursor = omega arith;
}

ticks_never_restart_example :
    (let c = get_or (ticks 0 2 half_read (20 ∷ 2000000 ∷ [])).1.components 0 (vacant 0) in
      (c.state ≡ ready) × (c.op_started_us ≡ 0))
ticks_never_restart_example =
    ticks_never_restart 0 (20 ∷ 2000000 ∷ []) 2 half_read sensor 0 0 (λ w a s out channel. refl)
      run_init-IsValid_example half_read-Measured

-- Two measurements were begun, one for each component, and no more follow in four seconds.
two_begun : (ticks 0 2 half_read (20 ∷ 2000000 ∷ 2000010 ∷ 4000000 ∷ [])).0 ≡ 2
unfolding init add bound step_component step_from start_step poll_step keep_reading turns tick
    step_all ticks run call lo_ra_home.Scheduler.record_tick bind is_error start_read start_from
    dispatch_read started poll polled collected
two_begun = refl
