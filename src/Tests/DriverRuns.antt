-- ===== src/Tests/DriverRuns.antt =====
-- The component of driver.c with drivers that answer in a fixed way. The world counts the
-- measurements that were begun.
use lo_ra_home.Prelude.{ℕ, ◌+◌, ◌≡◌, refl, arith, [], ◌∷◌, none, some, replicate}
use lo_ra_home.Driver.{
  DrvErr, drv_ok, err_bus, err_not_ready, err_faulted, warmup, idle, reading, retired, no_reading,
  Vtable, Ctx, bind, op_timeout_ms,
}
use lo_ra_home.Driver.Calls.{poll, polled, collected}
use lo_ra_home.Driver.Health.{Books, Counted, Patient}
use lo_ra_home.Driver.Runs.{
  to_start, to_poll, to_sleep, call, run, run_bound-Books, call_counts, run_retired,
}
use lo_ra_home.Driver.Stuck.{Stuck, measurements, three_retire}

-- One channel, 200 ms to warm up, and every poll answers `err`.
abbrev driver : DrvErr → Vtable ℕ ℕ
driver err = record {
  name = 0x62 ∷ [];
  type_id = 1;
  channel_count = 1;
  warmup_ms = 200;
  min_interval_ms = 1000;
  blank = 0;
  init = none;
  start_read = some (λ w a s. (w + 1, s, drv_ok));
  poll = λ w a s out channel. (w, s, err, out);
  sleep = none;
}

abbrev at_rest : Vtable ℕ ℕ → Ctx ℕ ℕ
at_rest v = record {
  vt = some v;
  bus_addr = 0x76;
  component_id = 3;
  state = idle;
  consecutive_errors = 0;
  op_started_us = 0;
  scratch = 0;
}

abbrev spare : Ctx ℕ ℕ
spare = record (at_rest (driver err_bus)) { vt = none }

run_bound-Books_example :
    (let b = bind 0 spare (driver err_bus) 0x76 3 500 in
      let r = run b.0 b.1 (to_start 900000 ∷ to_poll 0 900001 ∷ []) in
      Books r.1.state r.1.consecutive_errors)
run_bound-Books_example =
    run_bound-Books (to_start 900000 ∷ to_poll 0 900001 ∷ []) 0 spare (driver err_bus) 0x76 3 500
      (omega arith)

abbrev measuring : Ctx ℕ ℕ
measuring = record (at_rest (driver err_not_ready)) { state = reading; consecutive_errors = 2 }

call_counts_example :
    (let (w', c', err) = call 0 measuring (to_poll 0 7) in
      Counted 2 c'.state c'.consecutive_errors err × Patient 2 c'.consecutive_errors err)
call_counts_example = call_counts (to_poll 0 7) 0 measuring (omega arith) tt

abbrev broken : Ctx ℕ ℕ
broken = record (at_rest (driver err_bus)) { state = retired; consecutive_errors = 3 }

run_retired_example :
    run 5 broken (to_start 1 ∷ to_poll 0 2 ∷ to_sleep ∷ []) ≡ (5, broken, replicate 3 err_faulted)
run_retired_example =
    run_retired (to_start 1 ∷ to_poll 0 2 ∷ to_sleep ∷ []) 5 broken (driver err_bus) refl refl
      (tt, (tt, (tt, tt)))

never_ready : Stuck (driver err_not_ready)
never_ready = record {
  has_channel = omega arith;
  starts = λ f w a s e. ground (arith, e);
  never = λ w a s out channel. refl;
}

timeout : op_timeout_ms (driver err_not_ready) ≡ 800
unfolding op_timeout_ms
timeout = refl

abbrev resting : Ctx ℕ ℕ
resting = at_rest (driver err_not_ready)

-- Measurements that are polled 801 ms after they began.
three_retire_example :
    ((run 0 resting (measurements ((0, 801000) ∷ (900000, 1701000) ∷ []))).1.state ≡ idle)
    × ((run 0 resting
          (measurements ((0, 801000) ∷ (900000, 1701000) ∷ (2000000, 2801000) ∷ []))).1.state
        ≡ retired)
three_retire_example =
    three_retire (driver err_not_ready) 0 resting (0, 801000) (900000, 1701000) (2000000, 2801000)
      never_ready refl refl refl (omega (arith, timeout)) (omega (arith, timeout))
      (omega (arith, timeout))

abbrev fresh : Ctx ℕ ℕ
fresh = record resting { state = warmup; op_started_us = 1000 }

still_waiting : (poll 0 measuring no_reading 0 800000).2 ≡ err_not_ready
unfolding poll polled collected op_timeout_ms
still_waiting = refl
