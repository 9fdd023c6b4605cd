-- ===== src/Tests/GpioRuns.antt =====
-- The digital input of gpio_digital.c at concrete samples.
use lo_ra_home.Prelude.{
  ℕ, ◌≡◌, refl, List, [], ◌∷◌, Bool, true, false, not, if◌then◌else◌, none, replicate,
}
use lo_ra_home.Driver.{drv_ok, no_reading, bind, Ctx, empty, initialised}
use lo_ra_home.Driver.Calls.{
  start_read, start_from, dispatch_read, started, poll, polled, collected,
}
use lo_ra_home.Gpio.{
  Instance, no_instance, reset, configure, first_index, config_for, fresh_instance, gpio_init,
  sample, settle,
}
use lo_ra_home.Gpio.Device.{GpioWorld, gpio_poll, gpio_driver, fill}
use lo_ra_home.Gpio.Debounce.{sample_all, streak, over, flips_exactly}

-- A switch at rest, with the window of 50 ms.
abbrev switch : Instance
switch = record no_instance { in_use = true; pin = 4; debounce_ms = 50 }

-- It bounces, and then stays closed.
abbrev bounces : List (Bool × ℕ)
bounces = (true, 1000) ∷ (false, 3000) ∷ (true, 5000) ∷ (true, 40000) ∷ []

still_open : (sample_all switch bounces).1 ≡ replicate 4 false
unfolding sample_all sample settle
still_open = refl

flips_exactly_example : (sample (sample_all switch bounces).0 true 55000).stable_level ≡ (
    if over 50 (streak false (streak false none bounces) ((true, 55000) ∷ [])) 55000
    then not false
    else false)
flips_exactly_example = flips_exactly switch bounces false true 55000 refl refl still_open

-- 50 ms behind the last bounce it is closed.
closes : (sample (sample_all switch bounces).0 true 55000).stable_level ≡ true
unfolding sample_all sample settle
closes = refl

-- Pin 4 is low, and is configured as active low: the first reading behind the binding is 1.
abbrev world : GpioWorld
world = record {
  io = record { read_pin = λ pin. false; now_us = 1000 };
  gpio = (configure reset 4 20 true).0;
}

abbrev vacant : Ctx GpioWorld ℕ
vacant = record {
  vt = none;
  bus_addr = 0;
  component_id = 0;
  state = empty;
  consecutive_errors = 0;
  op_started_us = 0;
  scratch = 0;
}

first_reading :
    (let b = bind world vacant gpio_driver 4 1 1000 in
      let s = start_read b.0 b.1 1000 in
      let p = poll s.0 s.1 no_reading 0 1000 in (p.2 ≡ drv_ok) × (p.3.value ≡ 1))
unfolding bind initialised gpio_driver gpio_init gpio_poll configure reset first_index config_for
    fresh_instance start_read start_from dispatch_read started poll polled collected sample settle
    fill
first_reading = (refl, refl)
