-- ===== src/Gpio/Device.antt =====
-- The digital input of gpio_digital.c as a driver: one poll, and the table of its functions.
use lo_ra_home.Prelude.{ℕ, [], ◌∷◌, not, none, some, leb, ◌==◌, if◌then◌else◌, get_or, set}
use lo_ra_home.Driver.{DrvErr, drv_ok, err_state, err_no_channel, Reading, Vtable}
use lo_ra_home.Gpio.{
  max_instances, gpio_interval_ms, gpio_channels, Instance, Gpio, GpioIo, no_instance,
  logical_level, gpio_init, sample,
}

-- What `gpio_poll` puts into the reading.
unfoldable pub fill : Instance → Reading → ℕ → Reading
fill inst out channel = record out {
  channel = channel;
  ts_us = inst.last_sample_us;
  quality = 100;
  value = if channel == 0 then (if inst.stable_level then 1 else 0) else inst.transitions;
}

-- `gpio_poll` with the access that was installed when the component was bound.
unfoldable pub gpio_poll : GpioIo → Gpio → ℕ → Reading → ℕ → Gpio × DrvErr × Reading
unfolding sample fill
gpio_poll io g slot out channel =
    let inst = get_or g.instances slot no_instance in
    let sampled = sample inst (logical_level io inst) io.now_us in
    let current = if inst.last_sample_us == io.now_us then inst else sampled in
    if leb max_instances slot
    then (g, err_state, out)
    else if not inst.in_use
    then (g, err_state, out)
    else if leb gpio_channels channel
    then (g, err_no_channel, out)
    else (record g { instances = set g.instances slot current }, drv_ok, fill current out channel)

-- The pin access that is installed, and the two tables.
pub record GpioWorld : Type 0 where
  pub io : GpioIo
  pub gpio : Gpio

abbrev init_in : GpioWorld → Gpio × ℕ × DrvErr → GpioWorld × ℕ × DrvErr
init_in w (g, scratch, err) = (record w { gpio = g }, scratch, err)

abbrev poll_in : GpioWorld → ℕ → Gpio × DrvErr × Reading → GpioWorld × ℕ × DrvErr × Reading
poll_in w scratch (g, err, out) = (record w { gpio = g }, scratch, err, out)

-- `LH_GPIO_DIGITAL_DRIVER`, where a pin access is installed.
unfoldable pub gpio_driver : Vtable GpioWorld ℕ
unfolding gpio_init gpio_poll
gpio_driver = record {
  name = 103 ∷ 112 ∷ 105 ∷ 111 ∷ 95 ∷ 100 ∷ 105 ∷ 103 ∷ 105 ∷ 116 ∷ 97 ∷ 108 ∷ [];
  type_id = 17;
  channel_count = gpio_channels;
  warmup_ms = 0;
  min_interval_ms = gpio_interval_ms;
  blank = 0;
  init = some (λ w bus_addr scratch. init_in w (gpio_init (some w.io) w.gpio bus_addr scratch));
  start_read = none;
  poll = λ w bus_addr scratch out channel.
      poll_in w scratch (gpio_poll w.io w.gpio scratch out channel);
  sleep = none;
}
