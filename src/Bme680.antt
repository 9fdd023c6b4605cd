-- ===== src/Bme680.antt =====
-- firmware/common/include/lorahome/bme680.h, firmware/common/include/lorahome/i2c_io.h and
-- firmware/common/src/bme680.c: the gas, humidity, pressure and temperature sensor. `W` is the world on
-- the other side of the I2C bus, which a transfer changes; the static variables are the state `Bme`.
pub mod Calibration
pub mod Compensate
pub mod Gas
pub mod Chip
pub mod Device
pub mod Exact
pub mod Ranges
pub mod GasRange
pub mod Waits
pub mod Table
pub mod Readings
pub mod Polls
pub mod Samples
pub mod Setup
pub mod Slots
use lo_ra_home.Prelude.{
  ℕ, suc, ℤ, pos, List, [], ◌∷◌, Bool, true, false, ◌&&◌, Option, none, some, if◌then◌else◌, get_or,
  set, replicate,
}
use lo_ra_home.Driver.{DrvErr, err_bus}

-- `LH_BME680_MAX_INSTANCES`
abbrev pub max_instances : ℕ
max_instances = 2

-- `LH_BME680_CHIP_ID`
abbrev pub bme_chip_id : ℕ
bme_chip_id = 0x61

-- `LH_BME680_WARMUP_MS`
abbrev pub bme_warmup_ms : ℕ
bme_warmup_ms = 200

-- `LH_BME680_MIN_INTERVAL_MS`
abbrev pub bme_interval_ms : ℕ
bme_interval_ms = 3000

-- `LH_BME680_HEATER_TEMP_C`
abbrev pub heater_temp_c : ℕ
heater_temp_c = 320

-- `LH_BME680_HEATER_DURATION_MS`
abbrev pub heater_duration_ms : ℕ
heater_duration_ms = 150

-- `LH_BME680_AMBIENT_DEFAULT_C`
abbrev pub ambient_default_c : ℕ
ambient_default_c = 25

-- `lh_bme680_channel_t`
abbrev pub ch_temperature : ℕ
ch_temperature = 0

abbrev pub ch_humidity : ℕ
ch_humidity = 1

abbrev pub ch_pressure : ℕ
ch_pressure = 2

abbrev pub ch_gas : ℕ
ch_gas = 3

abbrev pub bme_channels : ℕ
bme_channels = 4

-- `LH_BME680_CALIB_BLOCK1`
abbrev pub calib_block1 : ℕ
calib_block1 = 25

-- `LH_BME680_CALIB_BLOCK2`
abbrev pub calib_block2 : ℕ
calib_block2 = 16

-- `lh_bme680_calib_t`
pub record Calib : Type 0 where
  pub par_t1 : ℕ
  pub par_t2 : ℤ
  pub par_t3 : ℤ
  pub par_p1 : ℕ
  pub par_p2 : ℤ
  pub par_p3 : ℤ
  pub par_p4 : ℤ
  pub par_p5 : ℤ
  pub par_p6 : ℤ
  pub par_p7 : ℤ
  pub par_p8 : ℤ
  pub par_p9 : ℤ
  pub par_p10 : ℕ
  pub par_h1 : ℕ
  pub par_h2 : ℕ
  pub par_h3 : ℤ
  pub par_h4 : ℤ
  pub par_h5 : ℤ
  pub par_h6 : ℕ
  pub par_h7 : ℤ
  pub par_g1 : ℤ
  pub par_g2 : ℤ
  pub par_g3 : ℤ
  pub res_heat_range : ℕ
  pub res_heat_val : ℤ
  pub range_sw_err : ℤ
  pub t_fine : ℤ

-- What `memset` leaves of it.
abbrev pub no_calib : Calib
no_calib = record {
  par_t1 = 0;
  par_t2 = pos 0;
  par_t3 = pos 0;
  par_p1 = 0;
  par_p2 = pos 0;
  par_p3 = pos 0;
  par_p4 = pos 0;
  par_p5 = pos 0;
  par_p6 = pos 0;
  par_p7 = pos 0;
  par_p8 = pos 0;
  par_p9 = pos 0;
  par_p10 = 0;
  par_h1 = 0;
  par_h2 = 0;
  par_h3 = pos 0;
  par_h4 = pos 0;
  par_h5 = pos 0;
  par_h6 = 0;
  par_h7 = pos 0;
  par_g1 = pos 0;
  par_g2 = pos 0;
  par_g3 = pos 0;
  res_heat_range = 0;
  res_heat_val = pos 0;
  range_sw_err = pos 0;
  t_fine = pos 0;
}

-- `instance_t`
pub record Instance : Type 0 where
  pub in_use : Bool
  pub addr : ℕ
  pub calib : Calib
  pub ambient_c : ℤ
  pub have_sample : Bool
  pub values : List ℤ
  pub quality : List ℕ
  pub sample_ts_us : ℕ

abbrev pub no_instance : Instance
no_instance = record {
  in_use = false;
  addr = 0;
  calib = no_calib;
  ambient_c = pos 0;
  have_sample = false;
  values = replicate bme_channels (pos 0);
  quality = replicate bme_channels 0;
  sample_ts_us = 0;
}

-- `lh_i2c_io_t`: a function is `none` for NULL, a read gives `none` for `false`. The clock changes
-- nothing.
pub record I2cIo (W : Type 0) : Type 0 where
  pub read : Option (W → ℕ → ℕ → ℕ → W × Option (List ℕ))
  pub write : Option (W → ℕ → ℕ → ℕ → W × Bool)
  pub clock_us : Option (W → ℕ)

-- `g_io`, `g_io_set` and `g_instances`, beside the world.
pub record Bme (W : Type 0) : Type 0 where
  pub world : W
  pub io : I2cIo W
  pub io_set : Bool
  pub instances : List Instance

abbrev is_given {ℓ} : {A : Type ℓ} → Option A → Bool
is_given none = false
is_given (some a) = true

abbrev in_use_among : List Instance → ℕ
in_use_among [] = 0
in_use_among (x ∷ xs) = if x.in_use then suc (in_use_among xs) else in_use_among xs

module _ {W : Type 0} where
  abbrev no_io : I2cIo W
  no_io = record { read = none; write = none; clock_us = none }

  -- `lh_bme680_set_io`
  unfoldable pub set_io : Bme W → Option (I2cIo W) → Bme W
  set_io s none = record s { io = no_io; io_set = false }
  set_io s (some io) = record s { io = io; io_set = is_given io.read && is_given io.write }

  -- `lh_bme680_reset_instances`
  unfoldable pub reset_instances : Bme W → Bme W
  reset_instances s = record s { instances = replicate max_instances no_instance }

  -- `lh_bme680_instances_in_use`
  abbrev pub instances_in_use : Bme W → ℕ
  instances_in_use s = in_use_among s.instances

  -- `read_regs`
  unfoldable pub read_regs : Bme W → ℕ → ℕ → ℕ → Bme W × Option (List ℕ)
  read_regs s addr reg len =
      if s.io_set
      then (elim s.io.read [
        | none ↦ (s, none)
        | some read ↦ let (w, bytes) = read s.world addr reg len in (record s { world = w }, bytes)
      ])
      else (s, none)

  -- `write_reg`
  unfoldable pub write_reg : Bme W → ℕ → ℕ → ℕ → Bme W × Bool
  write_reg s addr reg value =
      if s.io_set
      then (elim s.io.write [
        | none ↦ (s, false)
        | some write ↦ let (w, ok) = write s.world addr reg value in (record s { world = w }, ok)
      ])
      else (s, false)

  -- `now_us`
  unfoldable pub now_us : Bme W → ℕ
  now_us s = elim s.io.clock_us [ none ↦ 0 | some clock ↦ clock s.world ]

  -- `if (!read_regs(...)) return LH_DRV_ERR_BUS;` and what follows with the bytes.
  unfoldable pub or_no_bytes {ℓ} :
      {A : Type ℓ} → Bme W × Option (List ℕ) → (Bme W → A) → (Bme W → List ℕ → A) → A
  or_no_bytes (s, none) stop next = stop s
  or_no_bytes (s, some bytes) stop next = next s bytes

  -- `if (!write_reg(...)) return LH_DRV_ERR_BUS;` and what follows.
  unfoldable pub or_refused {ℓ} : {A : Type ℓ} → Bme W × Bool → (Bme W → A) → (Bme W → A) → A
  or_refused (s, false) stop next = stop s
  or_refused (s, true) stop next = next s

  abbrev pub bus_error : Bme W → Bme W × DrvErr
  bus_error s = (s, err_bus)

  -- `g_instances[slot]`
  abbrev pub instance_at : Bme W → ℕ → Instance
  instance_at s slot = get_or s.instances slot no_instance

  abbrev pub with_instance : Bme W → ℕ → Instance → Bme W
  with_instance s slot inst = record s { instances = set s.instances slot inst }
