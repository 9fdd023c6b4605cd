-- ===== src/Tests/Bme680Runs.antt =====
-- The sensor of bme680.c at the coefficients and the registers of its self-test.
use lo_ra_home.Prelude.{
  ℕ, ◌+◌, ◌≤◌, ◌<◌, ◌≡◌, refl, arith, List, [], ◌∷◌, true, some, ◌==◌, if◌then◌else◌, replicate,
  get_or, pos, ◌+ℤ◌, ◌-ℤ◌, ◌*ℤ◌, ◌/ℤ◌, ◌>>ℤ◌, ◌≤ℤ◌, wrap, nat_abs,
}
use lo_ra_home.Driver.{drv_ok, is_ok, no_reading}
use lo_ra_home.Bme680.{
  Calib, Instance, no_instance, I2cIo, Bme, instances_in_use, instance_at, read_regs, write_reg,
  or_no_bytes, or_refused,
}
use lo_ra_home.Bme680.Calibration.{u16_of, parse_calibration}
use lo_ra_home.Bme680.Compensate.{
  int32_max, compensate_temperature, fine_temperature, centi_degrees, compensate_pressure,
  pressure_terms, raw_pressure, corrected, clamp, compensate_humidity, humidity_offset,
  humidity_scale, humidity_bend,
}
use lo_ra_home.Bme680.Gas.{
  gas_scale, gas_divisor, compensate_gas, heater_resistance, encode_gas_wait, gas_wait_loop,
}
use lo_ra_home.Bme680.Chip.{
  sampled, free_slot, is_bound, is_complete, probe, write_setup, configure, init_slot, init,
  start_read, collect, poll,
}
use lo_ra_home.Bme680.Exact.{offset, fine_of, centi_of, temperature_exact}
use lo_ra_home.Bme680.GasRange.{GasQuotient, gas_exact}
use lo_ra_home.Bme680.Ranges.{Trusted, sampled_ranges}
use lo_ra_home.Bme680.Waits.{wait_ms, longest_wait}
use lo_ra_home.Bme680.Readings.{Shows}
use lo_ra_home.Bme680.Samples.{one_sample}
use lo_ra_home.Bme680.Slots.{Took, Missed, init_slots}

abbrev block1 : List ℕ
block1 =
    0 ∷ 167 ∷ 102 ∷ 3 ∷ 0 ∷ 216 ∷ 137 ∷ 10 ∷ 215 ∷ 88 ∷ 0 ∷ 20 ∷ 25 ∷ 160 ∷ 255 ∷ 44 ∷ 30 ∷ 0 ∷ 0
    ∷ 128 ∷ 245 ∷ 9 ∷ 245 ∷ 30 ∷ 0 ∷ []

abbrev block2 : List ℕ
block2 = 63 ∷ 150 ∷ 42 ∷ 0 ∷ 45 ∷ 20 ∷ 120 ∷ 156 ∷ 185 ∷ 101 ∷ 124 ∷ 222 ∷ 205 ∷ 18 ∷ 0 ∷ 0 ∷ []

abbrev extra : List ℕ
extra = 45 ∷ 16 ∷ 0 ∷ []

calib : Calib
unfolding parse_calibration u16_of ◌/ℤ◌
calib = parse_calibration block1 block2 extra

abbrev raw : List ℕ
raw = 97 ∷ 168 ∷ 0 ∷ 124 ∷ 131 ∷ 0 ∷ 97 ∷ 168 ∷ []

abbrev gas : List ℕ
gas = 150 ∷ 53 ∷ []

-- What the chip answers; a transfer takes a microsecond of the clock, which is the world.
abbrev register : ℕ → List ℕ
register reg =
    if reg == 0xd0
    then 0x61 ∷ []
    else if reg == 0x89
    then block1
    else if reg == 0xe1
    then block2
    else if reg == 0x00
    then 45 ∷ []
    else if reg == 0x02
    then 16 ∷ []
    else if reg == 0x1d
    then 0x80 ∷ []
    else if reg == 0x1f
    then raw
    else if reg == 0x2a
    then gas
    else 0 ∷ []

abbrev chip : I2cIo ℕ
chip = record {
  read = some (λ w addr reg len. (w + 1, some (register reg)));
  write = some (λ w addr reg value. (w + 1, true));
  clock_us = some (λ w. w);
}

abbrev board : Bme ℕ
board = record { world = 0; io = chip; io_set = true; instances = replicate 2 no_instance }

temperature : (compensate_temperature calib 510000).1 ≡ pos 29250
unfolding calib compensate_temperature fine_temperature centi_degrees ◌+ℤ◌ ◌-ℤ◌ ◌*ℤ◌ ◌>>ℤ◌ wrap
temperature = refl

abbrev warm : Calib
warm = record calib { t_fine = pos 149742 }

pressure : compensate_pressure warm 400000 ≡ pos 97209
unfolding calib compensate_pressure pressure_terms raw_pressure corrected clamp ◌+ℤ◌ ◌-ℤ◌ ◌*ℤ◌ ◌/ℤ◌
    ◌>>ℤ◌ wrap
pressure = refl

humidity : compensate_humidity warm 25000 ≡ pos 81695
unfolding calib compensate_humidity centi_degrees humidity_offset humidity_scale humidity_bend clamp
    ◌+ℤ◌ ◌-ℤ◌ ◌*ℤ◌ ◌/ℤ◌ ◌>>ℤ◌ wrap
humidity = refl

resistance : compensate_gas warm 600 5 ≡ pos 232818
unfolding calib compensate_gas gas_scale gas_divisor ◌+ℤ◌ ◌-ℤ◌ ◌*ℤ◌ ◌/ℤ◌ ◌>>ℤ◌ wrap
resistance = refl

heater : heater_resistance calib (pos 320) (pos 25) ≡ 111
unfolding calib heater_resistance ◌+ℤ◌ ◌-ℤ◌ ◌*ℤ◌ ◌/ℤ◌ wrap
heater = refl

temperature_exact_example :
    (compensate_temperature calib 510000 ≡ (
      record calib { t_fine = fine_of calib (offset calib 510000) },
      centi_of (fine_of calib (offset calib 510000)) *ℤ pos 10,
    ))
    × (nat_abs (compensate_temperature calib 510000).1 ≤ 327680)
unfolding calib ◌-ℤ◌
temperature_exact_example = temperature_exact calib 510000 (record {
  par_t1 = omega arith;
  par_t2 = omega arith;
  par_t3 = omega arith;
  near = omega arith;
  count = omega arith;
})

gas_exact_example :
    GasQuotient (record (parse_calibration block1 block2 extra) { t_fine = pos 149742 }) 600 5
gas_exact_example =
    gas_exact block1 block2 extra (pos 149742) 600 5 (omega arith) (omega arith) (omega arith)

abbrev mounted : Instance
mounted = record no_instance { in_use = true; addr = 0x76; ambient_c = pos 25 }

sampled_ranges_example :
    (pos 0 ≤ℤ get_or (sampled mounted raw gas 9).values 1 (pos 0))
    × (get_or (sampled mounted raw gas 9).values 1 (pos 0) ≤ℤ pos 100000)
    × (pos 0 ≤ℤ get_or (sampled mounted raw gas 9).values 2 (pos 0))
    × (get_or (sampled mounted raw gas 9).values 2 (pos 0) ≤ℤ pos int32_max)
    × Trusted (get_or gas 1 0) (get_or (sampled mounted raw gas 9).quality 3 0)
sampled_ranges_example = sampled_ranges mounted raw gas 9

heat_150 : encode_gas_wait 150 ≡ 101
unfolding encode_gas_wait gas_wait_loop
heat_150 = refl

longest_wait_example :
    (encode_gas_wait 150 < 256)
    × (wait_ms (encode_gas_wait 150) ≤ 150)
    × (wait_ms 100 ≤ wait_ms (encode_gas_wait 150))
unfolding wait_ms
longest_wait_example = longest_wait 150 100 (omega arith) (omega arith)

init_slots_example :
    if is_ok (init board 0x76 0).2
    then Took board 0x76 (init board 0x76 0)
    else Missed board 0 (init board 0x76 0)
init_slots_example = init_slots board 0x76 0 refl

-- The component that was bound.
bme_ready : Bme ℕ
unfolding init probe free_slot init_slot configure write_setup read_regs write_reg or_no_bytes
    or_refused
bme_ready = (init board 0x76 0).0

ready_in_use : instances_in_use bme_ready ≡ 1
unfolding bme_ready
ready_in_use = refl

first_poll : (poll (start_read bme_ready 0).0 0 no_reading 0).1 ≡ drv_ok
unfolding bme_ready start_read poll collect is_bound is_complete read_regs write_reg or_no_bytes
    or_refused
first_poll = refl

one_sample_example :
    let p = poll (start_read bme_ready 0).0 0 no_reading 0 in
    let q = poll p.0 0 no_reading 2 in
    Shows (instance_at p.0 0) 0 p.2 × (q.0 ≡ p.0) × (q.1 ≡ drv_ok) × Shows (instance_at p.0 0) 2 q.2
unfolding bme_ready start_read write_reg or_refused is_bound
one_sample_example =
    one_sample (start_read bme_ready 0).0 0 0 2 no_reading no_reading refl first_poll (omega arith)
