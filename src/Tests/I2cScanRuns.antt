-- ===== src/Tests/I2cScanRuns.antt =====
-- The scan of i2c_scan.c over a bus with two devices. The world is a clock that each probe moves on.
use lo_ra_home.Prelude.{
  ℕ, ◌+◌, ◌≤◌, ◌≡◌, refl, [], ◌∷◌, true, false, some, take, if◌then◌else◌, ◌==◌,
}
use lo_ra_home.I2cScan.{
  Probe, ack, nack, timed_out, I2cBus, scan, scan_loop, clock, i2c_probe, probed_one, tally,
  scan_contains,
}
use lo_ra_home.I2cScan.Found.{acks, scan_finds}

-- A BME680 and a clock module answer.
abbrev answers : ℕ → Probe
answers addr = if addr == 0x68 then ack else if addr == 0x76 then ack else nack

abbrev ask : ℕ → ℕ → ℕ × Probe
ask now addr = (now + 100, answers addr)

abbrev bus : I2cBus ℕ
bus = record { probe = some ask; now_us = some (λ now. (now, now)) }

scan_finds_example :
    (let (w', out, whole) = scan bus 0 in
      (take out.found_count out.found ≡ take 16 (acks answers 8 out.probed))
      × (out.probed ≤ 112)
      × (if whole then out.probed == 112 else true) ≡ true)
scan_finds_example = scan_finds ask answers bus 0 (λ w addr. refl) refl

both_found :
    (let (w', out, whole) = scan bus 0 in
      (whole ≡ true)
      × (take out.found_count out.found ≡ 0x68 ∷ 0x76 ∷ [])
      × (scan_contains out 0x76 ≡ true))
unfolding scan scan_loop clock i2c_probe probed_one tally scan_contains
both_found = (refl, refl, refl)

-- A line that is held low: the scan stops behind eight addresses.
abbrev held_low : I2cBus ℕ
held_low = record {
  probe = some (λ now addr. (now + 4000, timed_out));
  now_us = some (λ now. (now, now));
}

stops_early :
    (let (w', out, whole) = scan held_low 0 in
      (whole ≡ false) × (out.wedged ≡ true) × (out.probed ≡ 8) × (w' ≡ 32000))
unfolding scan scan_loop clock i2c_probe probed_one tally
stops_early = (refl, refl, refl, refl)
