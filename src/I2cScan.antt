-- ===== src/I2cScan.antt =====
-- firmware/common/include/lorahome/i2c_scan.h and firmware/common/src/i2c_scan.c: the sweep over the
-- addresses of the bus. `W` is the world outside; the probe of an address and the clock read and
-- change it. A difference of two times stops at 0, which none of the tests tells from a negative one.
pub mod Found
use lo_ra_home.Prelude.{
  ℕ, zero, suc, ◌+◌, ◌-◌, ◌*◌, ◌/◌, ◌%◌, ◌^◌, List, [], ◌∷◌, Bool, true, false, ◌||◌, Option, none,
  some, u8, u32, ltb, leb, ◌==◌, if◌then◌else◌, set, take, replicate,
}

-- `LH_I2C_ADDR_FIRST`
abbrev pub addr_first : ℕ
addr_first = 0x08

-- `LH_I2C_ADDR_COUNT`
abbrev pub addr_count : ℕ
addr_count = 112

-- `LH_I2C_SCAN_MAX_FOUND`
abbrev pub scan_max_found : ℕ
scan_max_found = 16

-- `LH_I2C_PROBE_TIMEOUT_MS`
abbrev pub probe_timeout_ms : ℕ
probe_timeout_ms = 4

-- `LH_I2C_SCAN_BUDGET_MS`
abbrev pub scan_budget_ms : ℕ
scan_budget_ms = 500

-- `LH_I2C_WEDGED_BUS_TIMEOUTS`
abbrev pub wedged_bus_timeouts : ℕ
wedged_bus_timeouts = 8

-- `lh_i2c_probe_r`
pub data Probe : Type 0 where
  ack nack timed_out bus_error : Probe

-- `lh_i2c_bus_t`; `none` is NULL.
pub record I2cBus (W : Type 0) : Type 0 where
  pub probe : Option (W → ℕ → W × Probe)
  pub now_us : Option (W → W × ℕ)

-- `lh_i2c_scan_result_t`
pub record ScanResult : Type 0 where
  pub found : List ℕ
  pub found_count : ℕ
  pub overflow : ℕ
  pub probed : ℕ
  pub timeouts : ℕ
  pub bus_errors : ℕ
  pub slow_probes : ℕ
  pub wedged : Bool
  pub over_budget : Bool
  pub started_us : ℕ
  pub finished_us : ℕ

-- The result of zeros.
abbrev pub no_result : ScanResult
no_result = record {
  found = replicate scan_max_found 0;
  found_count = 0;
  overflow = 0;
  probed = 0;
  timeouts = 0;
  bus_errors = 0;
  slow_probes = 0;
  wedged = false;
  over_budget = false;
  started_us = 0;
  finished_us = 0;
}

-- `bump`
abbrev pub bump : ℕ → ℕ
bump counter = if ltb counter 0xff then counter + 1 else counter

-- The `switch` over the answer of one address, with `consecutive_timeouts`.
unfoldable pub tally : ScanResult → ℕ → ℕ → Probe → ScanResult × ℕ
tally out consecutive addr ack =
    if ltb out.found_count scan_max_found
    then (
      record out {
        found = set out.found out.found_count (u8 addr);
        found_count = u8 (out.found_count + 1);
      },
      0,
    )
    else (record out { overflow = bump out.overflow }, 0)
tally out consecutive addr nack = (out, 0)
tally out consecutive addr timed_out =
    (record out { timeouts = bump out.timeouts }, u8 (consecutive + 1))
tally out consecutive addr bus_error = (record out { bus_errors = bump out.bus_errors }, 0)

-- The result behind one address, before the `switch`.
unfoldable pub probed_one : ScanResult → ℕ → ℕ → ScanResult
probed_one out finished elapsed_us = record out {
  probed = u8 (out.probed + 1);
  finished_us = finished;
  slow_probes =
      if ltb (probe_timeout_ms * 1000) elapsed_us then bump out.slow_probes else out.slow_probes;
}

module _ {W : Type 0} where
  -- `bus->now_us != NULL ? bus->now_us(bus->user) : otherwise`
  unfoldable pub clock : Option (W → W × ℕ) → W → ℕ → W × ℕ
  clock none w otherwise = (w, otherwise)
  clock (some now_us) w otherwise = now_us w

  -- `lh_i2c_probe` of a bus whose probe is `ask`: the answer, and the time that it took.
  unfoldable pub i2c_probe : (W → ℕ → W × Probe) → I2cBus W → W → ℕ → W × Probe × ℕ
  unfolding clock
  i2c_probe ask bus w addr =
      let (w1, started) = clock bus.now_us w 0 in
      let (w2, result) = ask w1 addr in
      let (w3, finished) = clock bus.now_us w2 0 in (w3, result, finished - started)

  -- The loop over the last `n` addresses, from `addr` on.
  unfoldable pub scan_loop :
      (W → ℕ → W × Probe) → I2cBus W → W → ScanResult → ℕ → ℕ → ℕ → W × ScanResult × Bool
  unfolding i2c_probe probed_one tally
  scan_loop ask bus w out consecutive addr zero = (w, out, true)
  scan_loop ask bus w out consecutive addr (suc n) =
      let asked = i2c_probe ask bus w addr in
      let finished = clock bus.now_us asked.0 out.finished_us in
      let counted = tally (probed_one out finished.1 asked.2) consecutive addr asked.1 in
      let rest = scan_loop ask bus finished.0 counted.0 counted.1 (addr + 1) n in
      if leb wedged_bus_timeouts counted.1
      then (finished.0, record counted.0 { wedged = true }, false)
      else if ltb (scan_budget_ms * 1000) (finished.1 - out.started_us)
      then (finished.0, record counted.0 { over_budget = true }, false)
      else rest

  -- `lh_i2c_scan`
  unfoldable pub scan : I2cBus W → W → W × ScanResult × Bool
  unfolding scan_loop
  scan bus w = elim bus.probe [
    | none ↦ (w, record no_result { bus_errors = 1 }, false)
    | some ask ↦
        (let (w1, started) = clock bus.now_us w 0 in
          scan_loop ask bus w1 (record no_result { started_us = started; finished_us = started }) 0
            addr_first addr_count)
  ]

-- Whether the address is among these.
abbrev pub among : List ℕ → ℕ → Bool
among [] addr = false
among (x ∷ xs) addr = (x == addr) || among xs addr

-- `lh_i2c_scan_contains`
unfoldable pub scan_contains : ScanResult → ℕ → Bool
scan_contains result addr = among (take result.found_count result.found) addr

-- `lh_i2c_scan_duration_ms`
unfoldable pub scan_duration_ms : ScanResult → ℕ
scan_duration_ms result = u32 ((result.finished_us - result.started_us) / 1000)
