-- ===== src/Bme680/Chip.antt =====
-- The state machine of bme680.c: a measurement is triggered, asked for, and collected.
use lo_ra_home.Prelude.{
  ℕ, ◌+◌, bit_and, bit_or, u8, u16, ◌<<<◌, ◌>>>◌, leb, ◌==◌, not, ◌&&◌, Bool, true, false, Option,
  none, some, if◌then◌else◌, List, [], ◌∷◌, get_or, pos, ◌/ℤ◌, i16, bits32,
}
use lo_ra_home.Driver.{
  DrvErr, drv_ok, err_bus, err_not_ready, err_range, err_state, err_no_channel, Reading, is_ok,
}
use lo_ra_home.Bme680.{
  max_instances, bme_chip_id, heater_temp_c, heater_duration_ms, ambient_default_c, bme_channels,
  calib_block1, calib_block2, Instance, no_instance, Bme, read_regs, write_reg, now_us, or_no_bytes,
  or_refused, bus_error, instance_at, with_instance,
}
use lo_ra_home.Bme680.Calibration.{parse_calibration}
use lo_ra_home.Bme680.Compensate.{compensate_temperature, compensate_pressure, compensate_humidity}
use lo_ra_home.Bme680.Gas.{compensate_gas, heater_resistance, encode_gas_wait}

-- `(OSRS_T << 5) | (OSRS_P << 2) | mode`, for the modes sleep (0) and forced (1).
abbrev pub ctrl_meas : ℕ → ℕ
ctrl_meas mode = u8 (bit_or (bit_or (2 <<< 5) (5 <<< 2)) mode)

-- The raw counts of `collect`.
abbrev pub count20 : List ℕ → ℕ → ℕ
count20 raw i =
    bit_or (bit_or (get_or raw i 0 <<< 12) (get_or raw (i + 1) 0 <<< 4))
      (get_or raw (i + 2) 0 >>> 4)

abbrev pub count16 : List ℕ → ℕ → ℕ
count16 raw i = u16 (bit_or (get_or raw i 0 <<< 8) (get_or raw (i + 1) 0))

-- `(gas[1] & GAS_R_LSB_GAS_VALID) != 0` and `(gas[1] & GAS_R_LSB_HEAT_STAB) != 0`
abbrev pub gas_quality : ℕ → ℕ
gas_quality flags =
    if not (bit_and flags 0x20 == 0) && not (bit_and flags 0x10 == 0) then 100 else 0

-- What `collect` makes of the registers, at the time `now`.
unfoldable pub sampled : Instance → List ℕ → List ℕ → ℕ → Instance
sampled inst raw gas now =
    let (calib, temperature) = compensate_temperature inst.calib (count20 raw 3) in
    let flags = get_or gas 1 0 in
    let gas_adc = u16 (bit_or (get_or gas 0 0 <<< 2) (flags >>> 6)) in
    record inst {
      calib = calib;
      values =
          temperature
          ∷ compensate_humidity calib (count16 raw 6)
          ∷ compensate_pressure calib (count20 raw 0)
          ∷ compensate_gas calib gas_adc (bit_and flags 0x0f)
          ∷ [];
      quality = 100 ∷ 100 ∷ 100 ∷ gas_quality flags ∷ [];
      ambient_c = i16 (temperature /ℤ pos 1000);
      sample_ts_us = now;
      have_sample = true;
    }

-- The index of the first free slot, from `i` on.
unfoldable pub free_slot : ℕ → List Instance → Option ℕ
free_slot i [] = none
free_slot i (x ∷ xs) = let rest = free_slot (i + 1) xs in if x.in_use then rest else some i

-- `instance_of`
unfoldable pub is_bound : {W : Type 0} → Bme W → ℕ → Bool
is_bound s slot = if leb max_instances slot then false else (instance_at s slot).in_use

-- The end of `bme680_poll`: what it puts into the reading.
unfoldable pub fill : Instance → Reading → ℕ → Reading
fill inst out channel = record out {
  value = bits32 (get_or inst.values channel (pos 0));
  quality = get_or inst.quality channel 0;
  ts_us = inst.sample_ts_us;
  channel = channel;
}

-- The status byte of `bme680_poll`: whether a complete measurement waits.
unfoldable pub is_complete : ℕ → Bool
is_complete status =
    if not (bit_and status (bit_or 0x20 0x40) == 0)
    then false
    else if bit_and status 0x80 == 0
    then false
    else true

module _ {W : Type 0} where
  -- `bme680_probe`
  unfoldable pub probe : Bme W → ℕ → Bme W × DrvErr
  probe s bus_addr =
      or_no_bytes (read_regs s bus_addr 0xd0 1) bus_error
        (λ s1 bytes. (s1, (if get_or bytes 0 0 == bme_chip_id then drv_ok else err_range)))

  -- The second half of `configure`: the configuration registers.
  unfoldable pub write_setup : Bme W → ℕ → Bme W × DrvErr
  write_setup s addr = or_refused (write_reg s addr 0x72 1) bus_error λ s1.
      or_refused (write_reg s1 addr 0x75 (u8 (3 <<< 2))) bus_error
        λ s2. or_refused (write_reg s2 addr 0x74 (ctrl_meas 0)) bus_error λ s3. (s3, drv_ok)

  -- `configure`
  unfoldable pub configure : Bme W → ℕ → Bme W × DrvErr
  configure s slot =
      let addr = (instance_at s slot).addr in
      or_no_bytes (read_regs s addr 0x89 calib_block1) bus_error λ s1 block1.
        or_no_bytes (read_regs s1 addr 0xe1 calib_block2) bus_error λ s2 block2.
          or_no_bytes (read_regs s2 addr 0x00 1) bus_error λ s3 heat.
            or_no_bytes (read_regs s3 addr 0x02 1) bus_error λ s4 range.
              or_no_bytes (read_regs s4 addr 0x04 1) bus_error λ s5 err.
                let extra = get_or heat 0 0 ∷ get_or range 0 0 ∷ get_or err 0 0 ∷ [] in
                let calib = parse_calibration block1 block2 extra in
                write_setup (with_instance s5 slot (record (instance_at s5 slot) { calib = calib }))
                  addr

  -- `inst->in_use = false;`
  abbrev pub release : Bme W → ℕ → Bme W
  release s slot = with_instance s slot (record (instance_at s slot) { in_use = false })

  abbrev pub or_release : ℕ → ℕ → Bme W × DrvErr → Bme W × ℕ × DrvErr
  or_release slot scratch (s, err) =
      if is_ok err then (s, slot, drv_ok) else (release s slot, scratch, err)

  -- `bme680_init` with a chip that was probed and a slot that was found.
  unfoldable pub init_slot : Bme W → ℕ → ℕ → ℕ → Bme W × ℕ × DrvErr
  init_slot s bus_addr scratch slot =
      let inst : Instance = record no_instance {
        in_use = true;
        addr = bus_addr;
        ambient_c = pos ambient_default_c;
      } in
      or_refused (write_reg (with_instance s slot inst) bus_addr 0xe0 0xb6)
        (λ s1. (release s1 slot, scratch, err_bus))
        (λ s1. or_release slot scratch (configure s1 slot))

  abbrev pub init_probed : ℕ → ℕ → Bme W × DrvErr → Bme W × ℕ × DrvErr
  init_probed bus_addr scratch (s, err) =
      if not (is_ok err) then (s, scratch, err) else (elim (free_slot 0 s.instances) [
        | none ↦ (s, scratch, err_state)
        | some slot ↦ init_slot s bus_addr scratch slot
      ])

  -- `bme680_init`; the scratch is its first byte.
  unfoldable pub init : Bme W → ℕ → ℕ → Bme W × ℕ × DrvErr
  init s bus_addr scratch =
      if not s.io_set
      then (s, scratch, err_bus)
      else init_probed bus_addr scratch (probe s bus_addr)

  -- `bme680_start_read`
  unfoldable pub start_read : Bme W → ℕ → Bme W × DrvErr
  start_read s slot =
      let inst = instance_at s slot in
      let heat = heater_resistance inst.calib (pos heater_temp_c) inst.ambient_c in
      if not (is_bound s slot)
      then (s, err_state)
      else (or_refused
          (write_reg (with_instance s slot (record inst { have_sample = false })) inst.addr 0x5a
            heat)
          bus_error
          λ s1.
            or_refused (write_reg s1 inst.addr 0x64 (encode_gas_wait heater_duration_ms)) bus_error
              λ s2. or_refused (write_reg s2 inst.addr 0x71 0x10) bus_error λ s3.
                or_refused (write_reg s3 inst.addr 0x74 (ctrl_meas 1)) bus_error λ s4. (s4, drv_ok))

  -- `collect`
  unfoldable pub collect : Bme W → ℕ → Bme W × DrvErr
  collect s slot =
      let inst = instance_at s slot in
      or_no_bytes (read_regs s inst.addr 0x1f 8) bus_error λ s1 raw.
        or_no_bytes (read_regs s1 inst.addr 0x2a 2) bus_error
          λ s2 gas. (with_instance s2 slot (sampled inst raw gas (now_us s2)), drv_ok)

  abbrev pub serve : ℕ → Reading → ℕ → Bme W × DrvErr → Bme W × DrvErr × Reading
  serve slot out channel (s, err) =
      if is_ok err then (s, drv_ok, fill (instance_at s slot) out channel) else (s, err, out)

  -- `bme680_poll`
  unfoldable pub poll : Bme W → ℕ → Reading → ℕ → Bme W × DrvErr × Reading
  poll s slot out channel =
      let inst = instance_at s slot in
      if not (is_bound s slot)
      then (s, err_state, out)
      else if leb bme_channels channel
      then (s, err_no_channel, out)
      else if inst.have_sample
      then serve slot out channel (s, drv_ok)
      else (or_no_bytes (read_regs s inst.addr 0x1d 1) (λ s1. (s1, err_bus, out))
          λ s1 bytes.
            if not (is_complete (get_or bytes 0 0))
            then (s1, err_not_ready, out)
            else serve slot out channel (collect s1 slot))

  -- `bme680_sleep`
  unfoldable pub sleep : Bme W → ℕ → Bme W × DrvErr
  sleep s slot =
      let inst = instance_at s slot in
      if not (is_bound s slot)
      then (s, err_state)
      else (or_refused (write_reg s inst.addr 0x70 0x08) bus_error λ s1.
          or_refused (write_reg s1 inst.addr 0x74 (ctrl_meas 0)) bus_error λ s2.
            (with_instance s2 slot (record (instance_at s2 slot) { have_sample = false }), drv_ok))
