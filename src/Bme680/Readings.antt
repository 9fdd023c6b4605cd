-- ===== src/Bme680/Readings.antt =====
-- What a reading of bme680.c shows: the values of its channel, as they are measured.
use lo_ra_home.Prelude.{
  ℕ, zero, suc, ◌<◌, ◌≡◌, refl, List, arith, get_or, if◌then◌else◌, u16, bit_or, bit_and, ◌<<<◌,
  ◌>>>◌, ◌==◌, ℤ, pos, bits32,
}
use lo_ra_home.Driver.{Reading}
use lo_ra_home.Bme680.{Calib, ch_temperature, ch_humidity, ch_pressure, Instance}
use lo_ra_home.Bme680.Compensate.{compensate_temperature, compensate_pressure, compensate_humidity}
use lo_ra_home.Bme680.Gas.{compensate_gas}
use lo_ra_home.Bme680.Chip.{count20, count16, sampled, fill}

-- The value of a channel, from the coefficients and the registers of the environment and of the gas.
abbrev pub value_of : Calib → List ℕ → List ℕ → ℕ → ℤ
value_of calib raw gas channel =
    let (fine, temperature) = compensate_temperature calib (count20 raw 3) in
    let gas_adc = u16 (bit_or (get_or gas 0 0 <<< 2) (get_or gas 1 0 >>> 6)) in
    if channel == ch_temperature
    then temperature
    else if channel == ch_humidity
    then compensate_humidity fine (count16 raw 6)
    else if channel == ch_pressure
    then compensate_pressure fine (count20 raw 0)
    else compensate_gas fine gas_adc (bit_and (get_or gas 1 0) 0x0f)

-- A reading of a channel that shows what the table holds.
pub record Shows (inst : Instance) (channel : ℕ) (r : Reading) : Type 0 where
  pub value : r.value ≡ bits32 (get_or inst.values channel (pos 0))
  pub quality : r.quality ≡ get_or inst.quality channel 0
  pub stamp : r.ts_us ≡ inst.sample_ts_us
  pub named : r.channel ≡ channel

pub fill-Shows :
    (inst : Instance) (out : Reading) (channel : ℕ) → Shows inst channel (fill inst out channel)
unfolding fill
fill-Shows inst out channel = record { value = refl; quality = refl; stamp = refl; named = refl }

-- What a sample shows is measured.
pub sampled-value :
    (inst : Instance) (raw gas : List ℕ) (now channel : ℕ) (r : Reading)
    → channel < 4
    → Shows (sampled inst raw gas now) channel r
    → (r.value ≡ bits32 (value_of inst.calib raw gas channel)) × (r.ts_us ≡ now)
unfolding sampled
sampled-value inst raw gas now zero r h s = (s.value, s.stamp)
sampled-value inst raw gas now (suc zero) r h s = (s.value, s.stamp)
sampled-value inst raw gas now (suc (suc zero)) r h s = (s.value, s.stamp)
sampled-value inst raw gas now (suc (suc (suc zero))) r h s = (s.value, s.stamp)
sampled-value inst raw gas now (suc (suc (suc (suc n)))) r h s = absurd (omega arith)
