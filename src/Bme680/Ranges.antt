-- ===== src/Bme680/Ranges.antt =====
-- The ranges of what bme680.c puts into its table, whatever the registers hold.
use native.Mathlib.Decide.{ℕ_discrete}
use lo_ra_home.Prelude.{
  ℕ, ◌≡◌, Bool-cases, ◌⊎◌, inl, inr, List, arith, get_or, ℤ, pos, ◌≤ℤ◌, bit_and,
}
use lo_ra_home.Prelude.Bits.{bit_at, bit_and_pow-zero, bit_and_pow-ne}
use lo_ra_home.Bme680.{Calib, Instance}
use lo_ra_home.Bme680.Compensate.{
  int32_max, clamp, is_zero_ℤ, pressure_terms, compensate_pressure, compensate_humidity,
}
use lo_ra_home.Bme680.Chip.{gas_quality, sampled}

clamp-range : (most : ℕ) (z : ℤ) → (pos 0 ≤ℤ clamp most z) × (clamp most z ≤ℤ pos most)
unfolding clamp
clamp-range most z = ground arith

humidity-range :
    (c : Calib) (adc : ℕ)
    → (pos 0 ≤ℤ compensate_humidity c adc) × (compensate_humidity c adc ≤ℤ pos 100000)
unfolding compensate_humidity
humidity-range c adc = clamp-range 100000 _

pressure-range :
    (c : Calib) (adc : ℕ)
    → (pos 0 ≤ℤ compensate_pressure c adc) × (compensate_pressure c adc ≤ℤ pos int32_max)
unfolding compensate_pressure
pressure-range c adc = elim (Bool-cases (is_zero_ℤ (pressure_terms c).0)) [
  | inl zero_term ↦ rw zero_term (omega arith, omega arith)
  | inr divided ↦ rw divided (clamp-range int32_max _)
]

-- The quality of the gas channel tells whether the reading was valid and the heater stable.
pub Trusted : ℕ → ℕ → Type 0
Trusted flags quality =
    (quality ≡ 100) × (bit_at flags 5 ≡ 1) × (bit_at flags 4 ≡ 1)
    ⊎ (quality ≡ 0) × ((bit_at flags 5 ≡ 0) ⊎ (bit_at flags 4 ≡ 0))

gas_quality-Trusted : (flags : ℕ) → Trusted flags (gas_quality flags)
unfolding Trusted
gas_quality-Trusted flags = elim (ℕ_discrete (bit_and flags 0x20) 0) [
  | yes e ↦ inr (ground (arith, e), inl (bit_and_pow-zero flags 5 e))
  | no n ↦ elim (ℕ_discrete (bit_and flags 0x10) 0) [
    | yes e ↦ inr (ground (arith, e), inr (bit_and_pow-zero flags 4 e))
    | no m ↦ inl (ground (arith, n, m), bit_and_pow-ne flags 5 n, bit_and_pow-ne flags 4 m)
  ]
]

-- Whatever the registers and the coefficients, the humidity lies between 0 and 100 %, the pressure
-- between 0 and the largest `int32_t`, and the gas channel has quality 100 where its two flags are
-- set and 0 otherwise.
pub sampled_ranges :
    (inst : Instance) (raw gas : List ℕ) (now : ℕ)
    → (pos 0 ≤ℤ get_or (sampled inst raw gas now).values 1 (pos 0))
      × (get_or (sampled inst raw gas now).values 1 (pos 0) ≤ℤ pos 100000)
      × (pos 0 ≤ℤ get_or (sampled inst raw gas now).values 2 (pos 0))
      × (get_or (sampled inst raw gas now).values 2 (pos 0) ≤ℤ pos int32_max)
      × Trusted (get_or gas 1 0) (get_or (sampled inst raw gas now).quality 3 0)
unfolding sampled
sampled_ranges inst raw gas now =
    let h = humidity-range _ _ in
    let p = pressure-range _ _ in (h.0, h.1, p.0, p.1, gas_quality-Trusted (get_or gas 1 0))
