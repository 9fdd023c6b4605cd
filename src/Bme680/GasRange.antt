-- ===== src/Bme680/GasRange.antt =====
-- The arithmetic of the gas resistance in bme680.c, for every reading that the chip can give.
use native.Mathlib.Nat.{mul-le-mul}
use lo_ra_home.Prelude.{
  ℕ, ◌+◌, ◌-◌, ◌*◌, ◌/◌, ◌^◌, ◌≤◌, ◌<◌, min, ◌≡◌, refl, true, false, ◌&&◌, List, arith, bit_and,
  leb, ltb, get_or, ℤ, pos, negsuc, int8, nat_abs, ◌+ℤ◌, ◌-ℤ◌, ◌*ℤ◌, ◌/ℤ◌, ◌>>ℤ◌, wrap, wrap-small,
  nat_abs--ℤ-le, ltb_ℤ, if◌then◌else◌, all_below, all_below_sound, leb→le, IsByte,
}
use lo_ra_home.Bme680.{Calib}
use lo_ra_home.Bme680.Calibration.{parse_calibration}
use lo_ra_home.Bme680.Compensate.{int32_max, is_zero_ℤ}
use lo_ra_home.Bme680.Gas.{gas_lookup_k1, gas_lookup_k2, gas_scale, gas_divisor, compensate_gas}

-- The error of the range switch, as four bits.
sw_err_table : all_below 256 (λ e. leb (nat_abs (int8 (bit_and e 0xf0) /ℤ pos 16)) 8) ≡ true
unfolding ◌/ℤ◌
sw_err_table = refl

range_sw_err-le :
    (block1 block2 extra : List ℕ)
    → IsByte (get_or extra 2 0)
    → nat_abs (parse_calibration block1 block2 extra).range_sw_err ≤ 8
unfolding parse_calibration
range_sw_err-le block1 block2 extra h = leb→le _ 8 (
    all_below_sound 256 (λ e. leb (nat_abs (int8 (bit_and e 0xf0) /ℤ pos 16)) 8) (get_or extra 2 0)
      sw_err_table h)

k1_table :
    all_below 16
      (λ r. leb 2126008810 (get_or gas_lookup_k1 r 0) && leb (get_or gas_lookup_k1 r 0) 2147483647)
    ≡ true
k1_table = refl

k2_table : all_below 16 (λ r. leb (get_or gas_lookup_k2 r 0) 4096000000) ≡ true
k2_table = refl

k1-range :
    (r : ℕ)
    → r < 16
    → (2126008810 ≤ get_or gas_lookup_k1 r 0) × (get_or gas_lookup_k1 r 0 ≤ 2147483647)
k1-range r h =
    let t =
      all_below_sound 16
        (λ r.
          leb 2126008810 (get_or gas_lookup_k1 r 0) && leb (get_or gas_lookup_k1 r 0) 2147483647)
        r k1_table h in
    ground (arith, t)

k2-le : (r : ℕ) → r < 16 → get_or gas_lookup_k2 r 0 ≤ 4096000000
k2-le r h =
    leb→le _ _ (all_below_sound 16 (λ r. leb (get_or gas_lookup_k2 r 0) 4096000000) r k2_table h)

sum-pos : (m n : ℕ) → pos m +ℤ pos n ≡ pos (m + n)
unfolding ◌+ℤ◌
sum-pos m n = ground arith

difference-pos : (m n : ℕ) → n ≤ m → pos m -ℤ pos n ≡ pos (m - n)
unfolding ◌-ℤ◌
difference-pos m n h = ground arith

-- `1340 + 5 * range_sw_err`
factor :
    (z : ℤ)
    → nat_abs z ≤ 8
    → (n : ℕ) × (wrap (2 ^ 63) (pos 1340 +ℤ wrap (2 ^ 63) (pos 5 *ℤ z)) ≡ pos n)
      × (1300 ≤ n)
      × (n ≤ 1380)
unfolding ◌+ℤ◌ ◌*ℤ◌ wrap
factor (pos m) h = (1340 + 5 * m, ground arith, omega arith, omega arith)
factor (negsuc m) h = (1335 - 5 * m, ground arith, omega arith, omega arith)

-- `var1`
gas_scale-range :
    (c : Calib) (r : ℕ)
    → nat_abs c.range_sw_err ≤ 8
    → r < 16
    → (s : ℕ) × (gas_scale c r ≡ pos s) × (42000000 ≤ s) × (s ≤ 46000000)
unfolding gas_scale ◌*ℤ◌ ◌>>ℤ◌
gas_scale-range c r h k =
    let (n, e, low, high) = factor c.range_sw_err h in
    let k1 = get_or gas_lookup_k1 r 0 in
    let (at_least, at_most) = k1-range r k in
    let below : n * k1 ≤ 1380 * 2147483647 = mul-le-mul high at_most in
    let above : 1300 * 2126008810 ≤ n * k1 = mul-le-mul low at_least in
    (
      n * k1 / 65536,
      rw (e, wrap-small (2 ^ 63) (pos (n * k1)) (omega (arith, below))),
      omega (arith, above),
      omega (arith, below),
    )

-- The resistance is a quotient of natural numbers, and its divisor is positive.
pub record GasQuotient (c : Calib) (gas_adc gas_range : ℕ) : Type 0 where
  pub scale : ℕ
  pub divisor : ℕ
  pub of_scale : gas_scale c gas_range ≡ pos scale
  pub of_divisor : gas_divisor c gas_adc gas_range ≡ pos divisor
  pub value : divisor ≡ gas_adc * 32768 + scale - 16777216
  pub positive : 0 < divisor
  pub ohms :
      compensate_gas c gas_adc gas_range
      ≡ pos
          (min int32_max ((get_or gas_lookup_k2 gas_range 0 * scale / 512 + divisor / 2) / divisor))

shifted : (a s : ℕ) → 16777216 ≤ s → pos a -ℤ pos 16777216 +ℤ pos s ≡ pos (a + s - 16777216)
unfolding ◌+ℤ◌ ◌-ℤ◌
shifted a s h = ground arith

divisor-eq :
    (c : Calib) (gas_adc r s : ℕ)
    → gas_scale c r ≡ pos s
    → gas_adc < 1024
    → 42000000 ≤ s
    → s ≤ 46000000
    → gas_divisor c gas_adc r ≡ pos (gas_adc * 32768 + s - 16777216)
unfolding gas_divisor ◌*ℤ◌
divisor-eq c gas_adc r s e h low high =
    let a = gas_adc * 32768 in
    let size = nat_abs--ℤ-le (pos a) (pos 16777216) a 16777216 (omega arith) (omega arith) in
    rw (
      e,
      wrap-small (2 ^ 63) (pos a) (omega arith),
      wrap-small (2 ^ 63) (pos a -ℤ pos 16777216) (omega (arith, size)),
      shifted a s (omega arith),
      wrap-small (2 ^ 63) (pos (a + s - 16777216)) (omega arith),
    )

-- The end of `lh_bme680_compensate_gas`.
capped :
    (q : ℕ)
    → (if ltb_ℤ (pos int32_max) (pos q) then pos int32_max else wrap (2 ^ 31) (pos q))
      ≡ pos (min int32_max q)
unfolding wrap
capped q = ground arith

ohms-eq :
    (c : Calib) (gas_adc r s v : ℕ)
    → gas_scale c r ≡ pos s
    → gas_divisor c gas_adc r ≡ pos v
    → 0 < v
    → v ≤ 100000000
    → s ≤ 46000000
    → r < 16
    → compensate_gas c gas_adc r
      ≡ pos (min int32_max ((get_or gas_lookup_k2 r 0 * s / 512 + v / 2) / v))
unfolding compensate_gas ◌*ℤ◌ ◌/ℤ◌ ◌>>ℤ◌
ohms-eq c gas_adc r s v e f positive small below h =
    let k2 = get_or gas_lookup_k2 r 0 in
    let product : k2 * s ≤ 4096000000 * 46000000 = mul-le-mul (k2-le r h) below in
    let in_table : ltb 15 r ≡ false = ground arith in
    let nonzero : is_zero_ℤ (pos v) ≡ false = ground arith in
    rw
      (
        e,
        f,
        wrap-small (2 ^ 63) (pos (k2 * s)) (omega (arith, product)),
        sum-pos (k2 * s / 512) (v / 2),
        wrap-small (2 ^ 63) (pos (k2 * s / 512 + v / 2)) (omega (arith, product)),
        in_table,
        nonzero,
      )
      (capped ((k2 * s / 512 + v / 2) / v))

gas-quotient :
    (c : Calib) (gas_adc r : ℕ)
    → nat_abs c.range_sw_err ≤ 8
    → gas_adc < 1024
    → r < 16
    → GasQuotient c gas_adc r
gas-quotient c gas_adc r h k l =
    let (s, e, low, high) = gas_scale-range c r h l in
    record {
      scale = s;
      divisor = gas_adc * 32768 + s - 16777216;
      of_scale = e;
      of_divisor = divisor-eq c gas_adc r s e k low high;
      value = refl;
      positive = omega arith;
      ohms =
          ohms-eq c gas_adc r s (gas_adc * 32768 + s - 16777216) e
            (divisor-eq c gas_adc r s e k low high) (omega arith) (omega arith) (omega arith) l;
    }

-- With the coefficients that were read from the chip's registers, for every count of ten bits and every
-- range, the resistance is the quotient of natural numbers, up to the largest `int32_t`: no step
-- overflows and the divisor is never zero.
pub gas_exact :
    (block1 block2 extra : List ℕ) (t_fine : ℤ) (gas_adc r : ℕ)
    → IsByte (get_or extra 2 0)
    → gas_adc < 1024
    → r < 16
    → GasQuotient (record (parse_calibration block1 block2 extra) { t_fine = t_fine }) gas_adc r
gas_exact block1 block2 extra t_fine gas_adc r h k l =
    gas-quotient (record (parse_calibration block1 block2 extra) { t_fine = t_fine }) gas_adc r
      (range_sw_err-le block1 block2 extra h) k l
