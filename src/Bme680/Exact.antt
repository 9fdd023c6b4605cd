-- ===== src/Bme680/Exact.antt =====
-- Where the 32-bit arithmetic of the temperature in bme680.c is the arithmetic of the integers.
use lo_ra_home.Prelude.{
  ℕ, ◌+◌, ◌*◌, ◌^◌, ◌≤◌, ◌<◌, ◌≡◌, arith, ◌>>>◌, ℤ, pos, nat_abs, ◌+ℤ◌, ◌-ℤ◌, ◌*ℤ◌, ◌>>ℤ◌, wrap,
  wrap-small, nat_abs-+ℤ-le, nat_abs-*ℤ-le, nat_abs-shift_le,
}
use lo_ra_home.Bme680.{Calib}
use lo_ra_home.Bme680.Compensate.{fine_temperature, centi_degrees, compensate_temperature}

-- How far a raw count is from the count that the chip gives at its reference temperature.
abbrev pub offset : Calib → ℕ → ℤ
offset c temp_adc = pos (temp_adc >>> 3) -ℤ pos (c.par_t1 * 2)

-- The polynomial of the datasheet, over the integers.
abbrev pub linear : Calib → ℤ → ℤ
linear c d = d *ℤ c.par_t2

abbrev pub square : ℤ → ℤ
square d = (d >>ℤ 1) *ℤ (d >>ℤ 1)

abbrev pub third : Calib → ℤ
third c = c.par_t3 *ℤ pos 16

abbrev pub bend : Calib → ℤ → ℤ
bend c d = (square d >>ℤ 12) *ℤ third c

abbrev pub fine_of : Calib → ℤ → ℤ
fine_of c d = (linear c d >>ℤ 11) +ℤ (bend c d >>ℤ 14)

abbrev pub centi_of : ℤ → ℤ
centi_of t = (t *ℤ pos 5 +ℤ pos 128) >>ℤ 8

-- The ranges of the temperature's coefficients, and a raw count less than 2^19 away from the reference.
pub record InRange (c : Calib) (temp_adc : ℕ) : Type 0 where
  pub par_t1 : c.par_t1 < 2 ^ 16
  pub par_t2 : nat_abs c.par_t2 ≤ 2 ^ 15
  pub par_t3 : nat_abs c.par_t3 ≤ 2 ^ 7
  pub near : nat_abs (offset c temp_adc) < 2 ^ 16
  pub count : temp_adc < 2 ^ 20

offset-exact :
    (c : Calib) (temp_adc : ℕ)
    → InRange c temp_adc
    → wrap (2 ^ 31) (pos (temp_adc >>> 3) -ℤ wrap (2 ^ 31) (pos c.par_t1 *ℤ pos 2))
      ≡ offset c temp_adc
unfolding ◌*ℤ◌
offset-exact c temp_adc r =
    rw (wrap-small (2 ^ 31) (pos (c.par_t1 * 2)) (omega (arith, r)))
      (wrap-small (2 ^ 31) (offset c temp_adc) (omega (arith, r)))

-- How large the terms get.
record Small (c : Calib) (d : ℤ) : Type 0 where
  pub linear_le : nat_abs (linear c d) < 2 ^ 31
  pub square_le : nat_abs (square d) < 2 ^ 31
  pub third_le : nat_abs (third c) < 2 ^ 31
  pub bend_le : nat_abs (bend c d) < 2 ^ 31
  pub fine_le : nat_abs (fine_of c d) ≤ 2 ^ 20 + 2 ^ 15

terms-Small : (c : Calib) (temp_adc : ℕ) → InRange c temp_adc → Small c (offset c temp_adc)
terms-Small c temp_adc r =
    let d = offset c temp_adc in
    let l : nat_abs (linear c d) ≤ 65535 * 2 ^ 15 =
      nat_abs-*ℤ-le d c.par_t2 65535 (2 ^ 15) (omega (arith, r)) r.par_t2 in
    let half : nat_abs (d >>ℤ 1) ≤ 2 ^ 15 = nat_abs-shift_le d 1 (2 ^ 15) (omega (arith, r)) in
    let s : nat_abs (square d) ≤ 2 ^ 30 =
      nat_abs-*ℤ-le (d >>ℤ 1) (d >>ℤ 1) (2 ^ 15) (2 ^ 15) half half in
    let curve : nat_abs (square d >>ℤ 12) ≤ 2 ^ 18 = nat_abs-shift_le (square d) 12 (2 ^ 18) s in
    let t : nat_abs (third c) ≤ 2 ^ 11 =
      nat_abs-*ℤ-le c.par_t3 (pos 16) (2 ^ 7) 16 r.par_t3 (omega arith) in
    let b : nat_abs (bend c d) ≤ 2 ^ 29 =
      nat_abs-*ℤ-le (square d >>ℤ 12) (third c) (2 ^ 18) (2 ^ 11) curve t in
    let l11 = nat_abs-shift_le (linear c d) 11 (2 ^ 20) (omega (arith, l)) in
    let b14 = nat_abs-shift_le (bend c d) 14 (2 ^ 15) b in
    record {
      linear_le = omega (arith, l);
      square_le = omega (arith, s);
      third_le = omega (arith, t);
      bend_le = omega (arith, b);
      fine_le = nat_abs-+ℤ-le (linear c d >>ℤ 11) (bend c d >>ℤ 14) (2 ^ 20) (2 ^ 15) l11 b14;
    }

fine_temperature-exact :
    (c : Calib) (temp_adc : ℕ)
    → InRange c temp_adc
    → fine_temperature c temp_adc ≡ fine_of c (offset c temp_adc)
unfolding fine_temperature
fine_temperature-exact c temp_adc r =
    let d = offset c temp_adc in
    let v = terms-Small c temp_adc r in
    rw (
      offset-exact c temp_adc r,
      wrap-small (2 ^ 31) (linear c d) v.linear_le,
      wrap-small (2 ^ 31) (square d) v.square_le,
      wrap-small (2 ^ 31) (third c) v.third_le,
      wrap-small (2 ^ 31) (bend c d) v.bend_le,
      wrap-small (2 ^ 31) (fine_of c d) (omega (arith, v)),
    )

centi_degrees-exact :
    (t : ℤ)
    → nat_abs t ≤ 2 ^ 20 + 2 ^ 15
    → (centi_degrees t ≡ centi_of t) × (nat_abs (centi_of t) ≤ 2 ^ 15)
unfolding centi_degrees
centi_degrees-exact t h =
    let scaled : nat_abs (t *ℤ pos 5) ≤ (2 ^ 20 + 2 ^ 15) * 5 =
      nat_abs-*ℤ-le t (pos 5) (2 ^ 20 + 2 ^ 15) 5 h (omega arith) in
    let sum =
      nat_abs-+ℤ-le (t *ℤ pos 5) (pos 128) ((2 ^ 20 + 2 ^ 15) * 5) 128 scaled (omega arith) in
    (
      rw (
        wrap-small (2 ^ 31) (t *ℤ pos 5) (omega (arith, scaled)),
        wrap-small (2 ^ 31) (t *ℤ pos 5 +ℤ pos 128) (omega (arith, sum)),
      ),
      nat_abs-shift_le (t *ℤ pos 5 +ℤ pos 128) 8 (2 ^ 15) (omega (arith, sum)),
    )

-- For coefficients of the widths that the chip stores and a raw count less than 2^19 away from the
-- reference count, no step of the temperature leaves the range of an `int32_t`: `t_fine` and the
-- temperature are those of the polynomial over the integers, and the temperature is at most
-- 327.68 degrees from zero.
pub temperature_exact :
    (c : Calib) (temp_adc : ℕ)
    → InRange c temp_adc
    → (compensate_temperature c temp_adc ≡ (
      record c { t_fine = fine_of c (offset c temp_adc) },
      centi_of (fine_of c (offset c temp_adc)) *ℤ pos 10,
    ))
      × (nat_abs (compensate_temperature c temp_adc).1 ≤ 327680)
unfolding compensate_temperature
temperature_exact c temp_adc r =
    let v = terms-Small c temp_adc r in
    let t = fine_of c (offset c temp_adc) in
    let e = centi_degrees-exact t v.fine_le in
    let most : nat_abs (centi_of t *ℤ pos 10) ≤ 2 ^ 15 * 10 =
      nat_abs-*ℤ-le (centi_of t) (pos 10) (2 ^ 15) 10 e.1 (omega arith) in
    let fits : wrap (2 ^ 31) (centi_of t *ℤ pos 10) ≡ centi_of t *ℤ pos 10 =
      wrap-small (2 ^ 31) (centi_of t *ℤ pos 10) (omega (arith, most)) in
    (
      rw (fine_temperature-exact c temp_adc r, e.0, fits),
      rw (fine_temperature-exact c temp_adc r, e.0, fits) most,
    )
