-- ===== src/Bme680/Compensate.antt =====
-- Temperature, pressure and humidity of bme680.c from the raw counts: integer arithmetic, every
-- result cut to the width that the code gives it.
use lo_ra_home.Prelude.{
  ℕ, zero, ◌^◌, ◌-◌, ◌>>>◌, ℤ, pos, ◌+ℤ◌, ◌-ℤ◌, ◌*ℤ◌, ◌/ℤ◌, ◌>>ℤ◌, i32, i64, ltb_ℤ, Bool, true,
  false, if◌then◌else◌,
}
use lo_ra_home.Bme680.{Calib}

abbrev pub int32_max : ℕ
int32_max = 2 ^ 31 - 1

-- `z == 0`
abbrev pub is_zero_ℤ : ℤ → Bool
is_zero_ℤ (pos zero) = true
is_zero_ℤ _ = false

-- The two tests at the end of a channel, for the largest value `most`.
unfoldable pub clamp : ℕ → ℤ → ℤ
clamp most z = if ltb_ℤ (pos most) z then pos most else if ltb_ℤ z (pos 0) then pos 0 else z

-- `t_fine` of `lh_bme680_compensate_temperature`
unfoldable pub fine_temperature : Calib → ℕ → ℤ
fine_temperature c temp_adc =
    let var1 = i32 (pos (temp_adc >>> 3) -ℤ i32 (pos c.par_t1 *ℤ pos 2)) in
    let var2 = i32 (var1 *ℤ c.par_t2) >>ℤ 11 in
    let squared = i32 ((var1 >>ℤ 1) *ℤ (var1 >>ℤ 1)) >>ℤ 12 in
    let var3 = i32 (squared *ℤ i32 (c.par_t3 *ℤ pos 16)) >>ℤ 14 in i32 (var2 +ℤ var3)

-- Hundredths of a degree: `((t_fine * 5) + 128) >> 8`
unfoldable pub centi_degrees : ℤ → ℤ
centi_degrees t_fine = i32 (i32 (t_fine *ℤ pos 5) +ℤ pos 128) >>ℤ 8

-- `lh_bme680_compensate_temperature`: the coefficients with `t_fine`, and the temperature.
unfoldable pub compensate_temperature : Calib → ℕ → Calib × ℤ
compensate_temperature c temp_adc =
    let t_fine = fine_temperature c temp_adc in
    (record c { t_fine = t_fine }, i32 (centi_degrees t_fine *ℤ pos 10))

-- The denominator of the pressure, `var1`, and the `var2` it is computed beside.
unfoldable pub pressure_terms : Calib → ℤ × ℤ
pressure_terms c =
    let var1 = i32 ((c.t_fine >>ℤ 1) -ℤ pos 64000) in
    let squared = i32 ((var1 >>ℤ 2) *ℤ (var1 >>ℤ 2)) in
    let var2 = i32 ((squared >>ℤ 11) *ℤ c.par_p6) >>ℤ 2 in
    let var2 = i32 (var2 +ℤ i32 (i32 (var1 *ℤ c.par_p5) *ℤ pos 2)) in
    let var2 = i32 ((var2 >>ℤ 2) +ℤ i32 (c.par_p4 *ℤ pos 65536)) in
    let var1 = i32 (
      (i32 ((squared >>ℤ 13) *ℤ i32 (c.par_p3 *ℤ pos 32)) >>ℤ 3)
      +ℤ (i32 (c.par_p2 *ℤ var1) >>ℤ 1)) in
    let var1 = var1 >>ℤ 18 in (i32 (i32 (pos 32768 +ℤ var1) *ℤ pos c.par_p1) >>ℤ 15, var2)

-- `press`, where `var1` is not zero.
unfoldable pub raw_pressure : ℤ → ℤ → ℕ → ℤ
raw_pressure var1 var2 press_adc =
    let left = i32 (i32 (pos 1048576 -ℤ i32 (pos press_adc)) -ℤ (var2 >>ℤ 12)) in
    let scaled = i64 (left *ℤ pos 3125) in i32 (i64 (scaled *ℤ pos 2) /ℤ var1)

-- `result`
unfoldable pub corrected : Calib → ℤ → ℤ
corrected c p =
    let corr1 = i64 (c.par_p9 *ℤ (i64 ((p >>ℤ 3) *ℤ (p >>ℤ 3)) >>ℤ 13)) >>ℤ 12 in
    let corr2 = i64 ((p >>ℤ 2) *ℤ c.par_p8) >>ℤ 13 in
    let cube = i64 (i64 ((p >>ℤ 8) *ℤ (p >>ℤ 8)) *ℤ (p >>ℤ 8)) in
    let corr3 = i64 (cube *ℤ pos c.par_p10) >>ℤ 17 in
    let corr7 = i64 (c.par_p7 *ℤ pos 128) in
    i64 (p +ℤ (i64 (i64 (i64 (corr1 +ℤ corr2) +ℤ corr3) +ℤ corr7) >>ℤ 4))

-- `lh_bme680_compensate_pressure`
unfoldable pub compensate_pressure : Calib → ℕ → ℤ
compensate_pressure c press_adc =
    let (var1, var2) = pressure_terms c in
    if is_zero_ℤ var1
    then pos 0
    else clamp int32_max (corrected c (raw_pressure var1 var2 press_adc))

-- `var1` and `var2` of the humidity, for the temperature in hundredths of a degree.
unfoldable pub humidity_offset : Calib → ℤ → ℕ → ℤ
humidity_offset c t hum_adc =
    let drift = i32 (t *ℤ c.par_h3) /ℤ pos 100 in
    i32 (i32 (pos hum_adc -ℤ i32 (pos c.par_h1 *ℤ pos 16)) -ℤ (drift >>ℤ 1))

unfoldable pub humidity_scale : Calib → ℤ → ℤ
humidity_scale c t =
    let linear = i32 (t *ℤ c.par_h4) /ℤ pos 100 in
    let squared = (i32 (t *ℤ (i32 (t *ℤ c.par_h5) /ℤ pos 100)) >>ℤ 6) /ℤ pos 100 in
    i32 (pos c.par_h2 *ℤ i32 (i32 (linear +ℤ squared) +ℤ pos 16384)) >>ℤ 10

-- `var4`
unfoldable pub humidity_bend : Calib → ℤ → ℤ
humidity_bend c t = i32 (i32 (pos c.par_h6 *ℤ pos 128) +ℤ (i32 (t *ℤ c.par_h7) /ℤ pos 100)) >>ℤ 4

-- `lh_bme680_compensate_humidity`
unfoldable pub compensate_humidity : Calib → ℕ → ℤ
compensate_humidity c hum_adc =
    let t = centi_degrees c.t_fine in
    let var3 = i64 (humidity_offset c t hum_adc *ℤ humidity_scale c t) in
    let var5 = i64 ((var3 >>ℤ 14) *ℤ (var3 >>ℤ 14)) >>ℤ 10 in
    let var6 = i64 (humidity_bend c t *ℤ var5) >>ℤ 1 in
    clamp 100000 (i64 ((i64 (var3 +ℤ var6) >>ℤ 10) *ℤ pos 1000) >>ℤ 12)
