-- ===== src/Bme680/Gas.antt =====
-- The gas resistance of bme680.c, and the two registers that set its heater.
use lo_ra_home.Prelude.{
  ℕ, zero, suc, ◌+◌, ◌/◌, ◌<<<◌, bit_or, u8, ltb, leb, if◌then◌else◌, List, [], ◌∷◌, get_or, ℤ, pos,
  ◌+ℤ◌, ◌-ℤ◌, ◌*ℤ◌, ◌/ℤ◌, ◌>>ℤ◌, i32, i64, ltb_ℤ, pos_part,
}
use lo_ra_home.Bme680.{Calib}
use lo_ra_home.Bme680.Compensate.{int32_max, is_zero_ℤ}

-- `GAS_LOOKUP_K1`
abbrev pub gas_lookup_k1 : List ℕ
gas_lookup_k1 =
    2147483647 ∷ 2147483647 ∷ 2147483647 ∷ 2147483647 ∷ 2147483647 ∷ 2126008810 ∷ 2147483647
    ∷ 2130303777 ∷ 2147483647 ∷ 2147483647 ∷ 2143188679 ∷ 2136746228 ∷ 2147483647 ∷ 2126008810
    ∷ 2147483647 ∷ 2147483647 ∷ []

-- `GAS_LOOKUP_K2`
abbrev pub gas_lookup_k2 : List ℕ
gas_lookup_k2 =
    4096000000 ∷ 2048000000 ∷ 1024000000 ∷ 512000000 ∷ 255744255 ∷ 127110228 ∷ 64000000 ∷ 32258064
    ∷ 16016016 ∷ 8000000 ∷ 4000000 ∷ 2000000 ∷ 1000000 ∷ 500000 ∷ 250000 ∷ 125000 ∷ []

-- `var1` and `var2` of the gas resistance; `var2` is what it is divided by.
unfoldable pub gas_scale : Calib → ℕ → ℤ
gas_scale c gas_range =
    i64 (i64 (pos 1340 +ℤ i64 (pos 5 *ℤ c.range_sw_err)) *ℤ pos (get_or gas_lookup_k1 gas_range 0))
    >>ℤ 16

unfoldable pub gas_divisor : Calib → ℕ → ℕ → ℤ
gas_divisor c gas_adc gas_range =
    i64 (i64 (i64 (pos gas_adc *ℤ pos 32768) -ℤ pos 16777216) +ℤ gas_scale c gas_range)

-- `lh_bme680_compensate_gas`
unfoldable pub compensate_gas : Calib → ℕ → ℕ → ℤ
compensate_gas c gas_adc gas_range =
    let var2 = gas_divisor c gas_adc gas_range in
    let var3 = i64 (pos (get_or gas_lookup_k2 gas_range 0) *ℤ gas_scale c gas_range) >>ℤ 9 in
    let ohms = i64 (var3 +ℤ (var2 >>ℤ 1)) /ℤ var2 in
    if ltb 15 gas_range
    then pos 0
    else if is_zero_ℤ var2
    then pos 0
    else if ltb_ℤ (pos int32_max) ohms
    then pos int32_max
    else i32 ohms

-- `lh_bme680_heater_resistance`
unfoldable pub heater_resistance : Calib → ℤ → ℤ → ℕ
heater_resistance c target_c ambient_c =
    let capped = if ltb_ℤ (pos 400) target_c then pos 400 else target_c in
    let target = if ltb_ℤ capped (pos 200) then pos 200 else capped in
    let var1 = i32 ((i32 (ambient_c *ℤ c.par_g3) /ℤ pos 1000) *ℤ pos 256) in
    let slope = i32 (i32 (i32 (c.par_g2 +ℤ pos 154009) *ℤ target) *ℤ pos 5) /ℤ pos 100 in
    let var2 = i32 (i32 (c.par_g1 +ℤ pos 784) *ℤ (i32 (slope +ℤ pos 3276800) /ℤ pos 10)) in
    let var3 = i32 (var1 +ℤ (var2 /ℤ pos 2)) in
    let var4 = var3 /ℤ pos (c.res_heat_range + 4) in
    let var5 = i32 (i32 (pos 131 *ℤ c.res_heat_val) +ℤ pos 65536) in
    let res_x100 = i32 (i32 ((var4 /ℤ var5) -ℤ pos 250) *ℤ pos 34) in
    let res = i32 (res_x100 +ℤ pos 50) /ℤ pos 100 in
    if is_zero_ℤ var5
    then 0
    else if ltb_ℤ res (pos 0)
    then 0
    else if ltb_ℤ (pos 255) res
    then 255
    else pos_part res

-- The loop of `lh_bme680_encode_gas_wait`: the value and the factor where it ends, or where the fuel
-- does.
unfoldable pub gas_wait_loop : ℕ → ℕ → ℕ → ℕ × ℕ
gas_wait_loop zero value factor = (value, factor)
gas_wait_loop (suc fuel) value factor =
    let rest = gas_wait_loop fuel (value / 4) (u8 (factor + 1)) in
    if ltb 0x3f value then rest else (value, factor)

-- `lh_bme680_encode_gas_wait`; a value below 0xfc0 is divided three times at most.
unfoldable pub encode_gas_wait : ℕ → ℕ
encode_gas_wait duration_ms =
    if leb 0xfc0 duration_ms
    then 0xff
    else let (value, factor) = gas_wait_loop 3 duration_ms 0 in
      u8 (bit_or value (u8 (factor <<< 6)))
