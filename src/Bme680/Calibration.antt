-- ===== src/Bme680/Calibration.antt =====
-- The calibration registers of bme680.c as coefficients.
use lo_ra_home.Prelude.{
  ℕ, ◌+◌, bit_and, bit_or, u8, u16, ◌<<<◌, ◌>>>◌, pos, int8, int16, ◌/ℤ◌, List, get_or,
}
use lo_ra_home.Bme680.{Calib}

-- `u16_of(&block[i])`: the low byte comes first.
unfoldable pub u16_of : List ℕ → ℕ → ℕ
u16_of block i = u16 (bit_or (get_or block (i + 1) 0 <<< 8) (get_or block i 0))

-- `lh_bme680_parse_calibration`
unfoldable pub parse_calibration : List ℕ → List ℕ → List ℕ → Calib
parse_calibration block1 block2 extra =
    let b1 : ℕ → ℕ = λ i. get_or block1 i 0 in
    let b2 : ℕ → ℕ = λ i. get_or block2 i 0 in
    record {
      par_t1 = u16_of block2 8;
      par_t2 = int16 (u16_of block1 1);
      par_t3 = int8 (b1 3);
      par_p1 = u16_of block1 5;
      par_p2 = int16 (u16_of block1 7);
      par_p3 = int8 (b1 9);
      par_p4 = int16 (u16_of block1 11);
      par_p5 = int16 (u16_of block1 13);
      par_p6 = int8 (b1 16);
      par_p7 = int8 (b1 15);
      par_p8 = int16 (u16_of block1 19);
      par_p9 = int16 (u16_of block1 21);
      par_p10 = b1 23;
      par_h1 = u16 (bit_or (b2 2 <<< 4) (bit_and (b2 1) 0x0f));
      par_h2 = u16 (bit_or (b2 0 <<< 4) (b2 1 >>> 4));
      par_h3 = int8 (b2 3);
      par_h4 = int8 (b2 4);
      par_h5 = int8 (b2 5);
      par_h6 = b2 6;
      par_h7 = int8 (b2 7);
      par_g1 = int8 (b2 12);
      par_g2 = int16 (u16_of block2 10);
      par_g3 = int8 (b2 13);
      res_heat_range = u8 (bit_and (get_or extra 1 0) 0x30 >>> 4);
      res_heat_val = int8 (get_or extra 0 0);
      range_sw_err = int8 (bit_and (get_or extra 2 0) 0xf0) /ℤ pos 16;
      t_fine = pos 0;
    }
