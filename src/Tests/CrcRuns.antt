-- ===== src/Tests/CrcRuns.antt =====
-- The CRC of the nine digits, which its definition publishes.
use lo_ra_home.Prelude.{ℕ, ◌≡◌, refl, arith, List, [], ◌∷◌, take}
use lo_ra_home.Crc.{crc16}
use lo_ra_home.Crc.Bitwise.{bitwise_loop, crc16-bitwise_loop}

abbrev digits : List ℕ
digits = 49 ∷ 50 ∷ 51 ∷ 52 ∷ 53 ∷ 54 ∷ 55 ∷ 56 ∷ 57 ∷ []

check_value : crc16 digits 9 ≡ 0x29b1
unfolding crc16
check_value = refl

check_value_bitwise : bitwise_loop 0xffff digits ≡ 0x29b1
unfolding bitwise_loop
check_value_bitwise = refl

crc16-bitwise_loop_example : crc16 digits 9 ≡ bitwise_loop 0xffff (take 9 digits)
crc16-bitwise_loop_example = crc16-bitwise_loop digits 9 (ground arith)
