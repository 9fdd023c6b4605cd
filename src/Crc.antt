-- ===== src/Crc.antt =====
-- firmware/common/src/crc16.c: CRC-16/CCITT-FALSE by a table of sixteen nibbles.
pub mod Bounds
pub mod Bitwise
pub mod Detects
use lo_ra_home.Prelude.{ℕ, List, [], ◌∷◌, bit_and, bit_xor, u8, u16, ◌<<<◌, ◌>>>◌, get_or, take}

-- `LORAHOME_CRC16_INIT`
abbrev pub crc16_init : ℕ
crc16_init = 0xffff

-- `LH_CRC16_NIBBLE_TABLE`
abbrev pub nibble_table : List ℕ
nibble_table =
    0x0000 ∷ 0x1021 ∷ 0x2042 ∷ 0x3063 ∷ 0x4084 ∷ 0x50a5 ∷ 0x60c6 ∷ 0x70e7 ∷ 0x8108 ∷ 0x9129 ∷ 0xa14a
    ∷ 0xb16b ∷ 0xc18c ∷ 0xd1ad ∷ 0xe1ce ∷ 0xf1ef ∷ []

-- One lookup: the top nibble of the register meets the nibble `n` of the data.
pub crc_nibble : ℕ → ℕ → ℕ
crc_nibble crc n =
    let index = u8 (bit_and (bit_xor (crc >>> 12) n) 0x0f) in
    u16 (bit_xor (crc <<< 4) (get_or nibble_table index 0))

-- The body of the loop: the high nibble of the byte, then the low one.
pub crc_byte : ℕ → ℕ → ℕ
unfolding crc_nibble
crc_byte crc b = crc_nibble (crc_nibble crc (b >>> 4)) (bit_and b 0x0f)

-- The loop over what is left of the data.
pub crc_loop : ℕ → List ℕ → ℕ
unfolding crc_byte
crc_loop crc [] = crc
crc_loop crc (b ∷ bs) = crc_loop (crc_byte crc b) bs

-- `lorahome_crc16`
unfoldable pub crc16 : List ℕ → ℕ → ℕ
unfolding crc_loop
crc16 bytes len = crc_loop crc16_init (take len bytes)
