-- ===== src/Crc/Bounds.antt =====
-- The register of the CRC stays a `uint16_t`, and the CRC of a prefix is resumed by the loop.
use lo_ra_home.Prelude.{ℕ, ◌≡◌, refl, arith, List, [], ◌∷◌, ◌++◌, take, IsU16}
use lo_ra_home.Crc.{crc16_init, crc_byte, crc_loop, crc16}

pub crc_byte-IsU16 : (crc b : ℕ) → IsU16 (crc_byte crc b)
unfolding crc_byte
crc_byte-IsU16 crc b = omega arith

pub crc_loop-IsU16 : (crc : ℕ) (bs : List ℕ) → IsU16 crc → IsU16 (crc_loop crc bs)
unfolding crc_loop
crc_loop-IsU16 crc [] h = h
crc_loop-IsU16 crc (b ∷ bs) h = crc_loop-IsU16 (crc_byte crc b) bs (crc_byte-IsU16 crc b)

pub crc16-IsU16 : (bytes : List ℕ) (len : ℕ) → IsU16 (crc16 bytes len)
unfolding crc16
crc16-IsU16 bytes len = crc_loop-IsU16 crc16_init (take len bytes) (omega arith)

pub crc_loop-append :
    (crc : ℕ) (xs ys : List ℕ) → crc_loop crc (xs ++ ys) ≡ crc_loop (crc_loop crc xs) ys
unfolding crc_loop
crc_loop-append crc [] ys = refl
crc_loop-append crc (x ∷ xs) ys = crc_loop-append (crc_byte crc x) xs ys

-- The CRC reads `len` bytes and no more.
pub crc16-take :
    (xs ys : List ℕ) (len : ℕ) → take len xs ≡ take len ys → crc16 xs len ≡ crc16 ys len
unfolding crc16
crc16-take xs ys len e = rw e
