-- ===== src/Cbor.antt =====
-- firmware/common/include/lorahome/cbor.h and firmware/common/src/cbor.c: the subset of CBOR that
-- goes on the air.
pub mod Writer
pub mod Reader
pub mod Skip
pub mod Heads
pub mod Writes
pub mod ByteStrings
pub mod Finish
pub mod Items
pub mod Steps
pub mod Walks
pub mod Skips
use lo_ra_home.Prelude.{
  ℕ, ◌%◌, ◌^◌, ◌*◌, List, [], ◌∷◌, zero, suc, bit_or, u8, ◌<<<◌, ◌>>>◌, ltb, leb, if◌then◌else◌,
}

abbrev pub u64 : ℕ → ℕ
u64 n = n % 2 ^ 64

-- The major types, `LH_CBOR_MAJOR_UINT` and so on.
abbrev pub major_uint : ℕ
major_uint = 0

abbrev pub major_nint : ℕ
major_nint = 1

abbrev pub major_bytes : ℕ
major_bytes = 2

abbrev pub major_array : ℕ
major_array = 4

abbrev pub major_map : ℕ
major_map = 5

-- The `n` low bytes of `v`, the highest first.
abbrev pub be_bytes : ℕ → ℕ → List ℕ
be_bytes zero v = []
be_bytes (suc n) v = u8 (v >>> (8 * n)) ∷ be_bytes n v

-- The bytes that `write_head` puts: the argument in the shortest form that fits.
unfoldable pub head_bytes : ℕ → ℕ → List ℕ
head_bytes major argument =
    let prefix = u8 (major <<< 5) in
    if ltb argument 24
    then u8 (bit_or prefix (u8 argument)) ∷ []
    else if leb argument 0xff
    then u8 (bit_or prefix 24) ∷ be_bytes 1 argument
    else if leb argument 0xffff
    then u8 (bit_or prefix 25) ∷ be_bytes 2 argument
    else if leb argument 0xffffffff
    then u8 (bit_or prefix 26) ∷ be_bytes 4 argument
    else u8 (bit_or prefix 27) ∷ be_bytes 8 argument
