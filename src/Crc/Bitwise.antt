-- ===== src/Crc/Bitwise.antt =====
-- CRC-16/CCITT-FALSE as its definition has it, bit by bit, and the table of crc16.c against it.
use lo_ra_home.Prelude.{
  ℕ, zero, suc, ◌+◌, ◌*◌, ◌/◌, ◌%◌, ◌^◌, ◌<◌, ◌≡◌, refl, sym, ap, ap₂, ◌∙◌, arith, List, [], ◌∷◌,
  take, All, All-take, IsByte, IsU16, bit_xor, bit_and, u8, u16, ◌<<<◌, ◌>>>◌, get_or, leb, ltb,
  ◌==◌, ==_iff, if◌then◌else◌, all_below, all_below_sound, true, ltb→lt,
}
use lo_ra_home.Prelude.Bits.{bit_and_mask}
use lo_ra_home.Prelude.Xor.{
  bit_xor_comm, bit_xor_assoc, bit_xor-zero, bit_xor_interchange, bit_xor-shift, bit_xor-lt,
  bit_xor_fields, bit_xor_by_fields,
}
use lo_ra_home.Crc.{crc16_init, nibble_table, crc_nibble, crc_byte, crc_loop, crc16}
use lo_ra_home.Crc.Bounds.{crc_byte-IsU16}

-- One bit: the register moves left, and the polynomial 0x1021 is subtracted for the bit that leaves it.
unfoldable pub crc_bit : ℕ → ℕ
crc_bit crc = if leb 0x8000 crc then bit_xor (u16 (crc <<< 1)) 0x1021 else crc <<< 1

unfoldable pub crc_bits : ℕ → ℕ → ℕ
crc_bits zero crc = crc
crc_bits (suc n) crc = crc_bits n (crc_bit crc)

-- A byte meets the top of the register, and eight bits leave it.
unfoldable pub bitwise_loop : ℕ → List ℕ → ℕ
unfolding crc_bits crc_bit
bitwise_loop crc [] = crc
bitwise_loop crc (b ∷ bs) = bitwise_loop (crc_bits 8 (bit_xor crc (b <<< 8))) bs

-- The top bit and the rest of a register.
pub crc_bit-at :
    (top rest : ℕ)
    → top < 2
    → rest < 2 ^ 15
    → crc_bit (top * 2 ^ 15 + rest) ≡ bit_xor (rest * 2) (top * 0x1021)
unfolding crc_bit
crc_bit-at zero rest h k = ground (arith, bit_xor-zero (rest * 2))
crc_bit-at (suc zero) rest h k =
    let shifted : u16 ((1 * 2 ^ 15 + rest) <<< 1) ≡ rest * 2 = omega arith in
    let carry : leb 0x8000 (1 * 2 ^ 15 + rest) ≡ true = ground arith in rw (carry, shifted)
crc_bit-at (suc (suc top)) rest h k = absurd (omega arith)

polynomial-bit_xor :
    (s t : ℕ) → s < 2 → t < 2 → bit_xor s t * 0x1021 ≡ bit_xor (s * 0x1021) (t * 0x1021)
polynomial-bit_xor zero zero h k = refl
polynomial-bit_xor zero (suc zero) h k = refl
polynomial-bit_xor (suc zero) zero h k = refl
polynomial-bit_xor (suc zero) (suc zero) h k = refl
polynomial-bit_xor (suc (suc s)) t h k = absurd (omega arith)
polynomial-bit_xor zero (suc (suc t)) h k = absurd (omega arith)
polynomial-bit_xor (suc zero) (suc (suc t)) h k = absurd (omega arith)

crc_bit-fields :
    (s x t y : ℕ)
    → s < 2
    → x < 2 ^ 15
    → t < 2
    → y < 2 ^ 15
    → crc_bit (bit_xor (s * 2 ^ 15 + x) (t * 2 ^ 15 + y))
      ≡ bit_xor (crc_bit (s * 2 ^ 15 + x)) (crc_bit (t * 2 ^ 15 + y))
crc_bit-fields s x t y a b c d =
    ap crc_bit (bit_xor_by_fields 15 s x t y b d)
    ∙ crc_bit-at (bit_xor s t) (bit_xor x y) (bit_xor-lt 1 s t a c) (bit_xor-lt 15 x y b d)
    ∙ ap₂ bit_xor (sym (bit_xor-shift 1 x y)) (polynomial-bit_xor s t a c)
    ∙ bit_xor_interchange (x * 2) (y * 2) (s * 0x1021) (t * 0x1021)
    ∙ ap₂ bit_xor (sym (crc_bit-at s x a b)) (sym (crc_bit-at t y c d))

-- The register is linear.
pub crc_bit-bit_xor :
    (x y : ℕ) → IsU16 x → IsU16 y → crc_bit (bit_xor x y) ≡ bit_xor (crc_bit x) (crc_bit y)
crc_bit-bit_xor x y h k =
    let e : x / 2 ^ 15 * 2 ^ 15 + x % 2 ^ 15 ≡ x = omega arith in
    let f : y / 2 ^ 15 * 2 ^ 15 + y % 2 ^ 15 ≡ y = omega arith in
    rw (e, f) at
      (crc_bit-fields (x / 2 ^ 15) (x % 2 ^ 15) (y / 2 ^ 15) (y % 2 ^ 15) (omega arith)
        (omega arith) (omega arith) (omega arith))

pub crc_bit-IsU16 : (x : ℕ) → IsU16 x → IsU16 (crc_bit x)
unfolding crc_bit
crc_bit-IsU16 x h = ground (arith, bit_xor-lt 16 (u16 (x <<< 1)) 0x1021 (omega arith) (omega arith))

pub crc_bits-bit_xor :
    (n x y : ℕ)
    → IsU16 x
    → IsU16 y
    → crc_bits n (bit_xor x y) ≡ bit_xor (crc_bits n x) (crc_bits n y)
unfolding crc_bits
crc_bits-bit_xor zero x y h k = refl
crc_bits-bit_xor (suc n) x y h k =
    ap (crc_bits n) (crc_bit-bit_xor x y h k)
    ∙ crc_bits-bit_xor n (crc_bit x) (crc_bit y) (crc_bit-IsU16 x h) (crc_bit-IsU16 y k)

-- Four bits: of a register that is clear above, and of one that is clear below.
pub crc_bits-low : (x : ℕ) → x < 2 ^ 12 → crc_bits 4 x ≡ x * 16
unfolding crc_bits crc_bit
crc_bits-low x h = ground arith

table_right : all_below 16 (λ n. crc_bits 4 (n * 2 ^ 12) == get_or nibble_table n 0) ≡ true
unfolding crc_bits crc_bit
table_right = refl

crc_bits-top : (n : ℕ) → n < 16 → crc_bits 4 (n * 2 ^ 12) ≡ get_or nibble_table n 0
crc_bits-top n h =
    (==_iff (crc_bits 4 (n * 2 ^ 12)) (get_or nibble_table n 0)).0
      (all_below_sound 16 (λ n. crc_bits 4 (n * 2 ^ 12) == get_or nibble_table n 0) n table_right h)

table_small : all_below 16 (λ n. ltb (get_or nibble_table n 0) (2 ^ 16)) ≡ true
table_small = refl

table-lt : (n : ℕ) → n < 16 → get_or nibble_table n 0 < 2 ^ 16
table-lt n h =
    ltb→lt _ _ (all_below_sound 16 (λ n. ltb (get_or nibble_table n 0) (2 ^ 16)) n table_small h)

four_bits :
    (hi lo : ℕ)
    → hi < 16
    → lo < 2 ^ 12
    → crc_bits 4 (hi * 2 ^ 12 + lo) ≡ bit_xor (get_or nibble_table hi 0) (lo * 16)
four_bits hi lo h k =
    ap (crc_bits 4) (sym (bit_xor_fields 12 hi lo k))
    ∙ crc_bits-bit_xor 4 (hi * 2 ^ 12) lo (omega arith) (omega arith)
    ∙ ap₂ bit_xor (crc_bits-top hi h) (crc_bits-low lo k)

nibble_at :
    (hi lo n : ℕ)
    → hi < 16
    → lo < 2 ^ 12
    → n < 16
    → crc_nibble (hi * 2 ^ 12 + lo) n ≡ bit_xor (get_or nibble_table (bit_xor hi n) 0) (lo * 16)
unfolding crc_nibble
nibble_at hi lo n h k l =
    let small : bit_xor hi n < 2 ^ 4 = bit_xor-lt 4 hi n h l in
    let top : (hi * 2 ^ 12 + lo) >>> 12 ≡ hi = omega arith in
    let index : u8 (bit_and (bit_xor hi n) 0x0f) ≡ bit_xor hi n =
      omega (arith, bit_and_mask 4 (bit_xor hi n)) in
    let entry = get_or nibble_table (bit_xor hi n) 0 in
    let moved : (hi * 2 ^ 12 + lo) <<< 4 ≡ hi * 2 ^ 16 + lo * 16 = omega arith in
    let sum : bit_xor (hi * 2 ^ 16 + lo * 16) entry
        ≡ bit_xor hi 0 * 2 ^ 16 + bit_xor (lo * 16) entry =
      ap (bit_xor (hi * 2 ^ 16 + lo * 16)) {x = entry} {y = 0 * 2 ^ 16 + entry} (omega arith)
      ∙ bit_xor_by_fields 16 hi (lo * 16) 0 entry (omega arith) (table-lt (bit_xor hi n) small) in
    let fits = bit_xor-lt 16 (lo * 16) entry (omega arith) (table-lt (bit_xor hi n) small) in
    rw (top, index, moved) (omega (arith, sum, fits, bit_xor_comm (lo * 16) entry))

crc_nibble-bits :
    (crc n : ℕ) → IsU16 crc → n < 16 → crc_nibble crc n ≡ crc_bits 4 (bit_xor crc (n * 2 ^ 12))
crc_nibble-bits crc n h k =
    let hi = crc / 2 ^ 12 in
    let lo = crc % 2 ^ 12 in
    let e : crc ≡ hi * 2 ^ 12 + lo = omega arith in
    let met : bit_xor crc (n * 2 ^ 12) ≡ bit_xor hi n * 2 ^ 12 + lo =
      ap (λ t. bit_xor t (n * 2 ^ 12)) e
      ∙ ap (bit_xor (hi * 2 ^ 12 + lo)) {x = n * 2 ^ 12} {y = n * 2 ^ 12 + 0} (omega arith)
      ∙ bit_xor_by_fields 12 hi lo n 0 (omega arith) (omega arith)
      ∙ ap (λ t. bit_xor hi n * 2 ^ 12 + t) (bit_xor-zero lo) in
    ap (λ t. crc_nibble t n) e
    ∙ nibble_at hi lo n (omega arith) (omega arith) k
    ∙ sym (four_bits (bit_xor hi n) lo (bit_xor-lt 4 hi n (omega arith) k) (omega arith))
    ∙ ap (crc_bits 4) (sym met)

crc_nibble-IsU16 : (crc n : ℕ) → IsU16 (crc_nibble crc n)
unfolding crc_nibble
crc_nibble-IsU16 crc n = omega arith

pub eight_bits : (x : ℕ) → crc_bits 8 x ≡ crc_bits 4 (crc_bits 4 x)
unfolding crc_bits
eight_bits x = refl

-- The two nibbles of a byte meet the register one after the other.
split_byte :
    (crc high low : ℕ)
    → IsU16 crc
    → high < 16
    → low < 16
    → crc_bits 8 (bit_xor crc ((high * 16 + low) <<< 8))
      ≡ crc_bits 4 (bit_xor (crc_bits 4 (bit_xor crc (high * 2 ^ 12))) (low * 2 ^ 12))
split_byte crc high low h k l =
    let joined : (high * 16 + low) <<< 8 ≡ bit_xor (high * 2 ^ 12) (low * 2 ^ 8) =
      omega (arith, bit_xor_fields 12 high (low * 2 ^ 8) (omega arith)) in
    let fits = bit_xor-lt 16 crc (high * 2 ^ 12) h (omega arith) in
    let moved : crc_bits 4 (low * 2 ^ 8) ≡ low * 2 ^ 12 =
      omega (arith, crc_bits-low (low * 2 ^ 8) (omega arith)) in
    eight_bits (bit_xor crc ((high * 16 + low) <<< 8))
    ∙ ap (λ t. crc_bits 4 (crc_bits 4 (bit_xor crc t))) joined
    ∙ ap (λ t. crc_bits 4 (crc_bits 4 t)) (sym (bit_xor_assoc crc (high * 2 ^ 12) (low * 2 ^ 8)))
    ∙ ap (crc_bits 4) (
        crc_bits-bit_xor 4 (bit_xor crc (high * 2 ^ 12)) (low * 2 ^ 8) fits (omega arith)
        ∙ ap (bit_xor (crc_bits 4 (bit_xor crc (high * 2 ^ 12)))) moved)

pub crc_byte-bits :
    (crc b : ℕ) → IsU16 crc → IsByte b → crc_byte crc b ≡ crc_bits 8 (bit_xor crc (b <<< 8))
unfolding crc_byte
crc_byte-bits crc b h k =
    let high = b >>> 4 in
    let low = b % 16 in
    let e : high * 16 + low ≡ b = omega arith in
    let first = crc_nibble-bits crc high h (omega arith) in
    ap (crc_nibble (crc_nibble crc high)) (bit_and_mask 4 b)
    ∙ crc_nibble-bits (crc_nibble crc high) low (crc_nibble-IsU16 crc high) (omega arith)
    ∙ ap (λ t. crc_bits 4 (bit_xor t (low * 2 ^ 12))) first
    ∙ sym (split_byte crc high low h (omega arith) (omega arith))
    ∙ ap (λ t. crc_bits 8 (bit_xor crc (t <<< 8))) e

crc_loop-bitwise_loop :
    (crc : ℕ) (bytes : List ℕ)
    → IsU16 crc
    → All IsByte bytes
    → crc_loop crc bytes ≡ bitwise_loop crc bytes
unfolding crc_loop bitwise_loop
crc_loop-bitwise_loop crc [] h v = refl
crc_loop-bitwise_loop crc (b ∷ bytes) h v =
    crc_loop-bitwise_loop (crc_byte crc b) bytes (crc_byte-IsU16 crc b) v.1
    ∙ ap (λ t. bitwise_loop t bytes) (crc_byte-bits crc b h v.0)

-- The table of nibbles computes the CRC as it is defined bit by bit, over the first `len` bytes.
pub crc16-bitwise_loop :
    (bytes : List ℕ) (len : ℕ)
    → All IsByte bytes
    → crc16 bytes len ≡ bitwise_loop 0xffff (take len bytes)
unfolding crc16
crc16-bitwise_loop bytes len v =
    crc_loop-bitwise_loop crc16_init (take len bytes) (omega arith) (All-take IsByte len bytes v)
