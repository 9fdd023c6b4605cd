-- ===== src/Crc/Detects.antt =====
-- The CRC of crc16.c notices every change that two neighbouring bytes hold.
use lo_ra_home.Prelude.{
  ℕ, zero, suc, ◌+◌, ◌*◌, ◌/◌, ◌%◌, ◌^◌, ◌<◌, ◌≡◌, ◌≢◌, sym, ap, ap₂, ◌∙◌, ◌⊎◌, inl, inr, arith,
  List, [], ◌∷◌, ◌++◌, take-all, length, length-append, All, IsByte, IsU16, bit_xor, ◌<<<◌,
}
use lo_ra_home.Prelude.Xor.{
  bit_xor_step, bit_xor_comm, bit_xor_assoc, bit_xor_self, zero-bit_xor, bit_xor-zero,
  bit_xor_interchange, bit_xor-lt, bit_xor_fields,
}
use lo_ra_home.Crc.{crc16_init, crc_byte, crc_loop, crc16}
use lo_ra_home.Crc.Bounds.{crc_byte-IsU16, crc_loop-append, crc_loop-IsU16}
use lo_ra_home.Crc.Bitwise.{
  crc_bit, crc_bits, crc_bit-at, crc_bit-IsU16, crc_bits-bit_xor, crc_byte-bits, crc_bits-low,
  eight_bits,
}

-- Numbers are the same if their difference is nothing.
bit_xor_cancel : (x y : ℕ) → bit_xor x y ≡ 0 → x ≡ y
bit_xor_cancel x y e =
    sym (bit_xor-zero x)
    ∙ ap (bit_xor x) (sym (bit_xor_self y))
    ∙ sym (bit_xor_assoc x y y)
    ∙ ap (λ t. bit_xor t y) e
    ∙ zero-bit_xor y

kernel_at :
    (top rest : ℕ)
    → top < 2
    → rest < 2 ^ 15
    → crc_bit (top * 2 ^ 15 + rest) ≡ 0
    → top * 2 ^ 15 + rest ≡ 0
kernel_at zero rest h k e = omega (arith, crc_bit-at 0 rest h k, bit_xor-zero (rest * 2))
kernel_at (suc zero) rest h k e =
    omega (arith, crc_bit-at 1 rest h k, bit_xor_step (rest * 2) 0x1021)
kernel_at (suc (suc top)) rest h k e = absurd (omega arith)

-- A register that is not zero does not become zero.
crc_bit-zero : (x : ℕ) → IsU16 x → crc_bit x ≡ 0 → x ≡ 0
crc_bit-zero x h e =
    let split : x / 2 ^ 15 * 2 ^ 15 + x % 2 ^ 15 ≡ x = omega arith in
    rw split at (kernel_at (x / 2 ^ 15) (x % 2 ^ 15) (omega arith) (omega arith) (rw split e))

crc_bits-zero : (n x : ℕ) → IsU16 x → crc_bits n x ≡ 0 → x ≡ 0
unfolding crc_bits
crc_bits-zero zero x h e = e
crc_bits-zero (suc n) x h e = crc_bit-zero x h (crc_bits-zero n (crc_bit x) (crc_bit-IsU16 x h) e)

crc_bits-IsU16 : (n x : ℕ) → IsU16 x → IsU16 (crc_bits n x)
unfolding crc_bits
crc_bits-IsU16 zero x h = h
crc_bits-IsU16 (suc n) x h = crc_bits-IsU16 n (crc_bit x) (crc_bit-IsU16 x h)

crc_bits-same : (n x y : ℕ) → IsU16 x → IsU16 y → crc_bits n x ≡ crc_bits n y → x ≡ y
crc_bits-same n x y h k e = bit_xor_cancel x y (
    crc_bits-zero n (bit_xor x y) (bit_xor-lt 16 x y h k) (
      crc_bits-bit_xor n x y h k
      ∙ ap (λ t. bit_xor t (crc_bits n y)) e
      ∙ bit_xor_self (crc_bits n y)))

bit_xor_right_cancel : (x y z : ℕ) → bit_xor x z ≡ bit_xor y z → x ≡ y
bit_xor_right_cancel x y z e = bit_xor_cancel x y (
    sym (bit_xor-zero (bit_xor x y))
    ∙ ap (bit_xor (bit_xor x y)) (sym (bit_xor_self z))
    ∙ bit_xor_interchange x y z z
    ∙ ap (λ t. bit_xor t (bit_xor y z)) e
    ∙ bit_xor_self (bit_xor y z))

-- Registers that differ still differ after the same bytes.
crc_loop-same :
    (x y : ℕ) (bytes : List ℕ)
    → IsU16 x
    → IsU16 y
    → All IsByte bytes
    → crc_loop x bytes ≡ crc_loop y bytes
    → x ≡ y
unfolding crc_loop
crc_loop-same x y [] h k v e = e
crc_loop-same x y (b ∷ bytes) h k v e =
    let below : b <<< 8 < 2 ^ 16 = omega (arith, v.0) in
    let after =
      crc_loop-same (crc_byte x b) (crc_byte y b) bytes (crc_byte-IsU16 x b) (crc_byte-IsU16 y b)
        v.1 e in
    bit_xor_right_cancel x y (b <<< 8) (
      crc_bits-same 8 (bit_xor x (b <<< 8)) (bit_xor y (b <<< 8))
        (bit_xor-lt 16 x (b <<< 8) h below) (bit_xor-lt 16 y (b <<< 8) k below)
        (sym (crc_byte-bits x b h v.0) ∙ after ∙ crc_byte-bits y b k v.0))

eight_low : (c : ℕ) → IsByte c → crc_bits 8 c ≡ c <<< 8
eight_low c h =
    eight_bits c
    ∙ ap (crc_bits 4) (crc_bits-low c (omega arith))
    ∙ crc_bits-low (c * 16) (omega arith)
    ∙ omega arith

-- Two bytes meet the register as one number of sixteen bits.
two_bytes :
    (s b c : ℕ)
    → IsU16 s
    → IsByte b
    → IsByte c
    → crc_byte (crc_byte s b) c ≡ crc_bits 8 (crc_bits 8 (bit_xor s (b * 2 ^ 8 + c)))
two_bytes s b c h k l =
    let met = bit_xor s (b <<< 8) in
    let fits = bit_xor-lt 16 s (b <<< 8) h (omega arith) in
    crc_byte-bits (crc_byte s b) c (crc_byte-IsU16 s b) l
    ∙ ap (crc_bits 8) (
        ap₂ bit_xor (crc_byte-bits s b h k) (sym (eight_low c l))
        ∙ sym (crc_bits-bit_xor 8 met c fits (omega arith))
        ∙ ap (crc_bits 8)
            (bit_xor_assoc s (b <<< 8) c ∙ ap (bit_xor s) (bit_xor_fields 8 b c (omega arith))))

two_bytes-same :
    (s b c b' c' : ℕ)
    → IsU16 s
    → IsByte b
    → IsByte c
    → IsByte b'
    → IsByte c'
    → crc_byte (crc_byte s b) c ≡ crc_byte (crc_byte s b') c'
    → b * 2 ^ 8 + c ≡ b' * 2 ^ 8 + c'
two_bytes-same s b c b' c' h k l k' l' e =
    let x = b * 2 ^ 8 + c in
    let y = b' * 2 ^ 8 + c' in
    let fx = bit_xor-lt 16 s x h (omega arith) in
    let fy = bit_xor-lt 16 s y h (omega arith) in
    let twice : crc_bits 8 (crc_bits 8 (bit_xor s x)) ≡ crc_bits 8 (crc_bits 8 (bit_xor s y)) =
      sym (two_bytes s b c h k l) ∙ e ∙ two_bytes s b' c' h k' l' in
    let met : bit_xor s x ≡ bit_xor s y = crc_bits-same 8 (bit_xor s x) (bit_xor s y) fx fy (
      crc_bits-same 8 (crc_bits 8 (bit_xor s x)) (crc_bits 8 (bit_xor s y))
        (crc_bits-IsU16 8 (bit_xor s x) fx) (crc_bits-IsU16 8 (bit_xor s y) fy) twice) in
    bit_xor_right_cancel x y s (bit_xor_comm x s ∙ met ∙ bit_xor_comm s y)

-- The CRC of a whole message around two bytes.
around :
    (before after : List ℕ) (b c n : ℕ)
    → n ≡ length (before ++ (b ∷ c ∷ after))
    → crc16 (before ++ (b ∷ c ∷ after)) n
      ≡ crc_loop (crc_byte (crc_byte (crc_loop crc16_init before) b) c) after
unfolding crc16 crc_loop
around before after b c n size =
    ap (crc_loop crc16_init) (take-all n (before ++ (b ∷ c ∷ after)) (omega arith))
    ∙ crc_loop-append crc16_init before (b ∷ c ∷ after)

-- Of two messages that differ in two neighbouring bytes, or in one of them, and nowhere else, the CRCs
-- differ.
pub crc16-detects :
    (before after : List ℕ) (b c b' c' n : ℕ)
    → All IsByte after
    → IsByte b
    → IsByte c
    → IsByte b'
    → IsByte c'
    → (b ≢ b') ⊎ (c ≢ c')
    → n ≡ length (before ++ (b ∷ c ∷ after))
    → crc16 (before ++ (b ∷ c ∷ after)) n ≢ crc16 (before ++ (b' ∷ c' ∷ after)) n
crc16-detects before after b c b' c' n v h k h' k' changed size e =
    let s = crc_loop crc16_init before in
    let size' : n ≡ length (before ++ (b' ∷ c' ∷ after)) =
      omega (arith, length-append before (b ∷ c ∷ after), length-append before (b' ∷ c' ∷ after)) in
    let met =
      crc_loop-same (crc_byte (crc_byte s b) c) (crc_byte (crc_byte s b') c') after
        (crc_byte-IsU16 (crc_byte s b) c) (crc_byte-IsU16 (crc_byte s b') c') v
        (sym (around before after b c n size) ∙ e ∙ around before after b' c' n size') in
    let same =
      two_bytes-same s b c b' c' (crc_loop-IsU16 crc16_init before (omega arith)) h k h' k' met in
    elim changed [ inl ne ↦ ne (omega arith) | inr ne ↦ ne (omega arith) ]
