-- ===== src/Prelude/Signed.antt =====
-- Signed integers over the native numbers, as the C code computes with them: `/` truncates, `>>` keeps
-- the sign, a cast to `w` bits keeps the low bits. Sums and orders go through the two parts of an
-- integer, which are numbers that `omega` reads.
use Prim.Native.Nat.{ℕ, zero, suc, ◌+◌, ◌-◌, ◌*◌, ◌/◌, ◌%◌, ◌^◌, ◌≤◌, ◌<◌}
use mathlib.Core.Path.{◌≡◌}
use mathlib.Core.Bool.{Bool, false}
use native.Mathlib.Nat.{mod-eq_of_lt}
use native.Mathlib.Omega.{arith}
use lo_ra_home.Prelude.Tests.{ltb, leb, if◌then◌else◌}

-- `negsuc n` is -(n + 1).
pub data ℤ : Type 0 where
  pos : ℕ → ℤ
  negsuc : ℕ → ℤ

-- `(int8_t)` of a `uint8_t`.
abbrev pub int8 : ℕ → ℤ
int8 n = if ltb n 128 then pos n else negsuc (255 - n)

-- `(int16_t)` of a `uint16_t`.
abbrev pub int16 : ℕ → ℤ
int16 n = if ltb n 32768 then pos n else negsuc (65535 - n)

abbrev pub is_positive : ℤ → Bool
is_positive (pos n) = ltb 0 n
is_positive (negsuc n) = false

-- `(uint8_t)z` and `(uint8_t)(-z)`, for `z` of an `int8_t`.
abbrev pub to_u8 : ℤ → ℕ
to_u8 (pos n) = n % 256
to_u8 (negsuc n) = 255 - n % 256

abbrev pub negated_u8 : ℤ → ℕ
negated_u8 (pos n) = (256 - n % 256) % 256
negated_u8 (negsuc n) = suc n % 256

-- The pattern of an `int32_t`.
abbrev pub bits32 : ℤ → ℕ
bits32 (pos n) = n % 2 ^ 32
bits32 (negsuc n) = 2 ^ 32 - 1 - n % 2 ^ 32

abbrev pub pos_part : ℤ → ℕ
pos_part (pos n) = n
pos_part (negsuc n) = 0

abbrev pub neg_part : ℤ → ℕ
neg_part (pos n) = 0
neg_part (negsuc n) = suc n

-- The absolute value.
abbrev pub nat_abs : ℤ → ℕ
nat_abs (pos n) = n
nat_abs (negsuc n) = suc n

-- a - b, as an integer.
abbrev pub sub_ℕ : ℕ → ℕ → ℤ
sub_ℕ a b = if leb b a then pos (a - b) else negsuc (b - a - 1)

abbrev pub neg_ℤ : ℤ → ℤ
neg_ℤ (pos zero) = pos zero
neg_ℤ (pos (suc n)) = negsuc n
neg_ℤ (negsuc n) = pos (suc n)

infixl 65 ◌+ℤ◌ ◌-ℤ◌
infixl 70 ◌*ℤ◌ ◌/ℤ◌
infixl 60 ◌>>ℤ◌
infix 50 ◌≤ℤ◌
unfoldable pub ◌+ℤ◌ : ℤ → ℤ → ℤ
a +ℤ b = sub_ℕ (pos_part a + pos_part b) (neg_part a + neg_part b)

unfoldable pub ◌-ℤ◌ : ℤ → ℤ → ℤ
a -ℤ b = sub_ℕ (pos_part a + neg_part b) (neg_part a + pos_part b)

unfoldable pub ◌*ℤ◌ : ℤ → ℤ → ℤ
pos m *ℤ pos n = pos (m * n)
pos m *ℤ negsuc n = neg_ℤ (pos (m * suc n))
negsuc m *ℤ pos n = neg_ℤ (pos (suc m * n))
negsuc m *ℤ negsuc n = pos (suc m * suc n)

-- The division of C, which rounds towards zero.
unfoldable pub ◌/ℤ◌ : ℤ → ℤ → ℤ
pos m /ℤ pos n = pos (m / n)
pos m /ℤ negsuc n = neg_ℤ (pos (m / suc n))
negsuc m /ℤ pos n = neg_ℤ (pos (suc m / n))
negsuc m /ℤ negsuc n = pos (suc m / suc n)

-- The arithmetic shift, which rounds down.
unfoldable pub ◌>>ℤ◌ : ℤ → ℕ → ℤ
pos n >>ℤ k = pos (n / 2 ^ k)
negsuc n >>ℤ k = negsuc (n / 2 ^ k)

abbrev pub ltb_ℤ : ℤ → ℤ → Bool
ltb_ℤ a b = ltb (pos_part a + neg_part b) (pos_part b + neg_part a)

abbrev pub ◌≤ℤ◌ : ℤ → ℤ → Type 0
a ≤ℤ b = pos_part a + neg_part b ≤ pos_part b + neg_part a

-- A result in an integer of 16, 32 or 64 bits: the integer in range with the same low bits.
unfoldable pub wrap : ℕ → ℤ → ℤ
wrap half (pos n) =
    let low = n % (half + half) in if ltb low half then pos low else negsuc (half + half - 1 - low)
wrap half (negsuc n) =
    let low = n % (half + half) in if ltb low half then negsuc low else pos (half + half - 1 - low)

abbrev pub i16 : ℤ → ℤ
i16 z = wrap (2 ^ 15) z

abbrev pub i32 : ℤ → ℤ
i32 z = wrap (2 ^ 31) z

abbrev pub i64 : ℤ → ℤ
i64 z = wrap (2 ^ 63) z

-- One lemma for each operation lets `omega` work with the operations shut, at any depth.
pub +ℤ_parts :
    (a b : ℤ)
    → pos_part (a +ℤ b) + neg_part a + neg_part b ≡ neg_part (a +ℤ b) + pos_part a + pos_part b
unfolding ◌+ℤ◌
+ℤ_parts a b = ground arith

pub -ℤ_parts :
    (a b : ℤ)
    → pos_part (a -ℤ b) + neg_part a + pos_part b ≡ neg_part (a -ℤ b) + pos_part a + neg_part b
unfolding ◌-ℤ◌
-ℤ_parts a b = ground arith

pub nat_abs-parts : (a : ℤ) → nat_abs a ≡ pos_part a + neg_part a
nat_abs-parts a = ground arith

pub nat_abs-*ℤ : (a b : ℤ) → nat_abs (a *ℤ b) ≡ nat_abs a * nat_abs b
unfolding ◌*ℤ◌
nat_abs-*ℤ a b = ground arith

-- What is in range is not changed.
pub wrap-small : (half : ℕ) (a : ℤ) → nat_abs a < half → wrap half a ≡ a
unfolding wrap
wrap-small half (pos n) h =
    let low : n % (half + half) ≡ n = mod-eq_of_lt (omega arith) in ground (arith, low)
wrap-small half (negsuc n) h =
    let low : n % (half + half) ≡ n = mod-eq_of_lt (omega arith) in ground (arith, low)
