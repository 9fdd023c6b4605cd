-- ===== src/Prelude/Magnitude.antt =====
-- Bounds on the absolute value of what the operations on integers give.
use Prim.Native.Nat.{ℕ, ◌+◌, ◌*◌, ◌^◌, ◌≤◌}
use native.Mathlib.Nat.{div-le_of_le-mul, div-lt_iff_lt-mul, mul-le-mul, one-le-pow, mul_comm}
use native.Mathlib.Omega.{arith}
use lo_ra_home.Prelude.Signed.{ℤ, pos, negsuc, nat_abs, ◌+ℤ◌, ◌-ℤ◌, ◌*ℤ◌, ◌>>ℤ◌, nat_abs-*ℤ}

pub nat_abs-+ℤ-le : (a b : ℤ) (m n : ℕ) → nat_abs a ≤ m → nat_abs b ≤ n → nat_abs (a +ℤ b) ≤ m + n
unfolding ◌+ℤ◌
nat_abs-+ℤ-le a b m n h k = ground arith

pub nat_abs--ℤ-le : (a b : ℤ) (m n : ℕ) → nat_abs a ≤ m → nat_abs b ≤ n → nat_abs (a -ℤ b) ≤ m + n
unfolding ◌-ℤ◌
nat_abs--ℤ-le a b m n h k = ground arith

pub nat_abs-*ℤ-le : (a b : ℤ) (m n : ℕ) → nat_abs a ≤ m → nat_abs b ≤ n → nat_abs (a *ℤ b) ≤ m * n
nat_abs-*ℤ-le a b m n h k = rw nat_abs-*ℤ (mul-le-mul h k)

pub nat_abs-shift_le : (a : ℤ) (k m : ℕ) → nat_abs a ≤ m * 2 ^ k → nat_abs (a >>ℤ k) ≤ m
unfolding ◌>>ℤ◌
nat_abs-shift_le (pos n) k m h = div-le_of_le-mul (2 ^ k) (omega (arith, mul_comm m (2 ^ k)))
nat_abs-shift_le (negsuc n) k m h =
    (div-lt_iff_lt-mul (one-le-pow k 2 (omega arith))).1 (omega arith)
