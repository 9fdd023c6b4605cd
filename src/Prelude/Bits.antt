-- ===== src/Prelude/Bits.antt =====
-- Laws of `&`, `|`, `^` and of single bits. The native operations mean a recursion on binary
-- digits with fuel; the laws go digit by digit.
use Prim.Native.Nat.{ℕ, zero, suc, ◌+◌, ◌-◌, ◌*◌, ◌/◌, ◌%◌, ◌^◌, ◌≤◌, ◌<◌, min, max}
use Prim.Native.Nat.{bit_and, bit_or, digits, bitwise}
use Prim.Native.Nat.{bit_and-bitwise, bit_or-bitwise}
use mathlib.Core.Logic.{◌≢◌}
use mathlib.Core.Path.{◌≡◌, refl, ap, ◌∙◌}
use native.Mathlib.Nat.{
  pow-suc, one-le-pow, mod-lt, mod-eq_of_lt, div-add-mod', mul-add-mod_self_right,
}
use native.Mathlib.Omega.{arith}

-- Two amounts of fuel that both cover the left number lead to the same digits.
same_digits :
    (above : ℕ → ℕ) (join : ℕ → ℕ → ℕ) (x y fuel enough : ℕ)
    → x ≤ fuel
    → x ≤ enough
    → digits above join fuel x y ≡ digits above join enough x y
same_digits above join zero y zero zero h k = refl
same_digits above join zero y zero (suc m) h k = refl
same_digits above join zero y (suc n) zero h k = refl
same_digits above join zero y (suc n) (suc m) h k = refl
same_digits above join (suc x) y zero m h k = absurd (omega arith)
same_digits above join (suc x) y (suc n) zero h k = absurd (omega arith)
same_digits above join (suc x) y (suc n) (suc m) h k =
    rw (same_digits above join (suc x / 2) (y / 2) n m (omega arith) (omega arith))

pub first_digit :
    (above : ℕ → ℕ) (join : ℕ → ℕ → ℕ) (x y : ℕ)
    → bitwise above join (suc x) y
      ≡ bitwise above join (suc x / 2) (y / 2) * 2 + join (suc x % 2) (y % 2)
first_digit above join x y =
    let half = suc x / 2 in
    omega (arith, same_digits above join half (y / 2) x half (omega arith) (omega arith))

pub bit_or_step : (x y : ℕ) → bit_or x y ≡ bit_or (x / 2) (y / 2) * 2 + max (x % 2) (y % 2)
bit_or_step zero y = simp bit_or-bitwise (omega arith)
bit_or_step (suc x) y = simp bit_or-bitwise (first_digit (λ rest. rest) max x y)

pub bit_and_step : (x y : ℕ) → bit_and x y ≡ bit_and (x / 2) (y / 2) * 2 + min (x % 2) (y % 2)
bit_and_step zero y = simp bit_and-bitwise (omega arith)
bit_and_step (suc x) y = simp bit_and-bitwise (first_digit (λ rest. 0) min x y)

bit_and-zero : (k a : ℕ) → a ≤ k → bit_and a 0 ≡ 0
bit_and-zero k zero h = refl
bit_and-zero zero (suc a) h = absurd (omega arith)
bit_and-zero (suc k) (suc a) h =
    omega (arith, bit_and_step (suc a) 0, bit_and-zero k (suc a / 2) (omega arith))

bit_or-zero : (k a : ℕ) → a ≤ k → bit_or a 0 ≡ a
bit_or-zero k zero h = refl
bit_or-zero zero (suc a) h = absurd (omega arith)
bit_or-zero (suc k) (suc a) h =
    omega (arith, bit_or_step (suc a) 0, bit_or-zero k (suc a / 2) (omega arith))

double_pow : (k : ℕ) (q : ℕ) → q * 2 ^ suc k ≡ 2 * (q * 2 ^ k)
double_pow k q = omega (arith, ap (λ (power : ℕ). q * power) (pow-suc 2 k))

-- Two fields side by side: `|` adds them when the low one fits its `k` bits.
pub bit_or_fields : (k high low : ℕ) → low < 2 ^ k → bit_or (high * 2 ^ k) low ≡ high * 2 ^ k + low
bit_or_fields zero high low h = ground (arith, bit_or-zero high high)
bit_or_fields (suc k) high low h =
    let halves = bit_or_fields k high (low / 2) (omega (arith, pow-suc 2 k)) in
    ground (arith, double_pow k high, bit_or_step (high * 2 ^ suc k) low, halves)

-- Bit `k` of `a`, 0 or 1.
abbrev pub bit_at : ℕ → ℕ → ℕ
bit_at a zero = a % 2
bit_at a (suc k) = bit_at (a / 2) k

pub bit_at-lt : (a k : ℕ) → bit_at a k < 2
bit_at-lt a zero = omega arith
bit_at-lt a (suc k) = bit_at-lt (a / 2) k

pub bit_at-zero : (k : ℕ) → bit_at 0 k ≡ 0
bit_at-zero zero = refl
bit_at-zero (suc k) = bit_at-zero k

pub bit_at-bit_or : (a b k : ℕ) → bit_at (bit_or a b) k ≡ max (bit_at a k) (bit_at b k)
bit_at-bit_or a b zero = omega (arith, bit_or_step a b)
bit_at-bit_or a b (suc k) =
    let half : bit_or a b / 2 ≡ bit_or (a / 2) (b / 2) = omega (arith, bit_or_step a b) in
    rw half (bit_at-bit_or (a / 2) (b / 2) k)

pub bit_at-one : (k : ℕ) → bit_at 1 (suc k) ≡ 0
bit_at-one k = bit_at-zero k

half-shift : (a d : ℕ) → a * 2 ^ suc d / 2 ≡ a * 2 ^ d
half-shift a d = omega (arith, double_pow d a)

pub bit_at-shift_ge : (d a k : ℕ) → bit_at (a * 2 ^ d) (d + k) ≡ bit_at a k
bit_at-shift_ge zero a k =
    let shifted : a * 2 ^ 0 ≡ a = omega arith in
    let index : 0 + k ≡ k = omega arith in rw (shifted, index)
bit_at-shift_ge (suc d) a k =
    let e : suc d + k ≡ suc (d + k) = omega arith in
    let halved : bit_at (a * 2 ^ suc d / 2) (d + k) ≡ bit_at a k =
      rw half-shift (bit_at-shift_ge d a k) in
    rw e halved

pub bit_at-shift_lt : (d a k : ℕ) → k < d → bit_at (a * 2 ^ d) k ≡ 0
bit_at-shift_lt zero a k h = elim h [ ]
bit_at-shift_lt (suc d) a zero h = omega (arith, double_pow d a)
bit_at-shift_lt (suc d) a (suc k) h = rw half-shift (bit_at-shift_lt d a k (omega arith))

-- `a & (1 << k)` tests bit `k`.
pub bit_and_pow : (a k : ℕ) → bit_and a (1 * 2 ^ k) ≡ bit_at a k * 2 ^ k
bit_and_pow a zero = omega (arith, bit_and_step a 1, bit_and-zero (a / 2) (a / 2))
bit_and_pow a (suc k) = omega (
  arith,
  bit_and_step a (1 * 2 ^ suc k),
  ap (λ (t : ℕ). bit_and (a / 2) t) (half-shift 1 k),
  double_pow k 1,
  double_pow k (bit_at (a / 2) k),
  bit_and_pow (a / 2) k,
)

mod-pow-suc : (a w : ℕ) → (a % 2 ^ suc w % 2 ≡ a % 2) × (a % 2 ^ suc w / 2 ≡ a / 2 % 2 ^ w)
mod-pow-suc a w =
    let low : ℕ = a / 2 % 2 ^ w * 2 + a % 2 in
    let fits : a / 2 % 2 ^ w < 2 ^ w = mod-lt (a / 2) (one-le-pow w 2 (omega arith)) in
    let split : a ≡ a / 2 / 2 ^ w * 2 ^ suc w + low =
      omega (arith, double_pow w (a / 2 / 2 ^ w), div-add-mod' (a / 2) (2 ^ w)) in
    let value : a % 2 ^ suc w ≡ low =
      ap (λ t. t % 2 ^ suc w) split
      ∙ mul-add-mod_self_right (a / 2 / 2 ^ w) (2 ^ suc w) low
      ∙ mod-eq_of_lt (omega (arith, pow-suc 2 w)) in
    omega (arith, value)

-- A cast to `w` bits keeps the bits below `w`.
pub bit_at-mod : (w a k : ℕ) → k < w → bit_at (a % 2 ^ w) k ≡ bit_at a k
bit_at-mod zero a k h = elim h [ ]
bit_at-mod (suc w) a zero h = (mod-pow-suc a w).0
bit_at-mod (suc w) a (suc k) h = rw (mod-pow-suc a w).1 (bit_at-mod w (a / 2) k (omega arith))

-- A mask of the low `k` bits.
pub bit_and_mask : (k a : ℕ) → bit_and a (2 ^ k - 1) ≡ a % 2 ^ k
bit_and_mask zero a = omega (arith, bit_and-zero a a)
bit_and_mask (suc k) a =
    let half : (2 ^ suc k - 1) / 2 ≡ 2 ^ k - 1 = omega (arith, pow-suc 2 k) in
    omega (
      arith,
      bit_and_step a (2 ^ suc k - 1),
      ap (λ (t : ℕ). bit_and (a / 2) t) half,
      bit_and_mask k (a / 2),
      mod-pow-suc a k,
      pow-suc 2 k,
      one-le-pow k 2 (omega arith),
    )

-- `1 << d` has bit `d` and no other.
pub bit_at-pow_self : (d : ℕ) → bit_at (1 * 2 ^ d) d ≡ 1
bit_at-pow_self zero = refl
bit_at-pow_self (suc d) = rw half-shift (bit_at-pow_self d)

pub bit_at-pow_ne : (d k : ℕ) → k ≢ d → bit_at (1 * 2 ^ d) k ≡ 0
bit_at-pow_ne zero zero h = absurd (h refl)
bit_at-pow_ne zero (suc k) h = bit_at-zero k
bit_at-pow_ne (suc d) zero h = omega (arith, double_pow d 1)
bit_at-pow_ne (suc d) (suc k) h = rw half-shift (bit_at-pow_ne d k (λ e. h (ap suc e)))

-- A test of bit `k` as the C code writes it.
pub bit_and_pow-zero : (a k : ℕ) → bit_and a (1 * 2 ^ k) ≡ 0 → bit_at a k ≡ 0
bit_and_pow-zero a k h = grind (arith, bit_and_pow a k, one-le-pow k 2 (omega arith), bit_at-lt a k)

pub bit_and_pow-ne : (a k : ℕ) → bit_and a (1 * 2 ^ k) ≢ 0 → bit_at a k ≡ 1
bit_and_pow-ne a k h = grind (arith, bit_and_pow a k, one-le-pow k 2 (omega arith), bit_at-lt a k)

-- Numbers of `w` bits with the same bits are the same.
pub bit_at-ext :
    (w a b : ℕ) → a < 2 ^ w → b < 2 ^ w → ((k : ℕ) → k < w → bit_at a k ≡ bit_at b k) → a ≡ b
bit_at-ext zero a b h k e = omega arith
bit_at-ext (suc w) a b h k e =
    let halves : a / 2 ≡ b / 2 =
      bit_at-ext w (a / 2) (b / 2) (omega (arith, pow-suc 2 w)) (omega (arith, pow-suc 2 w))
        (λ i p. e (suc i) (omega arith)) in
    omega (arith, halves, e 0 (omega arith))
