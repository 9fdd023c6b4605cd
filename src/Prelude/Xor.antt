-- ===== src/Prelude/Xor.antt =====
-- Laws of `^`: it is a group, and shifts, casts and halves go through it.
use Prim.Native.Nat.{
  ℕ, zero, suc, ◌+◌, ◌*◌, ◌/◌, ◌%◌, ◌^◌, ◌≤◌, ◌<◌, bit_xor, differ, bit_xor-bitwise,
}
use mathlib.Core.Path.{◌≡◌, refl, sym, ap, ap₂, ◌∙◌}
use native.Mathlib.Nat.{pow-suc}
use native.Mathlib.Omega.{arith}
use lo_ra_home.Prelude.Bits.{first_digit}

differ-mod : (x y : ℕ) → x < 2 → y < 2 → differ x y ≡ (x + y) % 2
differ-mod zero y h k = omega arith
differ-mod (suc zero) zero h k = refl
differ-mod (suc zero) (suc zero) h k = refl
differ-mod (suc zero) (suc (suc y)) h k = absurd (omega arith)
differ-mod (suc (suc x)) y h k = absurd (omega arith)

pub bit_xor_step : (x y : ℕ) → bit_xor x y ≡ bit_xor (x / 2) (y / 2) * 2 + (x + y) % 2
bit_xor_step zero y = simp bit_xor-bitwise (omega arith)
bit_xor_step (suc x) y = omega (
  arith,
  bit_xor-bitwise (suc x) y,
  bit_xor-bitwise (suc x / 2) (y / 2),
  first_digit (λ rest. rest) differ x y,
  differ-mod (suc x % 2) (y % 2) (omega arith) (omega arith),
)

bit_xor-half : (x y : ℕ) → bit_xor x y / 2 ≡ bit_xor (x / 2) (y / 2)
bit_xor-half x y = omega (arith, bit_xor_step x y)

bit_xor-low : (x y : ℕ) → bit_xor x y % 2 ≡ (x + y) % 2
bit_xor-low x y = omega (arith, bit_xor_step x y)

comm_at : (n x y : ℕ) → x ≤ n → y ≤ n → bit_xor x y ≡ bit_xor y x
comm_at zero zero zero h k = refl
comm_at zero (suc x) y h k = absurd (omega arith)
comm_at zero zero (suc y) h k = absurd (omega arith)
comm_at (suc n) x y h k = omega (
  arith,
  bit_xor_step x y,
  bit_xor_step y x,
  comm_at n (x / 2) (y / 2) (omega arith) (omega arith),
)

pub bit_xor_comm : (x y : ℕ) → bit_xor x y ≡ bit_xor y x
bit_xor_comm x y = comm_at (x + y) x y (omega arith) (omega arith)

assoc_at : (n x y z : ℕ) → x ≤ n → y ≤ n → z ≤ n → bit_xor (bit_xor x y) z ≡ bit_xor x (bit_xor y z)
assoc_at zero zero zero zero h k l = refl
assoc_at zero (suc x) y z h k l = absurd (omega arith)
assoc_at zero zero (suc y) z h k l = absurd (omega arith)
assoc_at zero zero zero (suc z) h k l = absurd (omega arith)
assoc_at (suc n) x y z h k l = omega (
  arith,
  bit_xor_step (bit_xor x y) z,
  bit_xor_step x (bit_xor y z),
  ap (λ (t : ℕ). bit_xor t (z / 2)) (bit_xor-half x y),
  ap (λ (t : ℕ). bit_xor (x / 2) t) (bit_xor-half y z),
  bit_xor-low x y,
  bit_xor-low y z,
  assoc_at n (x / 2) (y / 2) (z / 2) (omega arith) (omega arith) (omega arith),
)

pub bit_xor_assoc : (x y z : ℕ) → bit_xor (bit_xor x y) z ≡ bit_xor x (bit_xor y z)
bit_xor_assoc x y z = assoc_at (x + y + z) x y z (omega arith) (omega arith) (omega arith)

self_at : (n x : ℕ) → x ≤ n → bit_xor x x ≡ 0
self_at zero zero h = refl
self_at zero (suc x) h = absurd (omega arith)
self_at (suc n) x h = omega (arith, bit_xor_step x x, self_at n (x / 2) (omega arith))

pub bit_xor_self : (x : ℕ) → bit_xor x x ≡ 0
bit_xor_self x = self_at x x (omega arith)

pub zero-bit_xor : (x : ℕ) → bit_xor 0 x ≡ x
zero-bit_xor x = bit_xor-bitwise 0 x

pub bit_xor-zero : (x : ℕ) → bit_xor x 0 ≡ x
bit_xor-zero x = bit_xor_comm x 0 ∙ zero-bit_xor x

-- Four numbers, the middle two exchanged.
pub bit_xor_interchange :
    (a b c d : ℕ) → bit_xor (bit_xor a b) (bit_xor c d) ≡ bit_xor (bit_xor a c) (bit_xor b d)
bit_xor_interchange a b c d =
    bit_xor_assoc a b (bit_xor c d)
    ∙ ap (bit_xor a)
        (sym (bit_xor_assoc b c d) ∙ ap (λ t. bit_xor t d) (bit_xor_comm b c) ∙ bit_xor_assoc c b d)
    ∙ sym (bit_xor_assoc a c (bit_xor b d))

pub bit_xor-double : (x y : ℕ) → bit_xor (x * 2) (y * 2) ≡ bit_xor x y * 2
bit_xor-double x y =
    let halves : bit_xor (x * 2 / 2) (y * 2 / 2) ≡ bit_xor x y =
      ap₂ bit_xor (omega arith) (omega arith) in
    omega (arith, bit_xor_step (x * 2) (y * 2), halves)

times_two : (x k : ℕ) → x * 2 ^ suc k ≡ x * 2 ^ k * 2
times_two x k = omega (arith, ap (λ (t : ℕ). x * t) (pow-suc 2 k))

pub bit_xor-shift : (k x y : ℕ) → bit_xor (x * 2 ^ k) (y * 2 ^ k) ≡ bit_xor x y * 2 ^ k
bit_xor-shift zero x y =
    let left : x * 2 ^ 0 ≡ x = omega arith in
    let right : y * 2 ^ 0 ≡ y = omega arith in
    let both : bit_xor x y * 2 ^ 0 ≡ bit_xor x y = omega arith in rw (left, right, both)
bit_xor-shift (suc k) x y =
    rw (times_two x k, times_two y k, times_two (bit_xor x y) k)
      (bit_xor-double (x * 2 ^ k) (y * 2 ^ k) ∙ ap (λ t. t * 2) (bit_xor-shift k x y))

pub bit_xor-lt : (k x y : ℕ) → x < 2 ^ k → y < 2 ^ k → bit_xor x y < 2 ^ k
bit_xor-lt zero zero zero h l = h
bit_xor-lt zero (suc x) y h l = absurd (omega arith)
bit_xor-lt zero zero (suc y) h l = absurd (omega arith)
bit_xor-lt (suc k) x y h l = omega (
  arith,
  bit_xor_step x y,
  pow-suc 2 k,
  bit_xor-lt k (x / 2) (y / 2) (omega (arith, pow-suc 2 k)) (omega (arith, pow-suc 2 k)),
)

-- Two fields side by side: `^` adds them when the low one fits its `k` bits.
pub bit_xor_fields :
    (k high low : ℕ) → low < 2 ^ k → bit_xor (high * 2 ^ k) low ≡ high * 2 ^ k + low
bit_xor_fields zero high zero h = bit_xor-zero (high * 2 ^ 0) ∙ omega arith
bit_xor_fields zero high (suc low) h = absurd (omega arith)
bit_xor_fields (suc k) high low h =
    let halves = bit_xor_fields k high (low / 2) (omega (arith, pow-suc 2 k)) in
    let e : high * 2 ^ suc k / 2 ≡ high * 2 ^ k = omega (arith, times_two high k) in
    omega (
      arith,
      times_two high k,
      bit_xor_step (high * 2 ^ suc k) low,
      ap (λ (t : ℕ). bit_xor t (low / 2)) e,
      halves,
    )

-- `^` goes field by field.
pub bit_xor_by_fields :
    (k h l h' l' : ℕ)
    → l < 2 ^ k
    → l' < 2 ^ k
    → bit_xor (h * 2 ^ k + l) (h' * 2 ^ k + l') ≡ bit_xor h h' * 2 ^ k + bit_xor l l'
bit_xor_by_fields k h l h' l' p q =
    ap₂ bit_xor (sym (bit_xor_fields k h l p)) (sym (bit_xor_fields k h' l' q))
    ∙ bit_xor_interchange (h * 2 ^ k) l (h' * 2 ^ k) l'
    ∙ ap (λ t. bit_xor t (bit_xor l l')) (bit_xor-shift k h h')
    ∙ bit_xor_fields k (bit_xor h h') (bit_xor l l') (bit_xor-lt k l l' p q)
