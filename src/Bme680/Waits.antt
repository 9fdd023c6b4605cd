-- ===== src/Bme680/Waits.antt =====
-- What the gas-wait register of bme680.c stands for: a count of six bits, multiplied by a power of
-- four.
use native.Mathlib.Decide.{dec_lt}
use lo_ra_home.Prelude.{
  ℕ, zero, suc, ◌+◌, ◌*◌, ◌/◌, ◌%◌, ◌≤◌, ◌<◌, true, ◌≡◌, refl, ◌⊎◌, inl, inr, bit_or, arith, ◌==◌,
  ==_iff, all_below, all_below_sound, ◌-◌,
}
use lo_ra_home.Bme680.Gas.{gas_wait_loop, encode_gas_wait}

-- The milliseconds of a register value.
abbrev wait_of : ℕ → ℕ → ℕ
wait_of count zero = count
wait_of count (suc factor) = wait_of (count * 4) factor

unfoldable pub wait_ms : ℕ → ℕ
wait_ms register = wait_of (register % 64) (register / 64)

join_table : all_below 256 (λ n. bit_or (n % 64) (n / 64 * 64) == n) ≡ true
join_table = refl

join_fields :
    (count factor n : ℕ)
    → n ≡ factor * 64 + count
    → count < 64
    → n < 256
    → bit_or count (factor * 64) ≡ n
join_fields count factor n e p q =
    let low : n % 64 ≡ count = omega arith in
    let high : n / 64 ≡ factor = omega arith in
    let joined : bit_or (n % 64) (n / 64 * 64) ≡ n =
      (==_iff (bit_or (n % 64) (n / 64 * 64)) n).0
        (all_below_sound 256 (λ k. bit_or (k % 64) (k / 64 * 64) == k) n join_table q) in
    rw (low, high) at joined

encode-short : (d : ℕ) → d < 64 → encode_gas_wait d ≡ d
unfolding encode_gas_wait gas_wait_loop
encode-short d h = ground (arith, join_fields d 0 d (omega arith) h (omega arith))

encode_4 : (d : ℕ) → 63 < d → d < 256 → encode_gas_wait d ≡ 64 + d / 4
unfolding encode_gas_wait gas_wait_loop
encode_4 d g h =
    ground (arith, join_fields (d / 4) 1 (64 + d / 4) (omega arith) (omega arith) (omega arith))

encode_16 : (d : ℕ) → 255 < d → d < 1024 → encode_gas_wait d ≡ 128 + d / 16
unfolding encode_gas_wait gas_wait_loop
encode_16 d g h =
    let e : d / 4 / 4 ≡ d / 16 = omega arith in
    ground (arith, join_fields (d / 16) 2 (128 + d / 16) (omega arith) (omega arith) (omega arith))

encode_64 : (d : ℕ) → 1023 < d → d < 0xfc0 → encode_gas_wait d ≡ 192 + d / 64
unfolding encode_gas_wait gas_wait_loop
encode_64 d g h =
    let e : d / 4 / 4 / 4 ≡ d / 64 = omega arith in
    ground (arith, join_fields (d / 64) 3 (192 + d / 64) (omega arith) (omega arith) (omega arith))

encode-long : (d : ℕ) → 0xfc0 ≤ d → encode_gas_wait d ≡ 255
unfolding encode_gas_wait
encode-long d h = ground arith

wait_ms-at : (r f : ℕ) → r / 64 ≡ f → wait_ms r ≡ wait_of (r % 64) f
unfolding wait_ms
wait_ms-at r f e = rw e

by_factor :
    (r : ℕ)
    → r < 256
    → (r < 64) × (wait_ms r ≡ r)
      ⊎ (64 ≤ r) × (r < 128) × (wait_ms r ≡ (r - 64) * 4)
      ⊎ (128 ≤ r) × (r < 192) × (wait_ms r ≡ (r - 128) * 16)
      ⊎ (192 ≤ r) × (wait_ms r ≡ (r - 192) * 64)
by_factor r h = elim (dec_lt r 64) [
  | yes p ↦ inl (p, omega (arith, wait_ms-at r 0 (omega arith)))
  | no p ↦ elim (dec_lt r 128) [
    | yes q ↦ inr (inl (omega arith, q, omega (arith, wait_ms-at r 1 (omega arith))))
    | no q ↦ elim (dec_lt r 192) [
      | yes t ↦ inr (inr (inl (omega arith, t, omega (arith, wait_ms-at r 2 (omega arith)))))
      | no t ↦ inr (inr (inr (omega arith, omega (arith, wait_ms-at r 3 (omega arith)))))
    ]
  ]
]

encoded :
    (d : ℕ)
    → (d < 64) × (encode_gas_wait d ≡ d)
      ⊎ (64 ≤ d) × (d < 256) × (encode_gas_wait d ≡ 64 + d / 4)
      ⊎ (256 ≤ d) × (d < 1024) × (encode_gas_wait d ≡ 128 + d / 16)
      ⊎ (1024 ≤ d) × (d < 4032) × (encode_gas_wait d ≡ 192 + d / 64)
      ⊎ (4032 ≤ d) × (encode_gas_wait d ≡ 255)
encoded d = elim (dec_lt d 64) [
  | yes p ↦ inl (p, encode-short d p)
  | no p ↦ elim (dec_lt d 256) [
    | yes q ↦ inr (inl (omega arith, q, encode_4 d (omega arith) q))
    | no q ↦ elim (dec_lt d 1024) [
      | yes t ↦ inr (inr (inl (omega arith, t, encode_16 d (omega arith) t)))
      | no t ↦ elim (dec_lt d 0xfc0) [
        | yes u ↦ inr (inr (inr (inl (omega arith, u, encode_64 d (omega arith) u))))
        | no u ↦ inr (inr (inr (inr (omega arith, encode-long d (omega arith)))))
      ]
    ]
  ]
]

-- The register is at most as long a wait as was asked for, and no other register value that is not
-- longer than that is longer than it.
pub longest_wait :
    (duration_ms register : ℕ)
    → register < 256
    → wait_ms register ≤ duration_ms
    → (encode_gas_wait duration_ms < 256)
      × (wait_ms (encode_gas_wait duration_ms) ≤ duration_ms)
      × (wait_ms register ≤ wait_ms (encode_gas_wait duration_ms))
longest_wait duration_ms register h k =
    let small : encode_gas_wait duration_ms < 256 = omega (arith, encoded duration_ms) in
    omega (
      arith,
      encoded duration_ms,
      by_factor register h,
      by_factor (encode_gas_wait duration_ms) small,
    )
