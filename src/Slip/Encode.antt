-- ===== src/Slip/Encode.antt =====
-- The shape of what `encode` writes.
use lo_ra_home.Prelude.{
  ℕ, ◌+◌, ◌*◌, ◌^◌, ◌≤◌, ◌<◌, ◌≡◌, ◌≢◌, arith, List, [], ◌∷◌, ◌++◌, All, All-append, length,
  length-append,
}
use lo_ra_home.Slip.{encode_byte, encode_loop, encode, slip_end}

encode_byte_bounds : (b : ℕ) → (1 ≤ length (encode_byte b)) × (length (encode_byte b) ≤ 2)
unfolding encode_byte
encode_byte_bounds b = ground arith

-- Inside a frame no byte is END.
abbrev pub NoEnd : List ℕ → Type 0
NoEnd = All (λ b. b ≢ slip_end)

encode_byte-NoEnd : (b : ℕ) → NoEnd (encode_byte b)
unfolding encode_byte
encode_byte-NoEnd b = ground arith

encode_loop-NoEnd : (p : List ℕ) → NoEnd (encode_loop p)
unfolding encode_loop
encode_loop-NoEnd [] = tt
encode_loop-NoEnd (b ∷ bs) =
    All-append (λ c. c ≢ slip_end) (encode_byte b) (encode_loop bs) (encode_byte-NoEnd b)
      (encode_loop-NoEnd bs)

encode_loop_bounds :
    (p : List ℕ) → (length p ≤ length (encode_loop p)) × (length (encode_loop p) ≤ 2 * length p)
unfolding encode_loop
encode_loop_bounds [] = omega arith
encode_loop_bounds (b ∷ bs) = omega (
  arith,
  encode_byte_bounds b,
  encode_loop_bounds bs,
  length-append (encode_byte b) (encode_loop bs),
)

-- For less than 65536 bytes whose worst case fits `out_cap`, `lh_slip_encode` writes END, a body of
-- `len` to `2 * len` bytes with no END among them, and END: never more than `out_cap` bytes.
pub encode_shape :
    (p : List ℕ) (out_cap : ℕ)
    → length p < 2 ^ 16
    → 2 * length p + 2 ≤ out_cap
    → (inside : List ℕ) × (encode p out_cap ≡ slip_end ∷ (inside ++ (slip_end ∷ [])))
      × NoEnd inside
      × (length p ≤ length inside)
      × (length inside ≤ 2 * length p)
      × (length (encode p out_cap) ≤ out_cap)
unfolding encode
encode_shape p out_cap small h = (
  encode_loop p,
  ground arith,
  encode_loop-NoEnd p,
  (encode_loop_bounds p).0,
  (encode_loop_bounds p).1,
  ground (arith, encode_loop_bounds p, length-append (encode_loop p) (slip_end ∷ [])),
)
