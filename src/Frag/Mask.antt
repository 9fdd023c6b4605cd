-- ===== src/Frag/Mask.antt =====
-- The mask of an assembly in frag.c is complete exactly when every fragment is there.
use native.Mathlib.Decide.{dec_lt}
use lo_ra_home.Prelude.{
  ℕ, ◌^◌, ◌≤◌, ◌<◌, ◌≡◌, ◌≢◌, refl, ap, arith, List, true, false, length, ltb, ◌==◌, ==_iff,
  if◌then◌else◌, all_below, all_below_sound,
}
use lo_ra_home.Prelude.Bits.{bit_at, bit_at-ext}
use lo_ra_home.Frag.{Reassembler, frag_count, complete_mask}
use lo_ra_home.Frag.Header.{index-Fits}
use lo_ra_home.Frag.Sent.{has, Partial}

-- The bits of the mask that stands for a complete assembly.
complete_table :
    all_below 9 (λ t. all_below 8 (λ k. bit_at (complete_mask t) k == (if ltb k t then 1 else 0)))
    ≡ true
unfolding complete_mask
complete_table = refl

complete_bits : (t k : ℕ) → t ≤ 8 → k < 8 → bit_at (complete_mask t) k ≡ (if ltb k t then 1 else 0)
complete_bits t k h l = (==_iff _ _).0 (
    all_below_sound 8 (λ i. bit_at (complete_mask t) i == (if ltb i t then 1 else 0)) k
      (all_below_sound 9
        (λ t. all_below 8 (λ k. bit_at (complete_mask t) k == (if ltb k t then 1 else 0))) t
        complete_table (omega arith))
      l)

complete_mask-lt : (t : ℕ) → complete_mask t < 2 ^ 8
unfolding complete_mask
complete_mask-lt t = omega arith

module _ (cfg_id : ℕ) (config : List ℕ) (fits : length config ≤ 1600) where
  -- The mask is complete exactly when all fragments are there.
  pub mask_short :
      (lo : ℕ) (seen : List ℕ) (r : Reassembler) (k : ℕ)
      → Partial cfg_id config lo seen r
      → k < frag_count (length config)
      → has seen k ≡ false
      → (r.received_mask == complete_mask r.expected_total) ≡ false
  mask_short lo seen r k p h missing =
      let g = index-Fits (length config) k fits h in
      let ne : r.received_mask ≢ complete_mask r.expected_total = λ e. absurd (
        ground (
          arith,
          p.bits k (omega (arith, g)),
          missing,
          ap (λ t. bit_at t k) e,
          complete_bits r.expected_total k (omega (arith, g, p.total)) (omega (arith, g)),
          p.total,
        )) in
      ground (arith, ne)

  pub mask_full :
      (lo : ℕ) (seen : List ℕ) (r : Reassembler)
      → Partial cfg_id config lo seen r
      → frag_count (length config) ≤ 8
      → ((k : ℕ) → k < frag_count (length config) → has seen k ≡ true)
      → r.received_mask ≡ complete_mask r.expected_total
  mask_full lo seen r p few all =
      bit_at-ext 8 r.received_mask (complete_mask r.expected_total) p.mask
        (complete_mask-lt r.expected_total)
        (λ k l. elim (dec_lt k (frag_count (length config))) [
          | yes h ↦ ground (
            arith,
            p.bits k l,
            all k h,
            complete_bits r.expected_total k (omega (arith, few, p.total)) l,
            p.total,
            h,
          )
          | no h ↦ ground (
            arith,
            p.bits k l,
            p.below k (omega arith),
            complete_bits r.expected_total k (omega (arith, few, p.total)) l,
            p.total,
            h,
          )
        ])
