-- ===== src/Frag/Step.antt =====
-- One fragment of a configuration that is stored in an assembly of it.
use native.Mathlib.Nat.{one-le-pow}
use native.Mathlib.Decide.{dec_lt, ℕ_discrete}
use lo_ra_home.Prelude.{
  ℕ, ◌+◌, ◌-◌, ◌*◌, ◌^◌, ◌≤◌, ◌<◌, max, ◌≡◌, refl, ap, ◌∙◌, arith, List, ◌∷◌, true, false, not,
  length, length-copy, get_or, drop, get_or-take, get_or-drop, get_or-copy_in, get_or-copy_below,
  get_or-copy_above, copy, ◌==◌, ==_iff, if◌then◌else◌, u8, u16, inc32, bit_and, bit_or, ◌<<<◌,
  all_below, all_below_sound, Bool-cases, inl, inr,
}
use lo_ra_home.Prelude.Bits.{
  bit_at, bit_at-bit_or, bit_at-mod, bit_at-pow_self, bit_at-pow_ne, bit_and_pow, bit_at-lt,
}
use lo_ra_home.Frag.{
  Reassembler, need_more, duplicate, frag_count, slice_len, store, finish, complete_mask,
}
use lo_ra_home.Frag.Header.{index-Fits}
use lo_ra_home.Frag.Sent.{has, header_of, slice_of, slice-length, Partial}

-- `1 << index` as a byte.
bit_table : all_below 8 (λ i. u8 (1 <<< i) == 1 * 2 ^ i) ≡ true
bit_table = refl

bit_byte : (i : ℕ) → i < 8 → u8 (1 <<< i) ≡ 1 * 2 ^ i
bit_byte i h = (==_iff _ _).0 (all_below_sound 8 (λ i. u8 (1 <<< i) == 1 * 2 ^ i) i bit_table h)

-- The assembly with the fragment in it.
abbrev pub added : Reassembler → ℕ → List ℕ → Reassembler
added r index slice = record r {
  buf = copy r.buf (u16 (index * 200)) slice;
  received_mask = u8 (bit_or r.received_mask (u8 (1 <<< index)));
}

added-bit :
    (mask i k : ℕ)
    → i < 8
    → k < 8
    → bit_at (u8 (bit_or mask (u8 (1 <<< i)))) k ≡ (if k == i then 1 else bit_at mask k)
added-bit mask i k h l =
    bit_at-mod 8 (bit_or mask (u8 (1 <<< i))) k l
    ∙ bit_at-bit_or mask (u8 (1 <<< i)) k
    ∙ ap (λ t. max (bit_at mask k) (bit_at t k)) (bit_byte i h)
    ∙ elim (ℕ_discrete k i) [
      | yes e ↦
          let one : bit_at (1 * 2 ^ i) k ≡ 1 = rw e (bit_at-pow_self i) in
          ground (arith, one, e, bit_at-lt mask k)
      | no ne ↦ ground (arith, bit_at-pow_ne i k ne, ne)
    ]

module _ (cfg_id : ℕ) (config : List ℕ) (fits : length config ≤ 1600) where
  added-held :
      (lo : ℕ) (seen : List ℕ) (r : Reassembler) (index k j : ℕ)
      → Partial cfg_id config lo seen r
      → index < frag_count (length config)
      → has (index ∷ seen) k ≡ true
      → j < 200
      → k * 200 + j < length config
      → get_or (copy r.buf (u16 (index * 200)) (slice_of cfg_id config index)) (k * 200 + j) 0
        ≡ get_or config (k * 200 + j) 0
  added-held lo seen r index k j p h hit small inside =
      let at = index * 200 in
      let slice = slice_of cfg_id config index in
      let g = index-Fits (length config) index fits h in
      let size = slice-length cfg_id config index fits h in
      let cast : u16 at ≡ at = omega (arith, g) in
      let start : at ≤ length r.buf = omega (arith, g, p.size) in
      rw cast (elim (ℕ_discrete k index) [
        | yes e ↦
            let short : j < length slice = omega (arith, size, g, e) in
            get_or-copy_in r.buf slice at j (k * 200 + j) 0 start short (omega (arith, e))
            ∙ get_or-take (drop at config) (slice_len (length config) index) j 0
                (omega (arith, size, short))
            ∙ get_or-drop config at j (k * 200 + j) 0 (omega (arith, e))
        | no ne ↦
            let old : has seen k ≡ true = ground (arith, hit, ne) in
            elim (dec_lt k index) [
              | yes less ↦
                  get_or-copy_below r.buf slice at (k * 200 + j) 0 start (omega arith)
                  ∙ p.held k j old small inside
              | no more ↦
                  get_or-copy_above r.buf slice at (k * 200 + j - (at + length slice)) (k * 200 + j)
                    0 start (omega (arith, size, g, ne))
                  ∙ p.held k j old small inside
            ]
      ])

  pub added-Partial :
      (lo : ℕ) (seen : List ℕ) (r : Reassembler) (index : ℕ)
      → Partial cfg_id config lo seen r
      → index < frag_count (length config)
      → Partial cfg_id config lo (index ∷ seen) (added r index (slice_of cfg_id config index))
  added-Partial lo seen r index p h =
      let g = index-Fits (length config) index fits h in
      let size = slice-length cfg_id config index fits h in
      let cast : u16 (index * 200) ≡ index * 200 = omega (arith, g) in
      record {
        active = p.active;
        cfg = p.cfg;
        total = p.total;
        len = p.len;
        crc = p.crc;
        since = p.since;
        size = rw cast (
            length-copy r.buf (slice_of cfg_id config index) (index * 200)
              (omega (arith, size, g, p.size))
            ∙ p.size);
        mask = omega arith;
        bits = λ k l.
            added-bit r.received_mask index k (omega (arith, g)) l
            ∙ elim (Bool-cases (k == index)) [ inl e ↦ rw e refl | inr e ↦ rw e (p.bits k l) ];
        below = λ k l. ground (arith, p.below k l);
        held = λ k j. added-held lo seen r index k j p h;
      }

  -- The test of the fragment's bit.
  bit_test :
      (lo : ℕ) (seen : List ℕ) (r : Reassembler) (index : ℕ)
      → Partial cfg_id config lo seen r
      → index < 8
      → (bit_and r.received_mask (u8 (1 <<< index)) == 0) ≡ not (has seen index)
  bit_test lo seen r index p h =
      let masked : bit_and r.received_mask (u8 (1 <<< index))
          ≡ bit_at r.received_mask index * 2 ^ index =
        ap (bit_and r.received_mask) (bit_byte index h) ∙ bit_and_pow r.received_mask index in
      let power = one-le-pow index 2 (omega arith) in
      elim (Bool-cases (has seen index)) [
        | inl there ↦
            let one : bit_at r.received_mask index ≡ 1 = ground (arith, p.bits index h, there) in
            ground (arith, masked, one, power, there)
        | inr missing ↦
            let none_yet : bit_at r.received_mask index ≡ 0 =
              ground (arith, p.bits index h, missing) in
            ground (arith, masked, none_yet, missing)
      ]

  pub store-again :
      (lo : ℕ) (seen : List ℕ) (r : Reassembler) (index : ℕ)
      → Partial cfg_id config lo seen r
      → index < 8
      → has seen index ≡ true
      → store r (header_of cfg_id config index) (slice_of cfg_id config index)
        ≡ (record r { stat_duplicates = inc32 r.stat_duplicates }, duplicate)
  unfolding store
  store-again lo seen r index p h there = rw (bit_test lo seen r index p h, there)

  pub store-new :
      (lo : ℕ) (seen : List ℕ) (r : Reassembler) (index : ℕ)
      → Partial cfg_id config lo seen r
      → index < 8
      → has seen index ≡ false
      → store r (header_of cfg_id config index) (slice_of cfg_id config index) ≡ (
          let r' = added r index (slice_of cfg_id config index) in
          if not (r'.received_mask == complete_mask r'.expected_total)
          then (r', need_more)
          else finish r')
  unfolding store
  store-new lo seen r index p h missing = rw (bit_test lo seen r index p h, missing)
