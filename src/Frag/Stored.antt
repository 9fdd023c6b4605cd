-- ===== src/Frag/Stored.antt =====
-- A fragment of one configuration in an assembly of it, by `store` of frag.c: the answer and what the
-- assembly holds.
use native.Mathlib.Decide.{ℕ_discrete}
use lo_ra_home.Prelude.{
  ℕ, ◌+◌, ◌*◌, ◌/◌, ◌%◌, ◌≤◌, ◌<◌, ◌≡◌, refl, sym, ap, ◌∙◌, ◌⊎◌, arith, List, ◌∷◌, true, false, not,
  length, take, take-all, length-take, get_or, get_or-take, get_or_ext, ◌==◌, if◌then◌else◌, inc32,
  Bool-cases, inl, inr,
}
use lo_ra_home.Crc.{crc16}
use lo_ra_home.Crc.Bounds.{crc16-take}
use lo_ra_home.Frag.{
  Reassembler, FragResult, need_more, duplicate, complete, frag_count, store, finish, complete_mask,
  reset,
}
use lo_ra_home.Frag.Header.{index-Fits}
use lo_ra_home.Frag.Sent.{has, header_of, slice_of, Partial}
use lo_ra_home.Frag.Step.{added, added-Partial, store-again, store-new}
use lo_ra_home.Frag.Mask.{mask_short, mask_full}

-- An answer to a fragment that does not complete the configuration.
abbrev pub Waits : FragResult → Type 0
Waits answer = (answer ≡ need_more) ⊎ (answer ≡ duplicate)

index_below : (n i : ℕ) → n ≤ 1600 → i < n → i / 200 < frag_count n
unfolding frag_count
index_below n i fits h = ground arith

when_full :
    (r : Reassembler)
    → r.received_mask ≡ complete_mask r.expected_total
    → (if not (r.received_mask == complete_mask r.expected_total) then (r, need_more) else finish r)
      ≡ finish r
when_full r e = ground (arith, e)

finish-right :
    (r : Reassembler)
    → crc16 r.buf r.total_len ≡ r.crc_expected
    → ((finish r).1 ≡ complete)
      × ((finish r).0.buf ≡ r.buf)
      × ((finish r).0.total_len ≡ r.total_len)
unfolding finish reset
finish-right r e = ground (arith, e)

module _ (cfg_id : ℕ) (config : List ℕ) (fits : length config ≤ 1600) (lo : ℕ) where
  again-Partial :
      (seen : List ℕ) (r : Reassembler) (index : ℕ)
      → Partial cfg_id config lo seen r
      → has seen index ≡ true
      → Partial cfg_id config lo
          (index ∷ seen)
          (record r { stat_duplicates = inc32 r.stat_duplicates })
  again-Partial seen r index p there =
      let same : (k : ℕ) → has (index ∷ seen) k ≡ has seen k = λ k. elim (ℕ_discrete k index) [
        | yes e ↦ ground (arith, e, there)
        | no ne ↦ ground (arith, ne)
      ] in
      record {
        active = p.active;
        cfg = p.cfg;
        total = p.total;
        len = p.len;
        crc = p.crc;
        since = p.since;
        size = p.size;
        mask = p.mask;
        bits = λ k l. rw (same k) (p.bits k l);
        below = λ k l. rw (same k) (p.below k l);
        held = λ k j hit. p.held k j (sym (same k) ∙ hit);
      }

  pub stored-Waits :
      (seen : List ℕ) (r : Reassembler) (index m : ℕ)
      → Partial cfg_id config lo seen r
      → index < frag_count (length config)
      → m < frag_count (length config)
      → has (index ∷ seen) m ≡ false
      → Partial cfg_id config lo
          (index ∷ seen)
          (store r (header_of cfg_id config index) (slice_of cfg_id config index)).0
        × Waits (store r (header_of cfg_id config index) (slice_of cfg_id config index)).1
  stored-Waits seen r index m p h l missing =
      let g = index-Fits (length config) index fits h in
      elim (Bool-cases (has seen index)) [
        | inl there ↦
            rw (store-again cfg_id config fits lo seen r index p (omega (arith, g)) there)
              (again-Partial seen r index p there, inr refl)
        | inr new ↦
            let q = added-Partial cfg_id config fits lo seen r index p h in
            let short =
              mask_short cfg_id config fits lo (index ∷ seen)
                (added r index (slice_of cfg_id config index)) m q l missing in
            rw (store-new cfg_id config fits lo seen r index p (omega (arith, g)) new, short)
              (q, inl refl)
      ]

  -- What a full assembly holds.
  whole :
      (seen : List ℕ) (r : Reassembler)
      → Partial cfg_id config lo seen r
      → ((k : ℕ) → k < frag_count (length config) → has seen k ≡ true)
      → take (length config) r.buf ≡ config
  whole seen r p all =
      let size : length (take (length config) r.buf) ≡ length config =
        omega (arith, length-take (length config) r.buf, p.size, fits) in
      get_or_ext 0 (take (length config) r.buf) config size (λ i l.
        let at : i ≡ i / 200 * 200 + i % 200 = omega arith in
        let inside : i < length config = omega (arith, size) in
        get_or-take r.buf (length config) i 0 inside
        ∙ ap (λ t. get_or r.buf t 0) at
        ∙ p.held (i / 200) (i % 200) (all (i / 200) (index_below (length config) i fits inside))
            (omega arith) (omega arith)
        ∙ ap (λ t. get_or config t 0) (sym at))

  pub stored_last :
      (seen : List ℕ) (r : Reassembler) (index : ℕ)
      → Partial cfg_id config lo seen r
      → index < frag_count (length config)
      → has seen index ≡ false
      → ((k : ℕ) → k < frag_count (length config) → has (index ∷ seen) k ≡ true)
      → ((store r (header_of cfg_id config index) (slice_of cfg_id config index)).1 ≡ complete)
        × (take
              (length config)
              (store r (header_of cfg_id config index) (slice_of cfg_id config index)).0.buf
            ≡ config)
        × ((store r (header_of cfg_id config index) (slice_of cfg_id config index)).0.total_len
            ≡ length config)
  stored_last seen r index p h new all =
      let g = index-Fits (length config) index fits h in
      let r' = added r index (slice_of cfg_id config index) in
      let q = added-Partial cfg_id config fits lo seen r index p h in
      let full = mask_full cfg_id config fits lo (index ∷ seen) r' q g.few all in
      let held = whole (index ∷ seen) r' q all in
      let right : crc16 r'.buf r'.total_len ≡ r'.crc_expected =
        ap (crc16 r'.buf) p.len
        ∙ crc16-take r'.buf config (length config)
            (held ∙ sym (take-all (length config) config (omega arith)))
        ∙ sym p.crc in
      let done = finish-right r' right in
      let step : store r (header_of cfg_id config index) (slice_of cfg_id config index)
          ≡ finish r' =
        store-new cfg_id config fits lo seen r index p (omega (arith, g)) new ∙ when_full r' full in
      rw step (done.0, ap (take (length config)) done.1 ∙ held, done.2 ∙ p.len)
