-- ===== src/Frag/Opening.antt =====
-- How `frag_feed` of frag.c treats a fragment of one configuration: it opens an assembly, or goes to the
-- one that is open.
use lo_ra_home.Prelude.{
  ℕ, ◌+◌, ◌-◌, ◌≤◌, ◌<◌, ◌≡◌, refl, ap, ◌∙◌, ◌⊎◌, arith, List, [], true, false, length, leb,
  ==_refl, IsU16, Bool-cases, inl, inr,
}
use lo_ra_home.Prelude.Bits.{bit_at-zero}
use lo_ra_home.Crc.{crc16}
use lo_ra_home.Frag.{
  FragHdr, Reassembler, frag_count, store, stale, tick, begin, is_foreign, take_in, frag_feed,
  reset, timeout_us,
}
use lo_ra_home.Frag.Sent.{sent, header_of, slice_of, feed-sent, Partial}

tick_early :
    (r : Reassembler) (now : ℕ)
    → leb timeout_us (now - r.first_frag_us) ≡ false
    → (tick r now).0 ≡ r
unfolding tick stale
tick_early r now early = elim (Bool-cases r.active) [
  | inl a ↦ ground (arith, a, early)
  | inr a ↦ ground (arith, a)
]

tick_idle : (r : Reassembler) (now : ℕ) → r.active ≡ false → (tick r now).0 ≡ r
unfolding tick stale
tick_idle r now idle = ground (arith, idle)

take_in-known :
    (r : Reassembler) (h : FragHdr) (slice : List ℕ) (now : ℕ)
    → r.active ≡ true
    → is_foreign r h ≡ false
    → take_in r h slice now ≡ store r h slice
unfolding take_in
take_in-known r h slice now active known = ground (arith, active, known)

take_in-idle :
    (r : Reassembler) (h : FragHdr) (slice : List ℕ) (now : ℕ)
    → r.active ≡ false
    → take_in r h slice now ≡ store (begin r h now) h slice
unfolding take_in
take_in-idle r h slice now idle = ground (arith, idle)

module _ (cfg_id : ℕ) (config : List ℕ) where
  -- A fragment of the configuration that arrives within the timeout.
  abbrev pub InTime : ℕ → ℕ × ℕ → Type 0
  InTime lo (index, now) =
      (index < frag_count (length config)) × (lo ≤ now) × (now < lo + timeout_us)

  module _ (id : IsU16 cfg_id) (fits : length config ≤ 1600) (lo : ℕ) where
    abbrev pub Ready : List ℕ → Reassembler → Type 0
    Ready seen r =
        Partial cfg_id config lo seen r ⊎ ((seen ≡ []) × (r.active ≡ false) × (length r.buf ≡ 1600))

    not_foreign :
        (seen : List ℕ) (r : Reassembler) (index : ℕ)
        → Partial cfg_id config lo seen r
        → is_foreign r (header_of cfg_id config index) ≡ false
    unfolding is_foreign
    not_foreign seen r index p = rw (
      p.cfg,
      p.total,
      p.len,
      p.crc,
      ==_refl cfg_id,
      ==_refl (frag_count (length config)),
      ==_refl (length config),
      ==_refl (crc16 config (length config)),
    )

    -- A fragment of the assembly that is open goes to its place.
    going_on :
        (seen : List ℕ) (r : Reassembler) (index now : ℕ)
        → Partial cfg_id config lo seen r
        → InTime lo (index, now)
        → frag_feed r (sent cfg_id config index) now
          ≡ store r (header_of cfg_id config index) (slice_of cfg_id config index)
    going_on seen r index now p t =
        let early : leb timeout_us (now - r.first_frag_us) ≡ false = ground (arith, p.since, t) in
        feed-sent cfg_id config r index now id fits t.0
        ∙ ap (λ x. take_in x (header_of cfg_id config index) (slice_of cfg_id config index) now)
            (tick_early r now early)
        ∙ take_in-known r (header_of cfg_id config index) (slice_of cfg_id config index) now
            p.active (not_foreign seen r index p)

    -- The first fragment opens one.
    first_one :
        (r : Reassembler) (index now : ℕ)
        → r.active ≡ false
        → InTime lo (index, now)
        → frag_feed r (sent cfg_id config index) now
          ≡ store
              (begin r (header_of cfg_id config index) now)
              (header_of cfg_id config index)
              (slice_of cfg_id config index)
    first_one r index now idle t =
        feed-sent cfg_id config r index now id fits t.0
        ∙ ap (λ x. take_in x (header_of cfg_id config index) (slice_of cfg_id config index) now)
            (tick_idle r now idle)
        ∙ take_in-idle r (header_of cfg_id config index) (slice_of cfg_id config index) now idle

    begin-Partial :
        (r : Reassembler) (index now : ℕ)
        → length r.buf ≡ 1600
        → lo ≤ now
        → Partial cfg_id config lo [] (begin r (header_of cfg_id config index) now)
    unfolding begin reset
    begin-Partial r index now size later = record {
      active = refl;
      cfg = refl;
      total = refl;
      len = refl;
      crc = refl;
      since = later;
      size = size;
      mask = omega arith;
      bits = λ k l. bit_at-zero k;
      below = λ k l. refl;
      held = λ k j. λ hit. absurd (ground (arith, hit));
    }

    pub opened :
        (seen : List ℕ) (r : Reassembler) (index now : ℕ)
        → Ready seen r
        → InTime lo (index, now)
        → (r' : Reassembler) × Partial cfg_id config lo seen r'
          × (frag_feed r (sent cfg_id config index) now
              ≡ store r' (header_of cfg_id config index) (slice_of cfg_id config index))
    opened seen r index now (inl p) t = (r, p, going_on seen r index now p t)
    opened seen r index now (inr (e, idle, size)) t = (
      begin r (header_of cfg_id config index) now,
      rw e (begin-Partial r index now size t.1),
      first_one r index now idle t,
    )
