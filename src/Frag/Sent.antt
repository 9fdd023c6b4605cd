-- ===== src/Frag/Sent.antt =====
-- The fragments of one configuration, as frag.c builds them, and what `frag_feed` makes of one.
use lo_ra_home.Prelude.{
  ℕ, ◌+◌, ◌-◌, ◌*◌, ◌≤◌, ◌<◌, ◌≡◌, refl, ap, ◌∙◌, arith, List, [], ◌∷◌, ◌++◌, Bool, true, false,
  ◌||◌, length, length-take, length-drop, take, drop, get_or, ltb, ◌==◌, if◌then◌else◌, IsU16, u16,
}
use lo_ra_home.Prelude.Bits.{bit_at}
use lo_ra_home.Crc.{crc16}
use lo_ra_home.Crc.Bounds.{crc16-IsU16}
use lo_ra_home.Frag.{
  FragHdr, FragBuilt, fragment, Reassembler, hdr_encode, frag_count, slice_len, frag_build,
  header_is_sane, tick, take_in, frag_feed,
}
use lo_ra_home.Frag.Header.{IsFragHdr, index-Fits, built_at, sane_at, hdr_decode-hdr_encode}

abbrev bytes_of : FragBuilt → List ℕ
bytes_of (fragment bytes) = bytes
bytes_of _ = []

feed-payload :
    (r : Reassembler) (h : FragHdr) (slice : List ℕ) (now : ℕ)
    → IsFragHdr h
    → h.total_len ≤ 1600
    → length slice ≤ 200
    → header_is_sane h (length slice) ≡ true
    → frag_feed r (hdr_encode h ++ slice) now ≡ take_in (tick r now).0 h slice now
unfolding frag_feed
feed-payload r h slice now v fits small sane =
    let size : length (hdr_encode h ++ slice) ≡ 8 + length slice =
      unfold hdr_encode in omega arith in
    let rest : drop 8 (hdr_encode h ++ slice) ≡ slice = unfold hdr_encode in refl in
    let room : ltb (8 + length slice) 8 ≡ false = ground arith in
    let cast : u16 (8 + length slice - 8) ≡ length slice = omega arith in
    let held : ltb 1600 h.total_len ≡ false = ground arith in
    rw (size, rest, room, hdr_decode-hdr_encode h slice v, held, cast, sane)

-- Whether a fragment is among those that were fed.
abbrev pub has : List ℕ → ℕ → Bool
has [] k = false
has (x ∷ xs) k = k == x || has xs k

module _ (cfg_id : ℕ) (config : List ℕ) where
  -- The payload of the fragment `index`, in a buffer with room for the largest.
  abbrev pub sent : ℕ → List ℕ
  sent index = bytes_of (frag_build cfg_id index config 208)

  abbrev pub header_of : ℕ → FragHdr
  header_of index = record {
    cfg_id = cfg_id;
    frag_index = index;
    frag_total = frag_count (length config);
    total_len = length config;
    crc_total = crc16 config (length config);
  }

  abbrev pub slice_of : ℕ → List ℕ
  slice_of index = take (slice_len (length config) index) (drop (index * 200) config)

  -- An assembly of this configuration that holds the fragments `seen`, begun at `lo` or later.
  pub record Partial (lo : ℕ) (seen : List ℕ) (r : Reassembler) : Type 0 where
    pub active : r.active ≡ true
    pub cfg : r.cfg_id ≡ cfg_id
    pub total : r.expected_total ≡ frag_count (length config)
    pub len : r.total_len ≡ length config
    pub crc : r.crc_expected ≡ crc16 config (length config)
    pub since : lo ≤ r.first_frag_us
    pub size : length r.buf ≡ 1600
    pub mask : r.received_mask < 256
    pub bits : (k : ℕ) → k < 8 → bit_at r.received_mask k ≡ (if has seen k then 1 else 0)
    pub below : (k : ℕ) → frag_count (length config) ≤ k → has seen k ≡ false
    pub held :
        (k j : ℕ)
        → has seen k ≡ true
        → j < 200
        → k * 200 + j < length config
        → get_or r.buf (k * 200 + j) 0 ≡ get_or config (k * 200 + j) 0

  sent-eq :
      (index : ℕ)
      → length config ≤ 1600
      → index < frag_count (length config)
      → sent index ≡ hdr_encode (header_of index) ++ slice_of index
  sent-eq index fits h = ap bytes_of (
      built_at cfg_id index config 208 (index-Fits (length config) index fits h) fits h
        (omega arith))

  pub slice-length :
      (index : ℕ)
      → length config ≤ 1600
      → index < frag_count (length config)
      → length (slice_of index) ≡ slice_len (length config) index
  slice-length index fits h = omega (
    arith,
    index-Fits (length config) index fits h,
    length-take (slice_len (length config) index) (drop (index * 200) config),
    length-drop (index * 200) config,
  )

  -- What the receiver makes of a fragment, once its header is read.
  pub feed-sent :
      (r : Reassembler) (index now : ℕ)
      → IsU16 cfg_id
      → length config ≤ 1600
      → index < frag_count (length config)
      → frag_feed r (sent index) now ≡ take_in (tick r now).0 (header_of index) (slice_of index) now
  unfolding frag_feed
  feed-sent r index now id fits h =
      let h' = header_of index in
      let g = index-Fits (length config) index fits h in
      let v : IsFragHdr h' = record {
        cfg_id = id;
        total_len = omega arith;
        crc_total = crc16-IsU16 config (length config);
      } in
      let size = slice-length index fits h in
      ap (λ p. frag_feed r p now) (sent-eq index fits h)
      ∙ feed-payload r h' (slice_of index) now v fits (omega (arith, size, g))
          (rw size (sane_at h' g fits h refl))
