-- ===== src/Frag/Header.antt =====
-- The header of a fragment, and the fragments that frag.c builds.
use native.Mathlib.Decide.{dec_lt}
use lo_ra_home.Prelude.{
  ap, sym, take-all, min, ◌-◌, ℕ, ◌*◌, ◌<◌, ◌≤◌, ◌≡◌, refl, ◌∙◌, arith, List, ◌++◌, true, length,
  take, drop, length-take, length-drop, IsU16,
}
use lo_ra_home.Crc.{crc16}
use lo_ra_home.Crc.Bounds.{crc16-IsU16}
use lo_ra_home.Frame.RoundTrip.{be16_split}
use lo_ra_home.Frag.{
  FragHdr, fragment, hdr_encode, hdr_decode, frag_count, slice_len, frag_build, header_is_sane,
}

-- The ranges of the header's fields.
pub record IsFragHdr (h : FragHdr) : Type 0 where
  pub cfg_id : IsU16 h.cfg_id
  pub total_len : IsU16 h.total_len
  pub crc_total : IsU16 h.crc_total

-- A header is read back from its eight bytes, whatever follows them.
pub hdr_decode-hdr_encode :
    (h : FragHdr) (rest : List ℕ) → IsFragHdr h → hdr_decode (hdr_encode h ++ rest) ≡ h
unfolding hdr_decode hdr_encode
hdr_decode-hdr_encode h rest v = rw (
  be16_split h.cfg_id v.cfg_id,
  be16_split h.total_len v.total_len,
  be16_split h.crc_total v.crc_total,
)

-- Below the count, a fragment starts inside the configuration and its slice ends there.
pub record Fits (n index : ℕ) : Type 0 where
  pub few : frag_count n ≤ 8
  pub some : 0 < frag_count n
  pub start : index * 200 ≤ n
  pub slice : slice_len n index ≡ min 200 (n - index * 200)

pub index-Fits : (n index : ℕ) → n ≤ 1600 → index < frag_count n → Fits n index
unfolding frag_count slice_len
index-Fits n index fits below = ground arith

take_slice :
    (start : ℕ) (config : List ℕ) (n : ℕ)
    → n ≡ min 200 (length config - start)
    → take n (drop start config) ≡ take 200 (drop start config)
take_slice start config n e = elim (dec_lt (length config - start) 200) [
  | yes p ↦
      take-all n (drop start config) (omega (arith, length-drop start config))
      ∙ sym (take-all 200 (drop start config) (omega (arith, length-drop start config)))
  | no p ↦ ap (λ k. take k (drop start config)) {y = 200} (omega arith)
]

pub built_at :
    (cfg_id index : ℕ) (config : List ℕ) (room : ℕ)
    → Fits (length config) index
    → length config ≤ 1600
    → index < frag_count (length config)
    → 208 ≤ room
    → frag_build cfg_id index config room
      ≡ fragment (
          hdr_encode (record {
            cfg_id = cfg_id;
            frag_index = index;
            frag_total = frag_count (length config);
            total_len = length config;
            crc_total = crc16 config (length config);
          })
          ++ take (slice_len (length config) index) (drop (index * 200) config))
unfolding frag_build
built_at cfg_id index config room g fits below enough = ground (arith, g)

pub sane_at :
    (h : FragHdr)
    → Fits h.total_len h.frag_index
    → h.total_len ≤ 1600
    → h.frag_index < h.frag_total
    → frag_count h.total_len ≡ h.frag_total
    → header_is_sane h (slice_len h.total_len h.frag_index) ≡ true
unfolding header_is_sane
sane_at h g fits below e = ground (arith, g)

-- For a configuration of at most 1600 bytes, every fragment below the count is built where there is
-- room for 208 bytes; it is its header and its slice, and the receiver's test of its header passes.
pub frag_build_sane :
    (cfg_id index : ℕ) (config : List ℕ) (room : ℕ)
    → IsU16 cfg_id
    → length config ≤ 1600
    → index < frag_count (length config)
    → 208 ≤ room
    → (h : FragHdr) × (slice : List ℕ) × (frag_build cfg_id index config room
        ≡ fragment (hdr_encode h ++ slice))
      × (hdr_decode (hdr_encode h ++ slice) ≡ h)
      × (slice ≡ take 200 (drop (index * 200) config))
      × (header_is_sane h (length slice) ≡ true)
frag_build_sane cfg_id index config room id fits below enough =
    let h : FragHdr = record {
      cfg_id = cfg_id;
      frag_index = index;
      frag_total = frag_count (length config);
      total_len = length config;
      crc_total = crc16 config (length config);
    } in
    let slice = take (slice_len (length config) index) (drop (index * 200) config) in
    let good : IsFragHdr h = record {
      cfg_id = id;
      total_len = omega arith;
      crc_total = crc16-IsU16 config (length config);
    } in
    let g = index-Fits (length config) index fits below in
    let size : length slice ≡ slice_len (length config) index = omega (
      arith,
      g,
      length-take (slice_len (length config) index) (drop (index * 200) config),
      length-drop (index * 200) config,
    ) in
    (
      h,
      slice,
      built_at cfg_id index config room g fits below enough,
      hdr_decode-hdr_encode h slice good,
      take_slice (index * 200) config _ g.slice,
      rw size (sane_at h g fits below refl),
    )
