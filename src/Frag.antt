-- ===== src/Frag.antt =====
-- firmware/common/include/lorahome/frag.h and firmware/common/src/frag.c: a configuration in up to
-- eight fragments, and its reassembly. Times are natural numbers of microseconds that do not run
-- backwards.
pub mod Valid
pub mod Header
pub mod Sent
pub mod Step
pub mod Mask
pub mod Opening
pub mod Stored
pub mod Assembly
use lo_ra_home.Prelude.{
  ℕ, ◌+◌, ◌-◌, ◌*◌, ◌/◌, List, [], ◌∷◌, ◌++◌, Bool, true, false, ◌&&◌, ◌||◌, not, bit_and, bit_or,
  u8, u16, inc32, ◌<<<◌, ◌>>>◌, ltb, leb, ◌==◌, if◌then◌else◌, length, get_or, take, drop, copy,
}
use lo_ra_home.Crc.{crc16}
use lo_ra_home.Frame.{be16}

abbrev pub max_fragments : ℕ
max_fragments = 8

abbrev pub payload_max : ℕ
payload_max = 200

abbrev pub config_max : ℕ
config_max = 1600

abbrev pub hdr_size : ℕ
hdr_size = 8

-- `LH_FRAG_TIMEOUT_MS` in microseconds
abbrev pub timeout_us : ℕ
timeout_us = 30000 * 1000

-- `lh_frag_hdr_t`
pub record FragHdr : Type 0 where
  pub cfg_id : ℕ
  pub frag_index : ℕ
  pub frag_total : ℕ
  pub total_len : ℕ
  pub crc_total : ℕ

-- `lh_frag_hdr_encode`
unfoldable pub hdr_encode : FragHdr → List ℕ
hdr_encode h =
    u8 (h.cfg_id >>> 8)
    ∷ u8 (bit_and h.cfg_id 0xff)
    ∷ h.frag_index
    ∷ h.frag_total
    ∷ u8 (h.total_len >>> 8)
    ∷ u8 (bit_and h.total_len 0xff)
    ∷ u8 (h.crc_total >>> 8)
    ∷ u8 (bit_and h.crc_total 0xff)
    ∷ []

-- `lh_frag_hdr_decode`
unfoldable pub hdr_decode : List ℕ → FragHdr
hdr_decode bytes = record {
  cfg_id = be16 (get_or bytes 0 0) (get_or bytes 1 0);
  frag_index = get_or bytes 2 0;
  frag_total = get_or bytes 3 0;
  total_len = be16 (get_or bytes 4 0) (get_or bytes 5 0);
  crc_total = be16 (get_or bytes 6 0) (get_or bytes 7 0);
}

-- `lh_frag_count`
unfoldable pub frag_count : ℕ → ℕ
frag_count total_len =
    if ltb config_max total_len
    then 0
    else if total_len == 0
    then 1
    else u8 ((total_len + payload_max - 1) / payload_max)

-- The bytes that `lh_frag_build` wrote, or the reason why there are none.
pub data FragBuilt : Type 0 where
  fragment : List ℕ → FragBuilt
  too_long too_short : FragBuilt

-- The length of the slice at `index`: what is left, at most `payload_max`.
unfoldable pub slice_len : ℕ → ℕ → ℕ
slice_len total_len index =
    let left = u16 (total_len + 65536 - u16 (index * payload_max)) in
    if ltb payload_max left then payload_max else left

-- `lh_frag_build`, for `total_len = length config`.
unfoldable pub frag_build : ℕ → ℕ → List ℕ → ℕ → FragBuilt
frag_build cfg_id index config out_cap =
    let total = frag_count (length config) in
    if total == 0 || leb total index
    then too_long
    else let offset = u16 (index * payload_max) in
      let slice = slice_len (length config) index in
      if ltb out_cap (hdr_size + slice)
      then too_short
      else let hdr : FragHdr = record {
        cfg_id = cfg_id;
        frag_index = index;
        frag_total = total;
        total_len = length config;
        crc_total = crc16 config (length config);
      } in
        fragment (hdr_encode hdr ++ take slice (drop offset config))

-- `lh_frag_result_t`
pub data FragResult : Type 0 where
  need_more complete duplicate err_header err_too_large err_foreign err_crc : FragResult

-- `lh_reassembler_t`; `buf` is the array of `config_max` bytes.
pub record Reassembler : Type 0 where
  pub buf : List ℕ
  pub cfg_id : ℕ
  pub received_mask : ℕ
  pub expected_total : ℕ
  pub total_len : ℕ
  pub crc_expected : ℕ
  pub first_frag_us : ℕ
  pub active : Bool
  pub stat_completed : ℕ
  pub stat_timeouts : ℕ
  pub stat_crc_fail : ℕ
  pub stat_duplicates : ℕ
  pub stat_foreign : ℕ

-- `lh_frag_reset`
unfoldable pub reset : Reassembler → Reassembler
reset r = record r {
  cfg_id = 0;
  received_mask = 0;
  expected_total = 0;
  total_len = 0;
  crc_expected = 0;
  first_frag_us = 0;
  active = false;
}

-- `header_is_sane`
unfoldable pub header_is_sane : FragHdr → ℕ → Bool
unfolding frag_count slice_len
header_is_sane h len =
    if h.frag_total == 0 || ltb max_fragments h.frag_total
    then false
    else if leb h.frag_total h.frag_index
    then false
    else if ltb config_max h.total_len
    then false
    else if not (frag_count h.total_len == h.frag_total)
    then false
    else if ltb h.total_len (u16 (h.frag_index * payload_max))
    then false
    else len == slice_len h.total_len h.frag_index

-- `active && now_us - first_frag_us >= LH_FRAG_TIMEOUT_MS * 1000`, and what follows of it.
unfoldable pub stale : Reassembler → ℕ → Bool
stale r now_us = r.active && leb timeout_us (now_us - r.first_frag_us)

-- `lh_frag_tick`: whether a transaction expired.
unfoldable pub tick : Reassembler → ℕ → Reassembler × Bool
unfolding stale reset
tick r now_us =
    if stale r now_us
    then (reset (record r { stat_timeouts = inc32 r.stat_timeouts }), true)
    else (r, false)

-- The slot of a new transaction.
unfoldable pub begin : Reassembler → FragHdr → ℕ → Reassembler
unfolding reset
begin r h now_us =
    let r' = reset r in
    record r' {
      active = true;
      cfg_id = h.cfg_id;
      expected_total = h.frag_total;
      total_len = h.total_len;
      crc_expected = h.crc_total;
      first_frag_us = now_us;
    }

unfoldable pub is_foreign : Reassembler → FragHdr → Bool
is_foreign r h =
    not (h.cfg_id == r.cfg_id)
    || not (h.frag_total == r.expected_total)
    || not (h.total_len == r.total_len)
    || not (h.crc_total == r.crc_expected)

unfoldable pub complete_mask : ℕ → ℕ
complete_mask total = u8 (if leb 8 total then 0xff else (1 <<< total) - 1)

-- The end of an assembly: the slot is released whether the CRC is right or not.
unfoldable pub finish : Reassembler → Reassembler × FragResult
unfolding reset
finish r =
    let crc_ok = crc16 r.buf r.total_len == r.crc_expected in
    let r' = reset r in
    let r'' = record r' { total_len = r.total_len } in
    if not crc_ok
    then (record r'' { stat_crc_fail = inc32 r''.stat_crc_fail }, err_crc)
    else (record r'' { stat_completed = inc32 r''.stat_completed }, complete)

-- A fragment of the transaction in the slot.
unfoldable pub store : Reassembler → FragHdr → List ℕ → Reassembler × FragResult
unfolding finish complete_mask
store r h slice =
    let bit = u8 (1 <<< h.frag_index) in
    if not (bit_and r.received_mask bit == 0)
    then (record r { stat_duplicates = inc32 r.stat_duplicates }, duplicate)
    else let offset = u16 (h.frag_index * payload_max) in
      let r' = record r {
        buf = copy r.buf offset slice;
        received_mask = u8 (bit_or r.received_mask bit);
      } in
      if not (r'.received_mask == complete_mask r'.expected_total)
      then (r', need_more)
      else finish r'

-- A fragment with a sound header, after a stale transaction was expired.
unfoldable pub take_in : Reassembler → FragHdr → List ℕ → ℕ → Reassembler × FragResult
unfolding begin is_foreign store
take_in r h slice now_us =
    if not r.active
    then store (begin r h now_us) h slice
    else if is_foreign r h
    then (record r { stat_foreign = inc32 r.stat_foreign }, err_foreign)
    else store r h slice

-- `lh_frag_feed`, for a payload of `len = length payload` bytes.
unfoldable pub frag_feed : Reassembler → List ℕ → ℕ → Reassembler × FragResult
frag_feed r payload now_us =
    if ltb (length payload) hdr_size
    then (r, err_header)
    else let h = hdr_decode payload in
      if ltb config_max h.total_len
      then (r, err_too_large)
      else if not (header_is_sane h (u16 (length payload - hdr_size)))
      then (r, err_header)
      else take_in (tick r now_us).0 h (drop hdr_size payload) now_us
