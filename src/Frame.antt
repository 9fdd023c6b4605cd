-- ===== src/Frame.antt =====
-- firmware/common/include/lorahome/protocol.h and firmware/common/src/protocol.c: the frame on the
-- air. A buffer is the list of its bytes; a function that fills a caller's buffer returns what it
-- wrote. `buf` may be longer than `len`, as a receive buffer is.
pub mod RoundTrip
pub mod Corrupt
use lo_ra_home.Prelude.{
  ℕ, ◌+◌, ◌-◌, ◌%◌, List, [], ◌∷◌, ◌++◌, Bool, true, false, ◌||◌, Option, none, some, bit_and,
  bit_or, u8, u16, ◌<<<◌, ◌>>>◌, ltb, ◌==◌, not, if◌then◌else◌, length, get_or, take, drop,
}
use lo_ra_home.Crc.{crc16}

abbrev pub magic_ver : ℕ
magic_ver = 0x4b

abbrev pub header_size : ℕ
header_size = 8

abbrev pub crc_size : ℕ
crc_size = 2

abbrev pub max_payload : ℕ
max_payload = 220

abbrev pub min_frame_size : ℕ
min_frame_size = 10

abbrev pub max_frame_size : ℕ
max_frame_size = 230

abbrev pub uint16_max : ℕ
uint16_max = 0xffff

-- `LORAHOME_BRIDGE_ID`
abbrev pub bridge_id : ℕ
bridge_id = 0

abbrev pub bridge_stat_req : ℕ
bridge_stat_req = 0x50

abbrev pub bridge_stat_rsp : ℕ
bridge_stat_rsp = 0x51

-- `lorahome_frame_type_t`, the fifteen values in the order of the enum.
abbrev pub frame_types : List ℕ
frame_types =
    0x01 ∷ 0x02 ∷ 0x03 ∷ 0x10 ∷ 0x11 ∷ 0x12 ∷ 0x13 ∷ 0x20 ∷ 0x21 ∷ 0x30 ∷ 0x31 ∷ 0x40 ∷ 0x41
    ∷ bridge_stat_req ∷ bridge_stat_rsp ∷ []

-- `lorahome_header_t`
pub record Header : Type 0 where
  pub type : ℕ
  pub src_id : ℕ
  pub dst_id : ℕ
  pub seq : ℕ
  pub flags : ℕ

-- `lh_err_t`
pub data Err : Type 0 where
  ok too_short bad_magic bad_crc bad_type too_long : Err

-- `lh_frame_view_t`. `payload` is the `payload_len` bytes that the pointer shows.
pub record View : Type 0 where
  pub hdr : Header
  pub payload : List ℕ
  pub payload_len : ℕ
  pub crc_rx : ℕ
  pub crc_calc : ℕ

-- What `memset` leaves of a header and of a view.
abbrev pub no_header : Header
no_header = record { type = 0; src_id = 0; dst_id = 0; seq = 0; flags = 0 }

abbrev pub no_view : View
no_view = record { hdr = no_header; payload = []; payload_len = 0; crc_rx = 0; crc_calc = 0 }

-- What a function returns that fills a buffer: the bytes written, or the negative code.
pub data Built : Type 0 where
  written : List ℕ → Built
  failed : Err → Built

abbrev one_of : List ℕ → ℕ → Bool
one_of [] t = false
one_of (x ∷ xs) t = t == x || one_of xs t

-- `lh_frame_type_is_known`
unfoldable pub type_is_known : ℕ → Bool
type_is_known t = one_of frame_types t

-- `lorahome_frame_crc`
unfoldable pub frame_crc : List ℕ → ℕ → ℕ
frame_crc buf body_len = crc16 buf body_len

-- `(uint16_t)((hi << 8) | lo)`
unfoldable pub be16 : ℕ → ℕ → ℕ
be16 hi lo = u16 (bit_or (hi <<< 8) lo)

-- `lorahome_encode_header`
unfoldable pub encode_header : Header → List ℕ
encode_header h =
    magic_ver
    ∷ h.type
    ∷ u8 (h.src_id >>> 8)
    ∷ u8 (bit_and h.src_id 0xff)
    ∷ u8 (h.dst_id >>> 8)
    ∷ u8 (bit_and h.dst_id 0xff)
    ∷ h.seq
    ∷ h.flags
    ∷ []

-- `lorahome_decode_header`
unfoldable pub decode_header : List ℕ → ℕ → Option Header
decode_header buf len =
    if ltb len header_size
    then none
    else if not (get_or buf 0 0 == magic_ver)
    then none
    else some (record {
      type = get_or buf 1 0;
      src_id = be16 (get_or buf 2 0) (get_or buf 3 0);
      dst_id = be16 (get_or buf 4 0) (get_or buf 5 0);
      seq = get_or buf 6 0;
      flags = get_or buf 7 0;
    })

-- The tail of `lh_frame_parse`: the view is complete, and the type is looked at last.
unfoldable pub finish_parse : List ℕ → ℕ → View → Header → Err × View
finish_parse buf body_len v h =
    let full = record v {
      hdr = h;
      payload = take (u16 (body_len - header_size)) (drop header_size buf);
      payload_len = u16 (body_len - header_size);
    } in
    if not (type_is_known h.type) then (bad_type, full) else (ok, full)

-- `lh_frame_parse`
unfoldable pub parse : List ℕ → ℕ → Err × View
parse buf len =
    if ltb len min_frame_size
    then (too_short, no_view)
    else if ltb max_frame_size len
    then (too_long, no_view)
    else if not (get_or buf 0 0 == magic_ver)
    then (bad_magic, no_view)
    else let body_len = u16 (len - crc_size) in
      let v = record no_view {
        crc_rx = be16 (get_or buf body_len 0) (get_or buf (body_len + 1) 0);
        crc_calc = frame_crc buf body_len;
      } in
      if not (v.crc_rx == v.crc_calc) then (bad_crc, v) else elim (decode_header buf body_len) [
        | none ↦ (bad_magic, v)
        | some h ↦ finish_parse buf body_len v h
      ]

-- `lh_frame_build`, for a payload of `payload_len = length payload` bytes.
unfoldable pub build : Header → List ℕ → ℕ → Built
build h payload out_cap =
    if ltb max_payload (length payload)
    then failed too_long
    else if ltb out_cap (u16 (header_size + length payload + crc_size))
    then failed too_short
    else let body = encode_header h ++ payload in
      let crc = frame_crc body (u16 (header_size + length payload)) in
      written (body ++ (u8 (crc >>> 8) ∷ u8 (bit_and crc 0xff) ∷ []))

-- `lorahome_encode_frame`; `none` is the -1.
unfoldable pub encode_frame : Header → List ℕ → ℕ → Option (List ℕ)
encode_frame h payload out_cap =
    if ltb max_payload (length payload)
    then none
    else let cap = if ltb uint16_max out_cap then uint16_max else out_cap in
      elim (build h payload (u16 cap)) [ written bytes ↦ some bytes | failed e ↦ none ]

-- Whether `lorahome_decode_frame` takes the verdict for an intact frame.
abbrev pub intact : Err → Bool
intact ok = true
intact bad_type = true
intact _ = false

-- `lorahome_decode_frame`: the header and the payload, or `none` for `false`.
unfoldable pub decode_frame : List ℕ → ℕ → Option (Header × List ℕ)
decode_frame buf len =
    if ltb uint16_max len
    then none
    else let (err, v) = parse buf (u16 len) in if intact err then some (v.hdr, v.payload) else none
