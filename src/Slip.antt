-- ===== src/Slip.antt =====
-- firmware/common/include/lorahome/slip.h and firmware/common/src/slip.c: SLIP framing of the
-- serial link. The caller's frame buffer is the list `buf` of `cap` bytes, written by index.
pub mod Valid
pub mod Collect
pub mod RoundTrip
pub mod Stream
pub mod Encode
pub mod Oversize
use lo_ra_home.Prelude.{
  ℕ, ◌+◌, ◌*◌, ◌%◌, List, [], ◌∷◌, ◌++◌, Bool, true, false, u16, u32, inc32, ltb, leb, ◌==◌,
  if◌then◌else◌, length, set,
}

abbrev pub slip_end : ℕ
slip_end = 0xc0

abbrev pub slip_esc : ℕ
slip_esc = 0xdb

abbrev pub slip_esc_end : ℕ
slip_esc_end = 0xdc

abbrev pub slip_esc_esc : ℕ
slip_esc_esc = 0xdd

-- `LH_SLIP_ENCODED_MAX`
abbrev pub encoded_max : ℕ → ℕ
encoded_max n = u32 (2 * n + 2)

-- `lh_slip_state_t`
pub data State : Type 0 where
  idle in_frame escaped resync : State

-- `lh_slip_feed_r`
pub data Feed : Type 0 where
  need_more frame_ready error : Feed

-- `lh_slip_decoder_t`
pub record Decoder : Type 0 where
  pub buf : List ℕ
  pub cap : ℕ
  pub len : ℕ
  pub state : State
  pub stat_frames_ok : ℕ
  pub stat_overflow : ℕ
  pub stat_bad_escape : ℕ
  pub stat_dropped : ℕ

-- `lh_slip_init`
unfoldable pub init : List ℕ → ℕ → Decoder
init storage room = record {
  buf = storage;
  cap = room;
  len = 0;
  state = idle;
  stat_frames_ok = 0;
  stat_overflow = 0;
  stat_bad_escape = 0;
  stat_dropped = 0;
}

-- `lh_slip_reset`
unfoldable pub reset : Decoder → Decoder
reset d = record d { len = 0; state = idle }

unfoldable pub enter_resync : Decoder → Decoder
enter_resync d = record d { len = 0; state = resync; stat_dropped = inc32 d.stat_dropped }

-- `append`, with its `int` as a Boolean.
unfoldable pub append : Decoder → ℕ → Decoder × Bool
unfolding enter_resync
append d byte =
    if leb d.cap d.len
    then (enter_resync (record d { stat_overflow = inc32 d.stat_overflow }), false)
    else (record d { buf = set d.buf d.len byte; len = u16 (d.len + 1) }, true)

-- `return append(dec, byte) ? LH_SLIP_NEED_MORE : LH_SLIP_ERROR;`
unfoldable pub store : Decoder → ℕ → Decoder × Feed
unfolding append
store d byte = let (d', stored) = append d byte in (d', if stored then need_more else error)

-- The END that closes a frame; an empty frame is not delivered.
unfoldable pub close : Decoder → Decoder × Feed
close d =
    let d' = record d { state = idle } in
    if d'.len == 0
    then (d', need_more)
    else (record d' { stat_frames_ok = inc32 d'.stat_frames_ok }, frame_ready)

-- An illegal byte behind ESC; an END there also ends the resynchronisation.
unfoldable pub bad_escape : Decoder → ℕ → Decoder × Feed
unfolding enter_resync
bad_escape d byte =
    let d' = enter_resync (record d { stat_bad_escape = inc32 d.stat_bad_escape }) in
    (if byte == slip_end then record d' { state = idle } else d', error)

-- The cases of the `switch` of `lh_slip_feed`.
unfoldable pub dispatch : State → Decoder → ℕ → Decoder × Feed
unfolding store close bad_escape
dispatch idle d byte =
    if byte == slip_end
    then (d, need_more)
    else if byte == slip_esc
    then (record d { state = escaped }, need_more)
    else store (record d { state = in_frame }) byte
dispatch in_frame d byte =
    if byte == slip_end
    then close d
    else if byte == slip_esc
    then (record d { state = escaped }, need_more)
    else store d byte
dispatch escaped d byte =
    if byte == slip_esc_end
    then store (record d { state = in_frame }) slip_end
    else if byte == slip_esc_esc
    then store (record d { state = in_frame }) slip_esc
    else bad_escape d byte
dispatch resync d byte = (if byte == slip_end then record d { state = idle } else d, need_more)

-- `if (dec->state == LH_SLIP_IDLE) dec->len = 0;`
unfoldable pub clear_idle : State → Decoder → Decoder
clear_idle idle d = record d { len = 0 }
clear_idle _ d = d

-- `lh_slip_feed`
unfoldable pub feed : Decoder → ℕ → Decoder × Feed
unfolding dispatch clear_idle
feed d byte = dispatch d.state (clear_idle d.state d) byte

-- One round of the loop of `lh_slip_encode`.
unfoldable pub encode_byte : ℕ → List ℕ
encode_byte byte =
    if byte == slip_end
    then slip_esc ∷ slip_esc_end ∷ []
    else if byte == slip_esc
    then slip_esc ∷ slip_esc_esc ∷ []
    else byte ∷ []

unfoldable pub encode_loop : List ℕ → List ℕ
unfolding encode_byte
encode_loop [] = []
encode_loop (byte ∷ bytes) = encode_byte byte ++ encode_loop bytes

-- `lh_slip_encode`: what it wrote; a failure writes nothing and returns 0.
unfoldable pub encode : List ℕ → ℕ → List ℕ
unfolding encode_loop
encode bytes out_cap =
    if ltb out_cap (encoded_max (length bytes))
    then []
    else slip_end ∷ (encode_loop bytes ++ (slip_end ∷ []))
