-- ===== src/BridgeStat.antt =====
-- firmware/common/include/lorahome/bridge_stat.h and firmware/common/src/bridge_stat.c: the health
-- readout of the bridge, 82 bytes in the order of the struct, each number high byte first.
pub mod RoundTrip
use lo_ra_home.Prelude.{
  ℕ, ◌+◌, List, [], ◌∷◌, ◌++◌, Option, none, some, bit_or, u8, u16, u32, ◌<<<◌, ◌>>>◌, ltb, ◌==◌,
  not, ◌||◌, if◌then◌else◌, length, get_or,
}

abbrev pub stat_version : ℕ
stat_version = 1

abbrev pub stat_size : ℕ
stat_size = 82

-- `lh_bridge_stat_t`
pub record BridgeStat : Type 0 where
  pub uptime_ms : ℕ
  pub heap_free_internal : ℕ
  pub heap_largest_block : ℕ
  pub heap_min_free_ever : ℕ
  pub serial_frames_in : ℕ
  pub serial_frames_out : ℕ
  pub radio_frames_in : ℕ
  pub radio_frames_out : ℕ
  pub rejected_crc : ℕ
  pub rejected_magic : ℕ
  pub rejected_len : ℕ
  pub rejected_duty_cycle : ℕ
  pub radio_tx_errors : ℕ
  pub serial_tx_errors : ℕ
  pub slip_frames_ok : ℕ
  pub slip_overflow : ℕ
  pub slip_bad_escape : ℕ
  pub slip_dropped : ℕ
  pub ring_overrun : ℕ
  pub ring_hwm : ℕ
  pub ring_capacity : ℕ

unfoldable pub put_u32 : ℕ → List ℕ
put_u32 value = u8 (value >>> 24) ∷ u8 (value >>> 16) ∷ u8 (value >>> 8) ∷ u8 value ∷ []

unfoldable pub put_u16 : ℕ → List ℕ
put_u16 value = u8 (value >>> 8) ∷ u8 value ∷ []

unfoldable pub get_u32 : List ℕ → ℕ → ℕ
get_u32 bytes offset =
    bit_or
      (bit_or
        (bit_or (u32 (get_or bytes offset 0 <<< 24)) (u32 (get_or bytes (offset + 1) 0 <<< 16)))
        (u32 (get_or bytes (offset + 2) 0 <<< 8)))
      (get_or bytes (offset + 3) 0)

unfoldable pub get_u16 : List ℕ → ℕ → ℕ
get_u16 bytes offset = u16 (bit_or (get_or bytes offset 0 <<< 8) (get_or bytes (offset + 1) 0))

-- The writes of `lh_bridge_stat_encode`, in their order.
unfoldable pub stat_bytes : BridgeStat → List ℕ
unfolding put_u32 put_u16
stat_bytes s =
    put_u16 stat_version
    ++ put_u32 s.uptime_ms
    ++ put_u32 s.heap_free_internal
    ++ put_u32 s.heap_largest_block
    ++ put_u32 s.heap_min_free_ever
    ++ put_u32 s.serial_frames_in
    ++ put_u32 s.serial_frames_out
    ++ put_u32 s.radio_frames_in
    ++ put_u32 s.radio_frames_out
    ++ put_u32 s.rejected_crc
    ++ put_u32 s.rejected_magic
    ++ put_u32 s.rejected_len
    ++ put_u32 s.rejected_duty_cycle
    ++ put_u32 s.radio_tx_errors
    ++ put_u32 s.serial_tx_errors
    ++ put_u32 s.slip_frames_ok
    ++ put_u32 s.slip_overflow
    ++ put_u32 s.slip_bad_escape
    ++ put_u32 s.slip_dropped
    ++ put_u32 s.ring_overrun
    ++ put_u16 s.ring_hwm
    ++ put_u16 s.ring_capacity

-- `lh_bridge_stat_encode`: what it wrote; a failure writes nothing and returns 0.
unfoldable pub stat_encode : BridgeStat → ℕ → List ℕ
stat_encode s room = if ltb room stat_size then [] else stat_bytes s

-- `lh_bridge_stat_decode`, for a payload of `len = length bytes`.
unfoldable pub stat_decode : List ℕ → Option BridgeStat
unfolding get_u32 get_u16
stat_decode bytes =
    if not (length bytes == stat_size)
    then none
    else if not (get_u16 bytes 0 == stat_version)
    then none
    else some (record {
      uptime_ms = get_u32 bytes 2;
      heap_free_internal = get_u32 bytes 6;
      heap_largest_block = get_u32 bytes 10;
      heap_min_free_ever = get_u32 bytes 14;
      serial_frames_in = get_u32 bytes 18;
      serial_frames_out = get_u32 bytes 22;
      radio_frames_in = get_u32 bytes 26;
      radio_frames_out = get_u32 bytes 30;
      rejected_crc = get_u32 bytes 34;
      rejected_magic = get_u32 bytes 38;
      rejected_len = get_u32 bytes 42;
      rejected_duty_cycle = get_u32 bytes 46;
      radio_tx_errors = get_u32 bytes 50;
      serial_tx_errors = get_u32 bytes 54;
      slip_frames_ok = get_u32 bytes 58;
      slip_overflow = get_u32 bytes 62;
      slip_bad_escape = get_u32 bytes 66;
      slip_dropped = get_u32 bytes 70;
      ring_overrun = get_u32 bytes 74;
      ring_hwm = get_u16 bytes 78;
      ring_capacity = get_u16 bytes 80;
    })
