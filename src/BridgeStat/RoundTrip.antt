-- ===== src/BridgeStat/RoundTrip.antt =====
-- The health readout is read back.
use lo_ra_home.Prelude.{
  ℕ, ◌+◌, ◌*◌, ◌/◌, ◌%◌, ◌^◌, ◌≤◌, ◌≡◌, refl, arith, some, bit_or, u8, u16, u32, IsU16, IsU32,
  length,
}
use lo_ra_home.Prelude.Bits.{bit_or_fields}
use lo_ra_home.BridgeStat.{BridgeStat, stat_bytes, stat_encode, stat_decode}

-- The ranges of the fields.
pub record IsStat (s : BridgeStat) : Type 0 where
  pub uptime_ms : IsU32 s.uptime_ms
  pub heap_free_internal : IsU32 s.heap_free_internal
  pub heap_largest_block : IsU32 s.heap_largest_block
  pub heap_min_free_ever : IsU32 s.heap_min_free_ever
  pub serial_frames_in : IsU32 s.serial_frames_in
  pub serial_frames_out : IsU32 s.serial_frames_out
  pub radio_frames_in : IsU32 s.radio_frames_in
  pub radio_frames_out : IsU32 s.radio_frames_out
  pub rejected_crc : IsU32 s.rejected_crc
  pub rejected_magic : IsU32 s.rejected_magic
  pub rejected_len : IsU32 s.rejected_len
  pub rejected_duty_cycle : IsU32 s.rejected_duty_cycle
  pub radio_tx_errors : IsU32 s.radio_tx_errors
  pub serial_tx_errors : IsU32 s.serial_tx_errors
  pub slip_frames_ok : IsU32 s.slip_frames_ok
  pub slip_overflow : IsU32 s.slip_overflow
  pub slip_bad_escape : IsU32 s.slip_bad_escape
  pub slip_dropped : IsU32 s.slip_dropped
  pub ring_overrun : IsU32 s.ring_overrun
  pub ring_hwm : IsU16 s.ring_hwm
  pub ring_capacity : IsU16 s.ring_capacity

four_bytes :
    (v : ℕ)
    → IsU32 v
    → bit_or
        (bit_or
          (bit_or (u32 (u8 (v / 2 ^ 24) * 2 ^ 24)) (u32 (u8 (v / 2 ^ 16) * 2 ^ 16)))
          (u32 (u8 (v / 2 ^ 8) * 2 ^ 8)))
        (u8 v)
      ≡ v
four_bytes v h =
    let a = v / 2 ^ 24 in
    let b = v / 2 ^ 16 % 256 in
    let c = v / 2 ^ 8 % 256 in
    let d = v % 256 in
    let cast_a : u32 (u8 (v / 2 ^ 24) * 2 ^ 24) ≡ a * 2 ^ 24 = omega arith in
    let cast_b : u32 (u8 (v / 2 ^ 16) * 2 ^ 16) ≡ b * 2 ^ 16 = omega arith in
    let cast_c : u32 (u8 (v / 2 ^ 8) * 2 ^ 8) ≡ c * 2 ^ 8 = omega arith in
    let two : a * 2 ^ 24 + b * 2 ^ 16 ≡ (a * 256 + b) * 2 ^ 16 = omega arith in
    let three : (a * 256 + b) * 2 ^ 16 + c * 2 ^ 8 ≡ ((a * 256 + b) * 256 + c) * 2 ^ 8 =
      omega arith in
    rw
      (
        cast_a,
        cast_b,
        cast_c,
        bit_or_fields 24 a (b * 2 ^ 16) (omega arith),
        two,
        bit_or_fields 16 (a * 256 + b) (c * 2 ^ 8) (omega arith),
        three,
        bit_or_fields 8 ((a * 256 + b) * 256 + c) d (omega arith),
      )
      (omega arith)

two_bytes : (v : ℕ) → IsU16 v → u16 (bit_or (u8 (v / 2 ^ 8) * 2 ^ 8) (u8 v)) ≡ v
two_bytes v h = omega (arith, bit_or_fields 8 (u8 (v / 2 ^ 8)) (u8 v) (omega arith))

stat_encode_open : (s : BridgeStat) (room : ℕ) → 82 ≤ room → stat_encode s room ≡ stat_bytes s
unfolding stat_encode
stat_encode_open s room h = ground arith

stat_bytes_back : (s : BridgeStat) → IsStat s → stat_decode (stat_bytes s) ≡ some s
unfolding stat_decode stat_bytes
stat_bytes_back s v = rw (
  four_bytes s.uptime_ms v.uptime_ms,
  four_bytes s.heap_free_internal v.heap_free_internal,
  four_bytes s.heap_largest_block v.heap_largest_block,
  four_bytes s.heap_min_free_ever v.heap_min_free_ever,
  four_bytes s.serial_frames_in v.serial_frames_in,
  four_bytes s.serial_frames_out v.serial_frames_out,
  four_bytes s.radio_frames_in v.radio_frames_in,
  four_bytes s.radio_frames_out v.radio_frames_out,
  four_bytes s.rejected_crc v.rejected_crc,
  four_bytes s.rejected_magic v.rejected_magic,
  four_bytes s.rejected_len v.rejected_len,
  four_bytes s.rejected_duty_cycle v.rejected_duty_cycle,
  four_bytes s.radio_tx_errors v.radio_tx_errors,
  four_bytes s.serial_tx_errors v.serial_tx_errors,
  four_bytes s.slip_frames_ok v.slip_frames_ok,
  four_bytes s.slip_overflow v.slip_overflow,
  four_bytes s.slip_bad_escape v.slip_bad_escape,
  four_bytes s.slip_dropped v.slip_dropped,
  four_bytes s.ring_overrun v.ring_overrun,
  two_bytes s.ring_hwm v.ring_hwm,
  two_bytes s.ring_capacity v.ring_capacity,
)

-- Where 82 bytes fit, a health readout is written in 82 bytes and read back field by field.
pub stat_decode-stat_encode :
    (s : BridgeStat) (room : ℕ)
    → IsStat s
    → 82 ≤ room
    → (length (stat_encode s room) ≡ 82) × (stat_decode (stat_encode s room) ≡ some s)
unfolding stat_bytes
stat_decode-stat_encode s room v h = rw (stat_encode_open s room h) (refl, stat_bytes_back s v)
