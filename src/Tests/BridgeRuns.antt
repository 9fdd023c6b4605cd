-- ===== src/Tests/BridgeRuns.antt =====
-- The bridge of bridge_core.c and its health readout at concrete inputs.
use lo_ra_home.Prelude.{
  ℕ, ◌≡◌, refl, arith, List, [], ◌∷◌, true, none, some, length, leb, ◌-◌, ◌++◌, false,
  if◌then◌else◌, replicate,
}
use lo_ra_home.BridgeStat.{BridgeStat, stat_encode, stat_decode}
use lo_ra_home.BridgeStat.RoundTrip.{IsStat, stat_decode-stat_encode}
use lo_ra_home.Crc.{crc16}
use lo_ra_home.Frame.{be16, parse, frame_crc, decode_header, finish_parse, type_is_known}
use lo_ra_home.Slip.{encode, feed}
use lo_ra_home.Bridge.{
  Bridge, Ports, on_air, asked, init, ask, offer, validate, transmit, forward_to_radio, feed_byte,
  feed_serial,
}

abbrev readout : BridgeStat
readout = record {
  uptime_ms = 70000;
  heap_free_internal = 71000;
  heap_largest_block = 72000;
  heap_min_free_ever = 73000;
  serial_frames_in = 74000;
  serial_frames_out = 75000;
  radio_frames_in = 76000;
  radio_frames_out = 77000;
  rejected_crc = 78000;
  rejected_magic = 79000;
  rejected_len = 80000;
  rejected_duty_cycle = 81000;
  radio_tx_errors = 82000;
  serial_tx_errors = 83000;
  slip_frames_ok = 84000;
  slip_overflow = 85000;
  slip_bad_escape = 86000;
  slip_dropped = 87000;
  ring_overrun = 88000;
  ring_hwm = 2048;
  ring_capacity = 2048;
}

readout-IsStat : IsStat readout
readout-IsStat = omega arith

stat_decode-stat_encode_example :
    (length (stat_encode readout 82) ≡ 82) × (stat_decode (stat_encode readout 82) ≡ some readout)
stat_decode-stat_encode_example = stat_decode-stat_encode readout 82 readout-IsStat (omega arith)

-- A radio that takes every frame, and a guard that has 15 bytes left to give: the world is what is left.
abbrev ports : Ports ℕ
ports = record {
  to_radio = some (λ left f. (left, true));
  to_host = none;
  allow_tx = some (λ left n. if leb n left then (left - n, true) else (left, false));
  read_health = none;
}

abbrev start : Bridge ℕ
start = init 15 (replicate 256 0)

-- A ping from node 1 to node 2, without a payload.
abbrev ping : List ℕ
ping = 0x4b ∷ 0x01 ∷ 0 ∷ 1 ∷ 0 ∷ 2 ∷ 9 ∷ 0 ∷ 0xd7 ∷ 0x89 ∷ []

abbrev two_pings : List ℕ
two_pings = encode ping 64 ++ encode ping 64

-- Two frames of the same length, of which only the first fits.
second_is_kept_back :
    (feed_serial ports start two_pings).1 ≡ asked 10 true ∷ on_air ping ∷ asked 10 false ∷ []
unfolding feed_serial encode init feed crc16 be16 lo_ra_home.Slip.init parse frame_crc decode_header
    finish_parse type_is_known ask offer feed_byte forward_to_radio validate transmit
second_is_kept_back = refl
