-- ===== src/Bridge.antt =====
-- firmware/common/include/lorahome/bridge_core.h and firmware/common/src/bridge_core.c: the relay
-- between the serial line and the radio. `W` is the world behind the callbacks (the radio, the clock,
-- the duty cycle tracker), which each call changes; a callback is `none` where none is installed. The
-- calls to the radio, the host and the guard are listed in their order.
pub mod Radio
use lo_ra_home.Prelude.{
  ℕ, ◌+◌, List, [], ◌∷◌, ◌++◌, Bool, true, false, ◌&&◌, not, Option, none, some, inc32, ltb, ◌==◌,
  if◌then◌else◌, length, take, replicate, u16,
}
use lo_ra_home.Frame.{
  Header, Err, ok, too_short, bad_magic, bad_crc, bad_type, parse, decode_header, encode_frame,
  bridge_id, bridge_stat_req, bridge_stat_rsp,
}
use lo_ra_home.Frame as Frame
use lo_ra_home.Slip.{Decoder, Feed, need_more, frame_ready, error, feed, encode, encoded_max}
use lo_ra_home.Slip as Slip
use lo_ra_home.BridgeStat.{BridgeStat, stat_encode, stat_size}

abbrev pub serial_buf : ℕ
serial_buf = 256

abbrev pub tx_serial_buf : ℕ
tx_serial_buf = encoded_max 256

-- `lh_bridge_verdict_t`
pub data Relay : Type 0 where
  accept reject_len reject_magic reject_crc : Relay

-- `lh_bridge_stats_t`
pub record Stats : Type 0 where
  pub serial_frames_in : ℕ
  pub serial_frames_out : ℕ
  pub radio_frames_in : ℕ
  pub radio_frames_out : ℕ
  pub rejected_crc : ℕ
  pub rejected_magic : ℕ
  pub rejected_len : ℕ
  pub rejected_duty_cycle : ℕ
  pub radio_tx_errors : ℕ
  pub serial_tx_errors : ℕ
  pub local_requests : ℕ

-- The callbacks: an emit takes bytes and says whether it succeeded, the guard takes a length and says
-- whether it may go on air, and the health source fills in a readout.
pub record Ports (W : Type 0) : Type 0 where
  pub to_radio : Option (W → List ℕ → W × Bool)
  pub to_host : Option (W → List ℕ → W × Bool)
  pub allow_tx : Option (W → ℕ → W × Bool)
  pub read_health : Option (W → BridgeStat → W × BridgeStat)

-- A call of `to_radio` or of `to_host`, with the bytes it was given, or one of `allow_tx`, with the
-- length and the answer.
pub data Emit : Type 0 where
  on_air : List ℕ → Emit
  on_line : List ℕ → Emit
  asked : ℕ → Bool → Emit

-- `lh_bridge_ctx_t`, beside the world; the serial buffer is the decoder's, and the callbacks stand in
-- `Ports`.
pub record Bridge (W : Type 0) : Type 0 where
  pub world : W
  pub slip_dec : Decoder
  pub stats : Stats

abbrev no_stats : Stats
no_stats = record {
  serial_frames_in = 0;
  serial_frames_out = 0;
  radio_frames_in = 0;
  radio_frames_out = 0;
  rejected_crc = 0;
  rejected_magic = 0;
  rejected_len = 0;
  rejected_duty_cycle = 0;
  radio_tx_errors = 0;
  serial_tx_errors = 0;
  local_requests = 0;
}

abbrev relay_verdict : Err → Relay
relay_verdict ok = accept
relay_verdict bad_type = accept
relay_verdict bad_magic = reject_magic
relay_verdict bad_crc = reject_crc
relay_verdict _ = reject_len

-- `lh_bridge_validate`
unfoldable pub validate : List ℕ → ℕ → Relay
validate frame len = relay_verdict (parse frame len).0

unfoldable pub count_rejection : Stats → Relay → Stats
count_rejection s reject_len = record s { rejected_len = inc32 s.rejected_len }
count_rejection s reject_magic = record s { rejected_magic = inc32 s.rejected_magic }
count_rejection s reject_crc = record s { rejected_crc = inc32 s.rejected_crc }
count_rejection s accept = s

abbrev no_stat : BridgeStat
no_stat = record {
  uptime_ms = 0;
  heap_free_internal = 0;
  heap_largest_block = 0;
  heap_min_free_ever = 0;
  serial_frames_in = 0;
  serial_frames_out = 0;
  radio_frames_in = 0;
  radio_frames_out = 0;
  rejected_crc = 0;
  rejected_magic = 0;
  rejected_len = 0;
  rejected_duty_cycle = 0;
  radio_tx_errors = 0;
  serial_tx_errors = 0;
  slip_frames_ok = 0;
  slip_overflow = 0;
  slip_bad_escape = 0;
  slip_dropped = 0;
  ring_overrun = 0;
  ring_hwm = 0;
  ring_capacity = 0;
}

-- A header that asks the bridge itself.
abbrev pub is_local : Option Header → Bool
is_local none = false
is_local (some h) = h.dst_id == bridge_id && h.type == bridge_stat_req

abbrev is_accept : Relay → Bool
is_accept accept = true
is_accept _ = false

module _ {W : Type 0} where
  -- `lh_bridge_init`
  unfoldable pub init : W → List ℕ → Bridge W
  init w serial_rx = record {
    world = w;
    slip_dec = Slip.init serial_rx serial_buf;
    stats = no_stats;
  }

  -- `port != NULL && port(bytes)`, with the call that the port receives.
  unfoldable pub offer :
      Option (W → List ℕ → W × Bool) → Bridge W → List ℕ → Emit → Bridge W × Bool × List Emit
  offer none b bytes call = (b, false, [])
  offer (some emit) b bytes call =
      let (w, taken) = emit b.world bytes in (record b { world = w }, taken, call ∷ [])

  -- `allow_tx == NULL || allow_tx(len)`, with the call that the guard receives.
  unfoldable pub ask : Option (W → ℕ → W × Bool) → Bridge W → ℕ → Bridge W × Bool × List Emit
  ask none b len = (b, true, [])
  ask (some allow) b len =
      let (w, allowed) = allow b.world len in
      (record b { world = w }, allowed, asked len allowed ∷ [])

  unfoldable pub tx_failed : Bridge W → Bridge W
  tx_failed b =
      let s = b.stats in
      record b { stats = record s { serial_tx_errors = inc32 s.serial_tx_errors } }

  abbrev tx_done : Bridge W → Bridge W
  tx_done b =
      let s = b.stats in
      record b { stats = record s { serial_frames_out = inc32 s.serial_frames_out } }

  -- `emit_to_host`
  unfoldable pub emit_to_host : Ports W → Bridge W → List ℕ → Bridge W × List Emit
  emit_to_host ports b frame =
      let encoded = encode frame tx_serial_buf in
      let (b1, taken, calls) = offer ports.to_host b encoded (on_line encoded) in
      if length encoded == 0
      then (tx_failed b, [])
      else ((if taken then tx_done b1 else tx_failed b1), calls)

  abbrev health : Option (W → BridgeStat → W × BridgeStat) → Bridge W → Bridge W × BridgeStat
  health none b = (b, no_stat)
  health (some read) b = let (w, stat) = read b.world no_stat in (record b { world = w }, stat)

  -- `lh_bridge_collect_stat`
  unfoldable pub collect_stat : Ports W → Bridge W → Bridge W × BridgeStat
  collect_stat ports b =
      let s = b.stats in
      let d = b.slip_dec in
      let (b1, base) = health ports.read_health b in
      (
        b1,
        record base {
          serial_frames_in = s.serial_frames_in;
          serial_frames_out = s.serial_frames_out;
          radio_frames_in = s.radio_frames_in;
          radio_frames_out = s.radio_frames_out;
          rejected_crc = s.rejected_crc;
          rejected_magic = s.rejected_magic;
          rejected_len = s.rejected_len;
          rejected_duty_cycle = s.rejected_duty_cycle;
          radio_tx_errors = s.radio_tx_errors;
          serial_tx_errors = s.serial_tx_errors;
          slip_frames_ok = d.stat_frames_ok;
          slip_overflow = d.stat_overflow;
          slip_bad_escape = d.stat_bad_escape;
          slip_dropped = d.stat_dropped;
        },
      )

  -- The end of `answer_stat_request`, with what `lorahome_encode_frame` built.
  unfoldable pub reply : Ports W → Bridge W → Option (List ℕ) → Bridge W × List Emit
  reply ports b none = (tx_failed b, [])
  reply ports b (some frame) =
      if length frame == 0 then (tx_failed b, []) else emit_to_host ports b frame

  -- `answer_stat_request`
  unfoldable pub answer_stat_request : Ports W → Bridge W → Header → Bridge W × List Emit
  answer_stat_request ports b request =
      let s = b.stats in
      let (b1, stat) =
        collect_stat ports
          (record b { stats = record s { local_requests = inc32 s.local_requests } }) in
      let payload = stat_encode stat stat_size in
      if length payload == 0
      then (tx_failed b1, [])
      else let header : Header = record {
        type = bridge_stat_rsp;
        src_id = bridge_id;
        dst_id = request.src_id;
        seq = request.seq;
        flags = 0;
      } in
        reply ports b1 (encode_frame header payload 92)

  -- The frame goes on air, from the duty cycle guard on.
  unfoldable pub transmit : Ports W → Bridge W → List ℕ → Bridge W × List Emit
  transmit ports b frame =
      let (b1, allowed, question) = ask ports.allow_tx b (length frame) in
      let (b2, taken, calls) = offer ports.to_radio b1 frame (on_air frame) in
      let s = b1.stats in
      if not allowed
      then (
        record b1 { stats = record s { rejected_duty_cycle = inc32 s.rejected_duty_cycle } },
        question,
      )
      else (
        record b2 {
          stats =
              if taken
              then record s { radio_frames_out = inc32 s.radio_frames_out }
              else record s { radio_tx_errors = inc32 s.radio_tx_errors };
        },
        question ++ calls,
      )

  -- `forward_to_radio`, for a frame of `len = length frame` bytes.
  unfoldable pub forward_to_radio : Ports W → Bridge W → List ℕ → Bridge W × List Emit
  forward_to_radio ports b frame =
      let s = b.stats in
      let s1 = record s { serial_frames_in = inc32 s.serial_frames_in } in
      let verdict = validate frame (length frame) in
      if not (is_accept verdict)
      then (record b { stats = count_rejection s1 verdict }, [])
      else let b1 = record b { stats = s1 } in
        elim (decode_header frame (length frame)) [
          | none ↦ transmit ports b1 frame
          | some h ↦
              if is_local (some h) then answer_stat_request ports b1 h else transmit ports b1 frame
        ]

  -- One round of the loop of `lh_bridge_feed_serial`.
  unfoldable pub feed_byte : Ports W → Bridge W → ℕ → Bridge W × List Emit
  feed_byte ports b byte =
      let (d, result) = feed b.slip_dec byte in
      let b1 = record b { slip_dec = d } in
      elim result [
        | frame_ready ↦ forward_to_radio ports b1 (take d.len d.buf)
        | need_more ↦ (b1, [])
        | error ↦ (b1, [])
      ]

  -- `lh_bridge_feed_serial`
  unfoldable pub feed_serial : Ports W → Bridge W → List ℕ → Bridge W × List Emit
  feed_serial ports b [] = (b, [])
  feed_serial ports b (byte ∷ bytes) =
      let one = feed_byte ports b byte in
      let rest = feed_serial ports one.0 bytes in (rest.0, one.1 ++ rest.1)

  -- `lh_bridge_on_radio_frame`, for a frame of `len = length frame` bytes.
  unfoldable pub on_radio_frame : Ports W → Bridge W → List ℕ → Bridge W × List Emit
  on_radio_frame ports b frame =
      let s = b.stats in
      let s1 = record s { radio_frames_in = inc32 s.radio_frames_in } in
      let verdict = validate frame (length frame) in
      if not (is_accept verdict)
      then (record b { stats = count_rejection s1 verdict }, [])
      else emit_to_host ports (record b { stats = s1 }) frame
