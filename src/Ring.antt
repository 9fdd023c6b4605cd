-- ===== src/Ring.antt =====
-- firmware/common/include/lorahome/ring.h and firmware/common/src/ring.c: the byte ring between the
-- UART interrupt and the task. The two counters run freely modulo 65536.
pub mod Queue
pub mod Push
pub mod Fifo
use lo_ra_home.Prelude.{
  ℕ, ◌+◌, ◌-◌, List, Bool, true, false, Option, none, some, bit_and, u16, u32, inc32, ltb, leb,
  ◌==◌, if◌then◌else◌, length, get_or, set, take, drop, copy, ◌++◌, [],
}

-- `LH_UART_RING_SIZE` and `LH_UART_RING_MASK`
abbrev pub ring_size : ℕ
ring_size = 2048

abbrev pub ring_mask : ℕ
ring_mask = 2047

-- `lh_ring_t`; `bytes` is the array `data` of `ring_size` bytes.
pub record Ring : Type 0 where
  pub bytes : List ℕ
  pub head : ℕ
  pub tail : ℕ
  pub stat_overrun : ℕ
  pub stat_hwm : ℕ

-- `lh_ring_init`: the array keeps what it holds.
unfoldable pub init : Ring → Ring
init r = record r { head = 0; tail = 0; stat_overrun = 0; stat_hwm = 0 }

-- `lh_ring_count`: `(uint16_t)(head - tail)`
unfoldable pub count : Ring → ℕ
count r = u16 (r.head + 65536 - r.tail)

-- `lh_ring_free_space`
unfoldable pub free_space : Ring → ℕ
unfolding count
free_space r = u16 (ring_size + 65536 - count r)

unfoldable pub note_occupancy : Ring → Ring
unfolding count
note_occupancy r = if ltb r.stat_hwm (count r) then record r { stat_hwm = count r } else r

-- `lh_ring_push`
unfoldable pub push : Ring → ℕ → Ring × Bool
unfolding count note_occupancy
push r byte =
    if leb ring_size (count r)
    then (record r { stat_overrun = inc32 r.stat_overrun }, false)
    else let r1 = record r { bytes = set r.bytes (bit_and r.head ring_mask) byte } in
      (note_occupancy (record r1 { head = u16 (r1.head + 1) }), true)

-- The two copies of `lh_ring_push_bytes`: up to the end of the array, and the rest from its start.
unfoldable pub copy_in : List ℕ → ℕ → List ℕ → List ℕ
copy_in bytes start src =
    let room = u16 (ring_size - start) in
    let first = if ltb room (length src) then room else length src in
    let once = copy bytes start (take first src) in
    if ltb first (length src) then copy once 0 (drop first src) else once

-- `lh_ring_push_bytes`, for `len = length src` bytes.
unfoldable pub push_bytes : Ring → List ℕ → Ring × ℕ
unfolding free_space copy_in note_occupancy
push_bytes r src =
    let space = free_space r in
    let accepted = if ltb space (length src) then space else length src in
    let r1 =
      if ltb accepted (length src)
      then record r { stat_overrun = u32 (r.stat_overrun + u32 (length src - accepted)) }
      else r in
    if accepted == 0
    then (r1, 0)
    else let start = u16 (bit_and r1.head ring_mask) in
      let r2 = record r1 { bytes = copy_in r1.bytes start (take accepted src) } in
      (note_occupancy (record r2 { head = u16 (r2.head + accepted) }), accepted)

-- `lh_ring_pop`: the ring and, where the C function returns true, the byte.
unfoldable pub pop : Ring → Ring × Option ℕ
unfolding count
pop r =
    if count r == 0
    then (r, none)
    else (record r { tail = u16 (r.tail + 1) }, some (get_or r.bytes (bit_and r.tail ring_mask) 0))

-- The two copies of `lh_ring_pop_bytes`.
unfoldable pub copy_out : List ℕ → ℕ → ℕ → List ℕ
copy_out bytes start taken =
    let room = u16 (ring_size - start) in
    let first = if ltb room taken then room else taken in
    let head = take first (drop start bytes) in
    if ltb first taken then head ++ take (taken - first) bytes else head

-- `lh_ring_pop_bytes`: the ring and the bytes that it put into `dst`.
unfoldable pub pop_bytes : Ring → ℕ → Ring × List ℕ
unfolding count copy_out
pop_bytes r cap =
    let available = count r in
    let taken = if ltb cap available then cap else available in
    if taken == 0
    then (r, [])
    else let start = u16 (bit_and r.tail ring_mask) in
      (record r { tail = u16 (r.tail + taken) }, copy_out r.bytes start taken)
