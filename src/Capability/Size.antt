-- ===== src/Capability/Size.antt =====
-- A report is at most 109 bytes long, `LH_CAP_WIRE_WORST_CASE`.
use lo_ra_home.Prelude.{
  ℕ, ◌+◌, ◌*◌, ◌^◌, ◌≤◌, ◌<◌, arith, List, [], ◌∷◌, length, length-append, IsU16, ltb, All,
  if◌then◌else◌,
}
use lo_ra_home.Cbor.{head_bytes}
use lo_ra_home.Cbor.Finish.{Write, uint, array, map, encoding, encodings}
use lo_ra_home.Capability.{Capability, entries_writes}
use lo_ra_home.Capability.Entries.{IsCapability}

-- The bytes of a head, at most.
abbrev head_bound : ℕ → ℕ
head_bound v = if ltb v 24 then 1 else if ltb v 256 then 2 else if ltb v 65536 then 3 else 5

head_le : (major v : ℕ) → v < 2 ^ 32 → length (head_bytes major v) ≤ head_bound v
unfolding head_bytes
head_le major v h = ground arith

uint_le :
    (v b : ℕ) (cs : List Write)
    → v < 2 ^ 32
    → head_bound v ≤ b
    → length (encodings (uint v ∷ cs)) ≤ b + length (encodings cs)
unfolding encodings encoding
uint_le v b cs h k = omega (arith, length-append (head_bytes 0 v) (encodings cs), head_le 0 v h)

array_le :
    (v : ℕ) (cs : List Write)
    → v < 24
    → length (encodings (array v ∷ cs)) ≤ 1 + length (encodings cs)
unfolding encodings encoding
array_le v cs h =
    let one = head_le 4 v (omega arith) in
    ground (arith, length-append (head_bytes 4 v) (encodings cs), one)

entries_le :
    (cs : List Capability)
    → All IsCapability cs
    → length (encodings (entries_writes cs)) ≤ 12 * length cs
unfolding encodings
entries_le [] h = omega arith
entries_le (c ∷ cs) h =
    let ws = entries_writes cs in
    let w4 = uint c.flags ∷ ws in
    let w3 = uint c.channel_count ∷ w4 in
    let w2 = uint c.bus_type ∷ w3 in
    let w1 = uint c.bus_addr ∷ w2 in
    omega (
      arith,
      array_le 5 (uint c.driver_type_id ∷ w1) (omega arith),
      uint_le c.driver_type_id 3 w1 (omega (arith, h.0)) (ground (arith, h.0)),
      uint_le c.bus_addr 2 w2 (omega (arith, h.0)) (ground (arith, h.0)),
      uint_le c.bus_type 2 w3 (omega (arith, h.0)) (ground (arith, h.0)),
      uint_le c.channel_count 2 w4 (omega (arith, h.0)) (ground (arith, h.0)),
      uint_le c.flags 2 ws (omega (arith, h.0)) (ground (arith, h.0)),
      entries_le cs h.1,
    )

map_three : (cs : List Write) → length (encodings (map 3 ∷ cs)) ≤ 1 + length (encodings cs)
unfolding encodings encoding
map_three cs =
    let one = head_le 5 3 (omega arith) in
    omega (arith, length-append (head_bytes 5 3) (encodings cs), one)

-- `LH_CAP_WIRE_WORST_CASE`
abbrev pub wire_worst_case : ℕ
wire_worst_case = 109

pub report_le :
    (cs : List Capability) (fw_version free_heap_kb : ℕ)
    → All IsCapability cs
    → length cs ≤ 8
    → fw_version < 2 ^ 32
    → IsU16 free_heap_kb
    → length (
        encodings (
          map 3
          ∷ uint 1
          ∷ uint fw_version
          ∷ uint 2
          ∷ uint free_heap_kb
          ∷ uint 3
          ∷ array (length cs)
          ∷ entries_writes cs))
      ≤ wire_worst_case
report_le cs fw_version free_heap_kb h few fw heap =
    let w6 = array (length cs) ∷ entries_writes cs in
    let w5 = uint 3 ∷ w6 in
    let w4 = uint free_heap_kb ∷ w5 in
    let w3 = uint 2 ∷ w4 in
    let w2 = uint fw_version ∷ w3 in
    omega (
      arith,
      map_three (uint 1 ∷ w2),
      uint_le 1 1 w2 (omega arith) (omega arith),
      uint_le fw_version 5 w3 fw (ground arith),
      uint_le 2 1 w4 (omega arith) (omega arith),
      uint_le free_heap_kb 3 w5 (omega (arith, heap)) (ground (arith, heap)),
      uint_le 3 1 w6 (omega arith) (omega arith),
      array_le (length cs) (entries_writes cs) (omega arith),
      entries_le cs h,
    )
