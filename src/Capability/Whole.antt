-- ===== src/Capability/Whole.antt =====
-- A report that was encoded into a buffer of its worst case is decoded to itself.
use lo_ra_home.Prelude.{
  ℕ, ◌-◌, ◌^◌, ◌≤◌, ◌<◌, ◌≡◌, refl, ap, ◌∙◌, arith, List, [], ◌∷◌, some, length, IsU16, All, take,
  take-append_exact, replicate,
}
use lo_ra_home.Cbor.Reader.{reader_init}
use lo_ra_home.Cbor.Heads.{reader_init-At}
use lo_ra_home.Cbor.Writer.{writer_init}
use lo_ra_home.Cbor.Finish.{
  Write, IsWrite, uint, array, map, encodings, write_list, write_list_fits,
}
use lo_ra_home.Capability.{
  Capability, no_capability, no_report, decode_pairs, cap_decode, cap_encode, unless_error,
  entries_writes, report_writes,
}
use lo_ra_home.Capability.Reads.{
  and_then-Yields, read_map-Yields, length-encodings_uint, length-encodings_array,
}
use lo_ra_home.Capability.Entries.{IsCapability, report_of}
use lo_ra_home.Capability.RoundTrip.{decode_pairs-Yields}
use lo_ra_home.Capability.Size.{wire_worst_case, report_le}

-- The calls of the writer behind the head of the map.
abbrev body : List Capability → ℕ → ℕ → List Write
body cs fw_version free_heap_kb =
    uint 1
    ∷ uint fw_version
    ∷ uint 2
    ∷ uint free_heap_kb
    ∷ uint 3
    ∷ array (length cs)
    ∷ entries_writes cs

entries-IsWrite : (cs : List Capability) → All IsWrite (entries_writes cs)
entries-IsWrite [] = tt
entries-IsWrite (c ∷ cs) = (tt, (tt, (tt, (tt, (tt, (tt, entries-IsWrite cs))))))

report_writes-report_of :
    (cs : List Capability) (fw_version free_heap_kb : ℕ)
    → report_writes (report_of cs fw_version free_heap_kb) ≡ map 3 ∷ body cs fw_version free_heap_kb
report_writes-report_of cs fw_version free_heap_kb =
    ap
      (λ l.
        map 3
        ∷ uint 1
        ∷ uint fw_version
        ∷ uint 2
        ∷ uint free_heap_kb
        ∷ uint 3
        ∷ array (length cs)
        ∷ entries_writes l)
      (take-append_exact cs (replicate (8 - length cs) no_capability))

body_long :
    (cs : List Capability) (fw_version free_heap_kb : ℕ)
    → 6 ≤ length (encodings (body cs fw_version free_heap_kb))
body_long cs fw_version free_heap_kb =
    let w6 = array (length cs) ∷ entries_writes cs in
    let w4 = uint free_heap_kb ∷ uint 3 ∷ w6 in
    omega (
      arith,
      length-encodings_uint 1 (uint fw_version ∷ uint 2 ∷ w4),
      length-encodings_uint fw_version (uint 2 ∷ w4),
      length-encodings_uint 2 w4,
      length-encodings_uint free_heap_kb (uint 3 ∷ w6),
      length-encodings_uint 3 w6,
      length-encodings_array (length cs) (entries_writes cs),
    )

decode_bytes :
    (cs : List Capability) (fw_version free_heap_kb : ℕ)
    → All IsCapability cs
    → length cs ≤ 8
    → fw_version < 2 ^ 32
    → IsU16 free_heap_kb
    → (let bytes = encodings (map 3 ∷ body cs fw_version free_heap_kb) in
        cap_decode bytes (length bytes) ≡ some (report_of cs fw_version free_heap_kb))
unfolding cap_decode
decode_bytes cs fw_version free_heap_kb h few fw heap =
    let bytes = encodings (map 3 ∷ body cs fw_version free_heap_kb) in
    let short = report_le cs fw_version free_heap_kb h few fw heap in
    let a = reader_init-At bytes (omega (arith, short)) in
    let y =
      and_then-Yields (λ r pairs. decode_pairs pairs r no_report)
        (read_map-Yields (reader_init bytes (length bytes)) 3 (body cs fw_version free_heap_kb) a
          (body_long cs fw_version free_heap_kb))
        (λ r a1. decode_pairs-Yields r cs fw_version free_heap_kb _ refl a1 h few fw heap) in
    ap unless_error y.same ∙ ground (arith, y.at.fine)

-- A report of at most eight components is encoded into any buffer of 109 bytes or more, in at most
-- 109 bytes, and is decoded from these to itself.
pub cap_decode-cap_encode :
    (cs : List Capability) (fw_version free_heap_kb : ℕ) (buf : List ℕ)
    → All IsCapability cs
    → length cs ≤ 8
    → fw_version < 2 ^ 32
    → IsU16 free_heap_kb
    → wire_worst_case ≤ length buf
    → IsU16 (length buf)
    → (n : ℕ) × (let (out, answer) =
          cap_encode (report_of cs fw_version free_heap_kb) buf (length buf) in
        (answer ≡ some n)
        × (n ≤ wire_worst_case)
        × (cap_decode (take n out) n ≡ some (report_of cs fw_version free_heap_kb)))
unfolding cap_encode
cap_decode-cap_encode cs fw_version free_heap_kb buf h few fw heap room u =
    let calls = map 3 ∷ body cs fw_version free_heap_kb in
    let bytes = encodings calls in
    let short = report_le cs fw_version free_heap_kb h few fw heap in
    let small : All IsWrite calls = (tt, (tt, (tt, (tt, (tt, (tt, (tt, entries-IsWrite cs))))))) in
    let fits = write_list_fits calls buf u small (omega (arith, short)) in
    let whole = decode_bytes cs fw_version free_heap_kb h few fw heap in
    let w = write_list (writer_init buf (length buf)) calls in
    let back : cap_decode (take (length bytes) w.buf) (length bytes)
        ≡ some (report_of cs fw_version free_heap_kb) =
      ap (λ l. cap_decode l (length bytes)) fits.1 ∙ whole in
    (
      length bytes,
      rw (report_writes-report_of cs fw_version free_heap_kb) (ground (arith, fits.0, back, short)),
    )
