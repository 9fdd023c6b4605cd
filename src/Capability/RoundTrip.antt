-- ===== src/Capability/RoundTrip.antt =====
-- A report that was encoded is decoded.
use lo_ra_home.Prelude.{
  ℕ, suc, ◌-◌, ◌^◌, ◌≤◌, ◌<◌, ◌≡◌, refl, ap, arith, List, [], ◌∷◌, ◌++◌, none, some, length, IsU16,
  u8, u16, u32, ltb, All, replicate, subst, if◌then◌else◌,
}
use lo_ra_home.Cbor.Reader.{Reader}
use lo_ra_home.Cbor.Heads.{At}
use lo_ra_home.Cbor.Finish.{Write, uint, array, encodings}
use lo_ra_home.Capability.{
  Capability, Report, no_capability, no_report, and_then, decode_pair, decode_pairs, entries_writes,
}
use lo_ra_home.Capability.Reads.{Yields, and_then-Yields, read_uint-Yields, read_array-Yields}
use lo_ra_home.Capability.Entries.{
  IsCapability, fill, decode_entries-Yields, fill_front, report_of, count_le,
}

components-Yields :
    (r : Reader) (cs : List Capability) (out : Report)
    → At r (encodings (array (length cs) ∷ entries_writes cs))
    → All IsCapability cs
    → length cs ≤ 8
    → out.caps ≡ replicate 8 no_capability
    → Yields
        (decode_pair 3 r out)
        (record out { caps = cs ++ replicate (8 - length cs) no_capability; count = length cs })
        []
unfolding decode_pair
components-Yields r cs out a h few e =
    let done : Report = record out {
      caps = cs ++ replicate (8 - length cs) no_capability;
      count = length cs;
    } in
    and_then-Yields _ (read_array-Yields r (length cs) (entries_writes cs) a (count_le cs))
      (λ r1 a1.
        let y =
          and_then-Yields {b = done} {rest' = []}
            (λ r2 caps. (r2, some (record out { caps = caps; count = u8 (length cs) })))
            (decode_entries-Yields cs 0 r1 out.caps a1 h)
            (λ r2 a2.
              let filled : fill out.caps 0 cs ≡ cs ++ replicate (8 - length cs) no_capability =
                rw e (fill_front cs [] 8 0 refl few) in
              record {
                after = r2;
                same =
                    ap
                      (λ (p : List Capability × ℕ).
                        (r2, some (record out { caps = p.0; count = p.1 })))
                      {x = (fill out.caps 0 cs, u8 (length cs))}
                      {y = (cs ++ replicate (8 - length cs) no_capability, length cs)}
                      (ground (arith, filled));
                at = a2;
              }) in
        record { after = y.after; same = ground (arith, y.same); at = y.at })

read_key :
    (r : Reader) (n key : ℕ) (cs : List Write) (out out' : Report) (rest : List ℕ)
    → At r (encodings (uint key ∷ cs))
    → key < 24
    → ((r1 : Reader)
        → At r1 (encodings cs)
        → Yields (and_then (decode_pair key r1 out) (decode_pairs n)) out' rest)
    → Yields (decode_pairs (suc n) r out) out' rest
unfolding decode_pairs
read_key r n key cs out out' rest a h go =
    and_then-Yields _ (read_uint-Yields r key cs a (omega arith)) go

no_pairs_left :
    (r : Reader) (out : Report) (rest : List ℕ) → At r rest → Yields (decode_pairs 0 r out) out rest
unfolding decode_pairs
no_pairs_left r out rest a = record { after = r; same = refl; at = a }

version-Yields :
    (r : Reader) (value : ℕ) (cs : List Write) (out : Report)
    → At r (encodings (uint value ∷ cs))
    → value < 2 ^ 32
    → Yields (decode_pair 1 r out) (record out { fw_version = value }) (encodings cs)
unfolding decode_pair
version-Yields r value cs out a h =
    let kept : Report = record out { fw_version = value } in
    and_then-Yields {b = kept}
      (λ r1 v.
        if ltb 0xffffffff v then (r1, none) else (r1, some (record out { fw_version = u32 v })))
      (read_uint-Yields r value cs a (omega arith))
      (λ r1 a1. record { after = r1; same = ground (arith, h); at = a1 })

heap-Yields :
    (r : Reader) (value : ℕ) (cs : List Write) (out : Report)
    → At r (encodings (uint value ∷ cs))
    → IsU16 value
    → Yields (decode_pair 2 r out) (record out { free_heap_kb = value }) (encodings cs)
unfolding decode_pair
heap-Yields r value cs out a h =
    let kept : Report = record out { free_heap_kb = value } in
    and_then-Yields {b = kept}
      (λ r1 v.
        if ltb 0xffff v then (r1, none) else (r1, some (record out { free_heap_kb = u16 v })))
      (read_uint-Yields r value cs a (omega arith))
      (λ r1 a1. record { after = r1; same = ground (arith, h); at = a1 })

pub decode_pairs-Yields :
    (r : Reader) (cs : List Capability) (fw_version free_heap_kb : ℕ) (all : List Write)
    → all
      ≡ uint 1
        ∷ uint fw_version
        ∷ uint 2
        ∷ uint free_heap_kb
        ∷ uint 3
        ∷ array (length cs)
        ∷ entries_writes cs
    → At r (encodings all)
    → All IsCapability cs
    → length cs ≤ 8
    → fw_version < 2 ^ 32
    → IsU16 free_heap_kb
    → Yields (decode_pairs 3 r no_report) (report_of cs fw_version free_heap_kb) []
decode_pairs-Yields r cs fw_version free_heap_kb all e a0 h few fw heap =
    let a : At r (
        encodings (
          uint 1
          ∷ uint fw_version
          ∷ uint 2
          ∷ uint free_heap_kb
          ∷ uint 3
          ∷ array (length cs)
          ∷ entries_writes cs)) =
      subst (λ l. At r (encodings l)) e a0 in
    let out1 = record no_report { fw_version = fw_version } in
    let out2 = record out1 { free_heap_kb = free_heap_kb } in
    read_key r 2 1 _ no_report _ [] a (omega arith) (λ r1 a1.
      and_then-Yields _ (version-Yields r1 fw_version _ no_report a1 fw) (λ r2 a2.
        read_key r2 1 2 _ out1 _ [] a2 (omega arith) (λ r3 a3.
          and_then-Yields _ (heap-Yields r3 free_heap_kb _ out1 a3 heap) (λ r4 a4.
            read_key r4 0 3 _ out2 _ [] a4 (omega arith) (λ r5 a5.
              and_then-Yields _ (components-Yields r5 cs out2 a5 h few refl)
                (λ r6 a6. no_pairs_left r6 _ [] a6))))))
