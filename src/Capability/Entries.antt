-- ===== src/Capability/Entries.antt =====
-- The components of a report, read back.
use lo_ra_home.Prelude.{
  ℕ, zero, suc, ◌+◌, ◌-◌, ◌≤◌, ◌<◌, ◌≡◌, refl, ap, ◌∙◌, arith, List, [], ◌∷◌, ◌++◌, some, length,
  length-append, IsU16, All, replicate, set, append_assoc,
}
use lo_ra_home.Cbor.Reader.{Reader}
use lo_ra_home.Cbor.Heads.{At}
use lo_ra_home.Cbor.Finish.{Write, uint, encodings}
use lo_ra_home.Capability.{
  Capability, Report, no_capability, skip_fields, entry_of, decode_entry, decode_entries,
  entries_writes,
}
use lo_ra_home.Capability.Reads.{
  Yields, and_then-Yields, read_uint-Yields, read_array-Yields, length-encodings_uint,
  length-encodings_array,
}

-- The ranges of the fields.
abbrev pub IsCapability : Capability → Type 0
IsCapability c =
    IsU16 c.driver_type_id
    × (c.bus_addr < 256)
    × (c.bus_type < 256)
    × (c.channel_count < 256)
    × (c.flags < 256)

pub entry_of_fields :
    (c : Capability)
    → IsCapability c
    → entry_of c.driver_type_id c.bus_addr c.bus_type c.channel_count c.flags ≡ some c
unfolding entry_of
entry_of_fields c h = ground (arith, h)

pub five_bytes :
    (a b c d e : ℕ) (cs : List Write)
    → 5 ≤ length (encodings (uint a ∷ uint b ∷ uint c ∷ uint d ∷ uint e ∷ cs))
five_bytes a b c d e cs = omega (
  arith,
  length-encodings_uint a (uint b ∷ uint c ∷ uint d ∷ uint e ∷ cs),
  length-encodings_uint b (uint c ∷ uint d ∷ uint e ∷ cs),
  length-encodings_uint c (uint d ∷ uint e ∷ cs),
  length-encodings_uint d (uint e ∷ cs),
  length-encodings_uint e cs,
)

pub decode_entry-Yields :
    (r : Reader) (c : Capability) (cs : List Capability)
    → At r (encodings (entries_writes (c ∷ cs)))
    → IsCapability c
    → Yields (decode_entry r) c (encodings (entries_writes cs))
unfolding decode_entry skip_fields
decode_entry-Yields r c cs a h =
    let ws = entries_writes cs in
    and_then-Yields _
      (read_array-Yields r 5 _ a
        (five_bytes c.driver_type_id c.bus_addr c.bus_type c.channel_count c.flags ws))
      (λ r0 a0.
        and_then-Yields _ (read_uint-Yields r0 c.driver_type_id _ a0 (omega arith)) (λ r1 a1.
          and_then-Yields _ (read_uint-Yields r1 c.bus_addr _ a1 (omega arith)) (λ r2 a2.
            and_then-Yields _ (read_uint-Yields r2 c.bus_type _ a2 (omega arith)) (λ r3 a3.
              and_then-Yields _ (read_uint-Yields r3 c.channel_count _ a3 (omega arith)) (λ r4 a4.
                and_then-Yields _ (read_uint-Yields r4 c.flags ws a4 (omega arith)) (λ r5 a5.
                  record {
                    after = r5;
                    same = ap (λ o. (r5, o)) (entry_of_fields c h);
                    at = a5;
                  }))))))

-- The elements of an array from index `i` on, written one after the other.
abbrev pub fill : List Capability → ℕ → List Capability → List Capability
fill caps i [] = caps
fill caps i (c ∷ cs) = fill (set caps i c) (i + 1) cs

pub decode_entries-Yields :
    (cs : List Capability) (i : ℕ) (r : Reader) (caps : List Capability)
    → At r (encodings (entries_writes cs))
    → All IsCapability cs
    → Yields (decode_entries (length cs) i r caps) (fill caps i cs) []
unfolding decode_entries encodings
decode_entries-Yields [] i r caps a h = record { after = r; same = refl; at = a }
decode_entries-Yields (c ∷ cs) i r caps a h =
    and_then-Yields _ (decode_entry-Yields r c cs a h.0)
      (λ r1 a1. decode_entries-Yields cs (i + 1) r1 (set caps i c) a1 h.1)

pub set_front :
    (xs ys : List Capability) (y c : Capability) (i : ℕ)
    → i ≡ length xs
    → set (xs ++ (y ∷ ys)) i c ≡ (xs ++ (c ∷ [])) ++ ys
set_front [] ys y c zero e = refl
set_front [] ys y c (suc i) e = absurd (omega arith)
set_front (x ∷ xs) ys y c zero e = absurd (omega arith)
set_front (x ∷ xs) ys y c (suc i) e = ap (◌∷◌ x) (set_front xs ys y c i (omega arith))

pub fill_front :
    (cs xs : List Capability) (m i : ℕ)
    → i ≡ length xs
    → length cs ≤ m
    → fill (xs ++ replicate m no_capability) i cs
      ≡ xs ++ (cs ++ replicate (m - length cs) no_capability)
fill_front [] xs m i e h =
    ap (λ n. xs ++ replicate n no_capability) {x = m} {y = m - 0} (omega arith)
fill_front (c ∷ cs) xs zero i e h = absurd (omega arith)
fill_front (c ∷ cs) xs (suc m) i e h =
    rw (set_front xs (replicate m no_capability) no_capability c i e) (
      fill_front cs (xs ++ (c ∷ [])) m (i + 1) (omega (arith, e, length-append xs (c ∷ [])))
        (omega arith)
      ∙ append_assoc xs (c ∷ []) (cs ++ replicate (m - length cs) no_capability)
      ∙ ap (λ n. xs ++ (c ∷ (cs ++ replicate n no_capability))) {x = m - length cs}
          {y = suc m - suc (length cs)} (omega arith))

-- The report of these components, in the array of eight.
abbrev pub report_of : List Capability → ℕ → ℕ → Report
report_of cs fw_version free_heap_kb = record {
  count = length cs;
  caps = cs ++ replicate (8 - length cs) no_capability;
  fw_version = fw_version;
  free_heap_kb = free_heap_kb;
}

pub count_le : (cs : List Capability) → length cs ≤ length (encodings (entries_writes cs))
unfolding encodings
count_le [] = omega arith
count_le (c ∷ cs) = omega (
  arith,
  length-encodings_array 5 (
      uint c.driver_type_id
      ∷ uint c.bus_addr
      ∷ uint c.bus_type
      ∷ uint c.channel_count
      ∷ uint c.flags
      ∷ entries_writes cs),
  five_bytes c.driver_type_id c.bus_addr c.bus_type c.channel_count c.flags (entries_writes cs),
  length-encodings_uint c.driver_type_id
      (uint c.bus_addr ∷ uint c.bus_type ∷ uint c.channel_count ∷ uint c.flags ∷ entries_writes cs),
  length-encodings_uint c.bus_addr
      (uint c.bus_type ∷ uint c.channel_count ∷ uint c.flags ∷ entries_writes cs),
  length-encodings_uint c.bus_type (uint c.channel_count ∷ uint c.flags ∷ entries_writes cs),
  length-encodings_uint c.channel_count (uint c.flags ∷ entries_writes cs),
  length-encodings_uint c.flags (entries_writes cs),
  count_le cs,
)
