-- ===== src/Capability.antt =====
-- firmware/common/include/lorahome/capability.h and firmware/common/src/capability.c: the report of
-- what a node has on it, as CBOR. What `out` holds behind a message that is refused is not modelled.
pub mod Reads
pub mod Entries
pub mod RoundTrip
pub mod Size
pub mod Whole
use lo_ra_home.Prelude.{
  ℕ, zero, suc, ◌+◌, ◌-◌, ◌%◌, ◌^◌, List, [], ◌∷◌, ◌++◌, Bool, true, false, not, ◌&&◌, Option, none,
  some, u8, u16, u32, ltb, leb, ◌==◌, if◌then◌else◌, get_or, set, take, replicate,
}
use lo_ra_home.Cbor.Writer.{Writer, writer_init, writer_finish}
use lo_ra_home.Cbor.Finish.{Write, uint, array, map, write_list}
use lo_ra_home.Cbor.Reader.{Reader, reader_init, read_uint, read_array, read_map}
use lo_ra_home.Cbor.Skip.{Skipped, skipped, refused, out_of_fuel, skip}

-- `LH_CAP_MAX`
abbrev pub cap_max : ℕ
cap_max = 8

-- `LH_CAP_FIELDS`
abbrev pub cap_fields : ℕ
cap_fields = 5

-- `lh_capability_t`
pub record Capability : Type 0 where
  pub driver_type_id : ℕ
  pub bus_addr : ℕ
  pub bus_type : ℕ
  pub channel_count : ℕ
  pub flags : ℕ

-- `lh_cap_report_t`
pub record Report : Type 0 where
  pub count : ℕ
  pub caps : List Capability
  pub fw_version : ℕ
  pub free_heap_kb : ℕ

abbrev pub no_capability : Capability
no_capability = record {
  driver_type_id = 0;
  bus_addr = 0;
  bus_type = 0;
  channel_count = 0;
  flags = 0;
}

abbrev pub no_report : Report
no_report = record {
  count = 0;
  caps = replicate cap_max no_capability;
  fw_version = 0;
  free_heap_kb = 0;
}

-- The calls of the writer for one component.
abbrev pub entry_writes : Capability → List Write
entry_writes c =
    array cap_fields
    ∷ uint c.driver_type_id
    ∷ uint c.bus_addr
    ∷ uint c.bus_type
    ∷ uint c.channel_count
    ∷ uint c.flags
    ∷ []

-- The loop over the components.
abbrev pub entries_writes : List Capability → List Write
entries_writes [] = []
entries_writes (c ∷ cs) = entry_writes c ++ entries_writes cs

-- The calls of the writer for a report, in their order.
abbrev pub report_writes : Report → List Write
report_writes report =
    map 3
    ∷ uint 1
    ∷ uint report.fw_version
    ∷ uint 2
    ∷ uint report.free_heap_kb
    ∷ uint 3
    ∷ array report.count
    ∷ entries_writes (take report.count report.caps)

-- `lh_cap_encode`: the buffer, and its length or `none` for the failure.
unfoldable pub cap_encode : Report → List ℕ → ℕ → List ℕ × Option ℕ
cap_encode report out cap =
    let w = write_list (writer_init out cap) (report_writes report) in
    if ltb cap_max report.count then (out, none) else (w.buf, writer_finish w)

-- `if (!...) return false;`
abbrev pub and_then {ℓ κ} :
    {A : Type ℓ} {B : Type κ}
    → Reader × Option A
    → (Reader → A → Reader × Option B)
    → Reader × Option B
and_then (r, none) go = (r, none)
and_then (r, some a) go = go r a

-- The skips of the fields that this build does not know.
unfoldable pub skip_fields : ℕ → Reader → Reader × Option (Unit {0})
skip_fields zero r = (r, some tt)
skip_fields (suc n) r =
    let (r1, answer) = skip r in
    let rest = skip_fields n r1 in elim answer [ skipped ↦ rest | _ ↦ (r1, none) ]

-- The component that the five values describe, where each is within its field.
unfoldable pub entry_of : ℕ → ℕ → ℕ → ℕ → ℕ → Option Capability
entry_of type_id bus_addr bus_type channels flags =
    if ltb 0xffff type_id
    then none
    else if ltb 0xff bus_addr
    then none
    else if ltb 0xff bus_type
    then none
    else if ltb 0xff channels
    then none
    else if ltb 0xff flags
    then none
    else some (record {
      driver_type_id = u16 type_id;
      bus_addr = u8 bus_addr;
      bus_type = u8 bus_type;
      channel_count = u8 channels;
      flags = u8 flags;
    })

-- `decode_entry`
unfoldable pub decode_entry : Reader → Reader × Option Capability
unfolding skip_fields entry_of
decode_entry r = and_then (read_array r) (λ r0 fields.
    if ltb fields cap_fields
    then (r0, none)
    else and_then (read_uint r0) (λ r1 type_id. and_then (read_uint r1) (λ r2 bus_addr.
      and_then (read_uint r2) (λ r3 bus_type. and_then (read_uint r3) (λ r4 channels.
        and_then (read_uint r4) (λ r5 flags.
          and_then (skip_fields (fields - cap_fields) r5)
            (λ r6 done. (r6, entry_of type_id bus_addr bus_type channels flags))))))))

-- The loop over `n` components, from index `i` on.
unfoldable pub decode_entries : ℕ → ℕ → Reader → List Capability → Reader × Option (List Capability)
unfolding decode_entry
decode_entries zero i r caps = (r, some caps)
decode_entries (suc n) i r caps =
    and_then (decode_entry r) (λ r1 c. decode_entries n (i + 1) r1 (set caps i c))

-- One key of the report, with its value.
unfoldable pub decode_pair : ℕ → Reader → Report → Reader × Option Report
unfolding decode_entries
decode_pair key r out =
    if key == 1
    then and_then (read_uint r) (λ r1 value.
      if ltb 0xffffffff value
      then (r1, none)
      else (r1, some (record out { fw_version = u32 value })))
    else if key == 2
    then and_then (read_uint r) (λ r1 value.
      if ltb 0xffff value then (r1, none) else (r1, some (record out { free_heap_kb = u16 value })))
    else if key == 3
    then and_then (read_array r) (λ r1 count.
      if ltb cap_max count
      then (r1, none)
      else and_then (decode_entries count 0 r1 out.caps)
          (λ r2 caps. (r2, some (record out { caps = caps; count = u8 count }))))
    else let (r1, answer) = skip r in elim answer [ skipped ↦ (r1, some out) | _ ↦ (r1, none) ]

-- The loop over the pairs.
unfoldable pub decode_pairs : ℕ → Reader → Report → Reader × Option Report
unfolding decode_pair
decode_pairs zero r out = (r, some out)
decode_pairs (suc n) r out =
    and_then (read_uint r)
      (λ r1 key. and_then (decode_pair key r1 out) (λ r2 next. decode_pairs n r2 next))

-- `return !reader.error`
abbrev pub unless_error : Reader × Option Report → Option Report
unless_error (r, none) = none
unless_error (r, some out) = if r.error then none else some out

-- `lh_cap_decode`
unfoldable pub cap_decode : List ℕ → ℕ → Option Report
unfolding decode_pairs
cap_decode buf len =
    unless_error
      (and_then (read_map (reader_init buf len)) (λ r pairs. decode_pairs pairs r no_report))

-- The comparison of two components.
abbrev pub same_capability : Capability → Capability → Bool
same_capability a b =
    (a.driver_type_id == b.driver_type_id)
    && ((a.bus_addr == b.bus_addr)
        && ((a.bus_type == b.bus_type)
            && ((a.channel_count == b.channel_count) && (a.flags == b.flags))))

-- The loop over the last `n` components, from index `i` on.
unfoldable pub same_caps : ℕ → ℕ → List Capability → List Capability → Bool
same_caps zero i xs ys = true
same_caps (suc n) i xs ys =
    same_capability (get_or xs i no_capability) (get_or ys i no_capability)
    && same_caps n (i + 1) xs ys

-- `lh_cap_equal`
unfoldable pub cap_equal : Report → Report → Bool
unfolding same_caps
cap_equal a b =
    if not (a.count == b.count)
    then false
    else if not (a.fw_version == b.fw_version)
    then false
    else if not (a.free_heap_kb == b.free_heap_kb)
    then false
    else same_caps a.count 0 a.caps b.caps
