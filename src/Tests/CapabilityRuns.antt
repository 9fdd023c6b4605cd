-- ===== src/Tests/CapabilityRuns.antt =====
-- The report of capability.c of a node with two components.
use lo_ra_home.Prelude.{ℕ, ◌≤◌, ◌≡◌, refl, arith, List, [], ◌∷◌, true, some, none, take, replicate}
use lo_ra_home.Capability.{Capability, cap_encode, cap_decode, cap_equal, same_caps}
use lo_ra_home.Capability.Entries.{report_of}
use lo_ra_home.Capability.Size.{wire_worst_case}
use lo_ra_home.Capability.Whole.{cap_decode-cap_encode}

abbrev bme680 : Capability
bme680 = record { driver_type_id = 16; bus_addr = 0x76; bus_type = 0; channel_count = 4; flags = 1 }

abbrev pin : Capability
pin = record { driver_type_id = 17; bus_addr = 4; bus_type = 1; channel_count = 2; flags = 0 }

abbrev components : List Capability
components = bme680 ∷ pin ∷ []

cap_decode-cap_encode_example :
    (n : ℕ) × (let (out, answer) =
        cap_encode (report_of components 65536 71) (replicate 109 0) 109 in
      (answer ≡ some n)
      × (n ≤ wire_worst_case)
      × (cap_decode (take n out) n ≡ some (report_of components 65536 71)))
cap_decode-cap_encode_example =
    cap_decode-cap_encode components 65536 71 (replicate 109 0) (omega arith) (omega arith)
      (omega arith) (omega arith) (omega arith) (omega arith)

-- A buffer of ten bytes is too small.
too_small : (cap_encode (report_of components 65536 71) (replicate 10 0) 10).1 ≡ none
unfolding cap_encode lo_ra_home.Cbor.Finish.write_list lo_ra_home.Cbor.Finish.write
    lo_ra_home.Cbor.Writer.writer_init lo_ra_home.Cbor.Writer.writer_finish
    lo_ra_home.Cbor.Writer.write_uint lo_ra_home.Cbor.Writer.write_array
    lo_ra_home.Cbor.Writer.write_map lo_ra_home.Cbor.Writer.write_head
    lo_ra_home.Cbor.Writer.put_all lo_ra_home.Cbor.Writer.put lo_ra_home.Cbor.head_bytes
too_small = refl

same_as_itself : cap_equal (report_of components 65536 71) (report_of components 65536 71) ≡ true
unfolding cap_equal same_caps
same_as_itself = refl
