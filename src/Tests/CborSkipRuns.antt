-- ===== src/Tests/CborSkipRuns.antt =====
-- `lh_cbor_skip` of cbor.c at concrete inputs.
use lo_ra_home.Prelude.{ℕ, ◌≡◌, ◌≢◌, refl, arith, List, [], ◌∷◌, ◌++◌, length}
use lo_ra_home.Cbor.{head_bytes}
use lo_ra_home.Cbor.Reader.{Reader, reader_init, read_head, read_argument, read_value}
use lo_ra_home.Cbor.Skip.{skipped, refused, out_of_fuel, skip, skip_item, skip_loop, skip_round}
use lo_ra_home.Cbor.Heads.{At, reader_init-At, moved}
use lo_ra_home.Cbor.Items.{Item, uint, bytes, array, map, no_items, item, no_pairs, pair, emit}
use lo_ra_home.Cbor.Skips.{skip-emit, skip_too_many, skip-ends}

abbrev whole : List ℕ → Reader
whole content = reader_init content (length content)

-- The map of 1 to the array of 300 and two bytes, with a byte behind it.
abbrev nested : Item
nested = map (pair (uint 1) (array (item (uint 300) (item (bytes (7 ∷ 9 ∷ [])) no_items))) no_pairs)

abbrev message : List ℕ
message = emit nested ++ (5 ∷ [])

message-At : At (whole message) message
unfolding head_bytes
message-At = reader_init-At message (omega arith)

skip-emit_example : skip (whole message) ≡ (moved (whole message) (length (emit nested)), skipped)
skip-emit_example =
    skip-emit (whole message) nested (5 ∷ []) message-At (omega arith, (omega arith, (tt, tt)), tt)
      (omega arith)

-- An array of eight empty arrays: nothing in it is nested deeper than two.
abbrev flat : Item
flat =
    let e = array no_items in
    array (item e (item e (item e (item e (item e (item e (item e (item e no_items))))))))

flat-At : At (whole (emit flat ++ [])) (emit flat ++ [])
unfolding head_bytes
flat-At = reader_init-At (emit flat ++ []) (omega arith)

skip_too_many_example : (skip (whole (emit flat ++ []))).1 ≡ refused
skip_too_many_example =
    skip_too_many (whole (emit flat ++ [])) flat [] flat-At
      (tt, (tt, (tt, (tt, (tt, (tt, (tt, (tt, tt)))))))) (omega arith)

-- A map that announces 2 ^ 62 pairs.
abbrev hostile : List ℕ
hostile = 0xbb ∷ 0x40 ∷ 0 ∷ 0 ∷ 0 ∷ 0 ∷ 0 ∷ 0 ∷ 0 ∷ []

skip-ends_example : (skip (whole hostile)).1 ≢ out_of_fuel
unfolding reader_init
skip-ends_example = skip-ends (whole hostile) (omega arith)

-- A map of 2 ^ 63 pairs and nothing behind it is taken for an empty map.
huge_map : (skip (whole (0xbb ∷ 0x80 ∷ 0 ∷ 0 ∷ 0 ∷ 0 ∷ 0 ∷ 0 ∷ 0 ∷ []))).1 ≡ skipped
unfolding reader_init skip skip_loop skip_round skip_item read_head read_argument read_value
huge_map = refl
