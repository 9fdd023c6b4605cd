-- ===== src/Tests/FrameRuns.antt =====
-- Frames of protocol.c at concrete bytes.
use lo_ra_home.Prelude.{ℕ, ◌≡◌, refl, arith, List, [], ◌∷◌, ◌++◌, length, none, inl}
use lo_ra_home.Frame.{Header, too_short, written, encode_header, build, parse, decode_frame}
use lo_ra_home.Frame.Corrupt.{changed_refused}
use lo_ra_home.Frame.RoundTrip.{IsHeader, verdict, view_of, build-parse}

abbrev telemetry : Header
telemetry = record { type = 0x20; src_id = 0x1234; dst_id = 0xffff; seq = 7; flags = 1 }

parse_short : (parse (0x4b ∷ 0x20 ∷ []) 2).0 ≡ too_short
unfolding parse
parse_short = refl

telemetry-IsHeader : IsHeader telemetry
telemetry-IsHeader = omega arith

build-parse_example :
    (bytes : List ℕ) × (c : ℕ) × (build telemetry (1 ∷ 2 ∷ []) 64 ≡ written bytes)
    × (length bytes ≡ 12)
    × (parse (bytes ++ (9 ∷ [])) (length bytes)
        ≡ (verdict 0x20, view_of telemetry (1 ∷ 2 ∷ []) 2 c))
build-parse_example =
    build-parse telemetry (1 ∷ 2 ∷ []) (9 ∷ []) 64 telemetry-IsHeader (omega arith) (omega arith)

-- The first two bytes of the address change, in a frame with two bytes of payload.
changed_refused_example :
    (tail : List ℕ) × (build telemetry (1 ∷ 2 ∷ []) 64
      ≡ written (((0x4b ∷ 0x20 ∷ []) ++ (0x12 ∷ 0x34 ∷ 0xff ∷ 0xff ∷ 7 ∷ 1 ∷ 1 ∷ 2 ∷ [])) ++ tail))
    × (decode_frame
          (((0x4b ∷ 0x20 ∷ []) ++ (0x13 ∷ 0x35 ∷ 0xff ∷ 0xff ∷ 7 ∷ 1 ∷ 1 ∷ 2 ∷ [])) ++ tail)
          12
        ≡ none)
unfolding encode_header
changed_refused_example =
    changed_refused telemetry (1 ∷ 2 ∷ []) 64 (0x4b ∷ 0x20 ∷ []) (0xff ∷ 0xff ∷ 7 ∷ 1 ∷ 1 ∷ 2 ∷ [])
      0x12 0x34 0x13 0x35 telemetry-IsHeader (ground arith) (omega arith) (omega arith) refl
      (omega arith) (omega arith) (inl (omega arith))
