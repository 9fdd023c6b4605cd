-- ===== src/Tests/SlipRuns.antt =====
-- The SLIP decoder and encoder of slip.c at concrete bytes.
use lo_ra_home.Prelude.{◌≤◌, ◌≡◌, refl, arith, [], ◌∷◌, ◌++◌, length}
use lo_ra_home.Slip.{Decoder, feed, encode, slip_end, idle, escaped}
use lo_ra_home.Slip.Valid.{IsValid, feed-IsValid}
use lo_ra_home.Slip.Collect.{collect, deliver}
use lo_ra_home.Slip.RoundTrip.{decode-encode}
use lo_ra_home.Slip.Stream.{encode_all, collect-encode_all}
use lo_ra_home.Slip.Oversize.{IsLost, encode_oversize}

encode_escapes : encode (0xc0 ∷ 1 ∷ 0xdb ∷ []) 8 ≡ 0xc0 ∷ 0xdb ∷ 0xdc ∷ 1 ∷ 0xdb ∷ 0xdd ∷ 0xc0 ∷ []
unfolding encode
encode_escapes = refl

abbrev fresh : Decoder
fresh = record {
  buf = 0 ∷ 0 ∷ 0 ∷ 0 ∷ [];
  cap = 4;
  len = 0;
  state = idle;
  stat_frames_ok = 0;
  stat_overflow = 0;
  stat_bad_escape = 0;
  stat_dropped = 0;
}

-- An ESC has arrived, and a byte of a frame before it.
abbrev broken : Decoder
broken = record fresh { len = 1; state = escaped }

fresh-IsValid : IsValid fresh
fresh-IsValid = omega arith

broken-IsValid : IsValid broken
broken-IsValid = omega arith

feed-IsValid_example : IsValid (feed broken 0x41).0
feed-IsValid_example = feed-IsValid {d = broken} 0x41 broken-IsValid

decode-encode_example :
    ((collect broken (encode (0xc0 ∷ 1 ∷ []) 8)).1
      ≡ deliver (feed broken slip_end) ++ ((0xc0 ∷ 1 ∷ []) ∷ []))
    × (length (deliver (feed broken slip_end)) ≤ 1)
    × ((collect broken (encode (0xc0 ∷ 1 ∷ []) 8)).0.state ≡ idle)
    × IsValid (collect broken (encode (0xc0 ∷ 1 ∷ []) 8)).0
decode-encode_example =
    decode-encode (0xc0 ∷ 1 ∷ []) 8 {d = broken} broken-IsValid (omega arith) (omega arith)
      (omega arith)

collect-encode_all_example :
    (collect fresh (encode_all ((1 ∷ []) ∷ (0xdb ∷ 0xc0 ∷ []) ∷ []) 16)).1
    ≡ (1 ∷ []) ∷ (0xdb ∷ 0xc0 ∷ []) ∷ []
collect-encode_all_example =
    collect-encode_all ((1 ∷ []) ∷ (0xdb ∷ 0xc0 ∷ []) ∷ []) 16 {d = fresh} fresh-IsValid refl
      (omega arith) (omega arith)

encode_oversize_example : IsLost fresh (collect fresh (encode (1 ∷ 2 ∷ 3 ∷ 4 ∷ 5 ∷ []) 16))
encode_oversize_example =
    encode_oversize (1 ∷ 2 ∷ 3 ∷ 4 ∷ 5 ∷ []) 16 {d = fresh} fresh-IsValid refl (omega arith)
      (omega arith) (omega arith) (omega arith)
