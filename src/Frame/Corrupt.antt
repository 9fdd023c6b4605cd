-- ===== src/Frame/Corrupt.antt =====
-- A frame whose body was changed on the way is refused.
use lo_ra_home.Prelude.{
  ℕ, ◌+◌, ◌-◌, ◌/◌, ◌^◌, ◌≤◌, ◌≡◌, ◌≢◌, sym, ap, subst, ◌∙◌, ◌⊎◌, arith, List, [], ◌∷◌, ◌++◌, false,
  none, length, length-append, get_or, All, All-append, IsByte, u16,
}
use lo_ra_home.Crc.{crc16}
use lo_ra_home.Crc.Bounds.{crc16-IsU16}
use lo_ra_home.Crc.Detects.{crc16-detects}
use lo_ra_home.Frame.{
  Header, written, be16, encode_header, frame_crc, parse, build, intact, decode_frame,
}
use lo_ra_home.Frame.RoundTrip.{
  IsHeader, body, crc_bytes, crc_bytes-be16, crc16-prefix, length-body, build-frame,
}

-- Where the CRC that was received is not that of the body, no view is intact.
mismatch :
    (buf : List ℕ) (len : ℕ)
    → be16 (get_or buf (u16 (len - 2)) 0) (get_or buf (u16 (len - 2) + 1) 0)
      ≢ crc16 buf (u16 (len - 2))
    → intact (parse buf len).0 ≡ false
unfolding parse frame_crc
mismatch buf len ne = ground (arith, ne)

decode_frame-mismatch :
    (buf : List ℕ) (len : ℕ)
    → len ≤ 230
    → intact (parse buf len).0 ≡ false
    → decode_frame buf len ≡ none
unfolding decode_frame
decode_frame-mismatch buf len fits bad =
    let cast : u16 len ≡ len = omega arith in ground (arith, cast, bad)

header_bytes : (h : Header) → IsHeader h → All IsByte (encode_header h)
unfolding encode_header
header_bytes h v =
    let src : IsByte (h.src_id / 2 ^ 8) = omega (arith, v) in
    let dst : IsByte (h.dst_id / 2 ^ 8) = omega (arith, v) in ground (arith, v)

All-behind : (xs ys : List ℕ) → All IsByte (xs ++ ys) → All IsByte ys
All-behind [] ys v = v
All-behind (x ∷ xs) ys v = All-behind xs ys v.1

-- A frame that was built, of which two neighbouring bytes of the body or one of them arrive changed, is
-- not decoded.
pub changed_refused :
    (h : Header) (p : List ℕ) (room : ℕ) (before after : List ℕ) (b c b' c' : ℕ)
    → IsHeader h
    → All IsByte p
    → length p ≤ 220
    → length p + 10 ≤ room
    → encode_header h ++ p ≡ before ++ (b ∷ c ∷ after)
    → IsByte b'
    → IsByte c'
    → (b ≢ b') ⊎ (c ≢ c')
    → (tail : List ℕ) × (build h p room ≡ written ((before ++ (b ∷ c ∷ after)) ++ tail))
      × (decode_frame ((before ++ (b' ∷ c' ∷ after)) ++ tail) (length p + 10) ≡ none)
changed_refused h p room before after b c b' c' v bytes fits enough split k l changed =
    let n = length p + 8 in
    let crc = crc16 (body h p) n in
    let all : All IsByte (before ++ (b ∷ c ∷ after)) =
      subst (All IsByte) split (All-append IsByte (encode_header h) p (header_bytes h v) bytes) in
    let rest = All-behind before (b ∷ c ∷ after) all in
    let new = before ++ (b' ∷ c' ∷ after) in
    let size : n ≡ length (before ++ (b ∷ c ∷ after)) = sym (length-body h p) ∙ ap length split in
    let size' : n ≡ length new =
      omega (
        arith,
        length-append before (b ∷ c ∷ after),
        length-append before (b' ∷ c' ∷ after),
        size,
      ) in
    let buf = new ++ crc_bytes crc in
    let differ : crc ≢ crc16 new n = λ e.
      crc16-detects before after b c b' c' n rest.1.1 rest.0 rest.1.0 k l changed size
        (ap (λ t. crc16 t n) (sym split) ∙ e) in
    let cast : u16 (length p + 10 - 2) ≡ n = omega arith in
    let wrong : be16 (get_or buf n 0) (get_or buf (n + 1) 0) ≢ crc16 buf n = λ e. differ (
      sym (crc_bytes-be16 new [] n crc size' (crc16-IsU16 (body h p) n))
      ∙ e
      ∙ crc16-prefix new [] n crc size') in
    let refused = mismatch buf (length p + 10) (rw cast wrong) in
    (
      crc_bytes crc,
      build-frame h p room fits enough ∙ ap (λ t. written (t ++ crc_bytes crc)) split,
      decode_frame-mismatch buf (length p + 10) (omega arith) refused,
    )
