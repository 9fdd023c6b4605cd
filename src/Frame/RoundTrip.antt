-- ===== src/Frame/RoundTrip.antt =====
-- What `build` writes, `parse` reads back.
use lo_ra_home.Prelude.{
  ℕ, ◌+◌, ◌-◌, ◌*◌, ◌/◌, ◌^◌, ◌≤◌, ◌≡◌, refl, ◌∙◌, arith, List, [], ◌∷◌, ◌++◌, append_assoc, some,
  length, drop, length-append, get_or, get_or-append_right, take, take-append_eq, take-all, sym,
  IsByte, IsU16, u8, u16, bit_and, if◌then◌else◌, ge→ltb, ==_refl,
}
use lo_ra_home.Prelude.Bits.{bit_or_fields, bit_and_mask}
use lo_ra_home.Crc.{crc16}
use lo_ra_home.Crc.Bounds.{crc16-IsU16, crc16-take}
use lo_ra_home.Frame.{
  Header, Err, ok, bad_type, View, written, no_header, type_is_known, be16, encode_header,
  decode_header, finish_parse, frame_crc, parse, build,
}

-- What the fields of `lorahome_header_t` can hold.
pub record IsHeader (h : Header) : Type 0 where
  pub type_byte : IsByte h.type
  pub src_u16 : IsU16 h.src_id
  pub dst_u16 : IsU16 h.dst_id
  pub seq_byte : IsByte h.seq
  pub flags_byte : IsByte h.flags

pub be16_sum : (hi lo : ℕ) → IsByte hi → IsByte lo → be16 hi lo ≡ hi * 256 + lo
unfolding be16
be16_sum hi lo h l = omega (arith, bit_or_fields 8 hi lo (omega arith))

-- A `uint16_t` written high byte first is read back.
pub be16_split : (n : ℕ) → IsU16 n → be16 (u8 (n / 2 ^ 8)) (u8 (bit_and n 0xff)) ≡ n
be16_split n h = omega (arith, bit_and_mask 8 n, be16_sum (u8 (n / 2 ^ 8)) (u8 (bit_and n 0xff)))

-- The two bytes behind the body.
abbrev pub crc_bytes : ℕ → List ℕ
crc_bytes c = u8 (c / 2 ^ 8) ∷ u8 (bit_and c 0xff) ∷ []

abbrev pub body : Header → List ℕ → List ℕ
body h p = encode_header h ++ p

abbrev pub frame : Header → List ℕ → List ℕ
frame h p = body h p ++ crc_bytes (crc16 (body h p) (length p + 8))

-- The verdict on an intact frame, and its complete view.
abbrev pub verdict : ℕ → Err
verdict t = if type_is_known t then ok else bad_type

abbrev pub view_of : Header → List ℕ → ℕ → ℕ → View
view_of h p n c = record { hdr = h; payload = p; payload_len = n; crc_rx = c; crc_calc = c }

pub length-body : (h : Header) (p : List ℕ) → length (body h p) ≡ length p + 8
unfolding encode_header
length-body h p = omega arith

pub length-frame : (h : Header) (p : List ℕ) → length (frame h p) ≡ length p + 10
length-frame h p =
    omega (
      arith,
      length-body h p,
      length-append (body h p) (crc_bytes (crc16 (body h p) (length p + 8))),
    )

pub build-frame :
    (h : Header) (p : List ℕ) (cap : ℕ)
    → length p ≤ 220
    → length p + 10 ≤ cap
    → build h p cap ≡ written (frame h p)
unfolding build frame_crc
build-frame h p cap fits room =
    let len : u16 (8 + length p) ≡ length p + 8 = omega arith in ground arith

-- A round of `parse` whose checks all pass.
module _ (buf : List ℕ) (len : ℕ) (low : 10 ≤ len) (high : len ≤ 230) where
  pub parse-view :
      (h : Header)
      → get_or buf 0 0 ≡ 0x4b
      → be16 (get_or buf (len - 2) 0) (get_or buf (len - 2 + 1) 0) ≡ crc16 buf (len - 2)
      → decode_header buf (len - 2) ≡ some h
      → parse buf len ≡ (
        verdict h.type,
        view_of h (take (len - 10) (drop 8 buf)) (len - 10) (crc16 buf (len - 2)),
      )
  unfolding parse finish_parse frame_crc
  parse-view h magic crc header =
      let e : u16 (len - 2) ≡ len - 2 = omega arith in
      let e' : u16 (len - 2 - 8) ≡ len - 10 = omega arith in
      let checks : parse buf len
          ≡ finish_parse buf (len - 2) (view_of no_header [] 0 (crc16 buf (len - 2))) h =
        rw (
          ge→ltb len 10 low,
          ge→ltb 230 len high,
          magic,
          e,
          crc,
          ==_refl (crc16 buf (len - 2)),
          header,
          e,
          crc,
        ) in
      checks ∙ rw (e') (ground arith)

decode_header-body :
    (h : Header) (p rest : List ℕ) (len : ℕ)
    → IsHeader h
    → 8 ≤ len
    → decode_header (body h p ++ rest) len ≡ some h
unfolding decode_header encode_header
decode_header-body h p rest len v fits =
    rw (ge→ltb len 8 fits, be16_split h.src_id v.src_u16, be16_split h.dst_id v.dst_u16)

-- The bytes behind the body, whatever follows them.
module _ (xs rest : List ℕ) (n : ℕ) (c : ℕ) (size : n ≡ length xs) where
  pub crc_bytes-be16 :
      IsU16 c
      → be16
          (get_or (xs ++ (crc_bytes c ++ rest)) n 0)
          (get_or (xs ++ (crc_bytes c ++ rest)) (n + 1) 0)
        ≡ c
  crc_bytes-be16 h =
      rw
        (
          get_or-append_right xs (crc_bytes c ++ rest) n 0 0 (omega arith),
          get_or-append_right xs (crc_bytes c ++ rest) (n + 1) 1 0 (omega arith),
        )
        (be16_split c h)

  pub crc16-prefix : crc16 (xs ++ (crc_bytes c ++ rest)) n ≡ crc16 xs n
  crc16-prefix =
      crc16-take (xs ++ (crc_bytes c ++ rest)) xs n
        (take-append_eq n xs (crc_bytes c ++ rest) size ∙ sym (take-all n xs (omega arith)))

payload-body : (h : Header) (p rest : List ℕ) → take (length p) (drop 8 (body h p ++ rest)) ≡ p
unfolding encode_header
payload-body h p rest = take-append_eq (length p) p rest refl

parse-frame :
    (h : Header) (p rest : List ℕ) (c : ℕ)
    → IsHeader h
    → length p ≤ 220
    → c ≡ crc16 (body h p) (length p + 8)
    → parse (body h p ++ (crc_bytes c ++ rest)) (length p + 10)
      ≡ (verdict h.type, view_of h p (length p) c)
parse-frame h p rest c v fits e =
    parse-view buf (length p + 10) (omega arith) (omega arith) h magic crc
      (decode_header-body h p (crc_bytes c ++ rest) (length p + 10 - 2) v (omega arith))
    ∙ rw (
      length_eq,
      two,
      crc16-prefix (body h p) rest (length p + 8) c size,
      ← e,
      payload-body h p (crc_bytes c ++ rest),
    )
  where
    buf : List ℕ
    buf = body h p ++ (crc_bytes c ++ rest)

    size : length p + 8 ≡ length (body h p)
    size = sym (length-body h p)

    two : length p + 10 - 2 ≡ length p + 8
    two = omega arith

    length_eq : length p + 10 - 10 ≡ length p
    length_eq = omega arith

    c_u16 : IsU16 c
    c_u16 = rw e (crc16-IsU16 (body h p) (length p + 8))

    magic : get_or buf 0 0 ≡ 0x4b
    magic = unfold encode_header in refl

    crc :
        be16 (get_or buf (length p + 10 - 2) 0) (get_or buf (length p + 10 - 2 + 1) 0)
        ≡ crc16 buf (length p + 10 - 2)
    crc = rw two (
        crc_bytes-be16 (body h p) rest (length p + 8) c size c_u16
        ∙ e
        ∙ sym (crc16-prefix (body h p) rest (length p + 8) c size))

-- A frame that `lh_frame_build` wrote, at the front of a receive buffer, is parsed as the header
-- and the payload that were given, with both CRCs equal, and it is refused for its type only.
pub build-parse :
    (h : Header) (p rest : List ℕ) (room : ℕ)
    → IsHeader h
    → length p ≤ 220
    → length p + 10 ≤ room
    → (bytes : List ℕ) × (c : ℕ) × (build h p room ≡ written bytes)
      × (length bytes ≡ length p + 10)
      × (parse (bytes ++ rest) (length bytes) ≡ (verdict h.type, view_of h p (length p) c))
build-parse h p rest room v fits enough =
    let c = crc16 (body h p) (length p + 8) in
    (
      frame h p,
      c,
      build-frame h p room fits enough,
      length-frame h p,
      rw (length-frame h p, append_assoc (body h p) (crc_bytes c) rest)
          (parse-frame h p rest c v fits refl),
    )
