-- ===== src/Frag/Valid.antt =====
-- The reassembly of frag.c stays within its buffer, and what it calls complete has the right CRC.
use lo_ra_home.Prelude.{
  ℕ, ◌+◌, ◌*◌, ◌^◌, ◌≤◌, ◌<◌, ◌≡◌, arith, List, true, false, length, length-copy, length-drop, drop,
  IsByte, Bool-cases, inl, inr,
}
use lo_ra_home.Crc.{crc16}
use lo_ra_home.Frag.{
  FragHdr, Reassembler, complete, hdr_decode, header_is_sane, slice_len, store, finish, begin, tick,
  is_foreign, take_in, frag_feed, reset,
}

-- The array has its size, and no length or mask is past what it can hold.
pub record IsValid (r : Reassembler) : Type 0 where
  pub size : length r.buf ≡ 1600
  pub mask : IsByte r.received_mask
  pub total : r.total_len ≤ 1600

-- A slice that its header places inside the array.
pub record Placed (h : FragHdr) (n : ℕ) : Type 0 where
  pub index : h.frag_index < 8
  pub inside : h.frag_index * 200 + n ≤ h.total_len
  pub total : h.total_len ≤ 1600

pub header_is_sane-Placed :
    (h : FragHdr) (n : ℕ) → n < 2 ^ 16 → header_is_sane h n ≡ true → Placed h n
unfolding header_is_sane slice_len
header_is_sane-Placed h n small e = ground arith

pub tick-IsValid : (r : Reassembler) (now : ℕ) → IsValid r → IsValid (tick r now).0
unfolding tick reset
tick-IsValid r now v = ground arith

store-IsValid :
    (r : Reassembler) (h : FragHdr) (slice : List ℕ)
    → IsValid r
    → Placed h (length slice)
    → IsValid (store r h slice).0
unfolding store finish reset
store-IsValid r h slice v p =
    ground (arith, v, p, length-copy r.buf slice (h.frag_index * 200) (omega (arith, v, p)))

begin-IsValid :
    (r : Reassembler) (h : FragHdr) (now : ℕ)
    → IsValid r
    → h.total_len ≤ 1600
    → IsValid (begin r h now)
unfolding begin reset
begin-IsValid r h now v p = omega (arith, v)

take_in-IsValid :
    (r : Reassembler) (h : FragHdr) (slice : List ℕ) (now : ℕ)
    → IsValid r
    → Placed h (length slice)
    → IsValid (take_in r h slice now).0
unfolding take_in
take_in-IsValid r h slice now v p =
    let opened : IsValid (begin r h now) = begin-IsValid r h now v p.total in
    ground (arith, store-IsValid (begin r h now) h slice opened p, store-IsValid r h slice v p)

-- Whatever payload arrives, at whatever time, a valid reassembler stays valid: no byte is written
-- outside the array.
pub frag_feed-IsValid :
    (r : Reassembler) (payload : List ℕ) (now : ℕ)
    → length payload < 2 ^ 16
    → IsValid r
    → IsValid (frag_feed r payload now).0
unfolding frag_feed
frag_feed-IsValid r payload now small v =
    let h = hdr_decode payload in
    let slice = drop 8 payload in
    elim (Bool-cases (header_is_sane h (length slice))) [
      | inl sane ↦ ground (
        arith,
        length-drop 8 payload,
        sane,
        take_in-IsValid (tick r now).0 h slice now (tick-IsValid r now v)
            (header_is_sane-Placed h (length slice) (omega (arith, length-drop 8 payload)) sane),
      )
      | inr refused ↦ ground (arith, length-drop 8 payload, refused)
    ]

finish_complete :
    (r : Reassembler)
    → (finish r).1 ≡ complete
    → (crc16 (finish r).0.buf (finish r).0.total_len ≡ r.crc_expected)
      × ((finish r).0.active ≡ false)
unfolding finish reset
finish_complete r e = ground arith

store_complete :
    (r : Reassembler) (h : FragHdr) (slice : List ℕ)
    → (store r h slice).1 ≡ complete
    → (crc16 (store r h slice).0.buf (store r h slice).0.total_len ≡ r.crc_expected)
      × ((store r h slice).0.active ≡ false)
      × ((store r h slice).0.total_len ≡ r.total_len)
unfolding store finish reset
store_complete r h slice e = ground arith

take_in_complete :
    (r : Reassembler) (h : FragHdr) (slice : List ℕ) (now : ℕ)
    → (take_in r h slice now).1 ≡ complete
    → (crc16 (take_in r h slice now).0.buf (take_in r h slice now).0.total_len ≡ h.crc_total)
      × ((take_in r h slice now).0.active ≡ false)
      × ((take_in r h slice now).0.total_len ≡ h.total_len)
unfolding take_in begin is_foreign
take_in_complete r h slice now e =
    ground (arith, store_complete (begin r h now) h slice, store_complete r h slice)

-- `LH_FRAG_COMPLETE` is only returned where the first `total_len` bytes of the array have the CRC
-- that the fragment's header declares, `total_len` is the length it declares, and the slot is free.
pub complete_has_crc :
    (r : Reassembler) (payload : List ℕ) (now : ℕ)
    → (frag_feed r payload now).1 ≡ complete
    → (crc16 (frag_feed r payload now).0.buf (frag_feed r payload now).0.total_len
        ≡ (hdr_decode payload).crc_total)
      × ((frag_feed r payload now).0.total_len ≡ (hdr_decode payload).total_len)
      × ((frag_feed r payload now).0.active ≡ false)
unfolding frag_feed
complete_has_crc r payload now e =
    ground (arith, take_in_complete (tick r now).0 (hdr_decode payload) (drop 8 payload) now)
