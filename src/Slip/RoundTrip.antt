-- ===== src/Slip/RoundTrip.antt =====
-- What `encode` writes, the decoder delivers, from whatever state it is in.
use lo_ra_home.Prelude.{
  ℕ, suc, set, length-set, sym, subst, append-nil, ◌+◌, ◌*◌, ◌^◌, ◌≤◌, ◌<◌, ◌≡◌, refl, ap, ◌∙◌,
  arith, List, [], ◌∷◌, ◌++◌, append_assoc, length, take-set, length-append,
}
use lo_ra_home.Slip.{
  Decoder, Feed, need_more, frame_ready, error, feed, dispatch, clear_idle, store, idle, in_frame,
  encode_byte, encode_loop, encode, slip_end,
}
use lo_ra_home.Slip.Valid.{IsValid, feed-IsValid}
use lo_ra_home.Slip.Collect.{
  contents, deliver, collect, collect-append, collect-one, collect-cons, collect-IsValid, cap-feed,
}

-- The two decoders differ neither in their capacity nor in what they have counted as lost.
pub record SameCounts (d' d : Decoder) : Type 0 where
  pub same_cap : d'.cap ≡ d.cap
  pub same_overflow : d'.stat_overflow ≡ d.stat_overflow
  pub same_dropped : d'.stat_dropped ≡ d.stat_dropped

-- The decoder is inside a frame, and holds the bytes `xs` of it.
pub record Holds (d : Decoder) (xs : List ℕ) : Type 0 where
  pub valid : IsValid d
  pub in_a_frame : d.state ≡ in_frame
  pub count : d.len ≡ length xs
  pub bytes : contents d ≡ xs

-- The decoder after one more byte of the frame.
abbrev pub placed : Decoder → ℕ → Decoder
placed d b = record d { buf = set d.buf d.len b; len = suc d.len }

store-placed :
    (d : Decoder) (b : ℕ) → IsValid d → d.len < d.cap → store d b ≡ (placed d b, need_more)
unfolding store
store-placed d b v fits = ground arith

pub placed-Holds :
    {d : Decoder} {xs : List ℕ} (b : ℕ)
    → Holds d xs
    → d.len < d.cap
    → Holds (placed d b) (xs ++ (b ∷ []))
placed-Holds {d} {xs} b h fits = record {
  valid = omega (arith, h.valid, length-set d.buf d.len b);
  in_a_frame = h.in_a_frame;
  count = omega (arith, h.count, length-append xs (b ∷ []));
  bytes = take-set d.buf d.len b (omega (arith, h.valid)) ∙ ap (λ ys. ys ++ (b ∷ [])) h.bytes;
}

-- A decoder that is inside a frame.
abbrev open_frame : Decoder → Decoder
open_frame d = record d { state = in_frame }

open_frame-eq : (d : Decoder) → d.state ≡ in_frame → open_frame d ≡ d
open_frame-eq d e = λ i. record d { state = sym e i }

feed-in_frame : (d : Decoder) (b : ℕ) → d.state ≡ in_frame → feed d b ≡ dispatch in_frame d b
unfolding feed clear_idle
feed-in_frame d b e = rw e refl

collect-byte :
    {d : Decoder} (b : ℕ)
    → IsValid d
    → d.len < d.cap
    → collect (open_frame d) (encode_byte b) ≡ (placed (open_frame d) b, [])
unfolding collect encode_byte feed
collect-byte {d} b v fits = ground arith

collect-byte_in_frame :
    {d : Decoder} (b : ℕ)
    → IsValid d
    → d.state ≡ in_frame
    → d.len < d.cap
    → collect d (encode_byte b) ≡ (placed d b, [])
collect-byte_in_frame {d} b v e fits =
    subst (λ c. collect c (encode_byte b) ≡ (placed c b, [])) (open_frame-eq d e)
      (collect-byte b v fits)

-- Going on inside a frame, the bytes of `encode_loop ys` arrive as `ys`.
pub collect-loop :
    (ys : List ℕ) {d : Decoder} {xs : List ℕ}
    → Holds d xs
    → length xs + length ys ≤ d.cap
    → (d' : Decoder) × Holds d' (xs ++ ys)
      × SameCounts d' d
      × (collect d (encode_loop ys) ≡ (d', []))
unfolding encode_loop
collect-loop [] {d} {xs} h fits = (d, rw (append-nil xs) h, omega arith, unfold collect in refl)
collect-loop (y ∷ ys) {d} {xs} h fits =
    let room : d.len < d.cap = omega (arith, h.count) in
    let fits' : length (xs ++ (y ∷ [])) + length ys ≤ d.cap =
      omega (arith, length-append xs (y ∷ [])) in
    let (d', h', e, run) =
      collect-loop ys {d = placed d y} {xs = xs ++ (y ∷ [])} (placed-Holds y h room) fits' in
    (
      d',
      rw (append_assoc xs (y ∷ []) ys) at h',
      omega (arith, e),
      collect-append d (encode_byte y) (encode_loop ys)
          ∙ rw (collect-byte_in_frame y h.valid h.in_a_frame room, run),
    )

-- A decoder that starts a frame.
abbrev pub opened : Decoder → Decoder
opened d = record d { len = 0; state = in_frame }

abbrev at_rest : Decoder → Decoder
at_rest d = record d { state = idle }

collect-first_at_rest :
    {d : Decoder} (b : ℕ)
    → IsValid d
    → 0 < d.cap
    → collect (at_rest d) (encode_byte b) ≡ (placed (opened d) b, [])
unfolding collect encode_byte feed
collect-first_at_rest {d} b v fits = ground arith

pub collect-first :
    {d : Decoder} (b : ℕ)
    → IsValid d
    → d.state ≡ idle
    → 0 < d.cap
    → collect d (encode_byte b) ≡ (placed (opened d) b, [])
collect-first {d} b v e fits =
    subst (λ c. collect c (encode_byte b) ≡ (placed (opened c) b, []))
      (λ i. record d { state = sym e i }) (collect-first_at_rest b v fits)

-- The END byte behind the bytes of a frame delivers them.
feed-end_Holds :
    {d : Decoder} {xs : List ℕ}
    → Holds d xs
    → 0 < length xs
    → (deliver (feed d slip_end) ≡ xs ∷ []) × ((feed d slip_end).0.state ≡ idle)
unfolding feed
feed-end_Holds {d} {xs} h pos = ground (arith, h.count, h.bytes, h.in_a_frame)

-- The END byte brings a decoder to rest from whatever state.
pub feed-end_idle : (d : Decoder) → (feed d slip_end).0.state ≡ idle
unfolding feed
feed-end_idle d = ground arith

pub deliver_at_most_one : (x : Decoder × Feed) → length (deliver x) ≤ 1
deliver_at_most_one (d, frame_ready) = omega arith
deliver_at_most_one (d, need_more) = omega arith
deliver_at_most_one (d, error) = omega arith

-- From rest, the escaped bytes of a frame and its END deliver exactly that frame.
collect-body :
    (p : List ℕ) {d : Decoder}
    → IsValid d
    → d.state ≡ idle
    → 0 < length p
    → length p ≤ d.cap
    → (collect d (encode_loop p ++ (slip_end ∷ []))).1 ≡ p ∷ []
unfolding encode_loop
collect-body [] v e pos fits = absurd (omega arith)
collect-body (y ∷ ys) {d} v e pos fits =
    let (d', h', same, run) =
      collect-loop ys {xs = y ∷ []} (placed-Holds {xs = []} y started (omega arith)) fits' in
    rw
      (
        append_assoc (encode_byte y) (encode_loop ys) (slip_end ∷ []),
        collect-append d (encode_byte y) (encode_loop ys ++ (slip_end ∷ [])),
        collect-first y v e (omega arith),
        collect-append (placed (opened d) y) (encode_loop ys) (slip_end ∷ []),
        run,
        collect-one d' slip_end,
      )
      (feed-end_Holds h' (omega arith)).0
  where
    fits' : length (y ∷ []) + length ys ≤ d.cap
    fits' = omega arith

    started : Holds (opened d) []
    started = record { valid = omega (arith, v); in_a_frame = refl; count = refl; bytes = refl }

pub end_at_rest :
    (bytes : List ℕ) (d : Decoder) → (collect d (bytes ++ (slip_end ∷ []))).0.state ≡ idle
end_at_rest bytes d =
    rw (collect-append d bytes (slip_end ∷ []), collect-one (collect d bytes).0 slip_end)
      (feed-end_idle (collect d bytes).0)

pub encode-ends :
    (p : List ℕ) (room : ℕ)
    → 2 * length p + 2 ≤ room
    → length p < 2 ^ 16
    → encode p room ≡ slip_end ∷ (encode_loop p ++ (slip_end ∷ []))
unfolding encode
encode-ends p room fits small = ground arith

-- Whatever a valid decoder was doing, the bytes that `lh_slip_encode` wrote for a payload that is
-- not empty and fits its buffer deliver that payload, after at most one frame that was open before,
-- and leave the decoder valid and at rest.
pub decode-encode :
    (p : List ℕ) (room : ℕ) {d : Decoder}
    → IsValid d
    → 0 < length p
    → length p ≤ d.cap
    → 2 * length p + 2 ≤ room
    → ((collect d (encode p room)).1 ≡ deliver (feed d slip_end) ++ (p ∷ []))
      × (length (deliver (feed d slip_end)) ≤ 1)
      × ((collect d (encode p room)).0.state ≡ idle)
      × IsValid (collect d (encode p room)).0
decode-encode p room {d} v pos fits enough = rw (encode-ends p room enough small) (
  rw (collect-cons d slip_end, inside),
  deliver_at_most_one (feed d slip_end),
  end_at_rest (slip_end ∷ encode_loop p) d,
  collect-IsValid (slip_end ∷ (encode_loop p ++ (slip_end ∷ []))) v,
)
  where
    small : length p < 2 ^ 16
    small = omega (arith, v)

    inside : (collect (feed d slip_end).0 (encode_loop p ++ (slip_end ∷ []))).1 ≡ p ∷ []
    inside =
        collect-body p (feed-IsValid slip_end v) (feed-end_idle d) pos
          (omega (arith, cap-feed d slip_end))
