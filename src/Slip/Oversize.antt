-- ===== src/Slip/Oversize.antt =====
-- A frame that is too long for the decoder's buffer.
use lo_ra_home.Prelude.{
  ℕ, zero, suc, ◌+◌, ◌-◌, ◌*◌, ◌^◌, ◌≤◌, ◌<◌, ◌≡◌, refl, ap, arith, List, [], ◌∷◌, ◌++◌,
  append_assoc, length, inc32, subst, sym,
}
use lo_ra_home.Slip.{
  Decoder, need_more, feed, idle, in_frame, resync, encode_byte, encode_loop, encode, slip_end,
}
use lo_ra_home.Slip.Valid.{IsValid}
use lo_ra_home.Slip.Collect.{collect, collect-append, collect-one, collect-cons}
use lo_ra_home.Slip.RoundTrip.{
  Holds, placed, opened, placed-Holds, collect-loop, collect-first, encode-ends,
}

encode_loop-append : (xs ys : List ℕ) → encode_loop (xs ++ ys) ≡ encode_loop xs ++ encode_loop ys
unfolding encode_loop
encode_loop-append [] ys = refl
encode_loop-append (x ∷ xs) ys =
    rw (encode_loop-append xs ys, append_assoc (encode_byte x) (encode_loop xs) (encode_loop ys))

-- The decoder that has just lost a frame for want of room.
abbrev lost : Decoder → Decoder
lost d = record d {
  len = 0;
  state = resync;
  stat_overflow = inc32 d.stat_overflow;
  stat_dropped = inc32 d.stat_dropped;
}

collect-byte_open :
    (d : Decoder) (b : ℕ)
    → d.len ≡ d.cap
    → collect (record d { state = in_frame }) (encode_byte b) ≡ (lost d, [])
unfolding collect encode_byte feed
collect-byte_open d b full = ground arith

collect-byte_full :
    (d : Decoder) (b : ℕ)
    → d.state ≡ in_frame
    → d.len ≡ d.cap
    → collect d (encode_byte b) ≡ (lost d, [])
collect-byte_full d b e full =
    subst (λ c. collect c (encode_byte b) ≡ (lost d, [])) (λ i. record d { state = sym e i })
      (collect-byte_open d b full)

collect-byte_asleep :
    (d : Decoder) (b : ℕ)
    → collect (record d { state = resync }) (encode_byte b) ≡ (record d { state = resync }, [])
unfolding collect encode_byte feed
collect-byte_asleep d b = ground arith

-- The rest of a lost frame is passed over.
collect-asleep :
    (ys : List ℕ) (d : Decoder) → d.state ≡ resync → collect d (encode_loop ys) ≡ (d, [])
unfolding encode_loop
collect-asleep [] d e = unfold collect in refl
collect-asleep (y ∷ ys) d e =
    rw (collect-append d (encode_byte y) (encode_loop ys), asleep, collect-asleep ys d e)
  where
    asleep : collect d (encode_byte y) ≡ (d, [])
    asleep =
        subst (λ c. collect c (encode_byte y) ≡ (c, [])) (λ i. record d { state = sym e i })
          (collect-byte_asleep d y)

feed-end_asleep :
    (d : Decoder) → d.state ≡ resync → feed d slip_end ≡ (record d { state = idle }, need_more)
unfolding feed
feed-end_asleep d e = rw e

feed-end_rest : (d : Decoder) → d.state ≡ idle → feed d slip_end ≡ (record d { len = 0 }, need_more)
unfolding feed
feed-end_rest d e = rw e

-- What a run over a frame that is too long leaves.
pub record IsLost (d : Decoder) (out : Decoder × List (List ℕ)) : Type 0 where
  pub nothing : out.1 ≡ []
  pub resting : out.0.state ≡ idle
  pub overflow : out.0.stat_overflow ≡ inc32 d.stat_overflow
  pub dropped : out.0.stat_dropped ≡ inc32 d.stat_dropped

module _ {d : Decoder} (v : IsValid d) (e : d.state ≡ idle) (y : ℕ) (front : List ℕ) (z : ℕ)
    (back : List ℕ) (size : suc (length front) ≡ d.cap) where
  started : Holds (placed (opened d) y) (y ∷ [])
  started =
      placed-Holds {xs = []} y
        (record { valid = omega (arith, v); in_a_frame = refl; count = refl; bytes = refl })
        (omega arith)

  collect-too_long :
      IsLost d (collect d (encode_loop (y ∷ (front ++ (z ∷ back))) ++ (slip_end ∷ [])))
  unfolding encode_loop
  collect-too_long =
      let (d', h', same, run) = collect-loop front started (omega arith) in
      rw
        (
          encode_loop-append front (z ∷ back),
          append_assoc (encode_byte y) (encode_loop front ++ (encode_byte z ++ encode_loop back))
              (slip_end ∷ []),
          append_assoc (encode_loop front) (encode_byte z ++ encode_loop back) (slip_end ∷ []),
          append_assoc (encode_byte z) (encode_loop back) (slip_end ∷ []),
          collect-append d (encode_byte y),
          collect-first y v e (omega arith),
          collect-append (placed (opened d) y) (encode_loop front),
          run,
          collect-append d' (encode_byte z),
          collect-byte_full d' z h'.in_a_frame (omega (arith, same, h'.count)),
          collect-append (lost d') (encode_loop back),
          collect-asleep back (lost d') refl,
          collect-one (lost d') slip_end,
          feed-end_asleep (lost d') refl,
        )
        (record {
          nothing = refl;
          resting = refl;
          overflow = ap inc32 same.same_overflow;
          dropped = ap inc32 same.same_dropped;
        })

split_at :
    (n : ℕ) (ys : List ℕ)
    → n < length ys
    → (front : List ℕ) × (z : ℕ) × (back : List ℕ) × (ys ≡ front ++ (z ∷ back)) × (length front ≡ n)
split_at n [] h = absurd (omega arith)
split_at zero (y ∷ ys) h = ([], y, ys, refl, refl)
split_at (suc n) (y ∷ ys) h =
    let (front, z, back, e, size) = split_at n ys (omega arith) in
    (y ∷ front, z, back, ap (◌∷◌ y) e, ap suc size)

-- A payload longer than the buffer, which is not empty, of a valid decoder at rest is never
-- delivered, in whole or in part, when its encoding was written: it counts one overflow and one
-- dropped frame, and its END leaves the decoder at rest again.
pub encode_oversize :
    (p : List ℕ) (room : ℕ) {d : Decoder}
    → IsValid d
    → d.state ≡ idle
    → 0 < d.cap
    → d.cap < length p
    → length p < 2 ^ 16
    → 2 * length p + 2 ≤ room
    → IsLost d (collect d (encode p room))
encode_oversize [] room v e pos long small enough = absurd (omega arith)
encode_oversize (y ∷ ys) room {d} v e pos long small enough =
    let (front, z, back, eq, size) = split_at (d.cap - 1) ys (omega arith) in
    let d1 : Decoder = record d { len = 0 } in
    let v1 : IsValid d1 = omega (arith, v) in
    let run = collect-too_long v1 e y front z back (omega arith) in
    rw (encode-ends (y ∷ ys) room enough small, collect-cons d slip_end, feed-end_rest d e, eq)
      (record {
        nothing = run.nothing;
        resting = run.resting;
        overflow = run.overflow;
        dropped = run.dropped;
      })
