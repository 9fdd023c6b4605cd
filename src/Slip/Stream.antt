-- ===== src/Slip/Stream.antt =====
-- A stream of frames on the serial link, and a frame that is too long for the decoder.
use lo_ra_home.Prelude.{
  ℕ, ◌+◌, ◌*◌, ◌≤◌, ◌≡◌, refl, ap, ◌∙◌, arith, List, [], ◌∷◌, ◌++◌, All, subst, sym,
}
use lo_ra_home.Slip.{Decoder, feed, idle, encode, slip_end}
use lo_ra_home.Slip.Valid.{IsValid}
use lo_ra_home.Slip.Collect.{deliver, collect, collect-append, cap-feed, Fits}
use lo_ra_home.Slip.RoundTrip.{decode-encode}

-- The bytes of the payloads `ps`, encoded one after the other into buffers of `room` bytes.
unfoldable pub encode_all : List (List ℕ) → ℕ → List ℕ
encode_all [] room = []
encode_all (p ∷ ps) room = encode p room ++ encode_all ps room

feed-end_at_rest : (d : Decoder) → d.state ≡ idle → deliver (feed d slip_end) ≡ []
unfolding feed
feed-end_at_rest d e = ground arith

cap-collect : (bytes : List ℕ) (d : Decoder) → (collect d bytes).0.cap ≡ d.cap
unfolding collect
cap-collect [] d = refl
cap-collect (b ∷ bs) d = cap-collect bs (feed d b).0 ∙ cap-feed d b

-- A valid decoder at rest delivers exactly the payloads of a stream, in their order, if none is
-- empty and each fits its buffer: none is lost, none is added, whatever bytes they hold.
pub collect-encode_all :
    (ps : List (List ℕ)) (room : ℕ) {d : Decoder}
    → IsValid d
    → d.state ≡ idle
    → All (Fits d.cap) ps
    → 2 * d.cap + 2 ≤ room
    → (collect d (encode_all ps room)).1 ≡ ps
unfolding encode_all
collect-encode_all [] room v e fits enough = unfold collect in refl
collect-encode_all (p ∷ ps) room {d} v e fits enough =
    let (frames, few, rest, v') = decode-encode p room v fits.0.0 fits.0.1 (omega arith) in
    let same = cap-collect (encode p room) d in
    rw (collect-append d (encode p room), frames, feed-end_at_rest d e)
      (ap (◌∷◌ p) (
        collect-encode_all ps room {d = (collect d (encode p room)).0} v' rest
          (subst (λ c. All (Fits c) ps) (sym same) fits.1) (omega (arith, same))))
