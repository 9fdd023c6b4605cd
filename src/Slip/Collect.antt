-- ===== src/Slip/Collect.antt =====
-- A run of the decoder over received bytes: the frames that a caller reads off it, as
-- `lh_bridge_feed_serial` does, right after the call that reports them.
use lo_ra_home.Prelude.{
  ℕ, ◌≤◌, ◌<◌, ◌≡◌, refl, ◌∙◌, arith, List, [], ◌∷◌, ◌++◌, append_assoc, append-nil, All,
  All-append, take, length, length-take,
}
use lo_ra_home.Slip.{
  Decoder, Feed, need_more, frame_ready, error, feed, dispatch, clear_idle, idle, State,
}
use lo_ra_home.Slip.Valid.{IsValid, feed-IsValid}

-- `dec->buf[0 .. dec->len)`
abbrev pub contents : Decoder → List ℕ
contents d = take d.len d.buf

abbrev pub deliver : Decoder × Feed → List (List ℕ)
deliver (d, frame_ready) = contents d ∷ []
deliver (d, _) = []

unfoldable pub collect : Decoder → List ℕ → Decoder × List (List ℕ)
collect d [] = (d, [])
collect d (b ∷ bs) = let rest = collect (feed d b).0 bs in (rest.0, deliver (feed d b) ++ rest.1)

pub collect-append :
    (d : Decoder) (xs ys : List ℕ)
    → collect d (xs ++ ys)
      ≡ ((collect (collect d xs).0 ys).0, (collect d xs).1 ++ (collect (collect d xs).0 ys).1)
unfolding collect
collect-append d [] ys = refl
collect-append d (x ∷ xs) ys =
    rw (collect-append (feed d x).0 xs ys, append_assoc (deliver (feed d x)))

pub collect-one : (d : Decoder) (b : ℕ) → collect d (b ∷ []) ≡ ((feed d b).0, deliver (feed d b))
unfolding collect
collect-one d b = rw append-nil

pub collect-cons :
    (d : Decoder) (b : ℕ) (bs : List ℕ)
    → collect d (b ∷ bs)
      ≡ ((collect (feed d b).0 bs).0, deliver (feed d b) ++ (collect (feed d b).0 bs).1)
unfolding collect
collect-cons d b bs = refl

pub collect-IsValid : (bytes : List ℕ) {d : Decoder} → IsValid d → IsValid (collect d bytes).0
unfolding collect
collect-IsValid [] v = v
collect-IsValid (b ∷ bs) v = collect-IsValid bs (feed-IsValid b v)

cap-dispatch : (s : State) (d : Decoder) (b : ℕ) → (dispatch s d b).0.cap ≡ d.cap
unfolding dispatch
cap-dispatch idle d b = ground arith
cap-dispatch _ d b = ground arith

cap-clear_idle : (s : State) (d : Decoder) → (clear_idle s d).cap ≡ d.cap
unfolding clear_idle
cap-clear_idle idle d = refl
cap-clear_idle _ d = refl

pub cap-feed : (d : Decoder) (b : ℕ) → (feed d b).0.cap ≡ d.cap
unfolding feed
cap-feed d b = cap-dispatch d.state (clear_idle d.state d) b ∙ cap-clear_idle d.state d

-- A frame that fits: not empty, and no longer than the caller's buffer.
abbrev pub Fits : ℕ → List ℕ → Type 0
Fits room f = (0 < length f) × (length f ≤ room)

-- Only the END of a frame with bytes in it reports a frame.
dispatch_ready :
    (s : State) (d : Decoder) (b : ℕ)
    → (dispatch s d b).1 ≡ frame_ready
    → 0 < (dispatch s d b).0.len
unfolding dispatch
dispatch_ready idle d b h = ground arith
dispatch_ready _ d b h = ground arith

deliver-Fits :
    (d : Decoder) (r : Feed)
    → IsValid d
    → (r ≡ frame_ready → 0 < d.len)
    → All (Fits d.cap) (deliver (d, r))
deliver-Fits d frame_ready v h = omega (arith, h refl, length-take d.len d.buf)
deliver-Fits d need_more v h = tt
deliver-Fits d error v h = tt

feed-Fits : (d : Decoder) (b : ℕ) → IsValid d → All (Fits d.cap) (deliver (feed d b))
feed-Fits d b v =
    rw (cap-feed d b) at (deliver-Fits (feed d b).0 (feed d b).1 (feed-IsValid b v) ready)
  where
    ready : (feed d b).1 ≡ frame_ready → 0 < (feed d b).0.len
    ready = unfold feed in dispatch_ready d.state (clear_idle d.state d) b

-- Every frame that is read off a valid decoder is not empty and fits the caller's buffer,
-- whatever bytes arrive.
pub collect-Fits : (bytes : List ℕ) {d : Decoder} → IsValid d → All (Fits d.cap) (collect d bytes).1
unfolding collect
collect-Fits [] v = tt
collect-Fits (b ∷ bs) {d} v =
    All-append (Fits d.cap) (deliver (feed d b)) _ (feed-Fits d b v)
      (rw (cap-feed d b) at (collect-Fits bs (feed-IsValid b v)))
