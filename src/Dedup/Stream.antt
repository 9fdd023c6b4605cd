-- ===== src/Dedup/Stream.antt =====
-- A whole run of frames through the window of one peer, and a frame that is presented twice.
use lo_ra_home.Prelude.{
  ℕ, zero, suc, ◌&&◌, ==_refl, ◌+◌, ◌-◌, ◌%◌, ◌≤◌, ◌<◌, ◌≡◌, ◌≢◌, ap, ◌∙◌, arith, List, [], ◌∷◌,
  Bool, false, ◌||◌, max, All, ltb, leb, ◌==◌, if◌then◌else◌, sym, subst,
}
use lo_ra_home.Prelude.Bits.{bit_at, bit_at-lt, bit_at-one}
use lo_ra_home.Dedup.{Peer, Verdict, accepted, duplicate, too_old, judge}
use lo_ra_home.Dedup.Window.{Tracks, Near, spec_judge, add_if, flag, judge-Refines}

-- A frame joins those that were accepted, or not.
abbrev pub keep : Verdict → ℕ → List ℕ → List ℕ
keep accepted s rest = s ∷ rest
keep _ s rest = rest

-- The frames of `arrivals` that the window of `p` accepts. Each arrival is the number of a frame,
-- counted without wrapping, and a time; the code sees the number modulo 256.
unfoldable pub accepted_of : Peer → List (ℕ × ℕ) → List ℕ
accepted_of p [] = []
accepted_of p ((s, now) ∷ more) = let j = judge p (s % 256) now in keep j.1 s (accepted_of j.0 more)

-- Each arrival is near the newest frame before it.
abbrev pub AllNear : ℕ → List (ℕ × ℕ) → Type 0
AllNear newest [] = Unit {0}
AllNear newest ((s, now) ∷ more) = Near newest s × AllNear (max newest s) more

abbrev pub Distinct : List ℕ → Type 0
Distinct [] = Unit {0}
Distinct (x ∷ xs) = All (λ y. y ≢ x) xs × Distinct xs

-- Nothing in the list was seen before, and nothing stands in it twice.
record Once (seen : ℕ → Bool) (xs : List ℕ) : Type 0 where
  fresh : All (λ x. seen x ≡ false) xs
  distinct : Distinct xs

weaken :
    (seen : ℕ → Bool) (s : ℕ) (xs : List ℕ)
    → All (λ x. (x == s || seen x) ≡ false) xs
    → All (λ x. seen x ≡ false) xs × All (λ x. x ≢ s) xs
weaken seen s [] h = (tt, tt)
weaken seen s (x ∷ xs) h = ground (arith, weaken seen s xs h.1)

accepted-new :
    (newest : ℕ) (seen : ℕ → Bool) (s : ℕ)
    → ((x : ℕ) → newest < x → seen x ≡ false)
    → accepted ≡ spec_judge newest seen s
    → seen s ≡ false
accepted-new newest seen s bounded e = ground (arith, bounded s)

Once-keep :
    (v : Verdict) (newest : ℕ) (seen : ℕ → Bool) (s : ℕ) (xs : List ℕ)
    → v ≡ spec_judge newest seen s
    → ((x : ℕ) → newest < x → seen x ≡ false)
    → Once (add_if v seen s) xs
    → Once seen (keep v s xs)
Once-keep accepted newest seen s xs e bounded o =
    let (old, new) = weaken seen s xs o.fresh in
    record { fresh = (accepted-new newest seen s bounded e, old); distinct = (new, o.distinct) }
Once-keep duplicate newest seen s xs e bounded o = o
Once-keep too_old newest seen s xs e bounded o = o

accepted_of-Once :
    (arrivals : List (ℕ × ℕ)) (p : Peer) (newest : ℕ) (seen : ℕ → Bool)
    → Tracks p newest seen
    → AllNear newest arrivals
    → Once seen (accepted_of p arrivals)
unfolding accepted_of
accepted_of-Once [] p newest seen t near = record { fresh = tt; distinct = tt }
accepted_of-Once ((s, now) ∷ more) p newest seen t near =
    let r = judge-Refines p newest s now seen t near.0 in
    let rest =
      accepted_of-Once more (judge p (s % 256) now).0 (max newest s)
        (add_if (spec_judge newest seen s) seen s) r.tracks near.1 in
    Once-keep (judge p (s % 256) now).1 newest seen s _ r.verdict t.bounded (
      subst (λ v. Once (add_if v seen s) (accepted_of (judge p (s % 256) now).0 more))
        (sym r.verdict) rest)

-- The window of one peer, as long as it keeps its slot: if it tracks the accepted frames, it accepts
-- no frame twice, and none that was accepted before, however the frames are repeated and reordered, if each is near the
-- newest one before it.
pub no_double_processing :
    (arrivals : List (ℕ × ℕ)) (p : Peer) (newest : ℕ) (seen : ℕ → Bool)
    → Tracks p newest seen
    → AllNear newest arrivals
    → Distinct (accepted_of p arrivals) × All (λ x. seen x ≡ false) (accepted_of p arrivals)
no_double_processing arrivals p newest seen t near =
    let o = accepted_of-Once arrivals p newest seen t near in (o.distinct, o.fresh)

first_bits : (s k : ℕ) → k ≤ s → bit_at 1 k ≡ flag ((s - k) == s)
first_bits s zero h = ground arith
first_bits s (suc k) h = ground (arith, bit_at-one k)

-- What the claimed slot of a new sender tracks: its first frame, and nothing else.
pub first-Tracks :
    (p : Peer) (s : ℕ) → p.last_seq ≡ s % 256 → p.bitmap ≡ 1 → Tracks p s (λ x. x == s)
first-Tracks p s last one = record {
  last = last;
  recent = λ k small low. rw one (first_bits s k low);
  bounded = λ x g. ground arith;
}

-- Every window tracks some set: the frames that its bits show, counted from `last_seq + 256`.
abbrev shown : Peer → ℕ → Bool
shown p x =
    let newest = p.last_seq + 256 in
    leb x newest && ltb (newest - x) 32 && bit_at p.bitmap (newest - x) == 1

shown-Tracks : (p : Peer) → p.last_seq < 256 → Tracks p (p.last_seq + 256) (shown p)
shown-Tracks p h = record {
  last = omega arith;
  recent = λ k small low. shown_bit k small low;
  bounded = λ x g. ground arith;
}
  where
    shown_bit :
        (k : ℕ)
        → k < 32
        → k ≤ p.last_seq + 256
        → bit_at p.bitmap k ≡ flag (shown p (p.last_seq + 256 - k))
    shown_bit k small low =
        let index : p.last_seq + 256 - (p.last_seq + 256 - k) ≡ k = omega arith in
        ground (arith, bit_at-lt p.bitmap k, ap (bit_at p.bitmap) index)

-- The frame number near `last_seq + 256` that the code reads as `seq`.
abbrev number_of : ℕ → ℕ → ℕ
number_of last seq =
    if ltb (seq + 128) last then seq + 512 else if ltb (last + 127) seq then seq else seq + 256

number_of-mod : (last seq : ℕ) → seq < 256 → number_of last seq % 256 ≡ seq
number_of-mod last seq h = ground arith

number_of-Near : (last seq : ℕ) → last < 256 → seq < 256 → Near (last + 256) (number_of last seq)
number_of-Near last seq h k = ground arith

spec_twice :
    (newest : ℕ) (seen : ℕ → Bool) (s : ℕ)
    → newest ≤ s + 128
    → accepted ≡ spec_judge newest seen s
    → spec_judge (max newest s) (add_if accepted seen s) s ≡ duplicate
spec_twice newest seen s near e = ground (arith, ==_refl s)

-- A frame that the window has just accepted is a duplicate when it comes again.
pub judge_twice :
    (p : Peer) (seq now later : ℕ)
    → p.last_seq < 256
    → seq < 256
    → (judge p seq now).1 ≡ accepted
    → (judge (judge p seq now).0 seq later).1 ≡ duplicate
judge_twice p seq now later h k e = subst Twice (number_of-mod p.last_seq seq k) twice e
  where
    newest : ℕ
    newest = p.last_seq + 256

    s : ℕ
    s = number_of p.last_seq seq

    Twice : ℕ → Type 0
    Twice q = (judge p q now).1 ≡ accepted → (judge (judge p q now).0 q later).1 ≡ duplicate

    near : Near newest s
    near = number_of-Near p.last_seq seq h k

    twice : Twice (s % 256)
    twice e' =
        let first = judge-Refines p newest s now (shown p) (shown-Tracks p h) near in
        let v : accepted ≡ spec_judge newest (shown p) s = sym e' ∙ first.verdict in
        let second =
          judge-Refines (judge p (s % 256) now).0 (max newest s) s later
            (add_if (spec_judge newest (shown p) s) (shown p) s) first.tracks
            (omega (arith, near)) in
        second.verdict
        ∙ ap (λ w. spec_judge (max newest s) (add_if w (shown p) s) s) (sym v)
        ∙ spec_twice newest (shown p) s near.1 v
