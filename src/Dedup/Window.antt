-- ===== src/Dedup/Window.antt =====
-- The window of one peer against the set of the frames that were accepted from it. The specification
-- counts frames without wrapping; the code sees each number modulo 256.
use lo_ra_home.Prelude.{
  ℕ, zero, suc, ◌+◌, ◌-◌, ◌*◌, ◌%◌, ◌^◌, ◌≤◌, ◌<◌, ◌≡◌, refl, ap, sym, subst, ◌∙◌, arith, Bool,
  true, false, ◌||◌, max, bit_or, u32, ltb, leb, ◌==◌, if◌then◌else◌, pos, is_positive, negated_u8,
}
use lo_ra_home.Prelude.Bits.{
  bit_at, bit_at-bit_or, bit_at-one, bit_at-mod, bit_at-shift_ge, bit_at-shift_lt, bit_at-pow_self,
  bit_at-pow_ne, bit_and_pow, bit_at-lt,
}
use lo_ra_home.Dedup.{Peer, Verdict, accepted, duplicate, too_old, seq_delta, judge}
use native.Mathlib.Nat.{pow-le-pow_right, one-le-pow}
use native.Mathlib.Decide.{dec_lt, dec_le, ℕ_discrete}

-- A jump of at most 127 frames ahead of the newest, or 128 behind it, is read for what it is.
delta_ahead :
    (newest s : ℕ)
    → newest < s
    → s ≤ newest + 127
    → seq_delta (s % 256) (newest % 256) ≡ pos (s - newest)
unfolding seq_delta
delta_ahead newest s h near = ground arith

delta_behind :
    (newest s : ℕ)
    → s ≤ newest
    → newest ≤ s + 128
    → (is_positive (seq_delta (s % 256) (newest % 256)) ≡ false)
      × (negated_u8 (seq_delta (s % 256) (newest % 256)) ≡ newest - s)
unfolding seq_delta
delta_behind newest s h near = ground arith

-- The bits of a window that slides by `d` frames.
slid_new : (b d : ℕ) → bit_at (bit_or (u32 (b * 2 ^ d)) 1) 0 ≡ 1
slid_new b d = omega (arith, bit_at-bit_or (u32 (b * 2 ^ d)) 1 0)

slid_gap : (b d k : ℕ) → suc k < d → suc k < 32 → bit_at (bit_or (u32 (b * 2 ^ d)) 1) (suc k) ≡ 0
slid_gap b d k h small = omega (
  arith,
  bit_at-bit_or (u32 (b * 2 ^ d)) 1 (suc k),
  bit_at-one k,
  bit_at-mod 32 (b * 2 ^ d) (suc k) small,
  bit_at-shift_lt d b (suc k) h,
)

slid_old :
    (b d k : ℕ) → 0 < d → d ≤ k → k < 32 → bit_at (bit_or (u32 (b * 2 ^ d)) 1) k ≡ bit_at b (k - d)
slid_old b d zero some_step h small = absurd (omega arith)
slid_old b d (suc k) some_step h small =
    let index : d + (suc k - d) ≡ suc k = omega arith in
    omega (
      arith,
      bit_at-bit_or (u32 (b * 2 ^ d)) 1 (suc k),
      bit_at-one k,
      bit_at-mod 32 (b * 2 ^ d) (suc k) small,
      ap (λ (i : ℕ). bit_at (b * 2 ^ d) i) index,
      bit_at-shift_ge d b (suc k - d),
    )

slid_away : (k : ℕ) → bit_at (bit_or 0 1) (suc k) ≡ 0
slid_away k = bit_at-one k

abbrev pub flag : Bool → ℕ
flag true = 1
flag false = 0

-- The peer's window shows which of the last 32 frames up to `newest` are in the set `seen`.
pub record Tracks (p : Peer) (newest : ℕ) (seen : ℕ → Bool) : Type 0 where
  pub last : p.last_seq ≡ newest % 256
  pub recent : (k : ℕ) → k < 32 → k ≤ newest → bit_at p.bitmap k ≡ flag (seen (newest - k))
  pub bounded : (x : ℕ) → newest < x → seen x ≡ false

-- What a set of accepted frames says of the frame `s`.
abbrev pub spec_judge : ℕ → (ℕ → Bool) → ℕ → Verdict
spec_judge newest seen s =
    if ltb newest s
    then accepted
    else if leb 32 (newest - s)
    then too_old
    else if seen s
    then duplicate
    else accepted

abbrev pub add_if : Verdict → (ℕ → Bool) → ℕ → ℕ → Bool
add_if accepted seen s = λ x. x == s || seen x
add_if _ seen s = seen

pub record Refines (newest : ℕ) (seen : ℕ → Bool) (s : ℕ) (out : Peer × Verdict) : Type 0 where
  pub verdict : out.1 ≡ spec_judge newest seen s
  pub tracks : Tracks out.0 (max newest s) (add_if (spec_judge newest seen s) seen s)

-- A frame is near the newest: at most 127 frames ahead of it, or 128 behind it.
abbrev pub Near : ℕ → ℕ → Type 0
Near newest s = (s ≤ newest + 127) × (newest ≤ s + 128)

mask_fits : (k : ℕ) → k < 32 → 1 * 2 ^ k % 2 ^ 32 ≡ 1 * 2 ^ k
mask_fits k h = omega (arith, pow-le-pow_right {n = 2} (omega arith) {i = k} {j = 31} (omega arith))

module _ (p : Peer) (newest s now : ℕ) (last : p.last_seq ≡ newest % 256) where
  judge_ahead :
      newest < s
      → s ≤ newest + 127
      → judge p (s % 256) now ≡ (
        record p {
          last_seen_us = now;
          bitmap = bit_or (if leb 32 (s - newest) then 0 else u32 (p.bitmap * 2 ^ (s - newest))) 1;
          last_seq = s % 256;
        },
        accepted,
      )
  unfolding judge
  judge_ahead h near = ground (arith, delta_ahead newest s h near)

  judge_old :
      s ≤ newest
      → newest ≤ s + 128
      → 32 ≤ newest - s
      → judge p (s % 256) now ≡ (record p { last_seen_us = now }, too_old)
  unfolding judge
  judge_old h near far = ground (arith, delta_behind newest s h near)

  judge_known :
      s ≤ newest
      → newest - s < 32
      → bit_at p.bitmap (newest - s) ≡ 1
      → judge p (s % 256) now ≡ (record p { last_seen_us = now }, duplicate)
  unfolding judge
  judge_known h near bit = ground (
    arith,
    delta_behind newest s h (omega arith),
    mask_fits (newest - s) near,
    bit_and_pow p.bitmap (newest - s),
    one-le-pow (newest - s) 2 (omega arith),
  )

  judge_late :
      s ≤ newest
      → newest - s < 32
      → bit_at p.bitmap (newest - s) ≡ 0
      → judge p (s % 256) now ≡ (
        record p { last_seen_us = now; bitmap = bit_or p.bitmap (1 * 2 ^ (newest - s)) },
        accepted,
      )
  unfolding judge
  judge_late h near bit = ground (
    arith,
    delta_behind newest s h (omega arith),
    mask_fits (newest - s) near,
    bit_and_pow p.bitmap (newest - s),
  )

-- The window after a slide by `d` frames, bit by bit.
slid_bits :
    (b d k : ℕ)
    → 0 < d
    → k < 32
    → bit_at (bit_or (if leb 32 d then 0 else u32 (b * 2 ^ d)) 1) k
      ≡ (if k == 0 then 1 else if ltb k d then 0 else bit_at b (k - d))
slid_bits b d zero moves small = elim (dec_le 32 d) [
  | yes far ↦ ground arith
  | no near ↦ ground (arith, slid_new b d)
]
slid_bits b d (suc k) moves small = elim (dec_le 32 d) [
  | yes far ↦ ground (arith, slid_away k)
  | no near ↦ ground (arith, slid_gap b d k, slid_old b d (suc k))
]

-- Both sets of frames agree where the window of the newer one reaches the older.
shifted_index :
    (newest s k : ℕ) → newest < s → s - newest ≤ k → k ≤ s → newest - (k - (s - newest)) ≡ s - k
shifted_index newest s k h far low = omega arith

ahead-Tracks :
    (p : Peer) (newest s now : ℕ) (seen : ℕ → Bool)
    → Tracks p newest seen
    → newest < s
    → Tracks
        (record p {
          last_seen_us = now;
          bitmap = bit_or (if leb 32 (s - newest) then 0 else u32 (p.bitmap * 2 ^ (s - newest))) 1;
          last_seq = s % 256;
        })
        s
        (λ x. x == s || seen x)
ahead-Tracks p newest s now seen t h = record {
  last = refl;
  recent = λ k small low. slid_bits p.bitmap (s - newest) k (omega arith) small ∙ old k small low;
  bounded = λ x g. ground (arith, t.bounded x (omega arith));
}
  where
    old :
        (k : ℕ)
        → k < 32
        → k ≤ s
        → (if k == 0
            then 1
            else if ltb k (s - newest)
            then 0
            else bit_at p.bitmap (k - (s - newest)))
          ≡ flag ((s - k) == s || seen (s - k))
    old k small low = elim (dec_lt k (s - newest)) [
      | yes gap ↦ ground (arith, t.bounded (s - k))
      | no beyond ↦ ground (
        arith,
        t.recent (k - (s - newest)),
        ap seen (shifted_index newest s k h (omega arith) low),
      )
    ]

-- The window after a frame that came late.
late-Tracks :
    (p : Peer) (newest s now : ℕ) (seen : ℕ → Bool)
    → Tracks p newest seen
    → s ≤ newest
    → newest - s < 32
    → Tracks
        (record p { last_seen_us = now; bitmap = bit_or p.bitmap (1 * 2 ^ (newest - s)) })
        newest
        (λ x. x == s || seen x)
late-Tracks p newest s now seen t h near = record {
  last = t.last;
  recent = λ k small low. elim (ℕ_discrete k (newest - s)) [
    | yes here ↦ ground (
      arith,
      bit_at-bit_or p.bitmap (1 * 2 ^ (newest - s)) k,
      bit_at-pow_self (newest - s),
      bit_at-lt p.bitmap k,
    )
    | no there ↦ ground (
      arith,
      bit_at-bit_or p.bitmap (1 * 2 ^ (newest - s)) k,
      bit_at-pow_ne (newest - s) k there,
      t.recent k small low,
    )
  ];
  bounded = λ x g. ground (arith, t.bounded x g);
}

Refines-as :
    (newest s : ℕ) (seen : ℕ → Bool) (out : Peer × Verdict) (p : Peer) (v : Verdict) (n : ℕ)
    → out ≡ (p, v)
    → v ≡ spec_judge newest seen s
    → n ≡ max newest s
    → Tracks p n (add_if v seen s)
    → Refines newest seen s out
Refines-as newest s seen out p v n e ev en t = record {
  verdict = ap (λ (x : Peer × Verdict). x.1) e ∙ ev;
  tracks =
      subst (λ x. Tracks x.0 (max newest s) (add_if (spec_judge newest seen s) seen s)) (sym e)
        (subst (λ w. Tracks p (max newest s) (add_if w seen s)) ev
          (subst (λ m. Tracks p m (add_if v seen s)) en t));
}

touched-Tracks :
    (p : Peer) (newest now : ℕ) (seen : ℕ → Bool)
    → Tracks p newest seen
    → Tracks (record p { last_seen_us = now }) newest seen
touched-Tracks p newest now seen t = record {
  last = t.last;
  recent = t.recent;
  bounded = t.bounded;
}

module _ (p : Peer) (newest s now : ℕ) (seen : ℕ → Bool) (t : Tracks p newest seen) where
  judge-Refines_ahead :
      newest < s → s ≤ newest + 127 → Refines newest seen s (judge p (s % 256) now)
  judge-Refines_ahead h near =
      Refines-as newest s seen _ _ accepted s (judge_ahead p newest s now t.last h near)
        (ground arith) (omega arith) (ahead-Tracks p newest s now seen t h)

  judge-Refines_close :
      s ≤ newest
      → newest - s < 32
      → (b : Bool) → seen s ≡ b
      → bit_at p.bitmap (newest - s) ≡ flag b
      → Refines newest seen s (judge p (s % 256) now)
  judge-Refines_close h near true e bit =
      Refines-as newest s seen _ _ duplicate newest (judge_known p newest s now t.last h near bit)
        (ground arith) (omega arith) (touched-Tracks p newest now seen t)
  judge-Refines_close h near false e bit =
      Refines-as newest s seen _ _ accepted newest (judge_late p newest s now t.last h near bit)
        (ground arith) (omega arith) (late-Tracks p newest s now seen t h near)

  judge-Refines_behind :
      s ≤ newest → newest ≤ s + 128 → Refines newest seen s (judge p (s % 256) now)
  judge-Refines_behind h near = elim (dec_le 32 (newest - s)) [
    | yes far ↦
        Refines-as newest s seen _ _ too_old newest (judge_old p newest s now t.last h near far)
          (ground arith) (omega arith) (touched-Tracks p newest now seen t)
    | no close ↦
        judge-Refines_close h (omega arith) (seen s) refl
          (t.recent (newest - s) (omega arith) (omega arith) ∙ ap (λ x. flag (seen x)) index)
  ]
    where
      index : newest - (newest - s) ≡ s
      index = omega arith

-- The window of a peer answers as the set of accepted frames does, and goes on tracking it, for
-- every frame near the newest, across every wrap of the 8-bit sequence number.
pub judge-Refines :
    (p : Peer) (newest s now : ℕ) (seen : ℕ → Bool)
    → Tracks p newest seen
    → Near newest s
    → Refines newest seen s (judge p (s % 256) now)
judge-Refines p newest s now seen t near = elim (dec_lt newest s) [
  | yes ahead ↦ judge-Refines_ahead p newest s now seen t ahead near.0
  | no behind ↦ judge-Refines_behind p newest s now seen t (omega arith) near.1
]
