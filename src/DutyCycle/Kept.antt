-- ===== src/DutyCycle/Kept.antt =====
-- What the tracker holds against all that it let through, and that forgetting and recording keep it so.
use native.Mathlib.Decide.{dec_lt}
use lo_ra_home.Prelude.{
  ℕ, zero, suc, ◌+◌, ◌-◌, ◌%◌, ◌^◌, ◌≤◌, ◌<◌, ◌≡◌, sym, ap, subst, ◌∙◌, inl, inr, arith, List, [],
  ◌∷◌, ◌++◌, false, length, get_or, length-set, All, All-append, set, leb, u32, ◌==◌, Bool-cases,
}
use lo_ra_home.DutyCycle.{Entry, Tracker, oldest, forget, put, prune_loop, no_entry}
use lo_ra_home.DutyCycle.Live.{live, live-set}
use lo_ra_home.DutyCycle.Sent.{
  recorded, all_recorded, total, all_recorded-append, total-append, first_of, recent, recent-append,
}

module _ (window_ms budget : ℕ) where
  -- The tracker against all that was recorded: what it holds, and what it counts beyond that.
  pub record Kept (t : Tracker) (sent : List (ℕ × ℕ)) (last : ℕ) : Type 0 where
    pub held : List (ℕ × ℕ)
    pub leaked : ℕ
    pub size : length t.entries ≡ 256
    pub head : t.head < 256
    pub count : t.count ≤ 256
    pub entries : live t.entries t.head t.count ≡ all_recorded held
    pub used : t.used_ms ≡ total held + leaked
    pub fits : t.used_ms ≤ budget
    pub past : All (λ p. p.0 ≤ last) held
    pub covers :
        (now : ℕ) → last ≤ now → recent window_ms now sent ≤ recent window_ms now held + leaked

  past-later :
      (xs : List (ℕ × ℕ)) (last now : ℕ)
      → last ≤ now
      → All (λ p. p.0 ≤ last) xs
      → All (λ p. p.0 ≤ now) xs
  past-later [] last now h v = tt
  past-later (x ∷ xs) last now h v = (omega (arith, v.0), past-later xs last now h v.1)

  pub later-Kept :
      (t : Tracker) (sent : List (ℕ × ℕ)) (last now : ℕ)
      → last ≤ now
      → Kept t sent last
      → Kept t sent now
  later-Kept t sent last now h k = record {
    held = k.held;
    leaked = k.leaked;
    size = k.size;
    head = k.head;
    count = k.count;
    entries = k.entries;
    used = k.used;
    fits = k.fits;
    past = past-later k.held last now h k.past;
    covers = λ after l. k.covers after (omega arith);
  }

  -- The age that the tracker computes is at most the true one.
  age-le :
      (at now : ℕ)
      → at ≤ now
      → leb (u32 (u32 now + 2 ^ 32 - u32 at)) window_ms ≡ false
      → at + window_ms < now
  age-le at now h old = ground arith

  -- An entry that is too old may be forgotten.
  forget-Kept :
      (t : Tracker) (sent : List (ℕ × ℕ)) (now n : ℕ)
      → budget < 2 ^ 31
      → t.count ≡ suc n
      → leb (u32 (u32 now + 2 ^ 32 - (oldest t).at_ms)) window_ms ≡ false
      → Kept t sent now
      → Kept (forget t) sent now
  forget-Kept t sent now n small e old k =
      let l : live t.entries t.head (suc n) ≡ all_recorded k.held =
        subst (λ c. live t.entries t.head c ≡ all_recorded k.held) e k.entries in
      let (at, duration, rest, split, first, others) = first_of t.entries t.head n k.held l in
      let is_oldest : oldest t ≡ recorded (at, duration) =
        ap (λ c. get_or t.entries ((t.head + 256 - c) % 256) no_entry) e ∙ first in
      let sum : total k.held ≡ duration + total rest = ap total split in
      let all : All (λ p. p.0 ≤ now) ((at, duration) ∷ rest) =
        subst (All (λ (p : ℕ × ℕ). p.0 ≤ now)) split k.past in
      let expired = age-le at now all.0 (
        ap (λ (x : Entry). leb (u32 (u32 now + 2 ^ 32 - x.at_ms)) window_ms) (sym is_oldest)
        ∙ old) in
      let less : (forget t).used_ms ≡ total rest + k.leaked =
        ap (λ (x : Entry). u32 (t.used_ms + 2 ^ 32 - x.duration_ms)) is_oldest
        ∙ omega (arith, k.used, k.fits, sum) in
      record {
        held = rest;
        leaked = k.leaked;
        size = k.size;
        head = k.head;
        count = omega (arith, k.count);
        entries = ap (live t.entries t.head) {y = n} (omega (arith, e)) ∙ others;
        used = less;
        fits = omega (arith, less, k.used, k.fits, sum);
        past = all.1;
        covers = λ after h.
            let gone : recent window_ms after k.held ≡ recent window_ms after rest =
              ap (recent window_ms after) split ∙ ground (arith, expired, h) in
            omega (arith, k.covers after h, gone);
      }

  pub prune_loop-Kept :
      (n : ℕ) (t : Tracker) (sent : List (ℕ × ℕ)) (now : ℕ)
      → budget < 2 ^ 31
      → t.count ≡ n
      → Kept t sent now
      → Kept (prune_loop window_ms n t (u32 now)) sent now
  unfolding prune_loop
  prune_loop-Kept zero t sent now small e k = k
  prune_loop-Kept (suc n) t sent now small e k =
      let busy : (t.count == 0) ≡ false = ground (arith, e) in
      elim (Bool-cases (leb (u32 (u32 now + 2 ^ 32 - (oldest t).at_ms)) window_ms)) [
        | inl young ↦ rw (busy, young) k
        | inr old ↦
            rw (busy, old)
              (prune_loop-Kept n (forget t) sent now small (omega (arith, e))
                (forget-Kept t sent now n small e old k))
      ]

  new_entries :
      (t : Tracker) (held : List (ℕ × ℕ)) (duration now n : ℕ)
      → length t.entries ≡ 256
      → t.head < 256
      → n < 256
      → live t.entries t.head n ≡ all_recorded held
      → live (set t.entries t.head (recorded (now, duration))) ((t.head + 1) % 256) (suc n)
        ≡ all_recorded (held ++ ((now, duration) ∷ []))
  new_entries t held duration now n size h l e =
      live-set t.entries t.head (recorded (now, duration)) n size h l
      ∙ ap (λ xs. xs ++ (recorded (now, duration) ∷ [])) e
      ∙ sym (all_recorded-append held ((now, duration) ∷ []))

  -- A record where there is room, and one that takes the place of the oldest entry: its airtime stays
  -- counted.
  pub put-Kept :
      (t : Tracker) (sent : List (ℕ × ℕ)) (duration now : ℕ)
      → budget < 2 ^ 31
      → t.used_ms + duration ≤ budget
      → Kept t sent now
      → Kept (put t duration (u32 now)) ((now, duration) ∷ sent) now
  unfolding put
  put-Kept t sent duration now small room k = elim (dec_lt t.count 256) [
    | yes free ↦
        let new = k.held ++ ((now, duration) ∷ []) in
        record {
          held = new;
          leaked = k.leaked;
          size = length-set t.entries t.head (recorded (now, duration)) ∙ k.size;
          head = omega arith;
          count = ground (arith, free);
          entries =
              ap (live (set t.entries t.head (recorded (now, duration))) ((t.head + 1) % 256))
                {y = suc t.count} (ground (arith, free))
              ∙ new_entries t k.held duration now t.count k.size k.head free k.entries;
          used = omega (arith, k.used, room, small, total-append k.held ((now, duration) ∷ []));
          fits = omega (arith, room, small);
          past =
              All-append (λ (p : ℕ × ℕ). p.0 ≤ now) k.held ((now, duration) ∷ []) k.past
                (omega arith);
          covers = λ after h. omega (
            arith,
            k.covers after h,
            recent-append window_ms after k.held ((now, duration) ∷ []),
          );
        }
    | no full ↦
        let e : t.count ≡ 256 = omega (arith, k.count) in
        let l : live t.entries t.head 256 ≡ all_recorded k.held =
          subst (λ c. live t.entries t.head c ≡ all_recorded k.held) e k.entries in
        let (at, length_of, rest, split, first, others) = first_of t.entries t.head 255 k.held l in
        let sum : total k.held ≡ length_of + total rest = ap total split in
        let all : All (λ p. p.0 ≤ now) ((at, length_of) ∷ rest) =
          subst (All (λ (p : ℕ × ℕ). p.0 ≤ now)) split k.past in
        record {
          held = rest ++ ((now, duration) ∷ []);
          leaked = k.leaked + length_of;
          size = length-set t.entries t.head (recorded (now, duration)) ∙ k.size;
          head = omega arith;
          count = ground (arith, e);
          entries =
              ap (live (set t.entries t.head (recorded (now, duration))) ((t.head + 1) % 256))
                {y = 256} (ground (arith, e))
              ∙ new_entries t rest duration now 255 k.size k.head (omega arith) others;
          used = omega (arith, k.used, room, small, sum, total-append rest ((now, duration) ∷ []));
          fits = omega (arith, room, small);
          past =
              All-append (λ (p : ℕ × ℕ). p.0 ≤ now) rest ((now, duration) ∷ []) all.1 (omega arith);
          covers = λ after h.
              let at_most : recent window_ms after k.held
                  ≤ length_of + recent window_ms after rest =
                ground (arith, ap (recent window_ms after) split) in
              omega (
                arith,
                at_most,
                k.covers after h,
                recent-append window_ms after rest ((now, duration) ∷ []),
              );
        }
  ]
