-- ===== src/Gpio/Debounce.antt =====
-- The level that a digital input reports, over any samples.
use lo_ra_home.Prelude.{
  ℕ, ◌+◌, ◌-◌, ◌/◌, ◌^◌, ◌<◌, ◌≤◌, ◌≡◌, go_on, refl, ap, ◌∙◌, arith, List, [], ◌∷◌, Bool, true,
  false, not, leb, if◌then◌else◌, Option, none, some, length, replicate,
}
use lo_ra_home.Gpio.{Instance, same_level, settle, sample}

-- The samples with their times, in order, and the levels reported behind each.
unfoldable pub sample_all : Instance → List (Bool × ℕ) → Instance × List Bool
unfolding sample
sample_all inst [] = (inst, [])
sample_all inst ((level, now_us) ∷ rest) =
    let one = sample inst level now_us in
    let others = sample_all one rest in (others.0, one.stable_level ∷ others.1)

-- The time since when every sample differs from the level, up to the last one.
unfoldable pub streak : Bool → Option ℕ → List (Bool × ℕ) → Option ℕ
streak level since [] = since
streak level since ((x, now_us) ∷ xs) =
    streak level (go_on (not (same_level x level)) since now_us) xs

-- The streak is as long as the window.
unfoldable pub over : ℕ → Option ℕ → ℕ → Bool
over debounce_ms none now_us = false
over debounce_ms (some since) now_us = leb debounce_ms ((now_us - since) / 1000)

-- The instance knows the streak against the level that it reports.
abbrev pub Knows : Instance → Bool → Option ℕ → Type 0
Knows inst level none = (inst.stable_level ≡ level) × (inst.candidate_level ≡ level)
Knows inst level (some t) =
    (inst.stable_level ≡ level) × (inst.candidate_level ≡ not level) × (inst.candidate_since_us ≡ t)

sample_flips :
    (inst : Instance) (level x : Bool) (since : Option ℕ) (now_us : ℕ)
    → Knows inst level since
    → (sample inst x now_us).stable_level ≡ (
        if over inst.debounce_ms (streak level since ((x, now_us) ∷ [])) now_us
        then not level
        else level)
unfolding sample settle streak over
sample_flips inst true true none now_us k = ground (arith, k)
sample_flips inst true false none now_us k = ground (arith, k)
sample_flips inst false true none now_us k = ground (arith, k)
sample_flips inst false false none now_us k = ground (arith, k)
sample_flips inst true true (some t) now_us k = ground (arith, k)
sample_flips inst true false (some t) now_us k = ground (arith, k)
sample_flips inst false true (some t) now_us k = ground (arith, k)
sample_flips inst false false (some t) now_us k = ground (arith, k)

sample-Knows :
    (inst : Instance) (level x : Bool) (since : Option ℕ) (now_us : ℕ)
    → Knows inst level since
    → (sample inst x now_us).stable_level ≡ level
    → Knows (sample inst x now_us) level (streak level since ((x, now_us) ∷ []))
unfolding sample settle streak
sample-Knows inst true true none now_us k e = ground (arith, k, e)
sample-Knows inst true false none now_us k e = ground (arith, k, e)
sample-Knows inst false true none now_us k e = ground (arith, k, e)
sample-Knows inst false false none now_us k e = ground (arith, k, e)
sample-Knows inst true true (some t) now_us k e = ground (arith, k, e)
sample-Knows inst true false (some t) now_us k e = ground (arith, k, e)
sample-Knows inst false true (some t) now_us k e = ground (arith, k, e)
sample-Knows inst false false (some t) now_us k e = ground (arith, k, e)

debounce-sample :
    (inst : Instance) (x : Bool) (now_us : ℕ)
    → (sample inst x now_us).debounce_ms ≡ inst.debounce_ms
unfolding sample settle
debounce-sample inst x now_us = ground arith

sample_all-Knows :
    (xs : List (Bool × ℕ)) (inst : Instance) (level : Bool) (since : Option ℕ)
    → Knows inst level since
    → (sample_all inst xs).1 ≡ replicate (length xs) level
    → Knows (sample_all inst xs).0 level (streak level since xs)
      × ((sample_all inst xs).0.debounce_ms ≡ inst.debounce_ms)
unfolding sample_all streak
sample_all-Knows [] inst level since k e = (k, refl)
sample_all-Knows ((x, now_us) ∷ xs) inst level since k e =
    let one = sample-Knows inst level x since now_us k (ground (arith, e)) in
    let rest = sample_all-Knows xs (sample inst x now_us) level _ one (ground (arith, e)) in
    (rest.0, rest.1 ∙ debounce-sample inst x now_us)

-- As long as an input that had settled reports one level, a sample makes it report the other exactly
-- if every sample has differed from that level for the whole window, this one included.
pub flips_exactly :
    (inst : Instance) (xs : List (Bool × ℕ)) (level x : Bool) (now_us : ℕ)
    → inst.stable_level ≡ level
    → inst.candidate_level ≡ level
    → (sample_all inst xs).1 ≡ replicate (length xs) level
    → (sample (sample_all inst xs).0 x now_us).stable_level ≡ (
        if over inst.debounce_ms (streak level (streak level none xs) ((x, now_us) ∷ [])) now_us
        then not level
        else level)
flips_exactly inst xs level x now_us s c e =
    let k = sample_all-Knows xs inst level none (s, c) e in
    sample_flips (sample_all inst xs).0 level x (streak level none xs) now_us k.0
    ∙ ap
        (λ d.
          if over d (streak level (streak level none xs) ((x, now_us) ∷ [])) now_us
          then not level
          else level)
        k.1

-- How often the reported level changes, from `level` on.
unfoldable pub changes : Bool → List Bool → ℕ
changes level [] = 0
changes level (x ∷ xs) = (if same_level x level then 0 else 1) + changes x xs

sample_counts :
    (inst : Instance) (x : Bool) (now_us : ℕ)
    → inst.transitions < 0xffffffff
    → (sample inst x now_us).transitions
      ≡ inst.transitions
        + (if same_level (sample inst x now_us).stable_level inst.stable_level then 0 else 1)
unfolding sample settle
sample_counts inst x now_us h = ground arith

-- The count of transitions is the number of changes that the reported level made, below the largest
-- number that it can hold.
pub transitions_count :
    (xs : List (Bool × ℕ)) (inst : Instance)
    → inst.transitions + length xs < 2 ^ 32
    → (sample_all inst xs).0.transitions
      ≡ inst.transitions + changes inst.stable_level (sample_all inst xs).1
unfolding sample_all changes
transitions_count [] inst h = omega arith
transitions_count ((x, now_us) ∷ xs) inst h =
    let one = sample_counts inst x now_us (omega arith) in
    let step : (sample inst x now_us).transitions ≤ inst.transitions + 1 = ground (arith, one) in
    let rest = transitions_count xs (sample inst x now_us) (omega arith) in omega (arith, one, rest)
