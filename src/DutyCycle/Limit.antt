-- ===== src/DutyCycle/Limit.antt =====
-- The tracker keeps the airtime of every window within its budget, also where it forgets entries.
-- Times are natural numbers of milliseconds, of which the tracker sees the low 32 bits.
use lo_ra_home.Prelude.{
  ℕ, ◌+◌, ◌^◌, ◌≤◌, ◌<◌, refl, inl, inr, arith, List, [], ◌∷◌, length-replicate, ltb, if◌then◌else◌,
  u32, Bool-cases,
}
use lo_ra_home.DutyCycle.{
  Entry, Tracker, new_tracker, prune_loop, prune, would_exceed, try_record, no_entry,
}
use lo_ra_home.DutyCycle.Live.{live}
use lo_ra_home.DutyCycle.Sent.{recent, recent-total}
use lo_ra_home.DutyCycle.Kept.{Kept, later-Kept, prune_loop-Kept, put-Kept}

module _ (window_ms budget : ℕ) where
  -- The calls of `tryRecord`, each with its time; the transmissions that were let through, newest first.
  unfoldable pub run : Tracker → List (ℕ × ℕ) → List (ℕ × ℕ) → Tracker × List (ℕ × ℕ)
  run t sent [] = (t, sent)
  run t sent ((now, duration) ∷ calls) =
      let (t1, ok) = try_record window_ms budget t duration (u32 now) in
      run t1 (if ok then (now, duration) ∷ sent else sent) calls

  -- Calls in the order of their times, of transmissions shorter than 2^31 ms.
  abbrev pub InOrder : ℕ → List (ℕ × ℕ) → Type 0
  InOrder last [] = Unit {0}
  InOrder last ((now, duration) ∷ calls) = (last ≤ now) × (duration < 2 ^ 31) × InOrder now calls

  abbrev pub end_of : ℕ → List (ℕ × ℕ) → ℕ
  end_of last [] = last
  end_of last ((now, duration) ∷ calls) = end_of now calls

  try_record-Kept :
      (t : Tracker) (sent : List (ℕ × ℕ)) (last now duration : ℕ)
      → budget < 2 ^ 31
      → last ≤ now
      → duration < 2 ^ 31
      → Kept window_ms budget t sent last
      → let r = try_record window_ms budget t duration (u32 now) in
        Kept window_ms budget r.0 (if r.1 then (now, duration) ∷ sent else sent) now
  unfolding try_record would_exceed prune
  try_record-Kept t sent last now duration small h d k =
      let pruned = prune_loop window_ms t.count t (u32 now) in
      let p =
        prune_loop-Kept window_ms budget t.count t sent now small refl
          (later-Kept window_ms budget t sent last now h k) in
      elim (Bool-cases (ltb budget (u32 (pruned.used_ms + duration)))) [
        | inl over ↦ rw over p
        | inr room ↦ rw room (
            put-Kept window_ms budget pruned sent duration now small (ground (arith, room, p.fits))
              p)
      ]

  run-Kept :
      (t : Tracker) (sent calls : List (ℕ × ℕ)) (last : ℕ)
      → budget < 2 ^ 31
      → InOrder last calls
      → Kept window_ms budget t sent last
      → Kept window_ms budget (run t sent calls).0 (run t sent calls).1 (end_of last calls)
  unfolding run
  run-Kept t sent [] last small o k = k
  run-Kept t sent ((now, duration) ∷ calls) last small o k =
      run-Kept (try_record window_ms budget t duration (u32 now)).0 _ calls now small o.2
        (try_record-Kept t sent last now duration small o.0 o.1 k)

  new-Kept : Kept window_ms budget new_tracker [] 0
  unfolding live
  new-Kept = record {
    held = [];
    leaked = 0;
    size = length-replicate {A = Entry} 256 no_entry;
    head = omega arith;
    count = omega arith;
    entries = refl;
    used = refl;
    fits = omega arith;
    past = tt;
    covers = λ now h. omega arith;
  }

  -- However the calls come, at their times and behind them the airtime that was let through within
  -- the window is at most the budget: for a budget and transmissions below 2^31 ms.
  pub airtime_kept :
      (calls : List (ℕ × ℕ)) (now : ℕ)
      → budget < 2 ^ 31
      → InOrder 0 calls
      → end_of 0 calls ≤ now
      → recent window_ms now (run new_tracker [] calls).1 ≤ budget
  airtime_kept calls now small o h =
      let k = run-Kept new_tracker [] calls 0 small o new-Kept in
      omega (arith, k.covers now h, k.used, k.fits, recent-total window_ms now k.held)
