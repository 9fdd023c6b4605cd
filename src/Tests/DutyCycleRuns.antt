-- ===== src/Tests/DutyCycleRuns.antt =====
-- The tracker of the duty cycle at a window of an hour and one percent of it.
use lo_ra_home.Prelude.{ℕ, ◌*◌, ◌≤◌, ◌≡◌, refl, arith, List, [], ◌∷◌, replicate}
use lo_ra_home.DutyCycle.{Tracker, new_tracker, put, prune_loop, prune, would_exceed, try_record}
use lo_ra_home.DutyCycle.Sent.{recent}
use lo_ra_home.DutyCycle.Limit.{run, airtime_kept}

abbrev hour_ms : ℕ
hour_ms = 3600 * 1000

-- Three frames, of which the second is too long for what is left.
abbrev calls : List (ℕ × ℕ)
calls = (1000, 30000) ∷ (2000, 7000) ∷ (3000, 6000) ∷ []

let_through : (run hour_ms 36000 new_tracker [] calls).1 ≡ (3000, 6000) ∷ (1000, 30000) ∷ []
unfolding run try_record would_exceed prune prune_loop put
let_through = refl

airtime_kept_example : recent hour_ms 3001 (run hour_ms 36000 new_tracker [] calls).1 ≤ 36000
airtime_kept_example =
    airtime_kept hour_ms 36000 calls 3001 (omega arith) (omega arith) (omega arith)

-- A full tracker whose entries are all of 1 ms at time 0.
abbrev full : Tracker
full = record {
  entries = replicate 256 (record { at_ms = 0; duration_ms = 1 });
  head = 0;
  count = 256;
  used_ms = 256;
}

-- One more record at time 1, and a look two hours later: no entry is left, and 1 ms still counts as used.
leak_stays :
    let later =
      (would_exceed hour_ms 36000 (try_record hour_ms 36000 full 1 1).0 1 (2 * hour_ms)).0 in
    (later.count ≡ 0) × (later.used_ms ≡ 1)
unfolding try_record would_exceed prune prune_loop put
leak_stays = (refl, refl)
