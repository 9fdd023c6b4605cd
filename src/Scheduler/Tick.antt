-- ===== src/Scheduler/Tick.antt =====
-- `lh_sched_tick` of scheduler.c.
use lo_ra_home.Prelude.{ℕ, zero, suc, ◌+◌, ◌%◌, List, [], ◌∷◌, u8, inc32, ◌==◌, if◌then◌else◌}
use lo_ra_home.Scheduler.{Sched}
use lo_ra_home.Scheduler.Step.{step_component}

-- The slots of the loop from `i` on, `n` of them.
unfoldable pub turns : ℕ → ℕ → ℕ → ℕ → List ℕ
turns rotation count i zero = []
turns rotation count i (suc n) = u8 ((rotation + i) % count) ∷ turns rotation count (i + 1) n

module _ {W S : Type 0} where
  -- The loop over these slots, with the number of components stepped.
  unfoldable pub step_all : S → W → Sched W S → ℕ → List ℕ → W × Sched W S × ℕ
  unfolding step_component
  step_all blank w s now_us [] = (w, s, 0)
  step_all blank w s now_us (slot ∷ slots) =
      let one = step_component blank w s slot now_us in
      let rest = step_all blank one.0 one.1 now_us slots in
      (rest.0, rest.1, if one.2 then rest.2 + 1 else rest.2)

  -- `lh_sched_tick`
  unfoldable pub tick : S → W → Sched W S → ℕ → W × Sched W S × ℕ
  unfolding step_all turns
  tick blank w s now_us =
      let count = s.component_count in
      let s1 = record s { stat_ticks = inc32 s.stat_ticks } in
      let done = step_all blank w s1 now_us (turns s.rotation count 0 count) in
      if count == 0 then (w, s, 0) else (
        done.0,
        (let s2 = done.1 in record s2 { rotation = u8 ((s2.rotation + 1) % count) }),
        u8 done.2,
      )
