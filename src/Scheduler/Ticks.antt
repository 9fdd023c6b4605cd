-- ===== src/Scheduler/Ticks.antt =====
-- Ticks at any times, one after the other: what each step keeps, all ticks keep.
use lo_ra_home.Prelude.{
  ℕ, ◌≡◌, inl, inr, refl, ap, ◌∙◌, arith, List, [], ◌∷◌, false, inc32, ◌==◌, Bool-cases,
  Option-cases, get_or,
}
use lo_ra_home.Driver.{Ctx, retired, Reading}
use lo_ra_home.Scheduler.{Sched, vacant}
use lo_ra_home.Scheduler.Step.{step_component}
use lo_ra_home.Scheduler.Tick.{turns, step_all, tick}
use lo_ra_home.Scheduler.Skips.{step_component-Kept}

module _ {W S : Type 0} where
  -- Ticks at the times of a list.
  unfoldable pub ticks : S → W → Sched W S → List ℕ → W × Sched W S
  unfolding tick
  ticks blank w s [] = (w, s)
  ticks blank w s (now_us ∷ times) =
      let one = tick blank w s now_us in ticks blank one.0 one.1 times

  -- A property that every step keeps, and the counter of ticks and the cursor do not touch.
  pub record Steady (blank : S) (P : Sched W S → Type 0) : Type 0 where
    pub step :
        (w : W) (s : Sched W S) (slot now_us : ℕ) → P s → P (step_component blank w s slot now_us).1
    pub counted : (s : Sched W S) (n : ℕ) → P s → P (record s { stat_ticks = n })
    pub turned : (s : Sched W S) (n : ℕ) → P s → P (record s { rotation = n })

  step_all-Steady :
      {blank : S} {P : Sched W S → Type 0}
      → Steady blank P
      → (slots : List ℕ) (w : W) (s : Sched W S) (now_us : ℕ) → P s
      → P (step_all blank w s now_us slots).1
  unfolding step_all
  step_all-Steady k [] w s now_us p = p
  step_all-Steady {blank} k (slot ∷ slots) w s now_us p =
      let one = step_component blank w s slot now_us in
      step_all-Steady k slots one.0 one.1 now_us (k.step w s slot now_us p)

  tick-Steady :
      {blank : S} {P : Sched W S → Type 0}
      → Steady blank P
      → (w : W) (s : Sched W S) (now_us : ℕ) → P s
      → P (tick blank w s now_us).1
  unfolding tick
  tick-Steady {blank} {P} k w s now_us p =
      let s1 = record s { stat_ticks = inc32 s.stat_ticks } in
      let slots = turns s.rotation s.component_count 0 s.component_count in
      let done = step_all-Steady k slots w s1 now_us (k.counted s (inc32 s.stat_ticks) p) in
      elim (Bool-cases (s.component_count == 0)) [
        | inl e ↦ rw e p
        | inr e ↦ rw e (k.turned (step_all blank w s1 now_us slots).1 _ done)
      ]

  pub ticks-Steady :
      {blank : S} {P : Sched W S → Type 0}
      → Steady blank P
      → (times : List ℕ) (w : W) (s : Sched W S) → P s
      → P (ticks blank w s times).1
  unfolding ticks
  ticks-Steady k [] w s p = p
  ticks-Steady {blank} k (now_us ∷ times) w s p =
      let one = tick blank w s now_us in
      ticks-Steady k times one.0 one.1 (tick-Steady k w s now_us p)

  -- A component and what was read of it.
  pub record Entry (blank : S) (j : ℕ) (c : Ctx W S) (row : List Reading) (valid : ℕ)
      (s : Sched W S) : Type 0 where
    pub component : get_or s.components j (vacant blank) ≡ c
    pub readings : get_or s.latest j [] ≡ row
    pub flags : get_or s.latest_valid j 0 ≡ valid

  step_retired :
      (blank : S) (w : W) (s : Sched W S) (j now_us : ℕ)
      → (get_or s.components j (vacant blank)).state ≡ retired
      → step_component blank w s j now_us ≡ (w, s, false)
  unfolding step_component
  step_retired blank w s j now_us e =
      let c = get_or s.components j (vacant blank) in
      elim (Option-cases c.vt) [ inl d ↦ ground (arith, e, d) | inr (v, d) ↦ ground (arith, e, d) ]

  retired-Steady :
      (blank : S) (j : ℕ) (c : Ctx W S) (row : List Reading) (valid : ℕ)
      → c.state ≡ retired
      → Steady blank (Entry blank j c row valid)
  retired-Steady blank j c row valid e = record {
    step = λ w s slot now_us p. elim (Bool-cases (slot == j)) [
      | inl same ↦
          (let at : slot ≡ j = ground arith in
            let off : (get_or s.components slot (vacant blank)).state ≡ retired =
              rw at (ap (λ d. d.state) p.component ∙ e) in
            rw (step_retired blank w s slot now_us off) p)
      | inr other ↦
          (let k = step_component-Kept blank j w s slot now_us (ground arith) in
            record {
              component = k.same_component ∙ p.component;
              readings = k.same_latest ∙ p.readings;
              flags = k.same_valid ∙ p.flags;
            })
    ];
    counted = λ s n p. record { component = p.component; readings = p.readings; flags = p.flags };
    turned = λ s n p. record { component = p.component; readings = p.readings; flags = p.flags };
  }

  -- However many ticks there are, a retired component keeps its state, and what was read of it before
  -- stays as it was.
  pub ticks_retired :
      (blank : S) (times : List ℕ) (w : W) (s : Sched W S) (j : ℕ)
      → (get_or s.components j (vacant blank)).state ≡ retired
      → (let t = (ticks blank w s times).1 in
          (get_or t.components j (vacant blank) ≡ get_or s.components j (vacant blank))
          × (get_or t.latest j [] ≡ get_or s.latest j []))
  ticks_retired blank times w s j e =
      let row = get_or s.latest j [] in
      let p =
        ticks-Steady
          (retired-Steady blank j (get_or s.components j (vacant blank)) row
            (get_or s.latest_valid j 0) e)
          times w s (record { component = refl; readings = refl; flags = refl }) in
      (p.component, p.readings)
