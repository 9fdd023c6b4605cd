-- ===== src/Scheduler/Runs.antt =====
-- Calls of scheduler.c in any order and number.
use lo_ra_home.Prelude.{
  ℕ, ◌+◌, ◌≤◌, ◌<◌, ◌≡◌, inl, inr, refl, ◌∙◌, arith, List, [], ◌∷◌, u8, Option-cases, get_or, set,
  length-set, get_or-set, All-replicate, replicate, All-get_or, Option-cases,
}
use native.Mathlib.Decide.{dec_lt}
use lo_ra_home.Driver.{Ctx, Vtable, bind, initialised}
use lo_ra_home.Driver.Health.{Books}
use lo_ra_home.Scheduler.{Sched, vacant, init, add, bound, record_tick}
use lo_ra_home.Scheduler.Ticks.{ticks, ticks-Steady}
use lo_ra_home.Scheduler.Bounds.{IsValid, Fits}
use lo_ra_home.Scheduler.Valid.{IsValid-Steady}

-- A call, with what it is given.
pub data Call (W S : Type 0) : Type 0 where
  to_add : Vtable W S → ℕ → ℕ → ℕ → Call W S
  to_tick : ℕ → Call W S
  to_record : ℕ → Call W S

module _ {W S : Type 0} where
  unfoldable pub call : S → W → Sched W S → Call W S → W × Sched W S
  call blank w s (to_add v bus_addr component_id now_us) =
      let (w', s', answer) = add blank w s v bus_addr component_id now_us in (w', s')
  call blank w s (to_tick now_us) = ticks blank w s (now_us ∷ [])
  call blank w s (to_record elapsed_us) = (w, record_tick s elapsed_us)

  unfoldable pub run : S → W → Sched W S → List (Call W S) → W × Sched W S
  unfolding call
  run blank w s [] = (w, s)
  run blank w s (k ∷ ks) = let one = call blank w s k in run blank one.0 one.1 ks

  init-IsValid : (blank : S) → IsValid {W = W} blank (init blank)
  unfolding init
  init-IsValid blank = record {
    size_components = refl;
    size_due = refl;
    size_latest = refl;
    size_valid = refl;
    size_cursor = refl;
    rows = (refl, (refl, (refl, (refl, (refl, (refl, (refl, (refl, tt))))))));
    few = omega arith;
    slots = λ j.
        let same : get_or (replicate 8 (vacant {W = W} blank)) j (vacant blank) ≡ vacant blank =
          All-get_or (λ c. c ≡ vacant blank) (replicate 8 (vacant blank)) j (vacant blank)
            (All-replicate (λ c. c ≡ vacant blank) 8 (vacant blank) refl) refl in
        let zeros : get_or (replicate 8 0) j 0 ≡ 0 =
          All-get_or (λ (n : ℕ). n ≡ 0) (replicate 8 0) j 0
            (All-replicate (λ (n : ℕ). n ≡ 0) 8 0 refl) refl in
        rw same (ground (arith, zeros));
  }

  bind-Fits :
      (w : W) (c : Ctx W S) (v : Vtable W S) (bus_addr component_id now_us : ℕ)
      → Books c.state c.consecutive_errors
      → Fits c.vt
      → v.channel_count ≤ 4
      → (let b = bind w c v bus_addr component_id now_us in
          Books b.1.state b.1.consecutive_errors × Fits b.1.vt)
  unfolding bind initialised
  bind-Fits w c v bus_addr component_id now_us books fits few = elim (Option-cases v.init) [
    | inl e ↦ ground (arith, e)
    | inr (f, e) ↦ (let (w', s, err) = f w bus_addr v.blank in ground (arith, e))
  ]

  -- A slot that was filled.
  put_slot :
      (blank : S) (s : Sched W S) (slot now_us : ℕ) (c : Ctx W S)
      → IsValid blank s
      → slot < 8
      → Books c.state c.consecutive_errors
      → Fits c.vt
      → IsValid blank (record s {
        components = set s.components slot c;
        next_due_us = set s.next_due_us slot now_us;
        channel_cursor = set s.channel_cursor slot 0;
        latest_valid = set s.latest_valid slot 0;
        component_count = u8 (slot + 1);
      })
  put_slot blank s slot now_us c i h books fits = record {
    size_components = length-set s.components slot c ∙ i.size_components;
    size_due = length-set s.next_due_us slot now_us ∙ i.size_due;
    size_latest = i.size_latest;
    size_valid = length-set s.latest_valid slot 0 ∙ i.size_valid;
    size_cursor = length-set s.channel_cursor slot 0 ∙ i.size_cursor;
    rows = i.rows;
    few = omega arith;
    slots = λ j. record {
      books = elim (get_or-set s.components slot j c (vacant blank)) [
        | inl e ↦ rw e (i.slots j).books
        | inr (at, e) ↦ rw e books
      ];
      fits = elim (get_or-set s.components slot j c (vacant blank)) [
        | inl e ↦ rw e (i.slots j).fits
        | inr (at, e) ↦ rw e fits
      ];
      kept = elim (get_or-set s.channel_cursor slot j 0 0) [
        | inl e ↦ omega (arith, e, (i.slots j).kept)
        | inr (at, e) ↦ omega (arith, e)
      ];
    };
  }

  add-IsValid :
      (blank : S) (w : W) (s : Sched W S) (v : Vtable W S) (bus_addr component_id now_us : ℕ)
      → IsValid blank s
      → IsValid blank (add blank w s v bus_addr component_id now_us).1
  unfolding add bound
  add-IsValid blank w s v bus_addr component_id now_us i =
      let slot = s.component_count in
      let b = bind w (get_or s.components slot (vacant blank)) v bus_addr component_id now_us in
      let put : slot < 8
          → v.channel_count ≤ 4
          → IsValid blank (record s {
            components = set s.components slot b.1;
            next_due_us = set s.next_due_us slot now_us;
            channel_cursor = set s.channel_cursor slot 0;
            latest_valid = set s.latest_valid slot 0;
            component_count = u8 (slot + 1);
          }) =
        λ h few.
          (let ok =
              bind-Fits w (get_or s.components slot (vacant blank)) v bus_addr component_id now_us
                (i.slots slot).books (i.slots slot).fits few in
            put_slot blank s slot now_us b.1 i h ok.0 ok.1) in
      elim (dec_lt slot 8) [
        | yes h ↦ elim (dec_lt 4 v.channel_count) [
          | yes k ↦ ground (arith, i)
          | no k ↦ ground (arith, put h (omega arith))
        ]
        | no h ↦ ground (arith, i)
      ]

  call-IsValid :
      (blank : S) (k : Call W S) (w : W) (s : Sched W S)
      → IsValid blank s
      → IsValid blank (call blank w s k).1
  unfolding call record_tick
  call-IsValid blank (to_add v bus_addr component_id now_us) w s i =
      add-IsValid blank w s v bus_addr component_id now_us i
  call-IsValid blank (to_tick now_us) w s i =
      ticks-Steady (IsValid-Steady blank) (now_us ∷ []) w s i
  call-IsValid blank (to_record elapsed_us) w s i = ground (arith, i)

  run-IsValid :
      (blank : S) (ks : List (Call W S)) (w : W) (s : Sched W S)
      → IsValid blank s
      → IsValid blank (run blank w s ks).1
  unfolding run
  run-IsValid blank [] w s i = i
  run-IsValid blank (k ∷ ks) w s i =
      let one = call blank w s k in run-IsValid blank ks one.0 one.1 (call-IsValid blank k w s i)

  -- From the start, behind any calls: the arrays have their sizes, at most eight slots are taken, each
  -- component has at most four channels and a cursor below four, and is retired exactly at three
  -- errors.
  pub run_init-IsValid :
      (blank : S) (ks : List (Call W S)) (w : W) → IsValid blank (run blank w (init blank) ks).1
  run_init-IsValid blank ks w = run-IsValid blank ks w (init blank) (init-IsValid blank)
