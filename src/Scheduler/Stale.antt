-- ===== src/Scheduler/Stale.antt =====
-- A measurement that is complete.
use lo_ra_home.Prelude.{
  ℕ, ◌+◌, ◌<◌, ◌≡◌, inl, inr, ap, sym, ◌∙◌, arith, List, u8, ◌==◌, Bool-cases, subst, some, get_or,
  set, length, length-set, get_or-set_self,
}
use lo_ra_home.Driver.{Ctx, Vtable, ready, drv_ok, Reading, no_reading, is_error}
use lo_ra_home.Driver.Calls.{poll, polled, collected}
use lo_ra_home.Scheduler.{Sched, vacant}
use lo_ra_home.Scheduler.Step.{step_component, step_from, poll_step, keep_reading}
use lo_ra_home.Scheduler.Skips.{step_component-Kept}
use lo_ra_home.Scheduler.Ticks.{Steady, ticks, ticks-Steady}
use lo_ra_home.Scheduler.Bounds.{IsValid}
use lo_ra_home.Scheduler.Valid.{IsValid-Steady}

module _ {W S : Type 0} where
  -- A driver that hands out a reading whenever it is asked for one.
  abbrev pub Answers : Vtable W S → Type 0
  Answers v =
      (w : W) (a : ℕ) (s : S) (out : Reading) (channel : ℕ) → (v.poll w a s out channel).2 ≡ drv_ok

  -- The component in slot `j` is ready with the measurement that began at `began`.
  pub record Measured (blank : S) (v : Vtable W S) (j began : ℕ) (s : Sched W S) : Type 0 where
    pub inside : j < length s.components
    pub cursor_inside : j < length s.channel_cursor
    pub driver : (get_or s.components j (vacant blank)).vt ≡ some v
    pub is_ready : (get_or s.components j (vacant blank)).state ≡ ready
    pub same_start : (get_or s.components j (vacant blank)).op_started_us ≡ began
    pub cursor : get_or s.channel_cursor j 0 < v.channel_count

  poll_ready :
      (v : Vtable W S) (w : W) (c : Ctx W S) (out : Reading) (channel now_us : ℕ)
      → Answers v
      → c.vt ≡ some v
      → c.state ≡ ready
      → channel < v.channel_count
      → (let (w', c', err, out') = poll w c out channel now_us in
          (c'.vt ≡ some v)
          × (c'.state ≡ ready)
          × (c'.op_started_us ≡ c.op_started_us)
          × (err ≡ drv_ok))
  unfolding poll polled collected
  poll_ready v w c out channel now_us k e s h =
      ground (arith, e, s, k w c.bus_addr c.scratch out channel)

  lengths_step :
      (v : Vtable W S) (s : Sched W S) (slot now_us channel : ℕ) (out : Reading)
      → (length (keep_reading s slot v now_us channel out).components ≡ length s.components)
        × (length (keep_reading s slot v now_us channel out).channel_cursor
            ≡ length s.channel_cursor)
  unfolding keep_reading
  lengths_step v s slot now_us channel out = ground (
    arith,
    length-set s.channel_cursor slot 0,
    length-set s.channel_cursor slot (u8 (channel + 1)),
  )

  keep_reading-cursor :
      (v : Vtable W S) (s : Sched W S) (slot now_us channel : ℕ) (out : Reading)
      → slot < length s.channel_cursor
      → 0 < v.channel_count
      → get_or (keep_reading s slot v now_us channel out).channel_cursor slot 0 < v.channel_count
  unfolding keep_reading
  keep_reading-cursor v s slot now_us channel out h p = ground (
    arith,
    get_or-set_self s.channel_cursor slot 0 0 h,
    get_or-set_self s.channel_cursor slot (u8 (channel + 1)) 0 h,
  )

  keep_reading-components :
      (v : Vtable W S) (s : Sched W S) (slot now_us channel : ℕ) (out : Reading)
      → (keep_reading s slot v now_us channel out).components ≡ s.components
  unfolding keep_reading
  keep_reading-components v s slot now_us channel out = ground arith

  poll_step-Measured :
      (blank : S) (v : Vtable W S) (began : ℕ) (s : Sched W S) (slot now_us : ℕ) (w : W)
      → Answers v
      → Measured blank v slot began s
      → (let channel = get_or s.channel_cursor slot 0 in
          Measured blank v slot began
            (poll_step s slot v now_us channel
              (poll w (get_or s.components slot (vacant blank)) no_reading channel now_us)).1)
  unfolding poll_step
  poll_step-Measured blank v began s slot now_us w k m =
      let c = get_or s.components slot (vacant blank) in
      let channel = get_or s.channel_cursor slot 0 in
      let (w', c', err, out) = poll w c no_reading channel now_us in
      let p = poll_ready v w c no_reading channel now_us k m.driver m.is_ready m.cursor in
      let s1 = record s { components = set s.components slot c' } in
      let self = get_or-set_self s.components slot c' (vacant blank) m.inside in
      let whole = keep_reading-components v s1 slot now_us channel out in
      let lengths = lengths_step v s1 slot now_us channel out in
      let whole_at = ap (λ l. get_or l slot (vacant blank)) whole ∙ self in
      let kept : Measured blank v slot began (keep_reading s1 slot v now_us channel out) = record {
        inside = omega (arith, lengths.0, length-set s.components slot c', m.inside);
        cursor_inside = omega (arith, lengths.1, m.cursor_inside);
        driver = ap (λ d. d.vt) whole_at ∙ p.0;
        is_ready = ap (λ d. d.state) whole_at ∙ p.1;
        same_start = ap (λ d. d.op_started_us) whole_at ∙ p.2 ∙ m.same_start;
        cursor =
            keep_reading-cursor v s1 slot now_us channel out m.cursor_inside
              (omega (arith, m.cursor));
      } in
      rw p.3 (unfold is_error in kept)

  step-Measured :
      (blank : S) (v : Vtable W S) (j began : ℕ) (w : W) (s : Sched W S) (slot now_us : ℕ)
      → Answers v
      → IsValid blank s
      → Measured blank v j began s
      → Measured blank v j began (step_component blank w s slot now_us).1
  unfolding step_component step_from
  step-Measured blank v j began w s slot now_us k i m = elim (Bool-cases (slot == j)) [
    | inl same ↦
        (let at : slot ≡ j = ground arith in
          let m' : Measured blank v slot began s =
            subst (λ n. Measured blank v n began s) (sym at) m in
          let polled = poll_step-Measured blank v began s slot now_us w k m' in
          subst (λ n. Measured blank v n began (step_component blank w s slot now_us).1) at
            (ground (arith, m', m'.driver, m'.is_ready, polled)))
    | inr other ↦
        (let e = step_component-Kept blank j w s slot now_us (ground arith) in
          let i' = (IsValid-Steady blank).step w s slot now_us i in
          record {
            inside = omega (arith, m.inside, i.size_components, i'.size_components);
            cursor_inside = omega (arith, m.cursor_inside, i.size_cursor, i'.size_cursor);
            driver = ap (λ c. c.vt) e.same_component ∙ m.driver;
            is_ready = ap (λ c. c.state) e.same_component ∙ m.is_ready;
            same_start = ap (λ c. c.op_started_us) e.same_component ∙ m.same_start;
            cursor = omega (arith, e.same_cursor, m.cursor);
          })
  ]

  both-Steady :
      (blank : S) (v : Vtable W S) (j began : ℕ)
      → Answers v
      → Steady blank (λ s. IsValid blank s × Measured blank v j began s)
  both-Steady blank v j began k = record {
    step = λ w s slot now_us p. (
      (IsValid-Steady blank).step w s slot now_us p.0,
      step-Measured blank v j began w s slot now_us k p.0 p.1,
    );
    counted = λ s n p. ((IsValid-Steady blank).counted s n p.0, ground (arith, p.1));
    turned = λ s n p. ((IsValid-Steady blank).turned s n p.0, ground (arith, p.1));
  }

  -- When the measurement of a component is complete and its driver goes on to answer, no tick starts
  -- another one: the component stays ready with the measurement that it began then.
  pub ticks_never_restart :
      (blank : S) (times : List ℕ) (w : W) (s : Sched W S) (v : Vtable W S) (j began : ℕ)
      → Answers v
      → IsValid blank s
      → Measured blank v j began s
      → (let c = get_or (ticks blank w s times).1.components j (vacant blank) in
          (c.state ≡ ready) × (c.op_started_us ≡ began))
  ticks_never_restart blank times w s v j began k i m =
      let p = ticks-Steady (both-Steady blank v j began k) times w s (i, m) in
      (p.1.is_ready, p.1.same_start)
