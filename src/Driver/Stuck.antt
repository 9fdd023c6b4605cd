-- ===== src/Driver/Stuck.antt =====
-- A driver that takes every request and never yields a reading.
use lo_ra_home.Prelude.{
  ℕ, ◌+◌, ◌-◌, ◌/◌, ◌<◌, ◌≡◌, inl, inr, refl, arith, List, [], ◌∷◌, true, false, some, ◌==◌,
  if◌then◌else◌, ap, ◌∙◌, Option-cases,
}
use lo_ra_home.Driver.{
  DrvErr, drv_ok, err_timeout, idle, reading, retired, Reading, no_reading, Vtable, Ctx, is_retired,
  is_ok, is_not_ready, is_error, op_timeout_ms, fail,
}
use lo_ra_home.Driver.Calls.{
  start_read, start_from, dispatch_read, started, poll, polled, collected,
}
use lo_ra_home.Driver.Runs.{Call, to_start, to_poll, call, run}

-- Each measurement is started, and polled once after the deadline.
abbrev pub measurements : List (ℕ × ℕ) → List Call
measurements [] = []
measurements ((start_us, poll_us) ∷ rest) =
    to_start start_us ∷ to_poll 0 poll_us ∷ measurements rest

module _ {W S : Type 0} where
  -- `start_read` answers that all is well, and `poll` never does.
  pub record Stuck (v : Vtable W S) : Type 0 where
    pub has_channel : 0 < v.channel_count
    pub starts :
        (f : W → ℕ → S → W × S × DrvErr) (w : W) (a : ℕ) (s : S)
        → v.start_read ≡ some f
        → (f w a s).2 ≡ drv_ok
    pub never :
        (w : W) (a : ℕ) (s : S) (out : Reading) (channel : ℕ)
        → is_ok (v.poll w a s out channel).2 ≡ false

  -- A poll past the deadline.
  abbrev pub Late : Vtable W S → ℕ × ℕ → Type 0
  Late v (start_us, poll_us) = op_timeout_ms v < (poll_us - start_us) / 1000

  start_idle :
      (v : Vtable W S) (w : W) (c : Ctx W S) (now_us : ℕ)
      → Stuck v
      → c.vt ≡ some v
      → c.state ≡ idle
      → (let (w', c', err) = start_read w c now_us in
          (c'.vt ≡ some v)
          × (c'.state ≡ reading)
          × (c'.op_started_us ≡ now_us)
          × (c'.consecutive_errors ≡ c.consecutive_errors))
  unfolding start_read start_from dispatch_read started
  start_idle v w c now_us k e s = elim (Option-cases v.start_read) [
    | inl d ↦ ground (arith, e, s, d)
    | inr (f, d) ↦ ground (arith, e, s, d, k.starts f w c.bus_addr c.scratch d)
  ]

  collected_error :
      (c : Ctx W S) (channel : ℕ) (w : W) (out : Reading) (err : DrvErr)
      → c.consecutive_errors < 3
      → is_retired c.state ≡ false
      → is_error err ≡ true
      → (let (w', c', err', out') = collected c channel w out err in
          (c'.vt ≡ c.vt)
          × (c'.state ≡ (if c.consecutive_errors == 2 then retired else idle))
          × (c'.consecutive_errors ≡ c.consecutive_errors + 1))
  unfolding collected fail is_error
  collected_error c channel w out err n live e = ground (arith, e, live)

  polled_late :
      (v : Vtable W S) (c : Ctx W S) (channel now_us : ℕ) (a : W × S × DrvErr × Reading)
      → c.consecutive_errors < 3
      → is_retired c.state ≡ false
      → is_ok a.2 ≡ false
      → op_timeout_ms v < (now_us - c.op_started_us) / 1000
      → (let (w', c', err', out') = polled v c channel now_us a in
          (c'.vt ≡ c.vt)
          × (c'.state ≡ (if c.consecutive_errors == 2 then retired else idle))
          × (c'.consecutive_errors ≡ c.consecutive_errors + 1))
  unfolding polled is_error
  polled_late v c channel now_us (w, s, err, out) n live bad late =
      let verdict = if is_not_ready err then err_timeout else err in
      ground
        (arith, collected_error (record c { scratch = s }) channel w out verdict n live, bad, late)

  poll_past_deadline :
      (v : Vtable W S) (w : W) (c : Ctx W S) (start_us poll_us : ℕ)
      → Stuck v
      → c.vt ≡ some v
      → c.state ≡ reading
      → c.op_started_us ≡ start_us
      → c.consecutive_errors < 3
      → Late v (start_us, poll_us)
      → (let (w', c', err, out) = poll w c no_reading 0 poll_us in
          (c'.vt ≡ some v)
          × (c'.state ≡ (if c.consecutive_errors == 2 then retired else idle))
          × (c'.consecutive_errors ≡ c.consecutive_errors + 1))
  unfolding poll
  poll_past_deadline v w c start_us poll_us k e s o n late =
      let a = v.poll w c.bus_addr c.scratch no_reading 0 in
      let never = k.never w c.bus_addr c.scratch no_reading 0 in
      let late' : op_timeout_ms v < (poll_us - c.op_started_us) / 1000 = rw o late in
      let live : is_retired c.state ≡ false = rw s refl in
      ground (arith, e, s, k.has_channel, polled_late v c 0 poll_us a n live never late')

  measured :
      (v : Vtable W S) (w : W) (c : Ctx W S) (t : ℕ × ℕ)
      → Stuck v
      → c.vt ≡ some v
      → c.state ≡ idle
      → c.consecutive_errors < 3
      → Late v t
      → (let (w', c', answers) = run w c (measurements (t ∷ [])) in
          (c'.vt ≡ some v)
          × (c'.state ≡ (if c.consecutive_errors == 2 then retired else idle))
          × (c'.consecutive_errors ≡ c.consecutive_errors + 1))
  unfolding run call
  measured v w c (start_us, poll_us) k e s n late =
      let one = start_idle v w c start_us k e s in
      let c1 = (start_read w c start_us).1 in
      let two =
        poll_past_deadline v (start_read w c start_us).0 c1 start_us poll_us k one.0 one.1 one.2
          (omega (arith, one.3)) late in
      (
        two.0,
        two.1 ∙ ap (λ n. if n == 2 then retired else idle) one.3,
        two.2 ∙ ap (λ n. n + 1) one.3,
      )

  -- A component whose driver is stuck is in the rotation behind two measurements that ran out of
  -- time, and is retired behind the third.
  pub three_retire :
      (v : Vtable W S) (w : W) (c : Ctx W S) (t1 t2 t3 : ℕ × ℕ)
      → Stuck v
      → c.vt ≡ some v
      → c.state ≡ idle
      → c.consecutive_errors ≡ 0
      → Late v t1
      → Late v t2
      → Late v t3
      → ((run w c (measurements (t1 ∷ t2 ∷ []))).1.state ≡ idle)
        × ((run w c (measurements (t1 ∷ t2 ∷ t3 ∷ []))).1.state ≡ retired)
  unfolding run
  three_retire v w c t1 t2 t3 k e s n l1 l2 l3 =
      let r1 = run w c (measurements (t1 ∷ [])) in
      let m1 = measured v w c t1 k e s (omega arith) l1 in
      let s1 : r1.1.state ≡ idle = ground (arith, m1, n) in
      let r2 = run r1.0 r1.1 (measurements (t2 ∷ [])) in
      let m2 = measured v r1.0 r1.1 t2 k m1.0 s1 (omega (arith, m1)) l2 in
      let s2 : r2.1.state ≡ idle = ground (arith, m1, m2, n) in
      let m3 = measured v r2.0 r2.1 t3 k m2.0 s2 (omega (arith, m1, m2)) l3 in
      (s2, ground (arith, m1, m2, m3, n))
