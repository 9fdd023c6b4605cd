-- ===== src/Driver/Timing.antt =====
-- The warmup and the deadline of driver.c.
use lo_ra_home.Prelude.{ℕ, ◌≤◌, ◌<◌, ◌≡◌, refl, arith, List, [], ◌∷◌, some, All, length, replicate}
use lo_ra_home.Driver.{
  DrvErr, err_not_ready, warmup, Reading, Vtable, Ctx, elapsed_ms, op_timeout_ms,
}
use lo_ra_home.Driver.Calls.{start_read, start_from, poll, polled, collected}
use lo_ra_home.Driver.Runs.{Call, to_start, call, run}

abbrev pub starts_at : List ℕ → List Call
starts_at [] = []
starts_at (t ∷ ts) = to_start t ∷ starts_at ts

module _ {W S : Type 0} where
  -- While a component warms up, the driver never learns that it was asked: every request is answered
  -- that it is not ready, and neither the component nor the world changes.
  pub early_reads :
      (times : List ℕ) (w : W) (c : Ctx W S) (v : Vtable W S)
      → c.vt ≡ some v
      → c.state ≡ warmup
      → All (λ t. elapsed_ms c t < v.warmup_ms) times
      → run w c (starts_at times) ≡ (w, c, replicate (length times) err_not_ready)
  unfolding run call start_read start_from
  early_reads [] w c v e s h = refl
  early_reads (t ∷ ts) w c v e s h =
      let one : call w c (to_start t) ≡ (w, c, err_not_ready) = ground (arith, e, s, h.0) in
      rw (one, early_reads ts w c v e s h.1) refl

  polled_waits :
      (v : Vtable W S) (c : Ctx W S) (channel now_us : ℕ) (a : W × S × DrvErr × Reading)
      → (polled v c channel now_us a).2 ≡ err_not_ready
      → elapsed_ms c now_us ≤ op_timeout_ms v
  unfolding polled collected
  polled_waits v c channel now_us (w, s, err, out) e = ground (arith, e)

  -- The answer that a reading is not ready yet is given only before the deadline, whatever the driver
  -- says.
  pub poll_deadline :
      (v : Vtable W S) (w : W) (c : Ctx W S) (out : Reading) (channel now_us : ℕ)
      → c.vt ≡ some v
      → (poll w c out channel now_us).2 ≡ err_not_ready
      → elapsed_ms c now_us ≤ op_timeout_ms v
  unfolding poll
  poll_deadline v w c out channel now_us e d =
      let a = v.poll w c.bus_addr c.scratch out channel in
      ground (arith, e, d, polled_waits v c channel now_us a)
