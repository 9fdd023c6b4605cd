-- ===== src/Driver/Runs.antt =====
-- Calls of driver.c on one component, in any order and number.
use lo_ra_home.Prelude.{ℕ, ◌<◌, ◌≡◌, refl, arith, List, [], ◌∷◌, some, All, length, replicate}
use lo_ra_home.Driver.{DrvErr, drv_ok, err_faulted, retired, no_reading, Vtable, Ctx, bind}
use lo_ra_home.Driver.Calls.{start_read, start_from, poll, sleep, clear_fault}
use lo_ra_home.Driver.Health.{
  Books, Counted, Patient, start_read-Sound, poll-Sound, sleep-Sound, clear_fault-Books, bind-Books,
}

-- A call, with its channel and its time.
pub data Call : Type 0 where
  to_start : ℕ → Call
  to_poll : ℕ → ℕ → Call
  to_sleep : Call
  to_clear : ℕ → Call

-- All but `lh_driver_clear_fault`, which is the host's decision.
abbrev pub IsRoutine : Call → Type 0
IsRoutine (to_clear now_us) = ⊥
IsRoutine _ = Unit

module _ {W S : Type 0} where
  unfoldable pub call : W → Ctx W S → Call → W × Ctx W S × DrvErr
  call w c (to_start now_us) = start_read w c now_us
  call w c (to_poll channel now_us) =
      let (w', c', err, out) = poll w c no_reading channel now_us in (w', c', err)
  call w c to_sleep = sleep w c
  call w c (to_clear now_us) = (w, clear_fault c now_us, drv_ok)

  -- The calls in their order, and the answers.
  unfoldable pub run : W → Ctx W S → List Call → W × Ctx W S × List DrvErr
  unfolding call
  run w c [] = (w, c, [])
  run w c (k ∷ ks) =
      let one = call w c k in let rest = run one.0 one.1 ks in (rest.0, rest.1, one.2 ∷ rest.2)

  call-Books :
      (k : Call) (w : W) (c : Ctx W S)
      → Books c.state c.consecutive_errors
      → Books (call w c k).1.state (call w c k).1.consecutive_errors
  unfolding call
  call-Books (to_start now_us) w c h = (start_read-Sound w c now_us h).books
  call-Books (to_poll channel now_us) w c h = (poll-Sound w c no_reading channel now_us h).books
  call-Books to_sleep w c h = (sleep-Sound w c h).books
  call-Books (to_clear now_us) w c h = clear_fault-Books c now_us h

  run-Books :
      (ks : List Call) (w : W) (c : Ctx W S)
      → Books c.state c.consecutive_errors
      → Books (run w c ks).1.state (run w c ks).1.consecutive_errors
  unfolding run
  run-Books [] w c h = h
  run-Books (k ∷ ks) w c h = run-Books ks (call w c k).0 (call w c k).1 (call-Books k w c h)

  -- A component that was bound with at least one channel is, behind any calls, retired with three
  -- errors on its count or in the rotation with fewer.
  pub run_bound-Books :
      (ks : List Call) (w : W) (c : Ctx W S) (v : Vtable W S) (bus_addr component_id now_us : ℕ)
      → 0 < v.channel_count
      → (let b = bind w c v bus_addr component_id now_us in
          Books (run b.0 b.1 ks).1.state (run b.0 b.1 ks).1.consecutive_errors)
  run_bound-Books ks w c v bus_addr component_id now_us h =
      let b = bind w c v bus_addr component_id now_us in
      run-Books ks b.0 b.1 (bind-Books w c v bus_addr component_id now_us h)

  -- Of the calls but `clear_fault`, only one that yields a reading lowers the count of errors, and one
  -- that answers that the component is not ready leaves it.
  pub call_counts :
      (k : Call) (w : W) (c : Ctx W S)
      → Books c.state c.consecutive_errors
      → IsRoutine k
      → (let (w', c', err) = call w c k in
          Counted c.consecutive_errors c'.state c'.consecutive_errors err
          × Patient c.consecutive_errors c'.consecutive_errors err)
  unfolding call
  call_counts (to_start now_us) w c h r =
      let s = start_read-Sound w c now_us h in (s.counted, s.patient)
  call_counts (to_poll channel now_us) w c h r =
      let s = poll-Sound w c no_reading channel now_us h in (s.counted, s.patient)
  call_counts to_sleep w c h r = let s = sleep-Sound w c h in (s.counted, s.patient)
  call_counts (to_clear now_us) w c h r = absurd r

  call_retired :
      (k : Call) (w : W) (c : Ctx W S) (v : Vtable W S)
      → c.vt ≡ some v
      → c.state ≡ retired
      → IsRoutine k
      → call w c k ≡ (w, c, err_faulted)
  unfolding call start_read start_from poll sleep
  call_retired (to_start now_us) w c v e s r = ground (arith, e, s)
  call_retired (to_poll channel now_us) w c v e s r = ground (arith, e, s)
  call_retired to_sleep w c v e s r = ground (arith, e, s)
  call_retired (to_clear now_us) w c v e s r = absurd r

  -- A retired component answers so to every call but `clear_fault`, and neither it nor the world is
  -- touched.
  pub run_retired :
      (ks : List Call) (w : W) (c : Ctx W S) (v : Vtable W S)
      → c.vt ≡ some v
      → c.state ≡ retired
      → All IsRoutine ks
      → run w c ks ≡ (w, c, replicate (length ks) err_faulted)
  unfolding run
  run_retired [] w c v e s r = refl
  run_retired (k ∷ ks) w c v e s r =
      rw (call_retired k w c v e s r.0, run_retired ks w c v e s r.1) refl
