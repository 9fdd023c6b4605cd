-- ===== src/Bme680/Samples.antt =====
-- The samples that bme680.c serves: none from before the last trigger, one for all four channels.
use lo_ra_home.Prelude.{
  ℕ, ◌<◌, ◌≡◌, ◌∙◌, ap, sym, subst, inl, inr, true, List, arith, length, get_or, Bool-cases,
}
use lo_ra_home.Driver.{DrvErr, drv_ok, Reading}
use lo_ra_home.Bme680.{Instance, no_instance, Bme, now_us, instance_at}
use lo_ra_home.Bme680.Table.{IsTable, instances-read_regs, is_bound-lt}
use lo_ra_home.Bme680.Chip.{is_bound, fill, poll}
use lo_ra_home.Bme680.Readings.{Shows, fill-Shows}
use lo_ra_home.Bme680.Polls.{Fresh, sampled-in_use, collected-Sampled, poll_ok-is_bound, poll-Fresh}

module _ {W : Type 0} where
  -- A slot whose sample is there to serve.
  pub record HasSample (s : Bme W) (slot : ℕ) : Type 0 where
    pub bound : is_bound s slot ≡ true
    pub sample : (instance_at s slot).have_sample ≡ true

  poll-HasSample :
      (s : Bme W) (slot channel : ℕ) (out : Reading)
      → HasSample s slot
      → channel < 4
      → poll s slot out channel ≡ (s, drv_ok, fill (instance_at s slot) out channel)
  unfolding poll
  poll-HasSample s slot channel out v h = ground (arith, v)

  is_bound-in_use :
      (s : Bme W) (slot : ℕ) → slot < 2 → is_bound s slot ≡ (instance_at s slot).in_use
  unfolding is_bound
  is_bound-in_use s slot h = ground arith

  Fresh-HasSample :
      (s : Bme W) (slot channel : ℕ) (p : Bme W × DrvErr × Reading)
      → IsTable s
      → is_bound s slot ≡ true
      → Fresh s slot channel p
      → HasSample p.0 slot
  Fresh-HasSample s slot channel p v b f =
      let t = p.0 in
      let small = is_bound-lt s slot b in
      let same : f.s1.instances ≡ s.instances =
        ap (λ p. p.0.instances) (sym f.asked)
        ∙ instances-read_regs s (instance_at s slot).addr 0x1d 1 in
      let c = collected-Sampled f.s1 slot t (omega (arith, ap length same)) f.collected in
      let kept =
        sampled-in_use (instance_at f.s1 slot) f.collected.raw f.collected.gas
          (now_us f.collected.s2) in
      let before : (instance_at f.s1 slot).in_use ≡ true =
        ap (λ (l : List Instance). (get_or l slot no_instance).in_use) same
        ∙ sym (is_bound-in_use s slot small)
        ∙ b in
      record {
        bound =
            is_bound-in_use t slot small ∙ ap (λ (x : Instance). x.in_use) c.0 ∙ kept.0 ∙ before;
        sample = ap (λ (x : Instance). x.have_sample) c.0 ∙ kept.1;
      }

  -- What a poll that gave a reading leaves: a sample, and the reading that shows it.
  record Polled (slot channel : ℕ) (p : Bme W × DrvErr × Reading) : Type 0 where
    has : HasSample p.0 slot
    shows : Shows (instance_at p.0 slot) channel p.2

  poll-Polled :
      (s : Bme W) (slot channel : ℕ) (out : Reading)
      → IsTable s
      → (poll s slot out channel).1 ≡ drv_ok
      → Polled slot channel (poll s slot out channel)
  poll-Polled s slot channel out v h =
      let (b, c) = poll_ok-is_bound s slot channel out h in
      elim (Bool-cases (instance_at s slot).have_sample) [
        | inl there ↦
            let has : HasSample s slot = record { bound = b; sample = there } in
            subst (Polled slot channel) (sym (poll-HasSample s slot channel out has c))
              (record { has = has; shows = fill-Shows (instance_at s slot) out channel })
        | inr old ↦
            let f = poll-Fresh s slot channel out v old h in
            record { has = Fresh-HasSample s slot channel _ v b f; shows = f.shows }
      ]

  -- After a poll that gave a reading, every channel is served at once from the same sample: the first
  -- reading and that of any channel show the values, the quality and the time that the table holds,
  -- the state stays as it is, and the bus is not used.
  pub one_sample :
      (s : Bme W) (slot channel other : ℕ) (out out' : Reading)
      → IsTable s
      → (poll s slot out channel).1 ≡ drv_ok
      → other < 4
      → let p = poll s slot out channel in
        let q = poll p.0 slot out' other in
        Shows (instance_at p.0 slot) channel p.2
        × (q.0 ≡ p.0)
        × (q.1 ≡ drv_ok)
        × Shows (instance_at p.0 slot) other q.2
  one_sample s slot channel other out out' v h k =
      let t = (poll s slot out channel).0 in
      let p = poll-Polled s slot channel out v h in
      let e = poll-HasSample t slot other out' p.has k in
      (p.shows, ap (λ q. q.0) e, ap (λ q. q.1) e, rw e (fill-Shows (instance_at t slot) out' other))
