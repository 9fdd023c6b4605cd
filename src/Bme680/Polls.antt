-- ===== src/Bme680/Polls.antt =====
-- What a poll of bme680.c has done that gave a reading.
use lo_ra_home.Prelude.{
  ℕ, ◌<◌, ◌≡◌, ◌≢◌, refl, ◌∙◌, ap, sym, subst, inl, inr, true, false, not, none, some, List, arith,
  length, get_or, if◌then◌else◌, length-set, Bool-cases, bits32,
}
use lo_ra_home.Driver.{DrvErr, drv_ok, err_not_ready, Reading}
use lo_ra_home.Bme680.{
  Instance, no_instance, Bme, read_regs, now_us, instance_at, with_instance, or_no_bytes,
}
use lo_ra_home.Bme680.Table.{
  IsTable, instances-read_regs, read-cases, instance_at-with_instance, is_bound-lt,
}
use lo_ra_home.Bme680.Chip.{sampled, is_bound, is_complete, fill, serve, collect, poll}
use lo_ra_home.Bme680.Readings.{value_of, Shows, fill-Shows, sampled-value}

pub sampled-in_use :
    (inst : Instance) (raw gas : List ℕ) (now : ℕ)
    → ((sampled inst raw gas now).in_use ≡ inst.in_use)
      × ((sampled inst raw gas now).have_sample ≡ true)
unfolding sampled
sampled-in_use inst raw gas now = (refl, refl)

module _ {W : Type 0} where
  -- The whole way of a conversion from the chip to the table.
  pub record Collected (s : Bme W) (slot : ℕ) (t : Bme W) : Type 0 where
    pub s1 : Bme W
    pub s2 : Bme W
    pub raw : List ℕ
    pub gas : List ℕ
    pub env : read_regs s (instance_at s slot).addr 0x1f 8 ≡ (s1, some raw)
    pub air : read_regs s1 (instance_at s slot).addr 0x2a 2 ≡ (s2, some gas)
    pub end : t ≡ with_instance s2 slot (sampled (instance_at s slot) raw gas (now_us s2))

  collect_ok :
      (s : Bme W) (slot : ℕ) → (collect s slot).1 ≡ drv_ok → Collected s slot (collect s slot).0
  unfolding collect or_no_bytes
  collect_ok s slot h =
      let addr = (instance_at s slot).addr in
      elim (read-cases (read_regs s addr 0x1f 8)) [
        | inl (s1, e) ↦ absurd (ground (arith, e))
        | inr (s1, raw, e) ↦ elim (read-cases (read_regs s1 addr 0x2a 2)) [
          | inl (s2, f) ↦ absurd (ground (arith, e, f))
          | inr (s2, gas, f) ↦ record {
            s1 = s1;
            s2 = s2;
            raw = raw;
            gas = gas;
            env = e;
            air = f;
            end = rw (e, f);
          }
        ]
      ]

  pub collected-Sampled :
      (s : Bme W) (slot : ℕ) (t : Bme W)
      → slot < length s.instances
      → (c : Collected s slot t)
      → (instance_at t slot ≡ sampled (instance_at s slot) c.raw c.gas (now_us c.s2))
        × (length t.instances ≡ length s.instances)
  collected-Sampled s slot t h c =
      let addr = (instance_at s slot).addr in
      let same : c.s2.instances ≡ s.instances =
        ap (λ p. p.0.instances) (sym c.air)
        ∙ instances-read_regs c.s1 addr 0x2a 2
        ∙ ap (λ p. p.0.instances) (sym c.env)
        ∙ instances-read_regs s addr 0x1f 8 in
      let size : length c.s2.instances ≡ length s.instances = ap length same in
      rw c.end (
        (
          instance_at-with_instance c.s2 slot _ (omega arith),
          length-set c.s2.instances slot _ ∙ size,
        ))

  -- What a poll has done that gave a reading of a channel, where no sample was in the table: it collected
  -- one from a chip that had completed its measurement, and the reading is the value that the
  -- registers read then have for the channel, with the time of the collection, as the table shows it.
  pub record Fresh (s : Bme W) (slot channel : ℕ) (p : Bme W × DrvErr × Reading) : Type 0 where
    pub s1 : Bme W
    pub status : List ℕ
    pub asked : read_regs s (instance_at s slot).addr 0x1d 1 ≡ (s1, some status)
    pub complete : is_complete (get_or status 0 0) ≡ true
    pub collected : Collected s1 slot p.0
    pub value :
        p.2.value ≡ bits32 (value_of (instance_at s slot).calib collected.raw collected.gas channel)
    pub stamp : p.2.ts_us ≡ now_us collected.s2
    pub shows : Shows (instance_at p.0 slot) channel p.2

  serve_ok :
      (slot channel : ℕ) (out : Reading) (p : Bme W × DrvErr)
      → (serve slot out channel p).1 ≡ drv_ok
      → (p.1 ≡ drv_ok)
        × (serve slot out channel p ≡ (p.0, drv_ok, fill (instance_at p.0 slot) out channel))
  serve_ok slot channel out (s, err) h = ground arith

  pub poll_ok-is_bound :
      (s : Bme W) (slot channel : ℕ) (out : Reading)
      → (poll s slot out channel).1 ≡ drv_ok
      → (is_bound s slot ≡ true) × (channel < 4)
  unfolding poll
  poll_ok-is_bound s slot channel out h = ground arith

  poll_collects :
      (s s1 : Bme W) (slot channel : ℕ) (out : Reading) (status : List ℕ)
      → is_bound s slot ≡ true
      → channel < 4
      → (instance_at s slot).have_sample ≡ false
      → read_regs s (instance_at s slot).addr 0x1d 1 ≡ (s1, some status)
      → poll s slot out channel ≡ (
          if not (is_complete (get_or status 0 0))
          then (s1, err_not_ready, out)
          else serve slot out channel (collect s1 slot))
  unfolding poll or_no_bytes
  poll_collects s s1 slot channel out status b c old e = ground (arith, e)

  poll_no_bytes :
      (s s1 : Bme W) (slot channel : ℕ) (out : Reading)
      → (instance_at s slot).have_sample ≡ false
      → read_regs s (instance_at s slot).addr 0x1d 1 ≡ (s1, none)
      → (poll s slot out channel).1 ≢ drv_ok
  unfolding poll or_no_bytes
  poll_no_bytes s s1 slot channel out old e h = ground (arith, e)

  -- The table and the reading behind a collection.
  record Served (s1 : Bme W) (slot channel : ℕ) (p : Bme W × DrvErr × Reading) : Type 0 where
    collected : Collected s1 slot p.0
    shows : Shows (instance_at p.0 slot) channel p.2

  served :
      (s s1 : Bme W) (slot channel : ℕ) (out : Reading)
      → poll s slot out channel ≡ serve slot out channel (collect s1 slot)
      → (poll s slot out channel).1 ≡ drv_ok
      → Served s1 slot channel (poll s slot out channel)
  served s s1 slot channel out e h =
      let c = collect s1 slot in
      let ok = serve_ok slot channel out c (ap (λ p. p.1) (sym e) ∙ h) in
      subst (Served s1 slot channel) (sym (e ∙ ok.1)) (record {
        collected = collect_ok s1 slot ok.0;
        shows = fill-Shows (instance_at c.0 slot) out channel;
      })

  Served-Fresh :
      (s s1 : Bme W) (slot channel : ℕ) (p : Bme W × DrvErr × Reading) (status : List ℕ)
      → slot < length s.instances
      → channel < 4
      → read_regs s (instance_at s slot).addr 0x1d 1 ≡ (s1, some status)
      → is_complete (get_or status 0 0) ≡ true
      → Served s1 slot channel p
      → Fresh s slot channel p
  Served-Fresh s s1 slot channel p status small h e full v =
      let same : s1.instances ≡ s.instances =
        ap (λ p. p.0.instances) (sym e) ∙ instances-read_regs s (instance_at s slot).addr 0x1d 1 in
      let c = v.collected in
      let inside = collected-Sampled s1 slot p.0 (omega (arith, small, ap length same)) c in
      let m =
        sampled-value (instance_at s1 slot) c.raw c.gas (now_us c.s2) channel p.2 h
          (subst (λ x. Shows x channel p.2) inside.0 v.shows) in
      record {
        s1 = s1;
        status = status;
        asked = e;
        complete = full;
        collected = c;
        value =
            m.0
            ∙ ap
                (λ (l : List Instance).
                  bits32 (value_of (get_or l slot no_instance).calib c.raw c.gas channel))
                same;
        stamp = m.1;
        shows = v.shows;
      }

  -- Where no sample is in the table, a poll gives a reading only after the chip answered that its
  -- measurement is complete, and the table and the reading are then what the registers say.
  pub poll-Fresh :
      (s : Bme W) (slot channel : ℕ) (out : Reading)
      → IsTable s
      → (instance_at s slot).have_sample ≡ false
      → (poll s slot out channel).1 ≡ drv_ok
      → Fresh s slot channel (poll s slot out channel)
  poll-Fresh s slot channel out v old h =
      let (b, c) = poll_ok-is_bound s slot channel out h in
      let small = is_bound-lt s slot b in
      elim (read-cases (read_regs s (instance_at s slot).addr 0x1d 1)) [
        | inl (s1, e) ↦ absurd (poll_no_bytes s s1 slot channel out old e h)
        | inr (s1, status, e) ↦
            let run = poll_collects s s1 slot channel out status b c old e in
            elim (Bool-cases (is_complete (get_or status 0 0))) [
              | inl full ↦
                  Served-Fresh s s1 slot channel _ status (omega (arith, v, small)) c e full
                    (served s s1 slot channel out (rw full at run) h)
              | inr early ↦ absurd (ground (arith, run, early, h))
            ]
      ]
