-- ===== src/Bme680/Slots.antt =====
-- The two slots of bme680.c: a component that is bound takes one that was free, and one that could not
-- be initialised leaves none behind.
use native.Mathlib.Decide.{ℕ_discrete}
use lo_ra_home.Prelude.{
  ℕ, ◌<◌, ◌≡◌, ◌≢◌, refl, sym, ap, subst, ◌∙◌, inl, inr, Bool, true, false, List, arith, length,
  get_or, get_or-set_self, get_or-set_ne, if◌then◌else◌, Option-cases, Bool-cases,
}
use lo_ra_home.Driver.{DrvErr, drv_ok, err_bus, err_state, is_ok}
use lo_ra_home.Bme680.{Instance, no_instance, Bme, instance_at}
use lo_ra_home.Bme680.Table.{IsTable, instances-read_regs, or_no_bytes-instances}
use lo_ra_home.Bme680.Chip.{free_slot, probe, init_slot, init_probed, init}
use lo_ra_home.Bme680.Setup.{free_slot_lem, Filled, init_slot-Filled}

module _ {W : Type 0} where
  -- The component took a slot that was free, and the other slots are as they were.
  pub record Took (s : Bme W) (bus_addr : ℕ) (r : Bme W × ℕ × DrvErr) : Type 0 where
    pub slot : r.1 < length s.instances
    pub free : (instance_at s r.1).in_use ≡ false
    pub used : (instance_at r.0 r.1).in_use ≡ true
    pub addr : (instance_at r.0 r.1).addr ≡ bus_addr
    pub no_sample : (instance_at r.0 r.1).have_sample ≡ false
    pub others : (i : ℕ) → i ≢ r.1 → instance_at r.0 i ≡ instance_at s i

  -- The component has no slot, the same slots are in use, and what is in use is as it was.
  pub record Missed (s : Bme W) (scratch : ℕ) (r : Bme W × ℕ × DrvErr) : Type 0 where
    pub scratch_kept : r.1 ≡ scratch
    pub in_use : (i : ℕ) → (instance_at r.0 i).in_use ≡ (instance_at s i).in_use
    pub others : (i : ℕ) → (instance_at s i).in_use ≡ true → instance_at r.0 i ≡ instance_at s i

  Filled-Took :
      (s : Bme W) (slot bus_addr old : ℕ) (r : Bme W × ℕ × DrvErr)
      → slot < length s.instances
      → (instance_at s slot).in_use ≡ false
      → is_ok r.2 ≡ true
      → Filled slot bus_addr old s.instances r
      → Took s bus_addr r
  Filled-Took s slot bus_addr old r h free ok f =
      let e : r.1 ≡ slot = f.scratch ∙ ap (λ (b : Bool). if b then slot else old) ok in
      let now : instance_at r.0 slot ≡ f.inst =
        ap (λ (l : List Instance). get_or l slot no_instance) f.after
        ∙ get_or-set_self s.instances slot f.inst no_instance h in
      record {
        slot = rw e h;
        free = rw e free;
        used = rw (e, now) (f.used ∙ ok);
        addr = rw (e, now) f.addr;
        no_sample = rw (e, now) f.no_sample;
        others = λ i ne.
            rw f.after
              (get_or-set_ne s.instances slot i f.inst no_instance (λ q. ne (sym q ∙ sym e)));
      }

  Filled-Missed :
      (s : Bme W) (slot bus_addr old : ℕ) (r : Bme W × ℕ × DrvErr)
      → slot < length s.instances
      → (instance_at s slot).in_use ≡ false
      → is_ok r.2 ≡ false
      → Filled slot bus_addr old s.instances r
      → Missed s old r
  Filled-Missed s slot bus_addr old r h free bad f =
      let now : (instance_at r.0 slot).in_use ≡ false =
        ap (λ (l : List Instance). (get_or l slot no_instance).in_use) f.after
        ∙ ap (λ (x : Instance). x.in_use) (get_or-set_self s.instances slot f.inst no_instance h)
        ∙ f.used
        ∙ bad in
      let apart : (i : ℕ) → i ≢ slot → instance_at r.0 i ≡ instance_at s i = λ i ne.
        rw f.after (get_or-set_ne s.instances slot i f.inst no_instance (λ q. ne (sym q))) in
      record {
        scratch_kept = f.scratch ∙ ap (λ (b : Bool). if b then slot else old) bad;
        in_use = λ i. elim (ℕ_discrete i slot) [
          | yes q ↦ rw q (now ∙ sym free)
          | no q ↦ ap (λ (x : Instance). x.in_use) (apart i q)
        ];
        others = λ i u. elim (ℕ_discrete i slot) [
          | yes q ↦ absurd (ground (arith, q, u, free))
          | no q ↦ apart i q
        ];
      }

  same-Missed :
      (s : Bme W) (old : ℕ) (t : Bme W) (err : DrvErr)
      → t.instances ≡ s.instances
      → Missed s old (t, old, err)
  same-Missed s old t err e = record {
    scratch_kept = refl;
    in_use = λ i. rw e;
    others = λ i u. rw e;
  }

  abbrev Settled : Bme W → ℕ → ℕ → Bme W × ℕ × DrvErr → Type 0
  Settled s bus_addr old r = if is_ok r.2 then Took s bus_addr r else Missed s old r

  Filled-Settled :
      (s : Bme W) (slot bus_addr old : ℕ) (r : Bme W × ℕ × DrvErr)
      → slot < length s.instances
      → (instance_at s slot).in_use ≡ false
      → Filled slot bus_addr old s.instances r
      → Settled s bus_addr old r
  Filled-Settled s slot bus_addr old r h free f = elim (Bool-cases (is_ok r.2)) [
    | inl ok ↦ rw ok (Filled-Took s slot bus_addr old r h free ok f)
    | inr bad ↦ rw bad (Filled-Missed s slot bus_addr old r h free bad f)
  ]

  slot-Settled :
      (s t : Bme W) (bus_addr old : ℕ)
      → t.instances ≡ s.instances
      → Settled s bus_addr old (init_probed bus_addr old (t, drv_ok))
  slot-Settled s t bus_addr old e = elim (Option-cases (free_slot 0 t.instances)) [
    | inl full ↦ rw full (same-Missed s old t err_state e)
    | inr (slot, found) ↦
        let (j, same, small, free) = free_slot_lem 0 t.instances slot found in
        let inside : slot < length t.instances = omega arith in
        let same_slot : slot ≡ j = omega arith in
        rw found (
          Filled-Settled s slot bus_addr old (init_slot t bus_addr old slot)
            (omega (arith, ap length e))
            (ap (λ (l : List Instance). (get_or l slot no_instance).in_use) (sym e)
              ∙ ap (λ k. (get_or t.instances k no_instance).in_use) same_slot
              ∙ free)
            (subst (λ l. Filled slot bus_addr old l (init_slot t bus_addr old slot)) e
              (init_slot-Filled t bus_addr old slot inside)))
  ]

  probed-Settled :
      (s : Bme W) (bus_addr old : ℕ) (p : Bme W × DrvErr)
      → p.0.instances ≡ s.instances
      → Settled s bus_addr old (init_probed bus_addr old p)
  probed-Settled s bus_addr old (t, drv_ok) e = slot-Settled s t bus_addr old e
  probed-Settled s bus_addr old (t, err) e = same-Missed s old t err e

  probe-instances : (s : Bme W) (addr : ℕ) → (probe s addr).0.instances ≡ s.instances
  unfolding probe
  probe-instances s addr =
      or_no_bytes-instances (λ l. l ≡ s.instances) s.instances _ _ refl
        (instances-read_regs s _ _ _) (λ t bytes e. e)

  with_io :
      (s : Bme W) (bus_addr old : ℕ)
      → s.io_set ≡ true
      → init s bus_addr old ≡ init_probed bus_addr old (probe s bus_addr)
  unfolding init
  with_io s bus_addr old h = ground (arith, h)

  without_io :
      (s : Bme W) (bus_addr old : ℕ) → s.io_set ≡ false → init s bus_addr old ≡ (s, old, err_bus)
  unfolding init
  without_io s bus_addr old h = ground (arith, h)

  -- A component that is initialised takes a free slot for its address, without a sample; one that is
  -- not leaves every slot as it was, in use or free.
  pub init_slots :
      (s : Bme W) (bus_addr scratch : ℕ)
      → IsTable s
      → (if is_ok (init s bus_addr scratch).2
          then Took s bus_addr (init s bus_addr scratch)
          else Missed s scratch (init s bus_addr scratch))
  init_slots s bus_addr scratch v = elim (Bool-cases s.io_set) [
    | inl there ↦
        rw (with_io s bus_addr scratch there)
          (probed-Settled s bus_addr scratch (probe s bus_addr) (probe-instances s bus_addr))
    | inr missing ↦
        rw (without_io s bus_addr scratch missing) (same-Missed s scratch s err_bus refl)
  ]
