-- ===== src/Bme680/Setup.antt =====
-- `configure` and the slot that `bme680_init` fills.
use lo_ra_home.Prelude.{
  ℕ, zero, suc, ◌+◌, ◌<◌, ◌≡◌, refl, sym, ap, ◌∙◌, inl, inr, Bool, true, false, some, List, [], ◌∷◌,
  pos, arith, length, get_or, set, get_or-set_self, set-set, if◌then◌else◌, Bool-cases,
}
use lo_ra_home.Driver.{DrvErr, err_bus, is_ok}
use lo_ra_home.Bme680.{
  ambient_default_c, Calib, Instance, no_instance, Bme, write_reg, with_instance, or_refused,
}
use lo_ra_home.Bme680.Table.{
  instances-read_regs, instances-write_reg, or_refused-instances, or_no_bytes-instances,
}
use lo_ra_home.Bme680.Chip.{free_slot, write_setup, configure, release, or_release, init_slot}

-- The first free slot is one.
pub free_slot_lem :
    (i : ℕ) (xs : List Instance) (slot : ℕ)
    → free_slot i xs ≡ some slot
    → (j : ℕ) × (slot ≡ i + j) × (j < length xs) × ((get_or xs j no_instance).in_use ≡ false)
unfolding free_slot
free_slot_lem i [] slot h = ground arith
free_slot_lem i (x ∷ xs) slot h = elim (Bool-cases x.in_use) [
  | inl used ↦
      let (j, e, small, free) = free_slot_lem (i + 1) xs slot (ground (arith, used)) in
      (suc j, omega arith, omega arith, free)
  | inr unused ↦ (0, ground (arith, unused), omega arith, unused)
]

-- A table in which the coefficients of one slot may be new.
record Calibrated (slot : ℕ) (before after : List Instance) : Type 0 where
  pub calib : Calib
  pub table : after ≡ set before slot (record (get_or before slot no_instance) { calib = calib })

set-get_or : (xs : List Instance) (slot : ℕ) → set xs slot (get_or xs slot no_instance) ≡ xs
set-get_or [] slot = refl
set-get_or (x ∷ xs) zero = refl
set-get_or (x ∷ xs) (suc slot) = ap (◌∷◌ x) (set-get_or xs slot)

same-Calibrated : (slot : ℕ) (table : List Instance) → Calibrated slot table table
same-Calibrated slot table = record {
  calib = (get_or table slot no_instance).calib;
  table = sym (set-get_or table slot);
}

set_again :
    (slot : ℕ) (table : List Instance) (x : Instance) (l : List Instance) (f : Instance → Instance)
    → slot < length table
    → l ≡ set table slot x
    → set l slot (f (get_or l slot no_instance)) ≡ set table slot (f x)
set_again slot table x l f h e =
    let read : get_or (set table slot x) slot no_instance ≡ x =
      get_or-set_self table slot x no_instance h in
    rw (e, read) (set-set table slot x (f x))

module _ {W : Type 0} where
  write_setup-instances : (s : Bme W) (addr : ℕ) → (write_setup s addr).0.instances ≡ s.instances
  unfolding write_setup
  write_setup-instances s addr =
      let table = s.instances in
      or_refused-instances table _ _ (instances-write_reg s _ _ _) λ s1 e1.
        or_refused-instances table _ _ (instances-write_reg s1 _ _ _ ∙ e1)
          λ s2 e2. or_refused-instances table _ _ (instances-write_reg s2 _ _ _ ∙ e2) λ s3 e3. e3

  configure-Calibrated :
      (s : Bme W) (slot : ℕ) → Calibrated slot s.instances (configure s slot).0.instances
  unfolding configure
  configure-Calibrated s slot =
      let recalibrated : Calib → List Instance → List Instance =
        λ c l. set l slot (record (get_or l slot no_instance) { calib = c }) in
      let table = s.instances in
      let now = same-Calibrated slot table in
      let P : List Instance → Type 0 = Calibrated slot table in
      or_no_bytes-instances P table _ _ now (instances-read_regs s _ _ _) λ s1 b1 e1.
        or_no_bytes-instances P table _ _ now (instances-read_regs s1 _ _ _ ∙ e1) λ s2 b2 e2.
          or_no_bytes-instances P table _ _ now (instances-read_regs s2 _ _ _ ∙ e2) λ s3 b3 e3.
            or_no_bytes-instances P table _ _ now (instances-read_regs s3 _ _ _ ∙ e3) λ s4 b4 e4.
              or_no_bytes-instances P table _ _ now (instances-read_regs s4 _ _ _ ∙ e4) λ s5 b5 e5.
                record { calib = _; table = write_setup-instances _ _ ∙ ap (recalibrated _) e5 }

  -- What `bme680_init` leaves in the slot it found.
  pub record Filled (slot bus_addr old : ℕ) (table : List Instance) (r : Bme W × ℕ × DrvErr)
      : Type 0 where
    pub inst : Instance
    pub after : r.0.instances ≡ set table slot inst
    pub used : inst.in_use ≡ is_ok r.2
    pub scratch : r.1 ≡ (if is_ok r.2 then slot else old)
    pub addr : inst.addr ≡ bus_addr
    pub no_sample : inst.have_sample ≡ false

  release-Filled :
      (slot old : ℕ) (table : List Instance) (x : Instance) (t : Bme W) (err : DrvErr)
      → slot < length table
      → t.instances ≡ set table slot x
      → x.have_sample ≡ false
      → is_ok err ≡ false
      → Filled slot x.addr old table (release t slot, old, err)
  release-Filled slot old table x t err h e n bad = record {
    inst = record x { in_use = false };
    after = set_again slot table x t.instances (λ y. record y { in_use = false }) h e;
    used = sym bad;
    scratch = rw bad;
    addr = refl;
    no_sample = n;
  }

  or_release-Filled :
      (slot old : ℕ) (table : List Instance) (x : Instance) (r : Bme W × DrvErr)
      → slot < length table
      → r.0.instances ≡ set table slot x
      → x.have_sample ≡ false
      → x.in_use ≡ true
      → Filled slot x.addr old table (or_release slot old r)
  or_release-Filled slot old table x (t, err) h e n used = elim (Bool-cases (is_ok err)) [
    | inl good ↦
        rw good
          (record { inst = x; after = e; used = used; scratch = refl; addr = refl; no_sample = n })
    | inr bad ↦ rw bad (release-Filled slot old table x t err h e n bad)
  ]

  configured-Filled :
      (s : Bme W) (slot old : ℕ) (table : List Instance) (x : Instance)
      → slot < length table
      → s.instances ≡ set table slot x
      → x.have_sample ≡ false
      → x.in_use ≡ true
      → Filled slot x.addr old table (or_release slot old (configure s slot))
  configured-Filled s slot old table x h e n used =
      let c = configure-Calibrated s slot in
      or_release-Filled slot old table (record x { calib = c.calib }) (configure s slot) h
        (c.table ∙ set_again slot table x s.instances (λ y. record y { calib = c.calib }) h e) n
        used

  or_refused-Filled :
      (slot bus_addr old : ℕ) (table : List Instance) (p : Bme W × Bool)
      (stop next : Bme W → Bme W × ℕ × DrvErr)
      → Filled slot bus_addr old table (stop p.0)
      → Filled slot bus_addr old table (next p.0)
      → Filled slot bus_addr old table (or_refused p stop next)
  unfolding or_refused
  or_refused-Filled slot bus_addr old table (s, false) stop next h k = h
  or_refused-Filled slot bus_addr old table (s, true) stop next h k = k

  pub init_slot-Filled :
      (s : Bme W) (bus_addr scratch slot : ℕ)
      → slot < length s.instances
      → Filled slot bus_addr scratch s.instances (init_slot s bus_addr scratch slot)
  unfolding init_slot
  init_slot-Filled s bus_addr scratch slot h =
      let x : Instance = record no_instance {
        in_use = true;
        addr = bus_addr;
        ambient_c = pos ambient_default_c;
      } in
      let w = write_reg (with_instance s slot x) bus_addr 0xe0 0xb6 in
      let e : w.0.instances ≡ set s.instances slot x =
        instances-write_reg (with_instance s slot x) bus_addr 0xe0 0xb6 in
      or_refused-Filled slot bus_addr scratch s.instances w _ _
        (release-Filled slot scratch s.instances x w.0 err_bus h e refl refl)
        (configured-Filled w.0 slot scratch s.instances x h e refl refl)
