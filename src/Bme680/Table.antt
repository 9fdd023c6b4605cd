-- ===== src/Bme680/Table.antt =====
-- The table of instances of bme680.c under transfers on the bus, which leave it alone.
use lo_ra_home.Prelude.{
  ℕ, ◌<◌, ◌≡◌, refl, ◌⊎◌, inl, inr, Bool, true, false, Option, none, some, List, arith, length,
  get_or-set_self,
}
use lo_ra_home.Driver.{DrvErr}
use lo_ra_home.Bme680.{
  Instance, no_instance, Bme, read_regs, write_reg, instance_at, with_instance, or_no_bytes,
  or_refused, bus_error,
}
use lo_ra_home.Bme680.Chip.{is_bound}

module _ {W : Type 0} where
  -- The table has its two elements.
  abbrev pub IsTable : Bme W → Type 0
  IsTable s = length s.instances ≡ 2

  pub instances-read_regs :
      (s : Bme W) (addr reg len : ℕ) → (read_regs s addr reg len).0.instances ≡ s.instances
  unfolding read_regs
  instances-read_regs s addr reg len = ground arith

  pub instances-write_reg :
      (s : Bme W) (addr reg value : ℕ) → (write_reg s addr reg value).0.instances ≡ s.instances
  unfolding write_reg
  instances-write_reg s addr reg value = ground arith

  -- A read that failed, or what it brought.
  pub read-cases :
      (p : Bme W × Option (List ℕ))
      → ((s : Bme W) × (p ≡ (s, none))) ⊎ ((s : Bme W) × (bytes : List ℕ) × (p ≡ (s, some bytes)))
  read-cases (s, none) = inl (s, refl)
  read-cases (s, some bytes) = inr (s, bytes, refl)

  -- Where the writes of a handler are refused or not, the table is what it was before.
  pub or_refused-instances :
      (table : List Instance) (p : Bme W × Bool) (next : Bme W → Bme W × DrvErr)
      → p.0.instances ≡ table
      → ((t : Bme W) → t.instances ≡ table → (next t).0.instances ≡ table)
      → (or_refused p bus_error next).0.instances ≡ table
  unfolding or_refused
  or_refused-instances table (s, false) next h k = h
  or_refused-instances table (s, true) next h k = k s h

  pub instance_at-with_instance :
      (s : Bme W) (slot : ℕ) (inst : Instance)
      → slot < length s.instances
      → instance_at (with_instance s slot inst) slot ≡ inst
  instance_at-with_instance s slot inst h = get_or-set_self s.instances slot inst no_instance h

  pub is_bound-lt : (s : Bme W) (slot : ℕ) → is_bound s slot ≡ true → slot < 2
  unfolding is_bound
  is_bound-lt s slot h = ground arith

  -- The same for reads, for what the handler makes of the table.
  pub or_no_bytes-instances {ℓ} :
      (P : List Instance → Type ℓ) (table : List Instance) (p : Bme W × Option (List ℕ))
      (next : Bme W → List ℕ → Bme W × DrvErr)
      → P table
      → p.0.instances ≡ table
      → ((t : Bme W) (bytes : List ℕ) → t.instances ≡ table → P (next t bytes).0.instances)
      → P (or_no_bytes p bus_error next).0.instances
  unfolding or_no_bytes
  or_no_bytes-instances P table (s, none) next now e k = rw e now
  or_no_bytes-instances P table (s, some bytes) next now e k = k s bytes e
