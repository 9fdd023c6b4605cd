-- ===== src/Driver.antt =====
-- firmware/common/include/lorahome/driver.h and firmware/common/src/driver.c: the table of a driver's
-- functions and the state of one component. `W` is the world outside, the bus and the pins, which a
-- driver's function reads and changes; `S` is what a driver keeps in `scratch`.
pub mod Calls
pub mod Health
pub mod Runs
pub mod Stuck
pub mod Timing
use lo_ra_home.Prelude.{
  ℕ, ◌+◌, ◌-◌, ◌*◌, ◌/◌, ◌%◌, ◌^◌, List, [], ◌∷◌, Bool, true, false, ◌&&◌, not, Option, none, some,
  u8, u32, ltb, leb, ◌==◌, if◌then◌else◌, max,
}

-- `LH_DRIVER_FAULT_THRESHOLD`
abbrev pub fault_threshold : ℕ
fault_threshold = 3

-- `LH_DRIVER_OP_TIMEOUT_FLOOR_MS`
abbrev pub op_timeout_floor_ms : ℕ
op_timeout_floor_ms = 250

-- `LH_DRIVER_OP_TIMEOUT_FACTOR`
abbrev pub op_timeout_factor : ℕ
op_timeout_factor = 4

-- `lh_drv_err_t`
pub data DrvErr : Type 0 where
  drv_ok err_bus err_timeout err_not_ready err_crc err_range err_state err_no_channel err_faulted :
      DrvErr

-- `lh_drv_state_t`
pub data DrvState : Type 0 where
  empty warmup idle reading ready sleeping retired : DrvState

-- `lh_reading_t`; the value is the 32-bit pattern.
pub record Reading : Type 0 where
  pub value : ℕ
  pub channel : ℕ
  pub quality : ℕ
  pub ts_us : ℕ

-- A reading of zeros.
abbrev pub no_reading : Reading
no_reading = record { value = 0; channel = 0; quality = 0; ts_us = 0 }

-- `lh_driver_vtable_t`: what each function makes of the world, the address and the scratch. `blank`
-- is the scratch that is all zeros. `poll` is never NULL in a component that is bound.
pub record Vtable (W S : Type 0) : Type 0 where
  pub name : List ℕ
  pub type_id : ℕ
  pub channel_count : ℕ
  pub warmup_ms : ℕ
  pub min_interval_ms : ℕ
  pub blank : S
  pub init : Option (W → ℕ → S → W × S × DrvErr)
  pub start_read : Option (W → ℕ → S → W × S × DrvErr)
  pub poll : W → ℕ → S → Reading → ℕ → W × S × DrvErr × Reading
  pub sleep : Option (W → ℕ → S → W × S × DrvErr)

-- `lh_driver_ctx_t`; `vt` is `none` for NULL.
pub record Ctx (W S : Type 0) : Type 0 where
  pub vt : Option (Vtable W S)
  pub bus_addr : ℕ
  pub component_id : ℕ
  pub state : DrvState
  pub consecutive_errors : ℕ
  pub op_started_us : ℕ
  pub scratch : S

-- `lh_driver_is_error`
unfoldable pub is_error : DrvErr → Bool
is_error drv_ok = false
is_error err_not_ready = false
is_error _ = true

-- `err == LH_DRV_OK`
abbrev pub is_ok : DrvErr → Bool
is_ok drv_ok = true
is_ok _ = false

-- `err == LH_DRV_ERR_NOT_READY`
abbrev pub is_not_ready : DrvErr → Bool
is_not_ready err_not_ready = true
is_not_ready _ = false

-- `state == LH_DRV_STATE_FAULTED`
abbrev pub is_retired : DrvState → Bool
is_retired retired = true
is_retired _ = false

-- `strcmp(a, b) == 0`
abbrev pub same_name : List ℕ → List ℕ → Bool
same_name [] [] = true
same_name (x ∷ xs) (y ∷ ys) = (x == y) && same_name xs ys
same_name _ _ = false

module _ {W S : Type 0} where
  -- `lh_driver_op_timeout_ms`
  unfoldable pub op_timeout_ms : Vtable W S → ℕ
  op_timeout_ms v =
      let scaled = u32 (v.warmup_ms * op_timeout_factor) in
      if ltb op_timeout_floor_ms scaled then scaled else op_timeout_floor_ms

  -- `lh_driver_find` in the table `LH_DRIVERS`
  unfoldable pub find : List (Vtable W S) → List ℕ → Option (Vtable W S)
  find [] wanted = none
  find (v ∷ vs) wanted =
      let rest = find vs wanted in if same_name v.name wanted then some v else rest

  -- `lh_driver_find_type`
  unfoldable pub find_type : List (Vtable W S) → ℕ → Option (Vtable W S)
  find_type [] wanted = none
  find_type (v ∷ vs) wanted =
      let rest = find_type vs wanted in if v.type_id == wanted then some v else rest

  -- `lh_driver_is_faulted`
  abbrev pub is_faulted : Ctx W S → Bool
  is_faulted c = is_retired c.state

  -- `fail`; it returns `err` as it is.
  unfoldable pub fail : Ctx W S → DrvErr → Ctx W S
  fail c err =
      if not (is_error err)
      then c
      else let errors =
          if ltb c.consecutive_errors 0xff
          then c.consecutive_errors + 1
          else c.consecutive_errors in
        record c {
          consecutive_errors = errors;
          state = if leb fault_threshold errors then retired else c.state;
        }

  -- `elapsed_ms`; the subtraction stops at 0, as the source does there.
  abbrev pub elapsed_ms : Ctx W S → ℕ → ℕ
  elapsed_ms c now_us = (now_us - c.op_started_us) / 1000

  -- The state that a component starts in.
  abbrev pub first_state : Vtable W S → DrvState
  first_state v = if ltb 0 v.warmup_ms then warmup else idle

  -- The component that `vt->init` left behind.
  unfoldable pub initialised : Vtable W S → Ctx W S → W × S × DrvErr → W × Ctx W S × DrvErr
  initialised v c (w, s, err) =
      if is_ok err
      then (w, record c { state = first_state v; scratch = s }, drv_ok)
      else (w, record c { state = retired; consecutive_errors = fault_threshold; scratch = s }, err)

  -- `lh_driver_bind`
  unfoldable pub bind : W → Ctx W S → Vtable W S → ℕ → ℕ → ℕ → W × Ctx W S × DrvErr
  unfolding initialised
  bind w c v bus_addr component_id now_us =
      let fresh : Ctx W S = record {
        vt = some v;
        bus_addr = bus_addr;
        component_id = component_id;
        state = empty;
        consecutive_errors = 0;
        op_started_us = now_us;
        scratch = v.blank;
      } in
      if v.channel_count == 0 then (w, c, err_state) else elim v.init [
        | none ↦ (w, record fresh { state = first_state v }, drv_ok)
        | some init ↦ initialised v fresh (init w bus_addr v.blank)
      ]
