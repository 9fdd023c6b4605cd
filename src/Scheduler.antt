-- ===== src/Scheduler.antt =====
-- firmware/common/include/lorahome/scheduler.h and firmware/common/src/scheduler.c: one step for each
-- component in each tick. The arrays of the struct have eight elements.
pub mod Step
pub mod Tick
pub mod Skips
pub mod Ticks
pub mod Turns
pub mod Bounds
pub mod Valid
pub mod Runs
pub mod Stale
use lo_ra_home.Prelude.{
  ℕ, ◌+◌, ◌-◌, ◌*◌, ◌%◌, ◌^◌, List, [], ◌∷◌, Bool, true, false, not, Option, none, some, u8, inc32,
  ltb, leb, ◌==◌, if◌then◌else◌, length, get_or, set, replicate, bit_and, ◌<<<◌,
}
use lo_ra_home.Driver.{
  DrvErr, drv_ok, err_state, err_no_channel, empty, Reading, no_reading, Vtable, Ctx, is_ok,
  is_faulted, bind,
}

-- `LH_MAX_COMPONENTS`
abbrev pub max_components : ℕ
max_components = 8

-- `LH_SCHED_MAX_CHANNELS`
abbrev pub max_channels : ℕ
max_channels = 4

-- `LH_SCHED_TICK_BUDGET_US`
abbrev pub tick_budget_us : ℕ
tick_budget_us = 5000

-- `lh_scheduler_t`
pub record Sched (W S : Type 0) : Type 0 where
  pub components : List (Ctx W S)
  pub next_due_us : List ℕ
  pub latest : List (List Reading)
  pub latest_valid : List ℕ
  pub channel_cursor : List ℕ
  pub component_count : ℕ
  pub rotation : ℕ
  pub stat_ticks : ℕ
  pub stat_readings : ℕ
  pub stat_errors : ℕ
  pub stat_faulted : ℕ
  pub stat_budget_overruns : ℕ
  pub stat_tick_max_us : ℕ

-- What `lh_sched_add` returns: a slot, or the error.
pub data Added : Type 0 where
  in_slot : ℕ → Added
  refused : DrvErr → Added

module _ {W S : Type 0} where
  -- A slot of zeros; `blank` is its scratch.
  abbrev pub vacant : S → Ctx W S
  vacant blank = record {
    vt = none;
    bus_addr = 0;
    component_id = 0;
    state = empty;
    consecutive_errors = 0;
    op_started_us = 0;
    scratch = blank;
  }

  -- `lh_sched_init`
  unfoldable pub init : S → Sched W S
  init blank = record {
    components = replicate max_components (vacant blank);
    next_due_us = replicate max_components 0;
    latest = replicate max_components (replicate max_channels no_reading);
    latest_valid = replicate max_components 0;
    channel_cursor = replicate max_components 0;
    component_count = 0;
    rotation = 0;
    stat_ticks = 0;
    stat_readings = 0;
    stat_errors = 0;
    stat_faulted = 0;
    stat_budget_overruns = 0;
    stat_tick_max_us = 0;
  }

  -- `lh_sched_component_count`
  abbrev pub component_total : Sched W S → ℕ
  component_total s = s.component_count

  -- The slot that `lh_driver_bind` filled.
  unfoldable pub bound : Sched W S → ℕ → W × Ctx W S × DrvErr → W × Sched W S × Added
  bound s now_us (w, c, err) =
      let slot = s.component_count in
      let s1 = record s {
        components = set s.components slot c;
        next_due_us = set s.next_due_us slot now_us;
        channel_cursor = set s.channel_cursor slot 0;
        latest_valid = set s.latest_valid slot 0;
        component_count = u8 (slot + 1);
      } in
      if is_ok err
      then (w, s1, in_slot slot)
      else (w, record s1 { stat_faulted = inc32 s.stat_faulted }, refused err)

  -- `lh_sched_add`
  unfoldable pub add : S → W → Sched W S → Vtable W S → ℕ → ℕ → ℕ → W × Sched W S × Added
  unfolding bound
  add blank w s v bus_addr component_id now_us =
      let slot = s.component_count in
      if leb max_components slot
      then (w, s, refused err_state)
      else if ltb max_channels v.channel_count
      then (w, s, refused err_no_channel)
      else bound s now_us
          (bind w (get_or s.components slot (vacant blank)) v bus_addr component_id now_us)

  -- `lh_sched_record_tick`
  unfoldable pub record_tick : Sched W S → ℕ → Sched W S
  record_tick s elapsed_us =
      let s1 =
        if ltb s.stat_tick_max_us elapsed_us
        then record s { stat_tick_max_us = elapsed_us }
        else s in
      if ltb tick_budget_us elapsed_us
      then record s1 { stat_budget_overruns = inc32 s.stat_budget_overruns }
      else s1

  -- `lh_sched_latest`
  unfoldable pub latest_reading : Sched W S → ℕ → ℕ → Option Reading
  latest_reading s slot channel =
      if leb s.component_count slot
      then none
      else if leb max_channels channel
      then none
      else if bit_and (get_or s.latest_valid slot 0) (u8 (1 <<< channel)) == 0
      then none
      else some (get_or (get_or s.latest slot []) channel no_reading)
