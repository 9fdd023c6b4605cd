-- ===== src/Rule.antt =====
-- firmware/common/include/lorahome/rule_evaluator.h and firmware/common/src/rule_evaluator.c: a rule
-- with hysteresis and a debounce window. `F` is the type `float`, and its comparisons, sum and
-- difference are the parameter `Floats`: nothing is assumed of them.
pub mod Fires
use lo_ra_home.Prelude.{
  ℕ, ◌+◌, ◌-◌, ◌%◌, ◌^◌, Bool, true, false, not, ◌&&◌, leb, ◌==◌, if◌then◌else◌, u32,
}

-- The operators that C has on `float`.
pub record Floats (F : Type 0) : Type 0 where
  pub gt : F → F → Bool
  pub lt : F → F → Bool
  pub gte : F → F → Bool
  pub lte : F → F → Bool
  pub eq : F → F → Bool
  pub neq : F → F → Bool
  pub plus : F → F → F
  pub minus : F → F → F

-- `lorahome_rule_t`. The operator is the byte of the record: 0 to 5 are those of
-- `lorahome_rule_op_t`, in their order.
pub record Rule (F : Type 0) : Type 0 where
  pub src_sensor_id : ℕ
  pub op : ℕ
  pub threshold : F
  pub hysteresis : F
  pub debounce_ms : ℕ
  pub action_id : ℕ
  pub action_param : ℕ

-- `lorahome_rule_state_t`
pub record RuleState : Type 0 where
  pub armed : Bool
  pub has_condition_since : Bool
  pub condition_since_ms : ℕ
  pub fired : Bool

-- `lorahome_rule_state_init`
unfoldable pub rule_state_init : RuleState
rule_state_init = record {
  armed = true;
  has_condition_since = false;
  condition_since_ms = 0;
  fired = false;
}

module _ {F : Type 0} (floats : Floats F) where
  -- `compare_op`
  unfoldable pub compare_op : ℕ → F → F → Bool
  compare_op op value threshold =
      if op == 0
      then floats.gt value threshold
      else if op == 1
      then floats.lt value threshold
      else if op == 2
      then floats.gte value threshold
      else if op == 3
      then floats.lte value threshold
      else if op == 4
      then floats.eq value threshold
      else if op == 5
      then floats.neq value threshold
      else false

  -- `is_reset`
  unfoldable pub is_reset : ℕ → F → F → F → Bool
  unfolding compare_op
  is_reset op value threshold hysteresis =
      let below = floats.lt value (floats.minus threshold hysteresis) in
      let above = floats.gt value (floats.plus threshold hysteresis) in
      if op == 0
      then below
      else if op == 2
      then below
      else if op == 1
      then above
      else if op == 3
      then above
      else if op == 4
      then not (compare_op op value threshold)
      else if op == 5
      then not (compare_op op value threshold)
      else true

  -- `lorahome_rule_step` of an armed rule whose condition holds, from `if (!has_condition_since)` on.
  unfoldable pub hold_step : RuleState → Rule F → ℕ → RuleState × Bool
  hold_step s rule at_ms =
      let s1 =
        if not s.has_condition_since
        then record s { condition_since_ms = at_ms; has_condition_since = true }
        else s in
      let held_ms = u32 (at_ms + 2 ^ 32 - s1.condition_since_ms) in
      if not s1.fired && leb rule.debounce_ms held_ms
      then (record s1 { fired = true; armed = false }, true)
      else (s1, false)

  -- `lorahome_rule_step`
  unfoldable pub rule_step : RuleState → Rule F → F → ℕ → RuleState × Bool
  unfolding hold_step compare_op is_reset
  rule_step s rule value at_ms =
      if not s.armed
      then (if is_reset rule.op value rule.threshold rule.hysteresis
          then (record s { armed = true; fired = false; has_condition_since = false }, false)
          else (s, false))
      else if not (compare_op rule.op value rule.threshold)
      then (record s { has_condition_since = false }, false)
      else hold_step s rule at_ms
