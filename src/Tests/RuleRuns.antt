-- ===== src/Tests/RuleRuns.antt =====
-- The rule of rule_evaluator.c at concrete readings; tenths of a degree stand for the floats.
use lo_ra_home.Prelude.{
  ℕ, ◌+◌, ◌-◌, ◌≡◌, refl, [], ◌∷◌, true, false, not, ltb, leb, ◌==◌, none, replicate,
}
use lo_ra_home.Rule.{
  Floats, Rule, RuleState, rule_state_init, compare_op, is_reset, hold_step, rule_step,
}
use lo_ra_home.Rule.Fires.{feed_all, streak, due, fires_exactly}

abbrev tenths : Floats ℕ
tenths = record {
  gt = λ x y. ltb y x;
  lt = λ x y. ltb x y;
  gte = λ x y. leb y x;
  lte = λ x y. leb x y;
  eq = λ x y. x == y;
  neq = λ x y. not (x == y);
  plus = λ x y. x + y;
  minus = λ x y. x - y;
}

-- Above 25.0 for a second, with a hysteresis of 1.0.
abbrev too_warm : Rule ℕ
too_warm = record {
  src_sensor_id = 7;
  op = 0;
  threshold = 250;
  hysteresis = 10;
  debounce_ms = 1000;
  action_id = 1;
  action_param = 0;
}

quiet :
    (feed_all tenths too_warm rule_state_init ((240, 0) ∷ (251, 100) ∷ (252, 900) ∷ [])).1
    ≡ replicate 3 false
unfolding feed_all rule_step hold_step compare_op is_reset rule_state_init
quiet = refl

fires_exactly_example :
    (rule_step tenths
      (feed_all tenths too_warm rule_state_init ((240, 0) ∷ (251, 100) ∷ (252, 900) ∷ [])).0
      too_warm
      255
      1100).1
    ≡ due tenths too_warm
        (streak tenths too_warm
          (streak tenths too_warm none ((240, 0) ∷ (251, 100) ∷ (252, 900) ∷ []))
          ((255, 1100) ∷ []))
        1100
fires_exactly_example =
    fires_exactly tenths too_warm ((240, 0) ∷ (251, 100) ∷ (252, 900) ∷ []) 255 1100 quiet

abbrev warm : RuleState
warm = record { armed = true; has_condition_since = true; condition_since_ms = 100; fired = false }

warm_fires : (rule_step tenths warm too_warm 255 1100).1 ≡ true
unfolding rule_step hold_step compare_op is_reset
warm_fires = refl

between : (x : ℕ) → is_reset tenths 0 x 250 10 ≡ ltb x 240
unfolding is_reset
between x = refl
