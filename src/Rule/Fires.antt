-- ===== src/Rule/Fires.antt =====
-- When a rule fires, over any sequence of readings.
use lo_ra_home.Prelude.{
  ℕ, ◌+◌, ◌-◌, ◌^◌, ◌≡◌, go_on, refl, arith, List, [], ◌∷◌, Bool, true, false, leb, u32, Option,
  none, some, All, length, replicate,
}
use lo_ra_home.Rule.{
  Floats, Rule, RuleState, rule_state_init, compare_op, is_reset, hold_step, rule_step,
}

module _ {F : Type 0} (floats : Floats F) (rule : Rule F) where
  -- The readings with their times, in order, and the answers.
  unfoldable pub feed_all : RuleState → List (F × ℕ) → RuleState × List Bool
  unfolding rule_step
  feed_all s [] = (s, [])
  feed_all s ((value, at_ms) ∷ rest) =
      let one = rule_step floats s rule value at_ms in
      let others = feed_all one.0 rest in (others.0, one.1 ∷ others.1)

  abbrev pub Resets : F × ℕ → Type 0
  Resets (value, at_ms) = is_reset floats rule.op value rule.threshold rule.hysteresis ≡ true

  abbrev pub Stays : F × ℕ → Type 0
  Stays (value, at_ms) = is_reset floats rule.op value rule.threshold rule.hysteresis ≡ false

  disarmed_waits :
      (xs : List (F × ℕ)) (s : RuleState)
      → s.armed ≡ false
      → All Stays xs
      → feed_all s xs ≡ (s, replicate (length xs) false)
  unfolding feed_all rule_step
  disarmed_waits [] s e h = refl
  disarmed_waits ((value, at_ms) ∷ xs) s e h =
      let one : rule_step floats s rule value at_ms ≡ (s, false) = ground (arith, e, h.0) in
      rw (one, disarmed_waits xs s e h.1) refl

  fires_disarms :
      (s : RuleState) (value : F) (at_ms : ℕ)
      → (rule_step floats s rule value at_ms).1 ≡ true
      → (rule_step floats s rule value at_ms).0.armed ≡ false
  unfolding rule_step hold_step
  fires_disarms s value at_ms e = ground (arith, e)

  -- A rule that fired does not fire again before a reading that is beyond the hysteresis.
  pub fires_once :
      (s : RuleState) (value : F) (at_ms : ℕ) (xs : List (F × ℕ))
      → (rule_step floats s rule value at_ms).1 ≡ true
      → All Stays xs
      → (feed_all s ((value, at_ms) ∷ xs)).1 ≡ true ∷ replicate (length xs) false
  unfolding feed_all
  fires_once s value at_ms xs e h =
      let later =
        disarmed_waits xs (rule_step floats s rule value at_ms).0 (fires_disarms s value at_ms e)
          h in
      rw (e, later) refl

  -- The time since when the condition holds without a break, up to the end of the readings.
  unfoldable pub streak : Option ℕ → List (F × ℕ) → Option ℕ
  streak since [] = since
  streak since ((value, at_ms) ∷ xs) =
      streak (go_on (compare_op floats rule.op value rule.threshold) since at_ms) xs

  -- The streak is as long as the window at `at_ms`, on the clock that wraps at `2 ^ 32`.
  unfoldable pub due : Option ℕ → ℕ → Bool
  due none at_ms = false
  due (some since) at_ms = leb rule.debounce_ms (u32 (at_ms + 2 ^ 32 - since))

  -- An armed rule knows the streak.
  abbrev Knows : RuleState → Option ℕ → Type 0
  Knows s none = (s.armed ≡ true) × (s.fired ≡ false) × (s.has_condition_since ≡ false)
  Knows s (some t) =
      (s.armed ≡ true)
      × (s.fired ≡ false)
      × (s.has_condition_since ≡ true)
      × (s.condition_since_ms ≡ t)

  step_answers :
      (s : RuleState) (since : Option ℕ) (value : F) (at_ms : ℕ)
      → Knows s since
      → (rule_step floats s rule value at_ms).1 ≡ due (streak since ((value, at_ms) ∷ [])) at_ms
  unfolding rule_step hold_step streak due
  step_answers s none value at_ms k = ground (arith, k)
  step_answers s (some t) value at_ms k = ground (arith, k)

  step-Knows :
      (s : RuleState) (since : Option ℕ) (value : F) (at_ms : ℕ)
      → Knows s since
      → (rule_step floats s rule value at_ms).1 ≡ false
      → Knows (rule_step floats s rule value at_ms).0 (streak since ((value, at_ms) ∷ []))
  unfolding rule_step hold_step streak
  step-Knows s none value at_ms k e = ground (arith, k, e)
  step-Knows s (some t) value at_ms k e = ground (arith, k, e)

  feed_all-Knows :
      (xs : List (F × ℕ)) (s : RuleState) (since : Option ℕ)
      → Knows s since
      → (feed_all s xs).1 ≡ replicate (length xs) false
      → Knows (feed_all s xs).0 (streak since xs)
  unfolding feed_all streak
  feed_all-Knows [] s since k e = k
  feed_all-Knows ((value, at_ms) ∷ xs) s since k e =
      let one = step-Knows s since value at_ms k (ground (arith, e)) in
      feed_all-Knows xs (rule_step floats s rule value at_ms).0 _ one (ground (arith, e))

  -- From the start, as long as the rule has not fired, it fires at a reading exactly if the condition
  -- has held, without a break and with this reading, for the whole window.
  pub fires_exactly :
      (xs : List (F × ℕ)) (value : F) (at_ms : ℕ)
      → (feed_all rule_state_init xs).1 ≡ replicate (length xs) false
      → (rule_step floats (feed_all rule_state_init xs).0 rule value at_ms).1
        ≡ due (streak (streak none xs) ((value, at_ms) ∷ [])) at_ms
  unfolding rule_state_init
  fires_exactly xs value at_ms e =
      let fresh : Knows rule_state_init none = (refl, refl, refl) in
      step_answers (feed_all rule_state_init xs).0 (streak none xs) value at_ms
        (feed_all-Knows xs rule_state_init none fresh e)
