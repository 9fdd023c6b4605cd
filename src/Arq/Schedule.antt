-- ===== src/Arq/Schedule.antt =====
-- The retransmission schedule: backoff, deferral by the duty cycle, and giving up.
use lo_ra_home.Prelude.{
  ℕ, zero, suc, ◌+◌, ◌*◌, ◌^◌, ◌≤◌, ◌<◌, ◌≡◌, ◌≢◌, arith, List, [], ◌∷◌, ◌++◌, false, All, length,
  replicate, ◌∙◌,
}
use native.Mathlib.Nat.{pow-le-pow_right, pow-suc, one-le-pow}
use lo_ra_home.Arq.{
  Arq, wait_ack, failed, Env, Action, retransmit, gave_up, deferred, tick, timeout_ms, vetoed,
}

-- The delay before retransmission `n` is `4000 * 2 ^ n` ms and up to half a second of jitter,
-- whatever the generator draws; from the fifth on it no longer grows.
pub timeout_bounds :
    (env : Env) (n : ℕ)
    → n ≤ 5
    → (4000 * 2 ^ n ≤ timeout_ms env n) × (timeout_ms env n < 4000 * 2 ^ n + 500)
unfolding timeout_ms
timeout_bounds env n h = ground (arith, pow-le-pow_right {n = 2} (omega arith) h)

pub timeout_capped : (env : Env) (n : ℕ) → 5 ≤ n → timeout_ms env n ≡ timeout_ms env 5
unfolding timeout_ms
timeout_capped env n h = ground arith

-- However the two delays are jittered, of two consecutive attempts up to the last one the later one
-- waits longer.
pub backoff_grows : (env env' : Env) (n : ℕ) → n < 5 → timeout_ms env n < timeout_ms env' (suc n)
backoff_grows env env' n h = omega (
  arith,
  timeout_bounds env n (omega arith),
  timeout_bounds env' (suc n) h,
  pow-suc 2 n,
  one-le-pow n 2 (omega arith),
)

-- The attempts that a tick used up, and the deadline that it leaves.
abbrev pub used : Action → ℕ
used retransmit = 1
used _ = 0

abbrev pub deadline : Env → Arq → ℕ → Action → ℕ
deadline env a now retransmit = now + timeout_ms env (suc a.retry_count) * 1000
deadline env a now deferred = now + 250000
deadline env a now _ = a.next_retry_us

-- The frame in flight, and that it is in flight.
pub record SameFrame (a' a : Arq) : Type 0 where
  pub same_state : a'.state ≡ a.state
  pub same_seq : a'.seq ≡ a.seq
  pub same_bytes : a'.pending ≡ a.pending
  pub same_len : a'.pending_len ≡ a.pending_len

-- While attempts are left a tick never gives the frame up: the frame stays in flight unchanged,
-- only a retransmission uses up an attempt, a deferral uses up none and asks again after 250 ms,
-- and the deadline moves with the action alone.
pub tick_in_flight :
    (env : Env) (a : Arq) (now : ℕ)
    → a.state ≡ wait_ack
    → a.retry_count < 5
    → SameFrame (tick env a now).0 a
      × ((tick env a now).0.retry_count ≡ a.retry_count + used (tick env a now).1)
      × ((tick env a now).0.next_retry_us ≡ deadline env a now (tick env a now).1)
      × ((tick env a now).1 ≢ gave_up)
unfolding tick
tick_in_flight env a now e h = ground arith

-- Ticks that come at or after each deadline, by the delays in the list, with what they lead to.
unfoldable pub late_ticks : Arq → List (Env × ℕ) → Arq × List Action
late_ticks a [] = (a, [])
late_ticks a ((env, delay) ∷ more) =
    let t = tick env a (a.next_retry_us + delay) in
    let rest = late_ticks t.0 more in (rest.0, t.1 ∷ rest.1)

-- A duty cycle guard that lets the frame through, or none.
abbrev pub Allows : ℕ → Env × ℕ → Type 0
Allows n (env, delay) = vetoed env.allow_tx n ≡ false

tick_due :
    (env : Env) (a : Arq) (delay : ℕ)
    → a.state ≡ wait_ack
    → a.retry_count < 5
    → vetoed env.allow_tx a.pending_len ≡ false
    → ((tick env a (a.next_retry_us + delay)).1 ≡ retransmit)
      × SameFrame (tick env a (a.next_retry_us + delay)).0 a
      × ((tick env a (a.next_retry_us + delay)).0.retry_count ≡ suc a.retry_count)
unfolding tick
tick_due env a delay e h ok = ground arith

tick_last :
    (env : Env) (a : Arq) (delay : ℕ)
    → a.state ≡ wait_ack
    → 5 ≤ a.retry_count
    → ((tick env a (a.next_retry_us + delay)).1 ≡ gave_up)
      × ((tick env a (a.next_retry_us + delay)).0.state ≡ failed)
unfolding tick
tick_last env a delay e h = ground arith

-- If no ACK comes and the guard lets the frame through, a frame with `left` attempts left goes out
-- exactly `left` times more, however late the ticks are, and the next tick gives it up.
pub gives_up_after :
    (left : ℕ) (ticks : List (Env × ℕ)) (a : Arq)
    → a.state ≡ wait_ack
    → a.retry_count + left ≡ 5
    → length ticks ≡ suc left
    → All (Allows a.pending_len) ticks
    → ((late_ticks a ticks).1 ≡ replicate left retransmit ++ (gave_up ∷ []))
      × ((late_ticks a ticks).0.state ≡ failed)
unfolding late_ticks
gives_up_after zero ((env, delay) ∷ []) a e h n ok = ground (arith, tick_last env a delay)
gives_up_after zero [] a e h n ok = absurd (omega arith)
gives_up_after zero (t ∷ u ∷ ts) a e h n ok = absurd (omega arith)
gives_up_after (suc left) [] a e h n ok = absurd (omega arith)
gives_up_after (suc left) ((env, delay) ∷ ts) a e h n ok =
    let (acts, same, count) = tick_due env a delay e (omega arith) ok.0 in
    let a' = (tick env a (a.next_retry_us + delay)).0 in
    let (list, last) =
      gives_up_after left ts a' (same.same_state ∙ e) (omega arith) (omega arith)
        (rw same.same_len ok.1) in
    (cc, last)
