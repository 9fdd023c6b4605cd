-- ===== src/Arq/Valid.antt =====
-- The invariant of the ARQ, and its bookkeeping over any sequence of calls.
use lo_ra_home.Prelude.{
  ℕ, ◌+◌, ◌%◌, ◌^◌, ◌≤◌, ◌<◌, ◌≡◌, subst, arith, List, [], ◌∷◌, length, length-append, length-drop,
  drop, length-replicate,
}
use lo_ra_home.Arq.{Arq, State, wait_ack, Env, init, reset, send, on_ack, tick}

-- While a frame is in flight its length is one that `lh_arq_send` takes.
abbrev pub InFlight : State → ℕ → Type 0
InFlight wait_ack n = (0 < n) × (n ≤ 230)
InFlight _ n = Unit {0}

-- 1 while a frame is in flight.
abbrev pub flying : State → ℕ
flying wait_ack = 1
flying _ = 0

-- Attempts are bounded, a frame in flight lies in the buffer, and every frame sent was
-- acknowledged, given up, one of the `dropped` that a reset took back, or is in flight (counters are
-- `uint32_t`).
pub record IsValid (dropped : ℕ) (a : Arq) : Type 0 where
  pub attempts : a.retry_count ≤ 5
  pub buffer : length a.pending ≡ 230
  pub in_flight : InFlight a.state a.pending_len
  pub accounted : a.stat_sent ≡ (a.stat_acked + a.stat_giveups + dropped + flying a.state) % 2 ^ 32

pub init-IsValid : IsValid 0 init
unfolding init
init-IsValid = omega (arith, length-replicate {A = ℕ} 230 0)

pub send-IsValid :
    {dropped : ℕ} {a : Arq} (env : Env) (seq : ℕ) (frame : List ℕ) (now : ℕ)
    → IsValid dropped a
    → IsValid dropped (send env a seq frame now).0
unfolding send
send-IsValid {a = a} env seq frame now v = ground (
  arith,
  v,
  length-append frame (drop (length frame) a.pending),
  length-drop (length frame) a.pending,
)

pub on_ack-IsValid :
    {dropped : ℕ} {a : Arq} (seq now : ℕ) → IsValid dropped a → IsValid dropped (on_ack a seq now).0
unfolding on_ack
on_ack-IsValid seq now v = ground arith

pub tick-IsValid :
    {dropped : ℕ} {a : Arq} (env : Env) (now : ℕ)
    → IsValid dropped a
    → IsValid dropped (tick env a now).0
unfolding tick
tick-IsValid env now v = ground arith

-- A reset takes back the frame in flight.
pub reset-IsValid :
    {dropped : ℕ} {a : Arq} → IsValid dropped a → IsValid (dropped + flying a.state) (reset a)
unfolding reset
reset-IsValid v = omega (arith, v)

-- The calls that the owner of an ARQ makes, with the answers of the callbacks.
pub data Call : Type 0 where
  sends : Env → ℕ → List ℕ → ℕ → Call
  acks : ℕ → ℕ → Call
  ticks : Env → ℕ → Call
  resets : Call

unfoldable pub call : Arq → Call → Arq
call a (sends env seq frame now) = (send env a seq frame now).0
call a (acks seq now) = (on_ack a seq now).0
call a (ticks env now) = (tick env a now).0
call a resets = reset a

unfoldable pub run : Arq → List Call → Arq
run a [] = a
run a (c ∷ cs) = run (call a c) cs

-- How many frames the resets of a run found in flight.
unfoldable pub dropped_by : Arq → List Call → ℕ
dropped_by a [] = 0
dropped_by a (resets ∷ cs) = flying a.state + dropped_by (call a resets) cs
dropped_by a (c ∷ cs) = dropped_by (call a c) cs

-- From a valid state, whatever is called in whatever order, no frame is lost from the 32-bit books:
-- each that was taken is acknowledged, given up, dropped by a reset that found it in flight, or still
-- in flight, with at most five retransmissions behind it.
pub run-IsValid :
    (calls : List Call) {dropped : ℕ} {a : Arq}
    → IsValid dropped a
    → IsValid (dropped + dropped_by a calls) (run a calls)
unfolding run dropped_by call
run-IsValid [] {dropped} {a} v = subst (λ n. IsValid n a) {x = dropped} (omega arith) v
run-IsValid (sends env seq frame now ∷ cs) v = run-IsValid cs (send-IsValid env seq frame now v)
run-IsValid (acks seq now ∷ cs) v = run-IsValid cs (on_ack-IsValid seq now v)
run-IsValid (ticks env now ∷ cs) v = run-IsValid cs (tick-IsValid env now v)
run-IsValid (resets ∷ cs) {dropped} {a} v =
    subst (λ n. IsValid n (run (reset a) cs))
      {x = dropped + flying a.state + dropped_by (reset a) cs} (omega arith)
      (run-IsValid cs (reset-IsValid v))
