-- ===== src/Tests/ArqRuns.antt =====
-- The ARQ of arq.c at concrete calls.
use lo_ra_home.Prelude.{
  ℕ, ◌+◌, ◌<◌, ◌≡◌, refl, arith, List, [], ◌∷◌, ◌++◌, true, none, some, All, replicate,
}
use lo_ra_home.Arq.{
  Arq, wait_ack, failed, Env, retransmit, gave_up, init, send, on_ack, tick, timeout_ms,
}
use lo_ra_home.Arq.Valid.{
  IsValid, Call, sends, acks, ticks, resets, call, run, dropped_by, init-IsValid, run-IsValid,
}
use lo_ra_home.Arq.Schedule.{late_ticks, Allows, gives_up_after}

abbrev quiet : Env
quiet = record { rand = none; allow_tx = none }

abbrev noisy : Env
noisy = record { rand = some 1499; allow_tx = some (λ n. true) }

abbrev sent : Arq
sent = (send quiet init 9 (1 ∷ 2 ∷ 3 ∷ []) 1000).0

timeouts : (timeout_ms quiet 0 ≡ 4000) × (timeout_ms noisy 5 ≡ 128499)
unfolding timeout_ms
timeouts = (refl, refl)

-- A frame that a reset drops, and one that is acknowledged.
abbrev with_reset : List Call
with_reset =
    sends quiet 9 (1 ∷ 2 ∷ []) 10
    ∷ ticks noisy 5000000
    ∷ resets
    ∷ sends quiet 10 (3 ∷ []) 6000000
    ∷ acks 10 6000001
    ∷ []

run-IsValid_example : IsValid (0 + dropped_by init with_reset) (run init with_reset)
run-IsValid_example = run-IsValid with_reset {a = init} init-IsValid

one_is_dropped : dropped_by init with_reset ≡ 1
unfolding dropped_by call send tick init timeout_ms
one_is_dropped = refl

sent_acked : (on_ack sent 9 3000).1 ≡ true
unfolding on_ack send init
sent_acked = refl

sent_taken : (send quiet init 9 (1 ∷ 2 ∷ 3 ∷ []) 1000).1 ≡ true
unfolding send init
sent_taken = refl

sent_waits : sent.state ≡ wait_ack
unfolding send init
sent_waits = refl

sent_new : sent.retry_count < 5
unfolding send init
sent_new = omega arith

abbrev late : List (Env × ℕ)
late = (quiet, 0) ∷ (noisy, 5) ∷ (quiet, 0) ∷ (quiet, 1) ∷ (quiet, 0) ∷ (noisy, 2) ∷ []

sent_fresh : sent.retry_count + 5 ≡ 5
unfolding send init
sent_fresh = refl

late-Allows : All (Allows sent.pending_len) late
unfolding send init
late-Allows = (refl, (refl, (refl, (refl, (refl, (refl, tt))))))

gives_up_after_example :
    ((late_ticks sent late).1 ≡ replicate 5 retransmit ++ (gave_up ∷ []))
    × ((late_ticks sent late).0.state ≡ failed)
gives_up_after_example = gives_up_after 5 late sent sent_waits sent_fresh refl late-Allows
