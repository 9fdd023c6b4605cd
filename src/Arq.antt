-- ===== src/Arq.antt =====
-- firmware/common/include/lorahome/arq.h and firmware/common/src/arq.c: stop-and-wait delivery.
-- Times are microseconds of one clock that does not run backwards past zero: natural numbers.
-- The source subtracts two times only where it tests the result for being positive, which `-` on
-- natural numbers answers alike. The two callbacks are the fields of `Env`.
pub mod Valid
pub mod Schedule
pub mod Acks
use lo_ra_home.Prelude.{
  ℕ, ◌+◌, ◌-◌, ◌*◌, ◌/◌, ◌%◌, List, ◌++◌, Bool, true, false, ◌&&◌, ◌||◌, not, Option, none, some,
  u16, u32, inc32, ◌<<<◌, ltb, leb, ◌==◌, if◌then◌else◌, length, take, drop, replicate,
}
use lo_ra_home.Frame.{max_frame_size}

abbrev pub max_retries : ℕ
max_retries = 5

abbrev pub base_timeout_ms : ℕ
base_timeout_ms = 4000

abbrev pub jitter_ms : ℕ
jitter_ms = 500

abbrev pub defer_retry_ms : ℕ
defer_retry_ms = 250

-- `lh_arq_state_t`
pub data State : Type 0 where
  idle wait_ack done failed : State

-- `lh_arq_action_t`
pub data Action : Type 0 where
  nothing retransmit gave_up deferred : Action

-- What the callbacks answer if this call asks them: the `uint32_t` of `rand_fn`, or `none` where no
-- generator is installed, and what `allow_tx` says of a length, or `none` where no guard is.
pub record Env : Type 0 where
  pub rand : Option ℕ
  pub allow_tx : Option (ℕ → Bool)

-- `lh_arq_t`. The callbacks stand in `Env`; `pending` is the array of `max_frame_size` bytes.
pub record Arq : Type 0 where
  pub state : State
  pub seq : ℕ
  pub retry_count : ℕ
  pub pending_len : ℕ
  pub next_retry_us : ℕ
  pub sent_at_us : ℕ
  pub stat_sent : ℕ
  pub stat_retries : ℕ
  pub stat_acked : ℕ
  pub stat_giveups : ℕ
  pub stat_deferred : ℕ
  pub stat_stray_acks : ℕ
  pub stat_rtt_sum_ms : ℕ
  pub stat_rtt_count : ℕ
  pub pending : List ℕ

-- `lh_arq_init`
unfoldable pub init : Arq
init = record {
  state = idle;
  seq = 0;
  retry_count = 0;
  pending_len = 0;
  next_retry_us = 0;
  sent_at_us = 0;
  stat_sent = 0;
  stat_retries = 0;
  stat_acked = 0;
  stat_giveups = 0;
  stat_deferred = 0;
  stat_stray_acks = 0;
  stat_rtt_sum_ms = 0;
  stat_rtt_count = 0;
  pending = replicate max_frame_size 0;
}

-- `lh_arq_timeout_ms`
unfoldable pub timeout_ms : Env → ℕ → ℕ
timeout_ms env retry =
    let capped = if ltb max_retries retry then max_retries else retry in
    let base = u32 (base_timeout_ms <<< capped) in
    elim env.rand [ none ↦ base | some r ↦ u32 (base + r % jitter_ms) ]

-- `lh_arq_reset`
unfoldable pub reset : Arq → Arq
reset a = record a {
  state = idle;
  seq = 0;
  retry_count = 0;
  pending_len = 0;
  next_retry_us = 0;
  sent_at_us = 0;
}

abbrev pub is_wait_ack : State → Bool
is_wait_ack wait_ack = true
is_wait_ack _ = false

-- `lh_arq_send`, for a frame of `len = length frame` bytes.
unfoldable pub send : Env → Arq → ℕ → List ℕ → ℕ → Arq × Bool
send env a seq frame now_us =
    if is_wait_ack a.state
    then (a, false)
    else if length frame == 0 || ltb max_frame_size (length frame)
    then (a, false)
    else (
      record a {
        pending = frame ++ drop (length frame) a.pending;
        pending_len = length frame;
        seq = seq;
        retry_count = 0;
        state = wait_ack;
        sent_at_us = now_us;
        next_retry_us = now_us + timeout_ms env 0 * 1000;
        stat_sent = inc32 a.stat_sent;
      },
      true,
    )

-- The round trip of an acknowledged frame goes into the mean.
unfoldable pub note_rtt : Arq → ℕ → Arq
note_rtt a now_us =
    let rtt_us = now_us - a.sent_at_us in
    if ltb 0 rtt_us
    then record a {
      stat_rtt_sum_ms = u32 (a.stat_rtt_sum_ms + u32 (rtt_us / 1000));
      stat_rtt_count = inc32 a.stat_rtt_count;
    }
    else a

-- `lh_arq_on_ack`
unfoldable pub on_ack : Arq → ℕ → ℕ → Arq × Bool
unfolding note_rtt
on_ack a seq now_us =
    if not (is_wait_ack a.state) || not (seq == a.seq)
    then (record a { stat_stray_acks = inc32 a.stat_stray_acks }, false)
    else let a' = note_rtt a now_us in
      (record a' { stat_acked = inc32 a'.stat_acked; state = done; pending_len = 0 }, true)

-- `arq->allow_tx != NULL && !arq->allow_tx(user, pending_len)`
abbrev pub vetoed : Option (ℕ → Bool) → ℕ → Bool
vetoed none n = false
vetoed (some allow) n = not (allow n)

-- `lh_arq_tick`: the action, with the bytes that `frame_out` and `len_out` show on a retransmission.
unfoldable pub tick : Env → Arq → ℕ → Arq × Action × Option (List ℕ)
tick env a now_us =
    if not (is_wait_ack a.state)
    then (a, nothing, none)
    else if ltb now_us a.next_retry_us
    then (a, nothing, none)
    else if leb max_retries a.retry_count
    then (record a { state = failed; stat_giveups = inc32 a.stat_giveups }, gave_up, none)
    else if vetoed env.allow_tx a.pending_len
    then (
      record a {
        next_retry_us = now_us + defer_retry_ms * 1000;
        stat_deferred = inc32 a.stat_deferred;
      },
      deferred,
      none,
    )
    else let retry = (a.retry_count + 1) % 256 in
      (
        record a {
          retry_count = retry;
          stat_retries = inc32 a.stat_retries;
          next_retry_us = now_us + timeout_ms env retry * 1000;
        },
        retransmit,
        some (take a.pending_len a.pending),
      )

-- `lh_arq_mean_rtt_ms`
unfoldable pub mean_rtt_ms : Arq → ℕ
mean_rtt_ms a = if a.stat_rtt_count == 0 then 0 else a.stat_rtt_sum_ms / a.stat_rtt_count
