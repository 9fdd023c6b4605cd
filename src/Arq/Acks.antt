-- ===== src/Arq/Acks.antt =====
-- What an acknowledgement does, and what it must not do.
use lo_ra_home.Prelude.{ℕ, ◌≡◌, ◌≢◌, arith, List, true, false, inc32}
use lo_ra_home.Arq.{Arq, wait_ack, done, Env, send, on_ack}

-- An ACK that completes a frame finds it in flight under the same sequence number, and the same ACK
-- once more is refused and changes nothing but the count of stray ones.
pub on_ack_once :
    (a : Arq) (seq now later : ℕ)
    → (on_ack a seq now).1 ≡ true
    → (a.state ≡ wait_ack)
      × (seq ≡ a.seq)
      × ((on_ack a seq now).0.state ≡ done)
      × (on_ack (on_ack a seq now).0 seq later ≡ (
        record (on_ack a seq now).0 {
          stat_stray_acks = inc32 (on_ack a seq now).0.stat_stray_acks;
        },
        false,
      ))
unfolding on_ack
on_ack_once a seq now later h = ground arith

-- A straggler cannot acknowledge the next frame: when a frame was just sent, an ACK of any other
-- sequence number is refused and changes nothing but the count of stray ones.
pub late_ack :
    (a : Arq) (env : Env) (old new : ℕ) (frame : List ℕ) (now later : ℕ)
    → (send env a new frame now).1 ≡ true
    → old ≢ new
    → let s = (send env a new frame now).0 in
      ((on_ack s old later).1 ≡ false)
      × ((on_ack s old later).0 ≡ record s { stat_stray_acks = inc32 s.stat_stray_acks })
unfolding send on_ack
late_ack a env old new frame now later h ne = ground arith
