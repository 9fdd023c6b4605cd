-- ===== src/Dedup.antt =====
-- firmware/common/include/lorahome/dedup.h and firmware/common/src/dedup.c: duplicate suppression
-- per sender. A pointer into the peer table is an index; times are natural numbers of microseconds.
pub mod Window
pub mod Stream
pub mod Search
pub mod Table
pub mod Steps
pub mod Others
pub mod Senders
use lo_ra_home.Prelude.{
  ℕ, suc, ◌+◌, ◌-◌, ◌*◌, ◌%◌, List, [], ◌∷◌, Bool, true, false, not, Option, none, some, bit_and,
  bit_or, u32, inc32, ◌<<<◌, ltb, leb, ◌==◌, if◌then◌else◌, get_or, set, take, replicate, ℤ, int8,
  is_positive, to_u8, negated_u8,
}

-- `LH_DEDUP_WINDOW` and `LH_DEDUP_PEERS`
abbrev pub window : ℕ
window = 32

abbrev pub max_peers : ℕ
max_peers = 8

-- `lh_dedup_peer_t`
pub record Peer : Type 0 where
  pub src_id : ℕ
  pub last_seq : ℕ
  pub bitmap : ℕ
  pub last_seen_us : ℕ

-- `lh_dedup_t`; `peers` has `max_peers` elements.
pub record Dedup : Type 0 where
  pub peers : List Peer
  pub peer_count : ℕ
  pub stat_dupes_dropped : ℕ
  pub stat_too_old : ℕ
  pub stat_peer_evicted : ℕ
  pub stat_accepted : ℕ

abbrev pub no_peer : Peer
no_peer = record { src_id = 0; last_seq = 0; bitmap = 0; last_seen_us = 0 }

-- `lh_dedup_init`
unfoldable pub init : Dedup
init = record {
  peers = replicate max_peers no_peer;
  peer_count = 0;
  stat_dupes_dropped = 0;
  stat_too_old = 0;
  stat_peer_evicted = 0;
  stat_accepted = 0;
}

-- `seq_delta`: `(int8_t)((uint8_t)(seq - reference))`
unfoldable pub seq_delta : ℕ → ℕ → ℤ
seq_delta seq reference = int8 ((seq + 256 - reference) % 256)

-- The loop of `find_peer` over the peers from index `i` on.
unfoldable pub find_from : List Peer → ℕ → ℕ → Option ℕ
find_from [] i src = none
find_from (p ∷ ps) i src =
    let rest = find_from ps (suc i) src in if p.src_id == src then some i else rest

-- `find_peer`, and `lh_dedup_find_peer`
unfoldable pub find_peer : Dedup → ℕ → Option ℕ
find_peer d src = find_from (take d.peer_count d.peers) 0 src

-- The eviction loop of `claim_peer`: `slot` is the best so far, last seen at `seen`.
unfoldable pub oldest_from : List Peer → ℕ → ℕ → ℕ → ℕ
oldest_from [] i slot seen = slot
oldest_from (p ∷ ps) i slot seen =
    let better = ltb p.last_seen_us seen in
    oldest_from ps (suc i) (if better then i else slot) (if better then p.last_seen_us else seen)

unfoldable pub oldest : List Peer → ℕ
oldest [] = 0
oldest (p ∷ ps) = oldest_from ps 1 0 p.last_seen_us

-- `claim_peer`: the table with the slot claimed, and the slot.
unfoldable pub claim_peer : Dedup → ℕ → ℕ → Dedup × ℕ
claim_peer d src now_us =
    let fresh : Peer = record { src_id = src; last_seq = 0; bitmap = 0; last_seen_us = now_us } in
    if ltb d.peer_count max_peers
    then (
      record d { peers = set d.peers d.peer_count fresh; peer_count = (d.peer_count + 1) % 256 },
      d.peer_count,
    )
    else let slot = oldest d.peers in
      (
        record d { peers = set d.peers slot fresh; stat_peer_evicted = inc32 d.stat_peer_evicted },
        slot,
      )

-- What the window says of a frame.
pub data Verdict : Type 0 where
  accepted duplicate too_old : Verdict

-- The window of a known peer, from `peer->last_seen_us = now_us` on.
unfoldable pub judge : Peer → ℕ → ℕ → Peer × Verdict
judge peer seq now_us =
    let seen = record peer { last_seen_us = now_us } in
    let delta = seq_delta seq peer.last_seq in
    if is_positive delta
    then (let slid = if leb window (to_u8 delta) then 0 else u32 (peer.bitmap <<< to_u8 delta) in
        (record seen { bitmap = bit_or slid 1; last_seq = seq }, accepted))
    else let age = negated_u8 delta in
      if leb window age
      then (seen, too_old)
      else let mask = u32 (1 <<< age) in
        if not (bit_and peer.bitmap mask == 0)
        then (seen, duplicate)
        else (record seen { bitmap = bit_or peer.bitmap mask }, accepted)

-- The counter of a verdict, and what `lh_dedup_check_and_mark` returns.
unfoldable pub count : Dedup → Verdict → Dedup × Bool
count d accepted = (record d { stat_accepted = inc32 d.stat_accepted }, true)
count d duplicate = (record d { stat_dupes_dropped = inc32 d.stat_dupes_dropped }, false)
count d too_old = (record d { stat_too_old = inc32 d.stat_too_old }, false)

-- The branch for a sender that is not in the table.
unfoldable pub check_new : Dedup → ℕ → ℕ → ℕ → Dedup × Bool
check_new d src seq now_us =
    let (d', slot) = claim_peer d src now_us in
    let peer = record (get_or d'.peers slot no_peer) { last_seq = seq; bitmap = 1 } in
    count (record d' { peers = set d'.peers slot peer }) accepted

-- The branch for the sender at `slot`.
unfoldable pub check_known : Dedup → ℕ → ℕ → ℕ → Dedup × Bool
check_known d slot seq now_us =
    let (peer, verdict) = judge (get_or d.peers slot no_peer) seq now_us in
    count (record d { peers = set d.peers slot peer }) verdict

-- `lh_dedup_check_and_mark`
unfoldable pub check_and_mark : Dedup → ℕ → ℕ → ℕ → Dedup × Bool
check_and_mark d src seq now_us = elim (find_peer d src) [
  | none ↦ check_new d src seq now_us
  | some slot ↦ check_known d slot seq now_us
]
