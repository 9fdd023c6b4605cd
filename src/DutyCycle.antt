-- ===== src/DutyCycle.antt =====
-- firmware/bridge/src/duty_cycle_tracker.h: the airtime that the bridge has used within a window that
-- slides. `budget` is the value of `static_cast<uint32_t>(limitFraction_ * windowMs_)`, which is a
-- product of a float.
pub mod Live
pub mod Sent
pub mod Kept
pub mod Limit
use lo_ra_home.Prelude.{
  ℕ, zero, suc, ◌+◌, ◌-◌, ◌%◌, ◌^◌, List, Bool, true, false, ltb, leb, ◌==◌, if◌then◌else◌, get_or,
  set, replicate, u32,
}

-- `kCapacity`
abbrev pub capacity : ℕ
capacity = 256

-- `Entry`
pub record Entry : Type 0 where
  pub at_ms : ℕ
  pub duration_ms : ℕ

abbrev pub no_entry : Entry
no_entry = record { at_ms = 0; duration_ms = 0 }

-- `DutyCycleTracker`, without the two constants it is made with.
pub record Tracker : Type 0 where
  pub entries : List Entry
  pub head : ℕ
  pub count : ℕ
  pub used_ms : ℕ

-- A new tracker.
abbrev pub new_tracker : Tracker
new_tracker = record { entries = replicate capacity no_entry; head = 0; count = 0; used_ms = 0 }

-- `entries_[(head_ + kCapacity - count_) % kCapacity]`
abbrev pub oldest : Tracker → Entry
oldest t = get_or t.entries ((t.head + capacity - t.count) % capacity) no_entry

-- What the loop of `prune` does to the oldest entry.
abbrev pub forget : Tracker → Tracker
forget t = record t {
  used_ms = u32 (t.used_ms + 2 ^ 32 - (oldest t).duration_ms);
  count = t.count - 1;
}

-- The array behind a record.
unfoldable pub put : Tracker → ℕ → ℕ → Tracker
put t duration_ms now_ms = record t {
  entries = set t.entries t.head (record { at_ms = now_ms; duration_ms = duration_ms });
  head = (t.head + 1) % capacity;
  count = if ltb t.count capacity then t.count + 1 else t.count;
  used_ms = u32 (t.used_ms + duration_ms);
}

module _ (window_ms : ℕ) where
  -- The loop of `prune`; each round lowers the count, so as many rounds as there are entries are enough.
  unfoldable pub prune_loop : ℕ → Tracker → ℕ → Tracker
  prune_loop zero t now_ms = t
  prune_loop (suc fuel) t now_ms =
      let next = prune_loop fuel (forget t) now_ms in
      if t.count == 0
      then t
      else if leb (u32 (now_ms + 2 ^ 32 - (oldest t).at_ms)) window_ms
      then t
      else next

  -- `prune`
  unfoldable pub prune : Tracker → ℕ → Tracker
  prune t now_ms = prune_loop t.count t now_ms

module _ (window_ms budget : ℕ) where
  -- `wouldExceed`
  unfoldable pub would_exceed : Tracker → ℕ → ℕ → Tracker × Bool
  would_exceed t duration_ms now_ms =
      let pruned = prune window_ms t now_ms in
      (pruned, ltb budget (u32 (pruned.used_ms + duration_ms)))

  -- `tryRecord`
  unfoldable pub try_record : Tracker → ℕ → ℕ → Tracker × Bool
  try_record t duration_ms now_ms =
      let (t1, over) = would_exceed t duration_ms now_ms in
      if over then (t1, false) else (put t1 duration_ms now_ms, true)
