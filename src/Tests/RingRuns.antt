-- ===== src/Tests/RingRuns.antt =====
-- The byte ring of ring.c at concrete calls.
use lo_ra_home.Prelude.{ℕ, ◌≡◌, List, [], ◌∷◌, ◌++◌, replicate, length-replicate}
use lo_ra_home.Ring.{Ring, init, push_bytes}
use lo_ra_home.Ring.Queue.{contents}
use lo_ra_home.Ring.Push.{IsValid, init-IsValid, push_bytes_queue}
use lo_ra_home.Ring.Fifo.{Call, pushes, pops, run, fifo}

-- The counters of a ring that ran before.
abbrev used : Ring
used = record { bytes = replicate 2048 0; head = 7; tail = 9; stat_overrun = 1; stat_hwm = 5 }

abbrev fresh : Ring
fresh = init used

fresh-IsValid : IsValid fresh
fresh-IsValid = init-IsValid used (length-replicate {A = ℕ} 2048 0)

abbrev few : List ℕ
few = 4 ∷ 5 ∷ 6 ∷ []

abbrev filled : Ring
filled = (push_bytes fresh few).0

filled-IsValid : IsValid filled
filled-IsValid = (push_bytes_queue fresh few fresh-IsValid).0

abbrev calls : List Call
calls = pushes (1 ∷ 2 ∷ 3 ∷ []) ∷ pops 2 ∷ pushes (4 ∷ []) ∷ pops 9 ∷ pushes (5 ∷ 6 ∷ []) ∷ []

fifo_example :
    IsValid (run filled calls).0
    × (contents filled ++ (run filled calls).1
        ≡ (run filled calls).2 ++ contents (run filled calls).0)
fifo_example = fifo calls filled filled-IsValid
