-- ===== src/Tests/DedupRuns.antt =====
-- The duplicate window of dedup.c at concrete frames.
use lo_ra_home.Prelude.{ℕ, ◌%◌, ◌≡◌, refl, arith, List, [], ◌∷◌, true, false, ◌&&◌, ◌==◌}
use lo_ra_home.Dedup.{
  Peer, judge, seq_delta, init, check_and_mark, check_new, check_known, count, claim_peer,
  find_peer, find_from,
}
use lo_ra_home.Dedup.Window.{Tracks, Refines, judge-Refines}
use lo_ra_home.Dedup.Stream.{accepted_of, Distinct, first-Tracks}
use lo_ra_home.Dedup.Senders.{accepted_from, evicts_none, never_twice}
use lo_ra_home.Dedup.Table.{IsValid, init-IsValid, accepted_once}

-- Frame 255 is the newest.
abbrev peer : Peer
peer = record { src_id = 3; last_seq = 255; bitmap = 1; last_seen_us = 0 }

peer-Tracks : Tracks peer 255 (λ x. x == 255)
peer-Tracks = first-Tracks peer 255 refl refl

judge-Refines_example : Refines 255 (λ x. x == 255) 257 (judge peer (257 % 256) 10)
judge-Refines_example = judge-Refines peer 255 257 10 (λ x. x == 255) peer-Tracks (omega arith)

abbrev arrivals : List (ℕ × ℕ)
arrivals = (257, 1) ∷ (256, 2) ∷ (257, 3) ∷ (255, 4) ∷ (300, 5) ∷ []

accepted_run : accepted_of peer arrivals ≡ 257 ∷ 256 ∷ 300 ∷ []
unfolding accepted_of judge seq_delta
accepted_run = refl

-- Two senders, with a repetition of each, a reordered frame, and one number that both use.
abbrev mixed : List (ℕ × ℕ × ℕ)
mixed =
    (7, 300, 1)
    ∷ (9, 301, 2)
    ∷ (7, 302, 3)
    ∷ (7, 300, 4)
    ∷ (9, 301, 5)
    ∷ (7, 301, 6)
    ∷ (7, 302, 7)
    ∷ []

mixed_fits : evicts_none init mixed ≡ true
unfolding evicts_none check_and_mark check_new check_known count claim_peer find_peer find_from init
    judge seq_delta
mixed_fits = refl

mixed_run : accepted_from 7 init mixed ≡ 300 ∷ 302 ∷ 301 ∷ []
unfolding accepted_from check_and_mark check_new check_known count claim_peer find_peer find_from
    init judge seq_delta
mixed_run = refl

never_twice_example : Distinct (accepted_from 7 init mixed)
never_twice_example = never_twice mixed 7 mixed_fits (omega arith)

first_accepted : (check_and_mark init 7 200 10).1 ≡ true
unfolding check_and_mark check_new count claim_peer find_peer find_from init
first_accepted = refl

accepted_once_example :
    IsValid (check_and_mark init 7 200 10).0
    × (((check_and_mark init 7 200 10).1
          && (check_and_mark (check_and_mark init 7 200 10).0 7 200 20).1)
        ≡ false)
accepted_once_example = accepted_once init 7 200 10 20 init-IsValid (omega arith)
