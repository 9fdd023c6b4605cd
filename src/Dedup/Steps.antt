-- ===== src/Dedup/Steps.antt =====
-- What one call of lh_dedup_check_and_mark does to the table, where it evicts no one.
use lo_ra_home.Prelude.{
  ℕ, zero, suc, ◌<◌, ◌≡◌, ◌≢◌, refl, ap, sym, ◌∙◌, arith, List, [], ◌∷◌, ◌++◌, Bool, true, false,
  All-get_or, none, some, length, get_or, get_or-set_self, set, set-set, take, take-set,
  take-set_lt, get_or-take,
}
use lo_ra_home.Dedup.{
  Peer, Dedup, no_peer, Verdict, accepted, duplicate, too_old, find_from, find_peer, claim_peer,
  judge, count, check_new, check_known, check_and_mark,
}
use lo_ra_home.Dedup.Table.{IsValid, find_peer-Stands, judge_keeps, peers-count, peer_count-count}

abbrev pub is_accepted : Verdict → Bool
is_accepted accepted = true
is_accepted _ = false

-- The peer that a first frame leaves.
abbrev pub first_of : ℕ → ℕ → ℕ → Peer
first_of who seq now = record { src_id = who; last_seq = seq; bitmap = 1; last_seen_us = now }

-- A slot set to its own sender changes no search.
find_same :
    (ps : List Peer) (i src k : ℕ) (q : Peer)
    → q.src_id ≡ (get_or ps k no_peer).src_id
    → find_from (set ps k q) i src ≡ find_from ps i src
unfolding find_from
find_same [] i src k q h = refl
find_same (p ∷ ps) i src zero q h = rw h refl
find_same (p ∷ ps) i src (suc k) q h = rw (find_same ps (suc i) src k q h) refl

-- A sender that was found is found where it was, also in a longer table.
pub find_kept :
    (ps qs : List Peer) (i src k : ℕ)
    → find_from ps i src ≡ some k
    → find_from (ps ++ qs) i src ≡ some k
unfolding find_from
find_kept [] qs i src k e = cc
find_kept (p ∷ ps) qs i src k e = ground (arith, find_kept ps qs (suc i) src k)

pub find_other :
    (ps : List Peer) (i src : ℕ) (q : Peer)
    → find_from ps i src ≡ none
    → q.src_id ≢ src
    → find_from (ps ++ (q ∷ [])) i src ≡ none
unfolding find_from
find_other [] i src q e h = ground arith
find_other (p ∷ ps) i src q e h = ground (arith, find_other ps (suc i) src q)

count-answer : (d : Dedup) (v : Verdict) → (count d v).1 ≡ is_accepted v
unfolding count
count-answer d accepted = refl
count-answer d duplicate = refl
count-answer d too_old = refl

-- A frame of a sender at slot `k`: the slot's window judges it, and no search changes.
pub record Judged (d : Dedup) (k seq now : ℕ) (r : Dedup × Bool) : Type 0 where
  pub peers : r.0.peers ≡ set d.peers k (judge (get_or d.peers k no_peer) seq now).0
  pub answer : r.1 ≡ is_accepted (judge (get_or d.peers k no_peer) seq now).1
  pub searches : (src : ℕ) → find_peer r.0 src ≡ find_peer d src

pub known_step :
    (d : Dedup) (who k seq now : ℕ)
    → IsValid d
    → seq < 256
    → find_peer d who ≡ some k
    → Judged d k seq now (check_and_mark d who seq now)
unfolding check_and_mark check_known find_peer
known_step d who k seq now v byte e =
    let st = find_peer-Stands d who k e in
    let p = get_or d.peers k no_peer in
    let j = judge p seq now in
    let d1 = record d { peers = set d.peers k j.0 } in
    let small : p.last_seq < 256 =
      All-get_or (λ (q : Peer). q.last_seq < 256) d.peers k no_peer v.bytes (omega arith) in
    let same : j.0.src_id ≡ (get_or (take d.peer_count d.peers) k no_peer).src_id =
      (judge_keeps p seq now byte small).0
      ∙ ap (λ (x : Peer). x.src_id) (sym (get_or-take d.peers d.peer_count k no_peer st.in_use)) in
    rw (e, check_and_mark, check_known)
      (record {
        peers = peers-count d1 j.1;
        answer = count-answer d1 j.1;
        searches = λ src.
            rw
              (
                peer_count-count d1 j.1,
                peers-count d1 j.1,
                take-set_lt d.peers d.peer_count k j.0 st.in_use,
              )
              (find_same (take d.peer_count d.peers) 0 src k j.0 same);
      })

-- The first frame of a sender, where a slot is free.
pub record Joined (d : Dedup) (who seq now : ℕ) (r : Dedup × Bool) : Type 0 where
  pub peers : r.0.peers ≡ set d.peers d.peer_count (first_of who seq now)
  pub answer : r.1 ≡ true
  pub searched :
      (src : ℕ)
      → find_peer r.0 src
        ≡ find_from (take d.peer_count d.peers ++ (first_of who seq now ∷ [])) 0 src

pub new_step :
    (d : Dedup) (who seq now : ℕ)
    → IsValid d
    → find_peer d who ≡ none
    → d.peer_count < 8
    → Joined d who seq now (check_and_mark d who seq now)
unfolding check_and_mark check_new claim_peer count find_peer
new_step d who seq now v e room =
    let n = d.peer_count in
    let blank : Peer = record { src_id = who; last_seq = 0; bitmap = 0; last_seen_us = now } in
    let claimed : claim_peer d who now
        ≡ (record d { peers = set d.peers n blank; peer_count = suc n }, n) =
      ground (arith, room) in
    let inside : n < length d.peers = omega (arith, v) in
    let slot = get_or-set_self d.peers n blank no_peer inside in
    let table = set-set d.peers n blank (first_of who seq now) in
    rw (e, check_and_mark, check_new, claimed, slot, table)
      (record {
        peers = refl;
        answer = refl;
        searched = λ src. rw (take-set d.peers n (first_of who seq now) inside) refl;
      })
