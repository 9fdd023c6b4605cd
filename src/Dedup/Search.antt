-- ===== src/Dedup/Search.antt =====
-- What the searches of dedup.c find.
use lo_ra_home.Prelude.{
  ℕ, zero, suc, ◌+◌, ◌≤◌, ◌<◌, ◌≡◌, inl, inr, arith, List, [], ◌∷◌, ◌++◌, none, some, length,
  get_or, set, ◌==◌, Bool-cases,
}
use lo_ra_home.Dedup.{Peer, no_peer, find_from, oldest_from, oldest}

-- A hit of the search lies in range and is the sender's; a slot set to the same sender stays one.
pub find_hit :
    (ps : List Peer) (i src k : ℕ)
    → find_from ps i src ≡ some k
    → (j : ℕ) × (k ≡ i + j)
      × (j < length ps)
      × ((get_or ps j no_peer).src_id ≡ src)
      × ((q : Peer) → q.src_id ≡ src → find_from (set ps j q) i src ≡ some k)
unfolding find_from
find_hit [] i src k e = cc
find_hit (p ∷ ps) i src k e = elim (Bool-cases (p.src_id == src)) [
  | inl here ↦ (0, ground arith, omega arith, ground arith, λ q h. ground arith)
  | inr there ↦
      let (j, at, small, same, again) = find_hit ps (suc i) src k (ground arith) in
      (suc j, omega arith, omega arith, same, λ q h. rw there (again q h))
]

-- Where the search finds nothing, a slot set to the sender is what it finds.
pub find_miss :
    (ps : List Peer) (i src j : ℕ) (q : Peer)
    → find_from ps i src ≡ none
    → j < length ps
    → q.src_id ≡ src
    → find_from (set ps j q) i src ≡ some (i + j)
unfolding find_from
find_miss [] i src j q e small h = absurd (omega arith)
find_miss (p ∷ ps) i src zero q e small h = ground arith
find_miss (p ∷ ps) i src (suc j) q e small h = ground (arith, find_miss ps (suc i) src j q)

pub find_snoc :
    (ps : List Peer) (i src : ℕ) (q : Peer)
    → find_from ps i src ≡ none
    → q.src_id ≡ src
    → find_from (ps ++ (q ∷ [])) i src ≡ some (i + length ps)
unfolding find_from
find_snoc [] i src q e h = ground arith
find_snoc (p ∷ ps) i src q e h = ground (arith, find_snoc ps (suc i) src q)

pub oldest_from-lt :
    (ps : List Peer) (i slot seen n : ℕ)
    → slot < n
    → i + length ps ≤ n
    → oldest_from ps i slot seen < n
unfolding oldest_from
oldest_from-lt [] i slot seen n h fits = h
oldest_from-lt (p ∷ ps) i slot seen n h fits =
    oldest_from-lt ps (suc i) _ _ n (ground arith) (omega arith)

pub oldest-lt : (ps : List Peer) → 0 < length ps → oldest ps < length ps
unfolding oldest
oldest-lt [] h = absurd (omega arith)
oldest-lt (p ∷ ps) h =
    oldest_from-lt ps 1 0 p.last_seen_us (length (p ∷ ps)) (omega arith) (omega arith)
