-- ===== src/Frag/Assembly.antt =====
-- The fragments of one configuration, in any order and repeated at will, put together by frag.c.
use native.Mathlib.Decide.{ℕ_discrete}
use lo_ra_home.Prelude.{
  ℕ, ◌≤◌, ◌<◌, ◌≡◌, ◌≢◌, refl, arith, List, [], ◌∷◌, true, false, ◌||◌, length, take, All, IsU16,
  inl, inr,
}
use lo_ra_home.Frag.{Reassembler, FragResult, complete, frag_count, frag_feed}
use lo_ra_home.Frag.Sent.{has, sent, Partial}
use lo_ra_home.Frag.Opening.{InTime, Ready, opened}
use lo_ra_home.Frag.Stored.{Waits, stored-Waits, stored_last}

-- The indices of the fragments that are fed.
abbrev pub indices : List (ℕ × ℕ) → List ℕ
indices [] = []
indices ((index, now) ∷ xs) = index ∷ indices xs

module _ (cfg_id : ℕ) (config : List ℕ) where
  -- The fragments are fed one after the other, each at its time; the answers.
  pub feed_all : Reassembler → List (ℕ × ℕ) → Reassembler × List FragResult
  feed_all r [] = (r, [])
  feed_all r ((index, now) ∷ xs) =
      let (r1, answer) = frag_feed r (sent cfg_id config index) now in
      let (r2, answers) = feed_all r1 xs in (r2, answer ∷ answers)

  module _ (id : IsU16 cfg_id) (fits : length config ≤ 1600) (lo : ℕ) where
    -- The fragments that are in an assembly behind a run.
    abbrev fed : List ℕ → List (ℕ × ℕ) → List ℕ
    fed seen [] = seen
    fed seen ((index, now) ∷ xs) = fed (index ∷ seen) xs

    has-fed :
        (seen : List ℕ) (xs : List (ℕ × ℕ)) (k : ℕ)
        → has (fed seen xs) k ≡ (has seen k || has (indices xs) k)
    has-fed seen [] k = ground arith
    has-fed seen ((index, now) ∷ xs) k = ground (arith, has-fed (index ∷ seen) xs k)

    run-Waits :
        (seen : List ℕ) (r : Reassembler) (xs : List (ℕ × ℕ)) (m : ℕ)
        → Ready cfg_id config id fits lo seen r
        → All (InTime cfg_id config lo) xs
        → m < frag_count (length config)
        → has seen m ≡ false
        → has (indices xs) m ≡ false
        → Ready cfg_id config id fits lo (fed seen xs) (feed_all r xs).0
          × All Waits (feed_all r xs).1
    unfolding feed_all
    run-Waits seen r [] m ready t h new missing = (ready, tt)
    run-Waits seen r ((index, now) ∷ xs) m ready t h new missing =
        let o = opened cfg_id config id fits lo seen r index now ready t.0 in
        let w =
          stored-Waits cfg_id config fits lo seen o.0 index m o.1 t.0.0 h
            (ground (arith, new, missing)) in
        let next = frag_feed r (sent cfg_id config index) now in
        let after : Partial cfg_id config lo (index ∷ seen) next.0 × Waits next.1 = rw o.2 w in
        let rest =
          run-Waits (index ∷ seen) next.0 xs m (inl after.0) t.1 h (ground (arith, new, missing))
            (ground (arith, missing)) in
        (rest.0, (after.1, rest.1))

    -- An idle reassembler is fed the fragments of a configuration of at most 1600 bytes within the
    -- timeout, in any order and repeated at will, but for one of them: every answer is to go on or that the
    -- fragment was there already. With the fragment that was missing the configuration is complete: the
    -- array holds it and `total_len` is its length.
    pub assembles :
        (r : Reassembler) (xs : List (ℕ × ℕ)) (last now : ℕ)
        → r.active ≡ false
        → length r.buf ≡ 1600
        → All (InTime cfg_id config lo) xs
        → InTime cfg_id config lo (last, now)
        → has (indices xs) last ≡ false
        → ((k : ℕ) → k < frag_count (length config) → k ≢ last → has (indices xs) k ≡ true)
        → All Waits (feed_all r xs).1
          × ((frag_feed (feed_all r xs).0 (sent cfg_id config last) now).1 ≡ complete)
          × (take (length config) (frag_feed (feed_all r xs).0 (sent cfg_id config last) now).0.buf
              ≡ config)
          × ((frag_feed (feed_all r xs).0 (sent cfg_id config last) now).0.total_len
              ≡ length config)
    assembles r xs last now idle size t u missing others =
        let run = run-Waits [] r xs last (inr (refl, idle, size)) t u.0 refl missing in
        let o = opened cfg_id config id fits lo (fed [] xs) (feed_all r xs).0 last now run.0 u in
        let all : (k : ℕ) → k < frag_count (length config) → has (last ∷ fed [] xs) k ≡ true =
          λ k h. elim (ℕ_discrete k last) [
            | yes e ↦ ground (arith, e)
            | no ne ↦ ground (arith, ne, has-fed [] xs k, others k h ne)
          ] in
        let end =
          stored_last cfg_id config fits lo (fed [] xs) o.0 last o.1 u.0
            (ground (arith, has-fed [] xs last, missing)) all in
        (run.1, rw o.2 end.0, rw o.2 end.1, rw o.2 end.2)
