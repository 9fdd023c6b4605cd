-- ===== src/Dedup/Others.antt =====
-- What a frame of one sender leaves of another, where no one is evicted.
use lo_ra_home.Prelude.{
  ℕ, ◌<◌, ◌≡◌, ◌≢◌, ap, sym, ◌∙◌, arith, List, [], ◌∷◌, Bool, true, false, ◌||◌, Option, none, some,
  Option-cases, inl, inr, get_or, get_or-set_ne, take, ltb,
}
use lo_ra_home.Dedup.{Peer, Dedup, no_peer, find_peer, check_and_mark}
use lo_ra_home.Dedup.Table.{IsValid, find_peer-Stands}
use lo_ra_home.Dedup.Steps.{first_of, find_kept, find_other, known_step, new_step}

abbrev pub has_peer : Option ℕ → Bool
has_peer none = false
has_peer (some k) = true

-- What is left of the search for a sender by a frame of another one.
pub record Left (d : Dedup) (src : ℕ) (d' : Dedup) : Type 0 where
  pub search : find_peer d' src ≡ find_peer d src
  pub window :
      (k : ℕ) → find_peer d src ≡ some k → get_or d'.peers k no_peer ≡ get_or d.peers k no_peer

other_known :
    (d : Dedup) (src who k q now : ℕ)
    → IsValid d
    → q < 256
    → who ≢ src
    → find_peer d who ≡ some k
    → Left d src (check_and_mark d who q now).0
other_known d src who k q now v byte ne e =
    let j = known_step d who k q now v byte e in
    let st = find_peer-Stands d who k e in
    record {
      search = j.searches src;
      window = λ m f.
          let other = find_peer-Stands d src m f in
          let apart : k ≢ m = λ same.
            ne (sym st.named ∙ ap (λ i. (get_or d.peers i no_peer).src_id) same ∙ other.named) in
          ap (λ (l : List Peer). get_or l m no_peer) j.peers
          ∙ get_or-set_ne d.peers k m _ no_peer apart;
    }

other_new :
    (d : Dedup) (src who q now : ℕ)
    → IsValid d
    → who ≢ src
    → find_peer d who ≡ none
    → d.peer_count < 8
    → Left d src (check_and_mark d who q now).0
unfolding find_peer
other_new d src who q now v ne e room =
    let j = new_step d who q now v e room in
    let known = take d.peer_count d.peers in
    record {
      search = j.searched src ∙ (elim (Option-cases (find_peer d src)) [
        | inl f ↦ find_other known 0 src (first_of who q now) f ne ∙ sym f
        | inr (m, f) ↦ find_kept known (first_of who q now ∷ []) 0 src m f ∙ sym f
      ]);
      window = λ m f.
          let other = find_peer-Stands d src m f in
          ap (λ (l : List Peer). get_or l m no_peer) j.peers
          ∙ get_or-set_ne d.peers d.peer_count m _ no_peer
              (λ same. absurd (omega (arith, other.in_use)));
    }

pub other_step :
    (d : Dedup) (src who q now : ℕ)
    → IsValid d
    → q < 256
    → who ≢ src
    → (has_peer (find_peer d who) || ltb d.peer_count 8) ≡ true
    → Left d src (check_and_mark d who q now).0
other_step d src who q now v byte ne h = elim (Option-cases (find_peer d who)) [
  | inl e ↦ other_new d src who q now v ne e (ground (arith, e, h))
  | inr (k, e) ↦ other_known d src who k q now v byte ne e
]
