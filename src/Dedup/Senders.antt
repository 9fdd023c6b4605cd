-- ===== src/Dedup/Senders.antt =====
-- Whole runs of lh_dedup_check_and_mark: frames of many senders through one table. A frame is its
-- sender, its number counted without wrapping, and a time; the code sees the number modulo 256.
use lo_ra_home.Prelude.{
  ℕ, ◌%◌, ◌<◌, ◌≡◌, ◌≢◌, refl, ap, sym, subst, ◌∙◌, arith, List, [], ◌∷◌, All, Bool, true, false,
  ◌&&◌, ◌||◌, none, some, Bool-cases, inl, inr, length-take, get_or, get_or-set_self, take, ◌==◌,
  ltb, if◌then◌else◌,
}
use lo_ra_home.Dedup.{
  Peer, Dedup, no_peer, Verdict, accepted, duplicate, too_old, init, find_from, find_peer, judge,
  check_and_mark,
}
use lo_ra_home.Dedup.Stream.{
  accepted_of, keep, AllNear, Distinct, first-Tracks, no_double_processing,
}
use lo_ra_home.Dedup.Search.{find_snoc}
use lo_ra_home.Dedup.Table.{IsValid, init-IsValid, find_peer-Stands, check_and_mark-Checked}
use lo_ra_home.Dedup.Others.{has_peer, other_step}
use lo_ra_home.Dedup.Steps.{is_accepted, first_of, known_step, new_step}

-- The numbers of the frames of `src` that the table accepts, in their order.
unfoldable pub accepted_from : ℕ → Dedup → List (ℕ × ℕ × ℕ) → List ℕ
accepted_from src d [] = []
accepted_from src d ((who, s, now) ∷ more) =
    let r = check_and_mark d who (s % 256) now in
    let rest = accepted_from src r.0 more in if r.1 && who == src then s ∷ rest else rest

-- Whether each frame of a run is from a sender in the table, or finds a free slot.
unfoldable pub evicts_none : Dedup → List (ℕ × ℕ × ℕ) → Bool
evicts_none d [] = true
evicts_none d ((who, s, now) ∷ more) =
    (has_peer (find_peer d who) || ltb d.peer_count 8)
    && evicts_none (check_and_mark d who (s % 256) now).0 more

-- The frames of one sender.
abbrev pub sent_by : ℕ → List (ℕ × ℕ × ℕ) → List (ℕ × ℕ)
sent_by src [] = []
sent_by src ((who, s, now) ∷ more) =
    if who == src then (s, now) ∷ sent_by src more else sent_by src more

-- Each frame of a sender is near the newest one before it.
abbrev pub NearFirst : List (ℕ × ℕ) → Type 0
NearFirst [] = Unit {0}
NearFirst ((s, now) ∷ more) = AllNear s more

and_false : (b : Bool) → (b && false) ≡ false
and_false true = refl
and_false false = refl

and_both : (a b : Bool) → (a && b) ≡ true → (a ≡ true) × (b ≡ true)
and_both true b h = (refl, h)
and_both false b h = cc

kept-eq :
    (v : Verdict) (s : ℕ) (xs : List ℕ)
    → (if is_accepted v && true then s ∷ xs else xs) ≡ keep v s xs
kept-eq accepted s xs = refl
kept-eq duplicate s xs = refl
kept-eq too_old s xs = refl

-- From a known sender the table accepts what the window of its slot accepts.
accepted_known :
    (frames : List (ℕ × ℕ × ℕ)) (d : Dedup) (src k : ℕ)
    → IsValid d
    → find_peer d src ≡ some k
    → evicts_none d frames ≡ true
    → accepted_from src d frames ≡ accepted_of (get_or d.peers k no_peer) (sent_by src frames)
unfolding accepted_from accepted_of evicts_none
accepted_known [] d src k v f h = refl
accepted_known ((who, s, now) ∷ more) d src k v f h =
    let q = s % 256 in
    let byte : q < 256 = omega arith in
    let r = check_and_mark d who q now in
    let p = get_or d.peers k no_peer in
    let next = (check_and_mark-Checked d who q now v byte).valid in
    let (room, rest) = and_both (has_peer (find_peer d who) || ltb d.peer_count 8) _ h in
    elim (Bool-cases (who == src)) [
      | inl own ↦
          let mine : find_peer d who ≡ some k = ap (find_peer d) (ground (arith, own)) ∙ f in
          let j = known_step d who k q now v byte mine in
          let st = find_peer-Stands d src k f in
          let window : get_or r.0.peers k no_peer ≡ (judge p q now).0 =
            ap (λ (l : List Peer). get_or l k no_peer) j.peers
            ∙ get_or-set_self d.peers k _ no_peer (omega (arith, st.in_use, v)) in
          let after = accepted_known more r.0 src k next (j.searches src ∙ f) rest in
          rw (own, j.answer, after, window) (kept-eq (judge p q now).1 s _)
      | inr other ↦
          let l = other_step d src who q now v byte (ground (arith, other)) room in
          let after = accepted_known more r.0 src k next (l.search ∙ f) rest in
          rw (other, and_false r.1, after, l.window k f) refl
    ]

-- What the table accepts from a sender that it does not know yet: the first frame, and then what the
-- window of that frame accepts.
after_first : ℕ → List (ℕ × ℕ) → List ℕ
after_first src [] = []
after_first src ((s, now) ∷ more) = s ∷ accepted_of (first_of src (s % 256) now) more

accepted_unknown :
    (frames : List (ℕ × ℕ × ℕ)) (d : Dedup) (src : ℕ)
    → IsValid d
    → find_peer d src ≡ none
    → evicts_none d frames ≡ true
    → accepted_from src d frames ≡ after_first src (sent_by src frames)
unfolding accepted_from evicts_none after_first find_peer
accepted_unknown [] d src v f h = refl
accepted_unknown ((who, s, now) ∷ more) d src v f h =
    let q = s % 256 in
    let byte : q < 256 = omega arith in
    let r = check_and_mark d who q now in
    let next = (check_and_mark-Checked d who q now v byte).valid in
    let (room, rest) = and_both (has_peer (find_peer d who) || ltb d.peer_count 8) _ h in
    elim (Bool-cases (who == src)) [
      | inl own ↦
          let same : who ≡ src = ground (arith, own) in
          let mine : find_peer d who ≡ none = ap (find_peer d) same ∙ f in
          let free : d.peer_count < 8 = ground (arith, mine, room) in
          let j = new_step d who q now v mine free in
          let first = first_of who q now in
          let known = take d.peer_count d.peers in
          let found : find_peer r.0 src ≡ some d.peer_count =
            j.searched src
            ∙ find_snoc known 0 src first f same
            ∙ ap some (omega (arith, v, length-take d.peer_count d.peers)) in
          let window : get_or r.0.peers d.peer_count no_peer ≡ first_of src q now =
            ap (λ (l : List Peer). get_or l d.peer_count no_peer) j.peers
            ∙ get_or-set_self d.peers d.peer_count first no_peer (omega (arith, free, v))
            ∙ ap (λ i. first_of i q now) same in
          let after = accepted_known more r.0 src d.peer_count next found rest in
          rw (own, j.answer, after, window) refl
      | inr other ↦
          let l = other_step d src who q now v byte (ground (arith, other)) room in
          let after = accepted_unknown more r.0 src next (l.search ∙ f) rest in
          rw (other, and_false r.1, after) refl
    ]

first-Distinct :
    (src : ℕ) (frames : List (ℕ × ℕ)) → NearFirst frames → Distinct (after_first src frames)
unfolding after_first
first-Distinct src [] h = tt
first-Distinct src ((s, now) ∷ more) h =
    let p = first_of src (s % 256) now in
    let o = no_double_processing more p s (λ x. x == s) (first-Tracks p s refl refl) h in
    (All-ne s _ o.1, o.0)
  where
    All-ne : (s : ℕ) (xs : List ℕ) → All (λ x. (x == s) ≡ false) xs → All (λ x. x ≢ s) xs
    All-ne s [] h = tt
    All-ne s (x ∷ xs) h = (ground (arith, h.0), All-ne s xs h.1)

init_empty : (src : ℕ) → find_peer init src ≡ none
unfolding find_peer init find_from
init_empty src = refl

-- Through a table that starts empty and evicts no one, no frame of a sender is accepted twice, however
-- the frames of all senders are repeated, reordered and mixed, if each frame of that sender is near
-- the newest one of it before.
pub never_twice :
    (frames : List (ℕ × ℕ × ℕ)) (src : ℕ)
    → evicts_none init frames ≡ true
    → NearFirst (sent_by src frames)
    → Distinct (accepted_from src init frames)
never_twice frames src h near =
    subst Distinct (sym (accepted_unknown frames init src init-IsValid (init_empty src) h))
      (first-Distinct src (sent_by src frames) near)
