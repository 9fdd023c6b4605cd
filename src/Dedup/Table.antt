-- ===== src/Dedup/Table.antt =====
-- The table of peers: which slot a sender has, and what the table never does.
use lo_ra_home.Prelude.{
  ℕ, suc, ◌+◌, ◌-◌, ◌%◌, ◌≤◌, ◌<◌, ◌^◌, ◌≡◌, inl, inr, refl, ap, ◌∙◌, arith, Bool, true, false,
  none, some, ◌&&◌, Bool-cases, All, All-set, All-get_or, length, length-set, length-take, get_or,
  get_or-set_self, get_or-take, set, set-set, take, take-set, take-set_lt, Option-cases, sym, subst,
}
use lo_ra_home.Dedup.{
  Peer, Dedup, no_peer, Verdict, accepted, duplicate, too_old, init, find_from, find_peer, oldest,
  claim_peer, seq_delta, judge, count, check_new, check_known, check_and_mark,
}
use lo_ra_home.Dedup.Stream.{judge_twice}
use native.Mathlib.Decide.{dec_lt}
use lo_ra_home.Dedup.Search.{find_hit, find_miss, find_snoc, oldest-lt}

-- The table has its eight slots, counts no more of them, and holds sequence numbers of 8 bits.
pub record IsValid (d : Dedup) : Type 0 where
  pub slots : length d.peers ≡ 8
  pub few : d.peer_count ≤ 8
  pub bytes : All (λ (p : Peer). p.last_seq < 256) d.peers

pub init-IsValid : IsValid init
unfolding init
init-IsValid = record { slots = refl; few = omega arith; bytes = omega arith }

-- What `claim_peer` gives a sender that is not in the table.
record Claimed (d : Dedup) (src : ℕ) (out : Dedup × ℕ) : Type 0 where
  valid : IsValid out.0
  in_use : out.1 < out.0.peer_count
  found :
      (q : Peer)
      → q.src_id ≡ src
      → find_from (take out.0.peer_count (set out.0.peers out.1 q)) 0 src ≡ some out.1
  named : (get_or out.0.peers out.1 no_peer).src_id ≡ src

module _ (d : Dedup) (src now : ℕ) (v : IsValid d) (missing : find_peer d src ≡ none) where
  abbrev fresh : Peer
  fresh = record { src_id = src; last_seq = 0; bitmap = 0; last_seen_us = now }

  claim_free : d.peer_count < 8 → Claimed d src (claim_peer d src now)
  unfolding claim_peer find_peer
  claim_free h = subst (Claimed d src) (sym computed) (record {
    valid = record {
      slots = length-set d.peers d.peer_count fresh ∙ v.slots;
      few = h;
      bytes = All-set (λ p. p.last_seq < 256) d.peers d.peer_count fresh v.bytes (omega arith);
    };
    in_use = omega arith;
    found = λ q e.
        rw (set-set d.peers d.peer_count fresh q, take-set d.peers d.peer_count q room)
          (find_snoc (take d.peer_count d.peers) 0 src q missing e ∙ ap some at_end);
    named =
        ap (λ p. p.src_id) (get_or-set_self d.peers d.peer_count fresh no_peer (omega (arith, v)));
  })
    where
      room : d.peer_count < length d.peers
      room = omega (arith, v)

      at_end : 0 + length (take d.peer_count d.peers) ≡ d.peer_count
      at_end = omega (arith, length-take d.peer_count d.peers)

      computed : claim_peer d src now ≡ (
        record d { peers = set d.peers d.peer_count fresh; peer_count = suc d.peer_count },
        d.peer_count,
      )
      computed = ground arith

  claim_evict : 8 ≤ d.peer_count → Claimed d src (claim_peer d src now)
  unfolding claim_peer find_peer
  claim_evict h = subst (Claimed d src) (sym computed) (record {
    valid = record {
      slots = length-set d.peers slot fresh ∙ v.slots;
      few = v.few;
      bytes = All-set (λ p. p.last_seq < 256) d.peers slot fresh v.bytes (omega arith);
    };
    in_use = omega (arith, small);
    found = λ q e.
        rw
          (
            set-set d.peers slot fresh q,
            take-set_lt d.peers d.peer_count slot q (omega (arith, small)),
          )
          (find_miss (take d.peer_count d.peers) 0 src slot q missing
              (omega (arith, v, small, length-take d.peer_count d.peers)) e
            ∙ ap some (omega arith));
    named =
        ap (λ p. p.src_id) (get_or-set_self d.peers slot fresh no_peer (omega (arith, v, small)));
  })
    where
      slot : ℕ
      slot = oldest d.peers

      small : slot < 8
      small = omega (arith, v, oldest-lt d.peers)

      computed : claim_peer d src now ≡ (
        record d {
          peers = set d.peers slot fresh;
          stat_peer_evicted = (d.stat_peer_evicted + 1) % 2 ^ 32;
        },
        slot,
      )
      computed = ground arith

  claim-Claimed : Claimed d src (claim_peer d src now)
  claim-Claimed = elim (dec_lt d.peer_count 8) [
    | yes room ↦ claim_free room
    | no full ↦ claim_evict (omega arith)
  ]

-- What one call leaves, whatever the frame: a valid table, in which the sender has a slot, with
-- that slot's window answering the same frame as a duplicate if the frame was accepted.
pub record Checked (d : Dedup) (src seq : ℕ) (out : Dedup × Bool) : Type 0 where
  pub valid : IsValid out.0
  slot : ℕ
  has_slot : find_peer out.0 src ≡ some slot
  marked :
      (later : ℕ) → out.1 ≡ true → (judge (get_or out.0.peers slot no_peer) seq later).1 ≡ duplicate

first_again :
    (p : Peer) (seq later : ℕ)
    → p.last_seq ≡ seq
    → p.bitmap ≡ 1
    → seq < 256
    → (judge p seq later).1 ≡ duplicate
unfolding judge seq_delta
first_again p seq later e one h =
    let same : (seq + 256 - p.last_seq) % 256 ≡ 0 = omega arith in rw (same, one)

pub peers-count : (d : Dedup) (w : Verdict) → (count d w).0.peers ≡ d.peers
unfolding count
peers-count d accepted = refl
peers-count d _ = refl

pub peer_count-count : (d : Dedup) (w : Verdict) → (count d w).0.peer_count ≡ d.peer_count
unfolding count
peer_count-count d accepted = refl
peer_count-count d _ = refl

count-true : (d : Dedup) (w : Verdict) → (count d w).1 ≡ true → w ≡ accepted
unfolding count
count-true d accepted h = refl
count-true d duplicate h = cc
count-true d too_old h = cc

pub judge_keeps :
    (p : Peer) (seq now : ℕ)
    → seq < 256
    → p.last_seq < 256
    → ((judge p seq now).0.src_id ≡ p.src_id) × ((judge p seq now).0.last_seq < 256)
unfolding judge
judge_keeps p seq now h k = ground arith

-- Where a known sender stands, and that its slot stays its own.
pub record Stands (d : Dedup) (src slot : ℕ) : Type 0 where
  pub in_use : slot < d.peer_count
  pub named : (get_or d.peers slot no_peer).src_id ≡ src
  found :
      (q : Peer)
      → q.src_id ≡ src
      → find_from (take d.peer_count (set d.peers slot q)) 0 src ≡ some slot

pub find_peer-Stands : (d : Dedup) (src slot : ℕ) → find_peer d src ≡ some slot → Stands d src slot
unfolding find_peer
find_peer-Stands d src slot e =
    let (j, at, small, same, again) = find_hit (take d.peer_count d.peers) 0 src slot e in
    let here : slot ≡ j = omega (arith, at) in
    let low : j < d.peer_count = omega (arith, length-take d.peer_count d.peers) in
    subst (Stands d src) (sym here) (record {
      in_use = low;
      named = ap (λ p. p.src_id) (sym (get_or-take d.peers d.peer_count j no_peer low)) ∙ same;
      found = λ q h. rw (take-set_lt d.peers d.peer_count j q low) (again q h ∙ ap some here);
    })

module _ (d : Dedup) (src seq now : ℕ) (v : IsValid d) (byte : seq < 256) where
  check_new-Checked : find_peer d src ≡ none → Checked d src seq (check_new d src seq now)
  unfolding check_new count find_peer
  check_new-Checked missing = record {
    valid = record {
      slots = length-set d'.peers slot peer ∙ c.valid.slots;
      few = c.valid.few;
      bytes = All-set (λ p. p.last_seq < 256) d'.peers slot peer c.valid.bytes byte;
    };
    slot = slot;
    has_slot = c.found peer c.named;
    marked = λ later h.
        rw (get_or-set_self d'.peers slot peer no_peer (omega (arith, c.in_use, c.valid)))
          (first_again peer seq later refl refl byte);
  }
    where
      d' : Dedup
      d' = (claim_peer d src now).0

      slot : ℕ
      slot = (claim_peer d src now).1

      c : Claimed d src (claim_peer d src now)
      c = claim-Claimed d src now v missing

      peer : Peer
      peer = record (get_or d'.peers slot no_peer) { last_seq = seq; bitmap = 1 }

  check_known-Checked :
      (slot : ℕ) → find_peer d src ≡ some slot → Checked d src seq (check_known d slot seq now)
  unfolding check_known find_peer
  check_known-Checked slot e = record {
    valid = record {
      slots = ap length peers ∙ length-set d.peers slot j.0 ∙ v.slots;
      few = rw (peer_count-count d1 j.1) v.few;
      bytes = rw peers (All-set (λ p. p.last_seq < 256) d.peers slot j.0 v.bytes keeps.1);
    };
    slot = slot;
    has_slot = rw (peer_count-count d1 j.1, peers) (st.found j.0 (keeps.0 ∙ st.named));
    marked = λ later h.
        rw (peers, get_or-set_self d.peers slot j.0 no_peer inside)
          (judge_twice p seq now later small byte (count-true d1 j.1 h));
  }
    where
      st : Stands d src slot
      st = find_peer-Stands d src slot e

      p : Peer
      p = get_or d.peers slot no_peer

      small : p.last_seq < 256
      small = All-get_or (λ q. q.last_seq < 256) d.peers slot no_peer v.bytes (omega arith)

      j : Peer × Verdict
      j = judge p seq now

      keeps : (j.0.src_id ≡ p.src_id) × (j.0.last_seq < 256)
      keeps = judge_keeps p seq now byte small

      d1 : Dedup
      d1 = record d { peers = set d.peers slot j.0 }

      peers : (count d1 j.1).0.peers ≡ set d.peers slot j.0
      peers = peers-count d1 j.1

      inside : slot < length d.peers
      inside = omega (arith, st.in_use, v)

  pub check_and_mark-Checked : Checked d src seq (check_and_mark d src seq now)
  unfolding check_and_mark
  check_and_mark-Checked = elim (Option-cases (find_peer d src)) [
    | inl missing ↦ rw (missing, check_and_mark) (check_new-Checked missing)
    | inr (slot, e) ↦ rw (e, check_and_mark) (check_known-Checked slot e)
  ]

count-duplicate : (d : Dedup) → (count d duplicate).1 ≡ false
unfolding count
count-duplicate d = refl

check_duplicate :
    (d : Dedup) (src seq slot later : ℕ)
    → find_peer d src ≡ some slot
    → (judge (get_or d.peers slot no_peer) seq later).1 ≡ duplicate
    → (check_and_mark d src seq later).1 ≡ false
unfolding check_and_mark check_known count
check_duplicate d src seq slot later e dup = rw (e, check_and_mark, check_known, dup)

-- A valid table stays valid whatever the frame and its answer, and no frame is accepted twice when it
-- comes again right after, from whichever sender and whether or not that sender had to evict another.
pub accepted_once :
    (d : Dedup) (src seq now later : ℕ)
    → IsValid d
    → seq < 256
    → IsValid (check_and_mark d src seq now).0
      × (((check_and_mark d src seq now).1
            && (check_and_mark (check_and_mark d src seq now).0 src seq later).1)
          ≡ false)
accepted_once d src seq now later v byte =
    let c = check_and_mark-Checked d src seq now v byte in
    let d1 = (check_and_mark d src seq now).0 in
    (
      c.valid,
      elim (Bool-cases (check_and_mark d src seq now).1) [
        | inl once ↦
            rw once (check_duplicate d1 src seq c.slot later c.has_slot (c.marked later once))
        | inr refused ↦ rw refused refl
      ],
    )
