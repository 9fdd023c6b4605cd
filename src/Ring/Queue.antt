-- ===== src/Ring/Queue.antt =====
-- The two copies of ring.c, and what the ring holds, as lists.
use lo_ra_home.Prelude.{
  ℕ, zero, suc, ◌+◌, ◌-◌, ◌%◌, ◌≤◌, ◌<◌, ◌≡◌, refl, ap, ap₂, sym, ◌∙◌, arith, List, [], ◌∷◌, ◌++◌,
  length, get_or, take, drop, copy, length-copy, get_or-copy_in, get_or-copy_below,
  get_or-copy_above, get_or_ext, take-all, length-take, length-drop, get_or-take, get_or-drop,
}
use lo_ra_home.Ring.{Ring, count, copy_in, copy_out}
use native.Mathlib.Decide.{dec_lt}

-- The `n` bytes that the ring shows from counter `t` on.
abbrev pub stored : List ℕ → ℕ → ℕ → List ℕ
stored bytes t zero = []
stored bytes t (suc n) = get_or bytes (t % 2048) 0 ∷ stored bytes (t + 1) n

abbrev pub contents : Ring → List ℕ
contents r = stored r.bytes r.tail (count r)

pub length-stored : (bytes : List ℕ) (t n : ℕ) → length (stored bytes t n) ≡ n
length-stored bytes t zero = refl
length-stored bytes t (suc n) = ap suc (length-stored bytes (t + 1) n)

pub get_or-stored :
    (bytes : List ℕ) (t n i : ℕ)
    → i < n
    → get_or (stored bytes t n) i 0 ≡ get_or bytes ((t + i) % 2048) 0
get_or-stored bytes t zero i h = absurd (omega arith)
get_or-stored bytes t (suc n) zero h = ap (λ k. get_or bytes k 0) (omega arith)
get_or-stored bytes t (suc n) (suc i) h =
    get_or-stored bytes (t + 1) n i (omega arith) ∙ ap (λ k. get_or bytes k 0) (omega arith)

pub stored-split :
    (bytes : List ℕ) (t m n k : ℕ)
    → k ≡ m + n
    → stored bytes t k ≡ stored bytes t m ++ stored bytes (t + m) n
stored-split bytes t zero n k e = ap₂ (λ u l. stored bytes u l) (omega arith) (omega arith)
stored-split bytes t (suc m) n zero e = absurd (omega arith)
stored-split bytes t (suc m) n (suc k) e = ap (◌∷◌ (get_or bytes (t % 2048) 0)) (
    stored-split bytes (t + 1) m n k (omega arith)
    ∙ ap (λ u. stored bytes (t + 1) m ++ stored bytes u n) (omega arith))

-- What a list of bytes is when each is known by its counter.
pub stored_list :
    (bytes : List ℕ) (t : ℕ) (xs : List ℕ)
    → ((i : ℕ) → i < length xs → get_or bytes ((t + i) % 2048) 0 ≡ get_or xs i 0)
    → stored bytes t (length xs) ≡ xs
stored_list bytes t xs same =
    get_or_ext 0 (stored bytes t (length xs)) xs (length-stored bytes t (length xs)) (λ i h.
      let k : i < length xs = omega (arith, length-stored bytes t (length xs)) in
      get_or-stored bytes t (length xs) i k ∙ same i k)

pub stored_same :
    (bytes bytes' : List ℕ) (t t' n : ℕ)
    → ((i : ℕ) → i < n → get_or bytes ((t + i) % 2048) 0 ≡ get_or bytes' ((t' + i) % 2048) 0)
    → stored bytes t n ≡ stored bytes' t' n
stored_same bytes bytes' t t' zero same = refl
stored_same bytes bytes' t t' (suc n) same =
    ap₂ ◌∷◌
      (ap (λ k. get_or bytes k 0) (omega arith)
        ∙ same 0 (omega arith)
        ∙ ap (λ k. get_or bytes' k 0) (omega arith))
      (stored_same bytes bytes' (t + 1) (t' + 1) n (λ i h.
        ap (λ k. get_or bytes k 0) (omega arith)
        ∙ same (suc i) (omega arith)
        ∙ ap (λ k. get_or bytes' k 0) (omega arith)))

copy_in_whole :
    (bytes : List ℕ) (start : ℕ) (src : List ℕ)
    → start + length src ≤ 2048
    → copy_in bytes start src ≡ copy bytes start src
unfolding copy_in
copy_in_whole bytes start src h = ground (arith, take-all (length src) src)

copy_in_wrapped :
    (bytes : List ℕ) (start : ℕ) (src : List ℕ)
    → start < 2048
    → 2048 < start + length src
    → copy_in bytes start src
      ≡ copy (copy bytes start (take (2048 - start) src)) 0 (drop (2048 - start) src)
unfolding copy_in
copy_in_wrapped bytes start src h k = ground arith

-- What `copy_in` leaves in the array: `src` from `start` on, round the end, and nothing else.
pub record Wrote (bytes : List ℕ) (start : ℕ) (src out : List ℕ) : Type 0 where
  pub size : length out ≡ 2048
  pub inside : (i : ℕ) → i < length src → get_or out ((start + i) % 2048) 0 ≡ get_or src i 0
  pub outside :
      (i : ℕ)
      → length src ≤ i
      → i < 2048
      → get_or out ((start + i) % 2048) 0 ≡ get_or bytes ((start + i) % 2048) 0

module _ (bytes : List ℕ) (start : ℕ) (src : List ℕ) (full : length bytes ≡ 2048) where
  copy-Wrote :
      start < 2048 → start + length src ≤ 2048 → Wrote bytes start src (copy bytes start src)
  copy-Wrote below h = record {
    size = length-copy bytes src start (omega arith) ∙ full;
    inside = λ i k.
        get_or-copy_in bytes src start i ((start + i) % 2048) 0 (omega arith) k (omega arith);
    outside = λ i k l. elim (dec_lt ((start + i) % 2048) start) [
      | yes p ↦ get_or-copy_below bytes src start ((start + i) % 2048) 0 (omega arith) p
      | no p ↦
          get_or-copy_above bytes src start (i - length src) ((start + i) % 2048) 0 (omega arith)
            (omega arith)
    ];
  }

  wrap-Wrote :
      start < 2048
      → 2048 < start + length src
      → length src ≤ 2048
      → Wrote bytes start src
          (copy (copy bytes start (take (2048 - start) src)) 0 (drop (2048 - start) src))
  wrap-Wrote below h fits =
      let room = 2048 - start in
      let a = take room src in
      let b = drop room src in
      let len_a : length a ≡ room = omega (arith, length-take room src) in
      let len_b : length b ≡ length src - room = length-drop room src in
      let once = copy bytes start a in
      let len_once : length once ≡ 2048 = length-copy bytes a start (omega (arith, len_a)) ∙ full in
      record {
        size = length-copy once b 0 (omega (arith, len_once, len_b)) ∙ len_once;
        inside = λ i k. elim (dec_lt i room) [
          | yes p ↦
              get_or-copy_above once b 0 (start + i - length b) ((start + i) % 2048) 0 (omega arith)
                (omega (arith, len_b))
              ∙ get_or-copy_in bytes a start i ((start + i) % 2048) 0 (omega arith)
                  (omega (arith, len_a)) (omega arith)
              ∙ get_or-take src room i 0 p
          | no p ↦
              get_or-copy_in once b 0 (i - room) ((start + i) % 2048) 0 (omega arith)
                (omega (arith, len_b)) (omega arith)
              ∙ get_or-drop src room (i - room) i 0 (omega arith)
        ];
        outside = λ i k l.
            get_or-copy_above once b 0 (start + i - 2048 - length b) ((start + i) % 2048) 0
              (omega arith) (omega (arith, len_b))
            ∙ get_or-copy_below bytes a start ((start + i) % 2048) 0 (omega arith) (omega arith);
      }

  pub copy_in-Wrote :
      start < 2048 → length src ≤ 2048 → Wrote bytes start src (copy_in bytes start src)
  copy_in-Wrote below fits = elim (dec_lt 2048 (start + length src)) [
    | yes p ↦ rw (copy_in_wrapped bytes start src below p) (wrap-Wrote below p fits)
    | no p ↦ rw (copy_in_whole bytes start src (omega arith)) (copy-Wrote below (omega arith))
  ]

slice-stored :
    (bytes : List ℕ) (u s n : ℕ)
    → length bytes ≡ 2048
    → s ≡ u % 2048
    → s + n ≤ 2048
    → take n (drop s bytes) ≡ stored bytes u n
slice-stored bytes u s n full e fits =
    let xs = take n (drop s bytes) in
    let size : length xs ≡ n = omega (arith, length-take n (drop s bytes), length-drop s bytes) in
    sym (
      stored_list bytes u xs (λ i h.
        sym (get_or-drop bytes s i ((u + i) % 2048) 0 (omega (arith, size)))
        ∙ sym (get_or-take (drop s bytes) n i 0 (omega (arith, size)))))
    ∙ ap (stored bytes u) size

-- `copy_out` reads what the counters show.
pub copy_out-stored :
    (bytes : List ℕ) (t n : ℕ)
    → length bytes ≡ 2048
    → n ≤ 2048
    → copy_out bytes (t % 2048) n ≡ stored bytes t n
unfolding copy_out
copy_out-stored bytes t n full fits = elim (dec_lt 2048 (t % 2048 + n)) [
  | yes p ↦
      (let room = 2048 - t % 2048 in
        let opened : copy_out bytes (t % 2048) n
            ≡ take room (drop (t % 2048) bytes) ++ take (n - room) bytes =
          ground arith in
        opened
        ∙ ap₂ ◌++◌ (slice-stored bytes t (t % 2048) room full refl (omega arith))
            (slice-stored bytes (t + room) 0 (n - room) full (omega arith) (omega arith))
        ∙ sym (stored-split bytes t room (n - room) n (omega arith)))
  | no p ↦
      (let opened : copy_out bytes (t % 2048) n ≡ take n (drop (t % 2048) bytes) = ground arith in
        opened ∙ slice-stored bytes t (t % 2048) n full refl (omega arith))
]
