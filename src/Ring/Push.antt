-- ===== src/Ring/Push.antt =====
-- The producer's side of ring.c: its calls append to what the ring holds.
use lo_ra_home.Prelude.{
  ℕ, ◌+◌, ◌-◌, ◌%◌, ◌≤◌, ◌<◌, ◌≡◌, refl, ap, ap₂, sym, ◌∙◌, arith, List, [], ◌∷◌, ◌++◌, min,
  bit_and, length, take, length-take, append-nil, IsU16, u16, u32, ltb, if◌then◌else◌, take-all,
}
use lo_ra_home.Prelude.Bits.{bit_and_mask}
use lo_ra_home.Ring.{Ring, count, copy_in, free_space, note_occupancy, init, push_bytes}
use lo_ra_home.Ring.Queue.{
  contents, length-stored, stored-split, stored_list, stored_same, Wrote, copy_in-Wrote,
}
use native.Mathlib.Decide.{dec_lt}

-- The counters are 16-bit numbers at most `ring_size` apart, and the high-water mark bounds it.
pub record IsValid (r : Ring) : Type 0 where
  pub size : length r.bytes ≡ 2048
  pub head_bound : IsU16 r.head
  pub tail_bound : IsU16 r.tail
  pub held : count r ≤ r.stat_hwm
  pub mark : r.stat_hwm ≤ 2048

pub init-IsValid : (r : Ring) → length r.bytes ≡ 2048 → IsValid (init r)
unfolding init count
init-IsValid r e = ground arith

pub length-contents : (r : Ring) → length (contents r) ≡ count r
length-contents r = length-stored r.bytes r.tail (count r)

-- `n` bytes more behind the newest.
abbrev pub ahead : Ring → List ℕ → ℕ → Ring
ahead r out n = record r { bytes = out; head = u16 (r.head + n) }

count-ahead :
    (r : Ring) (out : List ℕ) (n : ℕ)
    → IsValid r
    → count r + n ≤ 2048
    → count (ahead r out n) ≡ count r + n
unfolding count
count-ahead r out n v h = omega (arith, v)

head_counter : (r : Ring) → IsValid r → (r.tail + count r) % 65536 ≡ r.head
unfolding count
head_counter r v = omega (arith, v)

contents-ahead :
    (r : Ring) (out xs : List ℕ)
    → IsValid r
    → count r + length xs ≤ 2048
    → Wrote r.bytes (r.head % 2048) xs out
    → contents (ahead r out (length xs)) ≡ contents r ++ xs
contents-ahead r out xs v h w =
    let base = head_counter r v in
    stored-split out r.tail (count r) (length xs) _ (count-ahead r out (length xs) v h)
    ∙ ap₂ ◌++◌
        (stored_same out r.bytes r.tail r.tail (count r) (λ i k.
          let j = 2048 - count r + i in
          let same : (r.tail + i) % 2048 ≡ (r.head % 2048 + j) % 2048 = omega (arith, base) in
          rw same (w.outside j (omega arith) (omega (arith, v)))))
        (stored_list out (r.tail + count r) xs (λ i k.
          let same : (r.tail + count r + i) % 2048 ≡ (r.head % 2048 + i) % 2048 =
            omega (arith, base) in
          rw same (w.inside i k)))

ahead-IsValid :
    (r : Ring) (out xs : List ℕ)
    → IsValid r
    → count r + length xs ≤ 2048
    → length out ≡ 2048
    → IsValid (note_occupancy (ahead r out (length xs)))
unfolding note_occupancy count
ahead-IsValid r out xs v h e = ground (arith, v)

-- The bytes that `push_bytes` drops are counted.
abbrev counted : Ring → List ℕ → Ring
counted r src = record r {
  stat_overrun =
      if ltb (2048 - count r) (length src)
      then u32 (r.stat_overrun + u32 (length src - (2048 - count r)))
      else r.stat_overrun;
}

pub room : (r : Ring) → IsValid r → free_space r ≡ 2048 - count r
unfolding free_space
room r v = omega (arith, v)

pub masked : (n : ℕ) → u16 (bit_and n 2047) ≡ n % 2048
masked n = omega (arith, bit_and_mask 11 n)

push_bytes-none :
    (r : Ring) (src : List ℕ)
    → IsValid r
    → take (2048 - count r) src ≡ []
    → push_bytes r src ≡ (counted r src, 0)
unfolding push_bytes
push_bytes-none r src v e = ground (arith, room r v, ap length e, length-take (2048 - count r) src)

push_bytes_some :
    (r : Ring) (src xs : List ℕ)
    → IsValid r
    → take (2048 - count r) src ≡ xs
    → 0 < length xs
    → push_bytes r src ≡ (
      note_occupancy (ahead (counted r src) (copy_in r.bytes (r.head % 2048) xs) (length xs)),
      length xs,
    )
unfolding push_bytes
push_bytes_some r src xs v e h = elim (dec_lt (2048 - count r) (length src)) [
  | yes p ↦
      ground (arith, room r v, masked r.head, e, ap length e, length-take (2048 - count r) src)
  | no p ↦ ground (
    arith,
    room r v,
    masked r.head,
    e,
    ap length e,
    length-take (2048 - count r) src,
    take-all (2048 - count r) src (omega arith),
    take-all (length src) src (omega arith),
  )
]

nil_of_length : (xs : List ℕ) → length xs ≡ 0 → xs ≡ []
nil_of_length [] e = refl
nil_of_length (x ∷ xs) e = absurd (omega arith)

noted : (r : Ring) → contents (note_occupancy r) ≡ contents r
unfolding note_occupancy count
noted r = ground arith

counted-IsValid : (r : Ring) (src : List ℕ) → IsValid r → IsValid (counted r src)
unfolding count
counted-IsValid r src v = omega (arith, v)

counted_same : (r : Ring) (src : List ℕ) → contents (counted r src) ≡ contents r
unfolding count
counted_same r src = refl

-- `lh_ring_push_bytes` appends the longest prefix of `src` that the bytes already held leave room
-- for, within 2048, returns its length, and keeps the ring valid.
pub push_bytes_queue :
    (r : Ring) (src : List ℕ)
    → IsValid r
    → IsValid (push_bytes r src).0
      × (contents (push_bytes r src).0 ≡ contents r ++ take (2048 - length (contents r)) src)
      × ((push_bytes r src).1 ≡ min (2048 - length (contents r)) (length src))
push_bytes_queue r src v =
    let xs = take (2048 - count r) src in
    let size = length-take (2048 - count r) src in
    let v' = counted-IsValid r src v in
    elim (dec_lt 0 (length xs)) [
      | yes p ↦
          (let w =
              copy_in-Wrote r.bytes (r.head % 2048) xs v.size (omega arith) (omega (arith, size)) in
            let same_count : count (counted r src) ≡ count r = unfold count in refl in
            let fits : count (counted r src) + length xs ≤ 2048 =
              omega (arith, size, v, same_count) in
            rw (length-contents, push_bytes_some r src xs v refl p)
              (
                ahead-IsValid (counted r src) _ xs v' fits w.size,
                noted _
                    ∙ contents-ahead (counted r src) _ xs v' fits w
                    ∙ ap (λ c. c ++ xs) (counted_same r src),
                size,
              ))
      | no p ↦
          (let nothing : xs ≡ [] = nil_of_length xs (omega arith) in
            rw (length-contents, push_bytes-none r src v nothing)
              (
                v',
                counted_same r src
                    ∙ sym (ap (λ c. contents r ++ c) nothing ∙ append-nil (contents r)),
                omega (arith, size),
              ))
    ]
