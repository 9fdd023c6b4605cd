-- ===== src/Ring/Fifo.antt =====
-- The consumer's side of ring.c, and the two sides in every order of their calls.
use lo_ra_home.Prelude.{
  ℕ, zero, suc, ◌+◌, ◌-◌, ◌%◌, ◌≤◌, ◌<◌, ◌≡◌, refl, ap, sym, ◌∙◌, arith, List, [], ◌∷◌, ◌++◌, min,
  length, get_or, take, drop, copy, set, append-nil, append_assoc, Option, none, some, take-all,
  u16, if◌then◌else◌,
}
use lo_ra_home.Prelude.Bits.{bit_and_mask}
use lo_ra_home.Ring.{free_space, Ring, count, copy_in, copy_out, push, push_bytes, pop, pop_bytes}
use lo_ra_home.Ring.Queue.{
  stored, contents, length-stored, stored-split, stored_same, copy_out-stored,
}
use lo_ra_home.Ring.Push.{IsValid, masked, room, length-contents, push_bytes_queue}
use native.Mathlib.Decide.{dec_lt}

-- The ring after `n` bytes are taken.
abbrev behind : Ring → ℕ → Ring
behind r n = record r { tail = u16 (r.tail + n) }

count-behind : (r : Ring) (n : ℕ) → IsValid r → n ≤ count r → count (behind r n) ≡ count r - n
unfolding count
count-behind r n v h = omega (arith, v)

pop_bytes_open :
    (r : Ring) (cap : ℕ)
    → IsValid r
    → pop_bytes r cap
      ≡ (behind r (min cap (count r)), copy_out r.bytes (r.tail % 2048) (min cap (count r)))
unfolding pop_bytes copy_out
pop_bytes_open r cap v = ground (arith, masked r.tail, v)

-- `lh_ring_pop_bytes` takes the `cap` oldest bytes, or all there are, in their order, and keeps the
-- ring valid.
pub pop_bytes_queue :
    (r : Ring) (cap : ℕ)
    → IsValid r
    → IsValid (pop_bytes r cap).0
      × ((pop_bytes r cap).1 ++ contents (pop_bytes r cap).0 ≡ contents r)
      × (length (pop_bytes r cap).1 ≡ min cap (length (contents r)))
pop_bytes_queue r cap v =
    let n = min cap (count r) in
    let out = copy_out-stored r.bytes r.tail n v.size (omega (arith, v)) in
    let left = count-behind r n v (omega arith) in
    rw (length-contents, pop_bytes_open r cap v, out)
      (omega (arith, v, left), moved left, length-stored r.bytes r.tail n)
  where
    moved :
        (let n = min cap (count r) in
          count (behind r n) ≡ count r - n
          → stored r.bytes r.tail n ++ contents (behind r n) ≡ contents r)
    moved e =
        let n = min cap (count r) in
        ap (λ c. stored r.bytes r.tail n ++ c)
          (stored_same r.bytes r.bytes (u16 (r.tail + n)) (r.tail + n) _
              (λ i h. ap (λ k. get_or r.bytes k 0) (omega arith))
            ∙ ap (stored r.bytes (r.tail + n)) e)
        ∙ sym (stored-split r.bytes r.tail n (count r - n) (count r) (omega arith))

set-copy : (xs : List ℕ) (i v : ℕ) → i < length xs → set xs i v ≡ copy xs i (v ∷ [])
set-copy [] i v h = absurd (omega arith)
set-copy (x ∷ xs) zero v h = refl
set-copy (x ∷ xs) (suc i) v h = ap (◌∷◌ x) (set-copy xs i v (omega arith) ∙ next)
  where
    next : copy xs i (v ∷ []) ≡ take i xs ++ (v ∷ drop (suc i + 1) (x ∷ xs))
    next =
        ap (λ k. take i xs ++ (v ∷ drop k (x ∷ xs))) {x = suc (i + 1)} {y = suc i + 1} (omega arith)

abbrev pub to_list : Option ℕ → List ℕ
to_list none = []
to_list (some x) = x ∷ []

push_one :
    (r : Ring) (byte : ℕ)
    → IsValid r
    → push_bytes r (byte ∷ []) ≡ ((push r byte).0, if (push r byte).1 then 1 else 0)
unfolding push_bytes push free_space copy_in
push_one r byte v = ground (
  arith,
  room r v,
  masked r.head,
  bit_and_mask 11 r.head,
  set-copy r.bytes (r.head % 2048) byte (omega (arith, v)),
)

pop_one : (r : Ring) → IsValid r → pop_bytes r 1 ≡ ((pop r).0, to_list (pop r).1)
unfolding pop
pop_one r v =
    let read = copy_out-stored r.bytes r.tail (min 1 (count r)) v.size (omega (arith, v)) in
    elim (dec_lt 0 (count r)) [
      | yes p ↦
          (let one : min 1 (count r) ≡ 1 = omega arith in
            let byte : stored r.bytes r.tail (min 1 (count r))
                ≡ get_or r.bytes (r.tail % 2048) 0 ∷ [] =
              ap (stored r.bytes r.tail) one in
            rw (pop_bytes_open r 1 v, read, byte, one) (ground (arith, bit_and_mask 11 r.tail)))
      | no p ↦
          (let none_left : min 1 (count r) ≡ 0 = omega arith in
            let nothing : stored r.bytes r.tail (min 1 (count r)) ≡ [] =
              ap (stored r.bytes r.tail) none_left in
            rw (pop_bytes_open r 1 v, read, nothing, none_left) (ground (arith, v)))
    ]

take-min : (n : ℕ) (xs : List ℕ) → take (min n (length xs)) xs ≡ take n xs
take-min n xs = elim (dec_lt (length xs) n) [
  | yes p ↦ take-all (min n (length xs)) xs (omega arith) ∙ sym (take-all n xs (omega arith))
  | no p ↦ ap (λ k. take k xs) (omega arith)
]

-- On a valid ring the calls for one byte are the calls for many, at one byte.
pub one_byte :
    (r : Ring) (byte : ℕ)
    → IsValid r
    → (push_bytes r (byte ∷ []) ≡ ((push r byte).0, if (push r byte).1 then 1 else 0))
      × (pop_bytes r 1 ≡ ((pop r).0, to_list (pop r).1))
one_byte r byte v = (push_one r byte v, pop_one r v)

-- A call of the interrupt or of the task.
pub data Call : Type 0 where
  pushes : List ℕ → Call
  pops : ℕ → Call

-- The ring after the calls, the bytes that were accepted and the bytes that were taken, in order.
unfoldable pub run : Ring → List Call → Ring × List ℕ × List ℕ
run r [] = (r, [], [])
run r (pushes src ∷ more) =
    let p = push_bytes r src in let rest = run p.0 more in (rest.0, take p.1 src ++ rest.1, rest.2)
run r (pops limit ∷ more) =
    let p = pop_bytes r limit in let rest = run p.0 more in (rest.0, rest.1, p.1 ++ rest.2)

-- In whatever order the two sides call, the bytes taken and those left are the bytes held at the
-- start and those accepted since: none lost, repeated, changed or out of order, past every wrap of
-- the counters, and the ring is valid.
pub fifo :
    (calls : List Call) (r : Ring)
    → IsValid r
    → IsValid (run r calls).0
      × (contents r ++ (run r calls).1 ≡ (run r calls).2 ++ contents (run r calls).0)
unfolding run
fifo [] r v = (v, append-nil (contents r))
fifo (pushes src ∷ more) r v =
    let (v', grown, taken) = push_bytes_queue r src v in
    let (last, all) = fifo more (push_bytes r src).0 v' in
    let same = take-min (2048 - length (contents r)) src in
    (
      last,
      sym (append_assoc (contents r) (take (push_bytes r src).1 src) _)
          ∙ ap (λ c. c ++ (run (push_bytes r src).0 more).1)
              (ap (λ n. contents r ++ take n src) taken
                ∙ ap (λ c. contents r ++ c) same
                ∙ sym grown)
          ∙ all,
    )
fifo (pops limit ∷ more) r v =
    let (v', moved, size) = pop_bytes_queue r limit v in
    let (last, all) = fifo more (pop_bytes r limit).0 v' in
    (
      last,
      ap (λ c. c ++ (run (pop_bytes r limit).0 more).1) (sym moved)
          ∙ append_assoc (pop_bytes r limit).1 _ _
          ∙ ap (λ c. (pop_bytes r limit).1 ++ c) all
          ∙ sym (append_assoc (pop_bytes r limit).1 _ _),
    )
