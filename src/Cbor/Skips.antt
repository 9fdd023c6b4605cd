-- ===== src/Cbor/Skips.antt =====
-- `lh_cbor_skip` ends on every input, and takes exactly the items of few containers.
use lo_ra_home.Prelude.{
  ℕ, zero, suc, ◌+◌, ◌-◌, ◌*◌, ◌/◌, ◌^◌, ◌≤◌, ◌<◌, ◌≡◌, ◌≢◌, refl, ap, sym, ◌∙◌, arith, List, ◌++◌,
  Option, none, some, append-nil, length, length-append, u8, u16, bit_and, get_or, IsU16,
  Option-cases, inl, inr, subst,
}
use lo_ra_home.Cbor.{u64, head_bytes}
use lo_ra_home.Cbor.Reader.{Reader, read_head, read_argument, extra_bytes}
use lo_ra_home.Cbor.Skip.{
  skipped, refused, out_of_fuel, Walk, skip_item, skip_round, skip_loop, skip,
}
use lo_ra_home.Cbor.Heads.{At, moved}
use lo_ra_home.Cbor.Items.{
  Item, uint, nint, bytes, array, map, Items, no_items, item, Pairs, no_pairs, pair, emit,
  emit_items, emit_pairs, count_items, count_pairs, containers, IsItem, size, size_items,
  size_pairs,
}
use lo_ra_home.Cbor.Walks.{skip_loop-Waits}
use lo_ra_home.Cbor.Steps.{Ends, length-head_pos}

mutual
  size_le : (x : Item) → size x ≤ length (emit x)
  size_le (uint v) = length-head_pos 0 v
  size_le (nint v) = length-head_pos 1 v
  size_le (bytes b) =
      omega (arith, length-head_pos 2 (length b), length-append (head_bytes 2 (length b)) b)
  size_le (array xs) = omega (
    arith,
    length-head_pos 4 (count_items xs),
    length-append (head_bytes 4 (count_items xs)) (emit_items xs),
    size_items_le xs,
  )
  size_le (map ps) = omega (
    arith,
    length-head_pos 5 (count_pairs ps),
    length-append (head_bytes 5 (count_pairs ps)) (emit_pairs ps),
    size_pairs_le ps,
  )

  size_items_le : (xs : Items) → size_items xs ≤ length (emit_items xs)
  size_items_le no_items = omega arith
  size_items_le (item x xs) =
      omega (arith, size_le x, size_items_le xs, length-append (emit x) (emit_items xs))

  size_pairs_le : (ps : Pairs) → size_pairs ps ≤ length (emit_pairs ps)
  size_pairs_le no_pairs = omega arith
  size_pairs_le (pair k v ps) = omega (
    arith,
    size_le k,
    size_le v,
    size_pairs_le ps,
    length-append (emit k) (emit v ++ emit_pairs ps),
    length-append (emit v) (emit_pairs ps),
  )

skip-Ends :
    (r : Reader) (x : Item) (rest : List ℕ)
    → At r (emit x ++ rest)
    → IsItem x
    → Ends r (length (emit x)) (containers x) (skip r)
unfolding skip
skip-Ends r x rest a i =
    let one = item x no_items in
    let same = append-nil (emit x) in
    let e =
      skip_loop-Waits (r.len - r.pos + 2) one r (record { pending = 1; depth = 0 }) rest
        (record {
          at = subst (λ l. At r (l ++ rest)) (sym same) a;
          ranges = (i, tt);
          waiting = refl;
          nested = omega arith;
          enough = omega (arith, size_le x, a.left, length-append (emit x) rest);
        }) in
    record {
      few = λ h. e.few (omega arith) ∙ ap (λ l. (moved r (length l), skipped)) same;
      many = λ h. e.many (omega arith);
    }

-- An item with at most eight arrays and maps in it, itself included, is stepped over exactly,
-- whatever follows it.
pub skip-emit :
    (r : Reader) (x : Item) (rest : List ℕ)
    → At r (emit x ++ rest)
    → IsItem x
    → containers x ≤ 8
    → skip r ≡ (moved r (length (emit x)), skipped)
skip-emit r x rest a i few = (skip-Ends r x rest a i).few few

-- An item with more than eight arrays and maps in it is refused, also where none of them is nested
-- in another but the first.
pub skip_too_many :
    (r : Reader) (x : Item) (rest : List ℕ)
    → At r (emit x ++ rest)
    → IsItem x
    → 8 < containers x
    → (skip r).1 ≡ refused
skip_too_many r x rest a i many = (skip-Ends r x rest a i).many many

-- A head that was read is behind the reader, which does not pass the end.
record Moved (r r' : Reader) : Type 0 where
  further : r.pos < r'.pos
  inside : r'.pos ≤ r'.len
  same_len : r'.len ≡ r.len

read_argument-Moved :
    (r r' : Reader) (major : ℕ) (extra : Option ℕ) (h : ℕ × ℕ)
    → IsU16 r.len
    → r.pos ≤ r.len
    → read_argument r major extra ≡ (r', some h)
    → (r.pos ≤ r'.pos) × (r'.pos ≤ r'.len) × (r'.len ≡ r.len)
unfolding read_argument
read_argument-Moved r r' major none h u p e = cc
read_argument-Moved r r' major (some n) h u p e = ground (arith, e)

read_head-Moved :
    (r r' : Reader) (h : ℕ × ℕ) → IsU16 r.len → read_head r ≡ (r', some h) → Moved r r'
unfolding read_head
read_head-Moved r r' h u e =
    let info = bit_and (get_or r.buf r.pos 0) 0x1f in
    let major = u8 (get_or r.buf r.pos 0 / 2 ^ 5) in
    ground (
      arith,
      e,
      read_argument-Moved (record r { pos = u16 (r.pos + 1) }) r' major (extra_bytes info) h u,
    )

skip_item-Moved :
    (r r' : Reader) (k k' : Walk) (major v : ℕ)
    → IsU16 r.len
    → r.pos ≤ r.len
    → skip_item r k major v ≡ (r', some k')
    → (r.pos ≤ r'.pos) × (r'.pos ≤ r'.len) × (r'.len ≡ r.len)
unfolding skip_item
skip_item-Moved r r' k k' major v u p e = ground (arith, e)

round-Moved :
    (r r' : Reader) (k k' : Walk)
    → IsU16 r.len
    → skip_round k (read_head r) ≡ (r', some k')
    → Moved r r'
unfolding skip_round
round-Moved r r' k k' u e = elim (Option-cases (read_head r).1) [
  | inl none_read ↦ ground (arith, e, none_read)
  | inr ((major, v), some_read) ↦
      (let q = (read_head r).0 in
        let whole : read_head r ≡ (q, some (major, v)) = ap (λ o. (q, o)) some_read in
        let m = read_head-Moved r q (major, v) u whole in
        let taken : skip_item q (record k { pending = k.pending - 1 }) major v ≡ (r', some k') =
          rw whole at e in
        let n =
          skip_item-Moved q r' (record k { pending = k.pending - 1 }) k' major v
            (omega (arith, m.same_len)) (omega (arith, m.inside)) taken in
        record {
          further = omega (arith, m.further, n.0);
          inside = n.1;
          same_len = n.2 ∙ m.same_len;
        })
]

skip_loop_ends :
    (fuel : ℕ) (r : Reader) (k : Walk)
    → IsU16 r.len
    → r.len - r.pos < fuel
    → (skip_loop fuel r k).1 ≢ out_of_fuel
unfolding skip_loop
skip_loop_ends zero r k u h = absurd (omega arith)
skip_loop_ends (suc fuel) r k u h = elim (Option-cases (skip_round k (read_head r)).1) [
  | inl e ↦ ground (arith, e)
  | inr (k', e) ↦
      (let r' = (skip_round k (read_head r)).0 in
        let m = round-Moved r r' k k' u (ap (λ o. (r', o)) e) in
        ground (
          arith,
          e,
          skip_loop_ends fuel r' k' (omega (arith, m.same_len))
              (omega (arith, m.further, m.inside, m.same_len)),
        ))
]

-- Whatever bytes it is given, the loop of `lh_cbor_skip` ends.
pub skip-ends : (r : Reader) → IsU16 r.len → (skip r).1 ≢ out_of_fuel
unfolding skip
skip-ends r u =
    skip_loop_ends (r.len - r.pos + 2) r (record { pending = 1; depth = 0 }) u (omega arith)

-- The count of a map is doubled modulo `2 ^ 64`: one of `2 ^ 63 + n` pairs passes for one of `n`.
pub skip_map_wraps :
    (r : Reader) (k : Walk) (n : ℕ) → n < 2 ^ 63 → skip_item r k 5 (2 ^ 63 + n) ≡ skip_item r k 5 n
unfolding skip_item
skip_map_wraps r k n h = let same : u64 ((2 ^ 63 + n) * 2) ≡ u64 (n * 2) = omega arith in rw same
