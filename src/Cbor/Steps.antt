-- ===== src/Cbor/Steps.antt =====
-- One round of the loop of `lh_cbor_skip`, for each kind of item.
use lo_ra_home.Prelude.{
  subst, ℕ, suc, ◌+◌, ◌-◌, ◌*◌, ◌^◌, ◌≤◌, ◌<◌, ◌≡◌, ap, sym, ◌∙◌, arith, List, ◌++◌, ◌⊎◌, inl, inr,
  some, append_assoc, length, length-append,
}
use native.Mathlib.Decide.{dec_lt}
use lo_ra_home.Cbor.{head_bytes}
use lo_ra_home.Cbor.Reader.{Reader}
use lo_ra_home.Cbor.Skip.{Skipped, skipped, refused, Walk, skip_item, skip_round, skip_loop}
use lo_ra_home.Cbor.Heads.{At, moved, moved-At, read_head-head_bytes}
use lo_ra_home.Cbor.Items.{
  Item, uint, nint, bytes, array, map, Items, no_items, item, Pairs, no_pairs, pair, emit,
  emit_items, emit_pairs, count_items, count_pairs, containers_items, AreItems, size, size_items,
}

pub length-head_pos : (major v : ℕ) → 0 < length (head_bytes major v)
unfolding head_bytes
length-head_pos major v = ground arith

pub length-emit_pos : (x : Item) → 0 < length (emit x)
length-emit_pos (uint v) = length-head_pos 0 v
length-emit_pos (nint v) = length-head_pos 1 v
length-emit_pos (bytes b) =
    omega (arith, length-head_pos 2 (length b), length-append (head_bytes 2 (length b)) b)
length-emit_pos (array xs) = omega (
  arith,
  length-head_pos 4 (count_items xs),
  length-append (head_bytes 4 (count_items xs)) (emit_items xs),
)
length-emit_pos (map ps) = omega (
  arith,
  length-head_pos 5 (count_pairs ps),
  length-append (head_bytes 5 (count_pairs ps)) (emit_pairs ps),
)

pub count_items_le : (xs : Items) → count_items xs ≤ length (emit_items xs)
count_items_le no_items = omega arith
count_items_le (item x xs) =
    omega (arith, length-emit_pos x, count_items_le xs, length-append (emit x) (emit_items xs))

pub count_pairs_le : (ps : Pairs) → 2 * count_pairs ps ≤ length (emit_pairs ps)
count_pairs_le no_pairs = omega arith
count_pairs_le (pair k v ps) = omega (
  arith,
  length-emit_pos k,
  length-emit_pos v,
  count_pairs_le ps,
  length-append (emit k) (emit v ++ emit_pairs ps),
  length-append (emit v) (emit_pairs ps),
)

-- One round of the loop whose head is `head_bytes major v`.
pub round_step :
    (fuel : ℕ) (r r' : Reader) (k k' : Walk) (major v : ℕ) (rest : List ℕ)
    → At r (head_bytes major v ++ rest)
    → major < 8
    → v < 2 ^ 64
    → 0 < k.pending
    → skip_item
        (moved r (length (head_bytes major v)))
        (record k { pending = k.pending - 1 })
        major
        v
      ≡ (r', some k')
    → skip_loop (suc fuel) r k ≡ skip_loop fuel r' k'
unfolding skip_loop skip_round
round_step fuel r r' k k' major v rest a m small p e =
    ground (arith, read_head-head_bytes r major v rest a m small, e)

-- A reader in front of the items that are pending, and what is left behind them.
pub record Waits (n : ℕ) (r : Reader) (k : Walk) (xs : Items) (rest : List ℕ) : Type 0 where
  pub at : At r (emit_items xs ++ rest)
  pub ranges : AreItems xs
  pub waiting : k.pending ≡ count_items xs
  pub nested : k.depth ≤ 8
  pub enough : size_items xs < n

-- How the loop ends that meets `d` containers in all and stands at the end `n` bytes further on.
pub record Ends (r : Reader) (n d : ℕ) (out : Reader × Skipped) : Type 0 where
  pub few : d ≤ 8 → out ≡ (moved r n, skipped)
  pub many : 8 < d → out.1 ≡ refused

-- Behind a first part of `n` bytes, the rest of the loop.
pub onward :
    {r : Reader} (n m total d d' : ℕ) {out out' : Reader × Skipped}
    → out ≡ out'
    → Ends (moved r n) m d' out'
    → n + m ≡ total
    → d ≡ d'
    → Ends r total d out
onward {r} n m total d d' step e size same = record {
  few = λ h. step ∙ e.few (omega arith) ∙ ap (λ p. (record r { pos = p }, skipped)) (omega arith);
  many = λ h. ap (λ o. o.1) step ∙ e.many (omega arith);
}

pub skip_item_bytes :
    (r : Reader) (k : Walk) (b rest : List ℕ)
    → At r (b ++ rest)
    → skip_item r k 2 (length b) ≡ (moved r (length b), some k)
unfolding skip_item
skip_item_bytes r k b rest a = ground (arith, a.left, a.bound, length-append b rest)

skip_item_container :
    (r : Reader) (k : Walk) (major n items left : ℕ)
    → (major ≡ 4) × (items ≡ n) ⊎ (major ≡ 5) × (items ≡ 2 * n)
    → r.len - r.pos ≡ left
    → items ≤ left
    → left < 2 ^ 16
    → k.depth < 8
    → k.pending < 2 ^ 16
    → skip_item r k major n
      ≡ (r, some (record { pending = k.pending + items; depth = k.depth + 1 }))
unfolding skip_item
skip_item_container r k major n items left (inl (m, i)) e h small d p = rw m (ground arith)
skip_item_container r k major n items left (inr (m, i)) e h small d p = rw m (ground arith)

pub skip_done :
    (fuel : ℕ) (r : Reader) (k : Walk)
    → k.pending ≡ 0
    → k.depth ≤ 8
    → Ends r 0 (k.depth + 0) (skip_loop (suc fuel) r k)
unfolding skip_loop
skip_done fuel r k e h = record { few = λ p. ground (arith, e); many = λ p. absurd (omega arith) }

skip_over :
    (fuel : ℕ) (r : Reader) (k : Walk) (major v total d : ℕ) (rest : List ℕ)
    → At r (head_bytes major v ++ rest)
    → (major ≡ 4) ⊎ (major ≡ 5)
    → v < 2 ^ 64
    → 0 < k.pending
    → k.depth ≡ 8
    → 8 < d
    → Ends r total d (skip_loop (suc fuel) r k)
unfolding skip_loop skip_round skip_item
skip_over fuel r k major v total d rest a m small p e big = record {
  few = λ h. absurd (omega arith);
  many = λ h. ground (arith, read_head-head_bytes r major v rest a (omega (arith, m)) small, m, e);
}

-- What is left of the loop behind a round.
abbrev pub Rest : ℕ → Items → List ℕ → Type 0
Rest fuel xs rest =
    (r : Reader) (k : Walk)
    → Waits fuel r k xs rest
    → Ends r (length (emit_items xs)) (k.depth + containers_items xs) (skip_loop fuel r k)

-- The round of a number.
pub number_round :
    (fuel : ℕ) (r : Reader) (k : Walk) (major v : ℕ) (xs : Items) (rest : List ℕ)
    → (major ≡ 0) ⊎ (major ≡ 1)
    → At r ((head_bytes major v ++ emit_items xs) ++ rest)
    → v < 2 ^ 64
    → AreItems xs
    → k.pending ≡ suc (count_items xs)
    → k.depth ≤ 8
    → size_items xs < fuel
    → Rest fuel xs rest
    → Ends r
        (length (head_bytes major v ++ emit_items xs))
        (k.depth + (0 + containers_items xs))
        (skip_loop (suc fuel) r k)
number_round fuel r k major v xs rest m at small ranges waiting nested enough go =
    let head = head_bytes major v in
    let r' = moved r (length head) in
    let k' = record k { pending = k.pending - 1 } in
    let a = subst (At r) (append_assoc head (emit_items xs) rest) at in
    let stays : skip_item r' k' major v ≡ (r', some k') = unfold skip_item in ground (arith, m) in
    let later = go r' k' (record {
      at = moved-At head (emit_items xs ++ rest) a;
      ranges = ranges;
      waiting = omega (arith, waiting);
      nested = omega (arith, nested);
      enough = omega (arith, enough);
    }) in
    onward (length head) (length (emit_items xs)) _ _ _
      (round_step fuel r r' k k' major v (emit_items xs ++ rest) a (omega (arith, m)) small
        (omega (arith, waiting)) stays)
      later (sym (length-append head (emit_items xs))) (omega arith)

-- The round of an array or a map of `n`, whose items are put in front of those that wait.
pub container_round :
    (fuel : ℕ) (r : Reader) (k : Walk) (major n items c : ℕ) (zs : Items) (whole rest : List ℕ)
    → (major ≡ 4) × (items ≡ n) ⊎ (major ≡ 5) × (items ≡ 2 * n)
    → At r (whole ++ rest)
    → head_bytes major n ++ emit_items zs ≡ whole
    → AreItems zs
    → 0 < k.pending
    → count_items zs ≡ items + (k.pending - 1)
    → k.depth ≤ 8
    → suc (containers_items zs) ≡ c
    → size_items zs < fuel
    → Rest fuel zs rest
    → Ends r (length whole) (k.depth + c) (skip_loop (suc fuel) r k)
container_round fuel r k major n items c zs whole rest kind at same ranges waits count nested inner
      enough go =
    let head = head_bytes major n in
    let r' = moved r (length head) in
    let k1 = record k { pending = k.pending - 1 } in
    let k' : Walk = record { pending = k.pending - 1 + items; depth = k.depth + 1 } in
    let a : At r (head ++ (emit_items zs ++ rest)) =
      subst (At r) (ap (λ l. l ++ rest) (sym same) ∙ append_assoc head (emit_items zs) rest) at in
    let behind = moved-At head (emit_items zs ++ rest) a in
    let left = length-append (emit_items zs) rest in
    let many = count_items_le zs in
    let small : n < 2 ^ 64 = omega (arith, behind.left, behind.bound, left, many, count, kind) in
    elim (dec_lt k.depth 8) [
      | yes p ↦
          (let later = go r' k' (record {
            at = behind;
            ranges = ranges;
            waiting = omega (arith, count);
            nested = omega arith;
            enough = enough;
          }) in
            let taken =
              skip_item_container r' k1 major n items (length (emit_items zs ++ rest)) kind
                (omega (arith, behind.left)) (omega (arith, left, many, count))
                (omega (arith, behind.left, behind.bound)) p
                (omega (arith, count, many, left, behind.left, behind.bound)) in
            onward (length head) (length (emit_items zs)) _ _ _
              (round_step fuel r r' k k' major n (emit_items zs ++ rest) a (omega (arith, kind))
                small waits taken)
              later (sym (length-append head (emit_items zs)) ∙ ap length same)
              (omega (arith, inner)))
      | no p ↦
          skip_over fuel r k major n _ _ (emit_items zs ++ rest) a (ground (arith, kind)) small
            waits (omega (arith, nested)) (omega arith)
    ]
