-- ===== src/Cbor/Walks.antt =====
-- What `lh_cbor_skip` steps over.
use lo_ra_home.Prelude.{
  subst, ℕ, zero, suc, ◌+◌, ◌-◌, ◌*◌, ◌≡◌, refl, arith, List, ◌++◌, inl, inr, append_assoc, length,
  length-append,
}
use lo_ra_home.Cbor.{head_bytes}
use lo_ra_home.Cbor.Reader.{Reader}
use lo_ra_home.Cbor.Skip.{Walk, skip_loop}
use lo_ra_home.Cbor.Heads.{At, moved, moved-At}
use lo_ra_home.Cbor.Items.{
  uint, nint, bytes, array, map, Items, no_items, item, emit_items, count_items, count_pairs,
  containers_items, join, join_pairs, join-Sums, join_pairs-Sums,
}
use lo_ra_home.Cbor.Steps.{
  Waits, Ends, skip_done, round_step, onward, skip_item_bytes, number_round, container_round,
}

pub skip_loop-Waits :
    (fuel : ℕ) (xs : Items) (r : Reader) (k : Walk) (rest : List ℕ)
    → Waits fuel r k xs rest
    → Ends r (length (emit_items xs)) (k.depth + containers_items xs) (skip_loop fuel r k)
skip_loop-Waits zero xs r k rest w = absurd (omega (arith, w.enough))
skip_loop-Waits (suc fuel) no_items r k rest w = skip_done fuel r k w.waiting w.nested
skip_loop-Waits (suc fuel) (item (uint v) xs) r k rest w =
    number_round fuel r k 0 v xs rest (inl refl) w.at w.ranges.0 w.ranges.1 w.waiting w.nested
      (omega (arith, w.enough)) (λ r' k' w'. skip_loop-Waits fuel xs r' k' rest w')
skip_loop-Waits (suc fuel) (item (nint v) xs) r k rest w =
    number_round fuel r k 1 v xs rest (inr refl) w.at w.ranges.0 w.ranges.1 w.waiting w.nested
      (omega (arith, w.enough)) (λ r' k' w'. skip_loop-Waits fuel xs r' k' rest w')
skip_loop-Waits (suc fuel) (item (bytes b) xs) r k rest w =
    let head = head_bytes 2 (length b) in
    let k' = record k { pending = k.pending - 1 } in
    let same : ((head ++ b) ++ emit_items xs) ++ rest ≡ head ++ (b ++ (emit_items xs ++ rest)) =
      simp append_assoc in
    let a = subst (At r) same w.at in
    let r' = moved r (length head) in
    let behind = moved-At head (b ++ (emit_items xs ++ rest)) a in
    let ih = skip_loop-Waits fuel xs (moved r' (length b)) k' rest (record {
      at = moved-At b (emit_items xs ++ rest) behind;
      ranges = w.ranges.1;
      waiting = omega (arith, w.waiting);
      nested = omega (arith, w.nested);
      enough = omega (arith, w.enough);
    }) in
    onward (length head) (length b + length (emit_items xs)) _ _ _
      (round_step fuel r (moved r' (length b)) k k' 2 (length b) (b ++ (emit_items xs ++ rest)) a
        (omega arith)
        (omega (arith, behind.left, behind.bound, length-append b (emit_items xs ++ rest)))
        (omega (arith, w.waiting)) (skip_item_bytes r' k' b (emit_items xs ++ rest) behind))
      (onward (length b) (length (emit_items xs)) _ _ _ refl ih refl refl)
      (omega (arith, length-append (head ++ b) (emit_items xs), length-append head b)) (omega arith)
skip_loop-Waits (suc fuel) (item (array ys) xs) r k rest w =
    let zs = join ys xs in
    let sums = join-Sums ys xs w.ranges.0 w.ranges.1 in
    container_round fuel r k 4 (count_items ys) (count_items ys) _ zs
      (emit_items (item (array ys) xs)) rest (inl (refl, refl)) w.at
      (simp (sums.same_bytes, append_assoc)) sums.same_ranges (omega (arith, w.waiting))
      (omega (arith, w.waiting, sums.same_count)) w.nested (omega (arith, sums.same_containers))
      (omega (arith, w.enough, sums.same_size)) (λ r' k' w'. skip_loop-Waits fuel zs r' k' rest w')
skip_loop-Waits (suc fuel) (item (map ys) xs) r k rest w =
    let zs = join_pairs ys xs in
    let sums = join_pairs-Sums ys xs w.ranges.0 w.ranges.1 in
    container_round fuel r k 5 (count_pairs ys) (2 * count_pairs ys) _ zs
      (emit_items (item (map ys) xs)) rest (inr (refl, refl)) w.at
      (simp (sums.same_bytes, append_assoc)) sums.same_ranges (omega (arith, w.waiting))
      (omega (arith, w.waiting, sums.same_count)) w.nested (omega (arith, sums.same_containers))
      (omega (arith, w.enough, sums.same_size)) (λ r' k' w'. skip_loop-Waits fuel zs r' k' rest w')
