-- ===== src/Scheduler/Turns.antt =====
-- The order of the steps in a tick.
use lo_ra_home.Prelude.{
  ℕ, zero, suc, ◌+◌, ◌-◌, ◌%◌, ◌≤◌, ◌<◌, ◌≡◌, ◌⊎◌, inl, inr, ap, ◌∙◌, arith, List, [], ◌∷◌, ◌==◌,
  if◌then◌else◌, ltb, leb, ◌&&◌,
}
use native.Mathlib.Decide.{dec_lt}
use native.Mathlib.Nat.{mod-eq_of_lt, add-mod_right}
use lo_ra_home.Scheduler.Tick.{turns}

-- How often `j` is in the list.
unfoldable pub occurrences : ℕ → List ℕ → ℕ
occurrences j [] = 0
occurrences j (x ∷ xs) = let rest = occurrences j xs in if x == j then suc rest else rest

wrap_above : (x n : ℕ) → n ≤ x → x < n + n → x % n ≡ x - n
wrap_above x n h k =
    ap (λ y. y % n) {x = x} {y = x - n + n} (omega arith)
    ∙ add-mod_right (x - n) n
    ∙ mod-eq_of_lt (omega arith)

wrap : (x n : ℕ) → x < n + n → x % n ≡ (if ltb x n then x else x - n)
wrap x n h = elim (dec_lt x n) [
  | yes p ↦ ground (arith, mod-eq_of_lt p)
  | no p ↦ ground (arith, wrap_above x n (omega arith) h)
]

-- Slot `j` is visited in round `d`, and in no other.
occurrences-turns :
    (m r n a d j : ℕ)
    → n ≤ 8
    → r < n
    → d < n
    → (r + d ≡ j) ⊎ (r + d ≡ j + n)
    → j < n
    → a + m ≤ n
    → occurrences j (turns r n a m) ≡ (if leb a d && ltb d (a + m) then 1 else 0)
unfolding occurrences turns
occurrences-turns zero r n a d j small hr hd e hj h = ground arith
occurrences-turns (suc m) r n a d j small hr hd e hj h =
    let rest = occurrences-turns m r n (a + 1) d j small hr hd e hj (omega arith) in
    ground (arith, rest, wrap (r + a) n (omega arith))

-- In one tick every slot that is taken has exactly one turn, wherever the rotation stands.
pub turns_once :
    (rotation count j : ℕ)
    → count ≤ 8
    → rotation < count
    → j < count
    → occurrences j (turns rotation count 0 count) ≡ 1
turns_once rotation count j small hr hj = elim (dec_lt j rotation) [
  | yes p ↦
      (let one =
          occurrences-turns count rotation count 0 (j + count - rotation) j small hr (omega arith)
            (inr (omega arith)) hj (omega arith) in
        ground (arith, one))
  | no p ↦
      (let one =
          occurrences-turns count rotation count 0 (j - rotation) j small hr (omega arith)
            (inl (omega arith)) hj (omega arith) in
        ground (arith, one))
]
