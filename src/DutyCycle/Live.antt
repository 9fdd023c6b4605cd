-- ===== src/DutyCycle/Live.antt =====
-- The entries of the tracker that count, from the oldest on.
use lo_ra_home.Prelude.{
  ℕ, zero, suc, ◌+◌, ◌-◌, ◌%◌, ◌<◌, ◌≡◌, ◌≢◌, ap, ap₂, arith, List, [], ◌∷◌, ◌++◌, length, get_or,
  set, get_or-set_self, get_or-set_ne,
}
use lo_ra_home.DutyCycle.{Entry, no_entry}

-- The last `count` entries behind `head`.
unfoldable pub live : List Entry → ℕ → ℕ → List Entry
live entries head zero = []
live entries head (suc count) =
    get_or entries ((head + 256 - suc count) % 256) no_entry ∷ live entries head count

-- A record stands behind the entries that were there, up to the capacity.
pub live-set :
    (entries : List Entry) (head : ℕ) (e : Entry) (count : ℕ)
    → length entries ≡ 256
    → head < 256
    → count < 256
    → live (set entries head e) ((head + 1) % 256) (suc count) ≡ live entries head count ++ (e ∷ [])
unfolding live
live-set entries head e zero size h k =
    let at : ((head + 1) % 256 + 256 - 1) % 256 ≡ head = omega arith in
    rw at (ap (λ x. x ∷ []) (get_or-set_self entries head e no_entry (omega arith)))
live-set entries head e (suc count) size h k =
    let at : ((head + 1) % 256 + 256 - suc (suc count)) % 256 ≡ (head + 256 - suc count) % 256 =
      omega arith in
    let apart : head ≢ (head + 256 - suc count) % 256 = λ q. absurd (omega arith) in
    rw at (
      ap₂ ◌∷◌ (get_or-set_ne entries head ((head + 256 - suc count) % 256) e no_entry apart)
        (live-set entries head e count size h (omega arith)))
