-- ===== src/DutyCycle/Sent.antt =====
-- The transmissions that the tracker holds, as a list, and their airtime.
use lo_ra_home.Prelude.{
  ℕ, suc, ◌+◌, ◌-◌, ◌%◌, ◌≤◌, ◌≡◌, refl, ap, arith, List, [], ◌∷◌, ◌++◌, length, get_or, leb,
  if◌then◌else◌, u32,
}
use lo_ra_home.DutyCycle.{Entry, no_entry}
use lo_ra_home.DutyCycle.Live.{live}

-- A transmission: when, and for how long.
abbrev pub recorded : ℕ × ℕ → Entry
recorded (at, duration) = record { at_ms = u32 at; duration_ms = duration }

abbrev pub all_recorded : List (ℕ × ℕ) → List Entry
all_recorded [] = []
all_recorded (x ∷ xs) = recorded x ∷ all_recorded xs

abbrev pub total : List (ℕ × ℕ) → ℕ
total [] = 0
total ((at, duration) ∷ xs) = duration + total xs

pub all_recorded-append :
    (xs ys : List (ℕ × ℕ)) → all_recorded (xs ++ ys) ≡ all_recorded xs ++ all_recorded ys
all_recorded-append [] ys = refl
all_recorded-append (x ∷ xs) ys = ap (◌∷◌ (recorded x)) (all_recorded-append xs ys)

pub total-append : (xs ys : List (ℕ × ℕ)) → total (xs ++ ys) ≡ total xs + total ys
total-append [] ys = omega arith
total-append ((at, duration) ∷ xs) ys = omega (arith, total-append xs ys)

first_entry : List Entry → Entry
first_entry [] = no_entry
first_entry (x ∷ xs) = x

other_entries : List Entry → List Entry
other_entries [] = []
other_entries (x ∷ xs) = xs

-- The oldest entry of a tracker that is not empty.
pub first_of :
    (entries : List Entry) (head n : ℕ) (held : List (ℕ × ℕ))
    → live entries head (suc n) ≡ all_recorded held
    → (at : ℕ) × (duration : ℕ) × (rest : List (ℕ × ℕ)) × (held ≡ (at, duration) ∷ rest)
      × (get_or entries ((head + 256 - suc n) % 256) no_entry ≡ recorded (at, duration))
      × (live entries head n ≡ all_recorded rest)
unfolding live first_entry other_entries
first_of entries head n [] e = absurd (ground (arith, ap length e))
first_of entries head n ((at, duration) ∷ rest) e =
    (at, duration, rest, refl, ap first_entry e, ap other_entries e)

module _ (window_ms : ℕ) where
  -- The airtime within the window that ends at `now`.
  abbrev pub recent : ℕ → List (ℕ × ℕ) → ℕ
  recent now [] = 0
  recent now ((at, duration) ∷ xs) =
      (if leb now (at + window_ms) then duration else 0) + recent now xs

  pub recent-append :
      (now : ℕ) (xs ys : List (ℕ × ℕ)) → recent now (xs ++ ys) ≡ recent now xs + recent now ys
  recent-append now [] ys = omega arith
  recent-append now ((at, duration) ∷ xs) ys = omega (arith, recent-append now xs ys)

  pub recent-total : (now : ℕ) (xs : List (ℕ × ℕ)) → recent now xs ≤ total xs
  recent-total now [] = omega arith
  recent-total now ((at, duration) ∷ xs) = ground (arith, recent-total now xs)
