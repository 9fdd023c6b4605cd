-- ===== src/Prelude/Copy.antt =====
-- `memcpy` into a C array, element by element.
use Prim.Native.Nat.{ℕ, zero, suc, ◌+◌, ◌≤◌, ◌<◌}
use mathlib.Core.Path.{◌≡◌, refl, sym, ap, ◌∙◌}
use mathlib.Core.List.{List, [], ◌∷◌, ◌++◌, append_assoc}
use native.Mathlib.Omega.{arith}
use lo_ra_home.Prelude.Lists.{
  length, get_or, take, drop, length-append, length-take, length-drop, get_or-append_left,
  get_or-append_right, get_or-take, take-append_eq,
}

module _ {ℓ} {A : Type ℓ} where
  -- `memcpy(&xs[at], ys, length ys)`
  abbrev pub copy : List A → ℕ → List A → List A
  copy xs at ys = take at xs ++ (ys ++ drop (at + length ys) xs)

  pub get_or-drop :
      (xs : List A) (n i j : ℕ) (d : A) → j ≡ n + i → get_or (drop n xs) i d ≡ get_or xs j d
  get_or-drop xs zero i j d e = ap (λ k. get_or xs k d) (omega arith)
  get_or-drop [] (suc n) i j d e = refl
  get_or-drop (x ∷ xs) (suc n) i zero d e = absurd (omega arith)
  get_or-drop (x ∷ xs) (suc n) i (suc j) d e = get_or-drop xs n i j d (omega arith)

  pub length-copy :
      (xs ys : List A) (at : ℕ) → at + length ys ≤ length xs → length (copy xs at ys) ≡ length xs
  length-copy xs ys at h = omega (
    arith,
    length-append (take at xs) (ys ++ drop (at + length ys) xs),
    length-append ys (drop (at + length ys) xs),
    length-take at xs,
    length-drop (at + length ys) xs,
  )

  pub get_or-copy_in :
      (xs ys : List A) (at j i : ℕ) (d : A)
      → at ≤ length xs
      → j < length ys
      → i ≡ at + j
      → get_or (copy xs at ys) i d ≡ get_or ys j d
  get_or-copy_in xs ys at j i d h k e =
      get_or-append_right (take at xs) (ys ++ drop (at + length ys) xs) i j d
        (omega (arith, length-take at xs))
      ∙ get_or-append_left ys (drop (at + length ys) xs) j d k

  pub get_or-copy_below :
      (xs ys : List A) (at i : ℕ) (d : A)
      → at ≤ length xs
      → i < at
      → get_or (copy xs at ys) i d ≡ get_or xs i d
  get_or-copy_below xs ys at i d h k =
      get_or-append_left (take at xs) (ys ++ drop (at + length ys) xs) i d
        (omega (arith, length-take at xs))
      ∙ get_or-take xs at i d k

  pub get_or-copy_above :
      (xs ys : List A) (at j i : ℕ) (d : A)
      → at ≤ length xs
      → i ≡ at + length ys + j
      → get_or (copy xs at ys) i d ≡ get_or xs i d
  get_or-copy_above xs ys at j i d h e =
      get_or-append_right (take at xs) (ys ++ drop (at + length ys) xs) i (length ys + j) d
        (omega (arith, length-take at xs))
      ∙ get_or-append_right ys (drop (at + length ys) xs) (length ys + j) j d refl
      ∙ get_or-drop xs (at + length ys) j i d e

  -- The front of the array up to the end of the copy.
  pub take-copy :
      (xs ys : List A) (at : ℕ)
      → at ≤ length xs
      → take (at + length ys) (copy xs at ys) ≡ take at xs ++ ys
  take-copy xs ys at h =
      ap (take (at + length ys)) (sym (append_assoc (take at xs) ys (drop (at + length ys) xs)))
      ∙ take-append_eq (at + length ys) (take at xs ++ ys) (drop (at + length ys) xs)
          (omega (arith, length-append (take at xs) ys, length-take at xs))
