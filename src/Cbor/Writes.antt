-- ===== src/Cbor/Writes.antt =====
-- What the writer of cbor.c has in its buffer after any calls: all that was written, or nothing
-- that counts.
use lo_ra_home.Prelude.{
  ℕ, ◌+◌, ◌≤◌, ◌<◌, ◌≡◌, ap, sym, ◌∙◌, arith, List, [], ◌∷◌, ◌++◌, Bool, true, false, append-nil,
  append_assoc, length, length-append, length-set, take, take-set, set, IsU16, Bool-cases, inl, inr,
  suc, subst,
}
use lo_ra_home.Cbor.{head_bytes}
use lo_ra_home.Cbor.Writer.{Writer, writer_init, put, put_all, write_head}
use native.Mathlib.Decide.{dec_lt}

-- A writer that was given `xs` so far: it holds them, or they are too many and it says so.
abbrev pub Content : Writer → Bool → List ℕ → Type 0
Content w false xs = (w.len ≡ length xs) × (take w.len w.buf ≡ xs)
Content w true xs = w.cap < length xs

pub record Holds (w : Writer) (xs : List ℕ) : Type 0 where
  pub size : length w.buf ≡ w.cap
  pub bound : IsU16 w.cap
  pub used : w.len ≤ w.cap
  pub content : Content w w.overflow xs

pub init-Holds : (buf : List ℕ) → IsU16 (length buf) → Holds (writer_init buf (length buf)) []
unfolding writer_init
init-Holds buf h = ground arith

pub kept :
    {w : Writer} {xs : List ℕ}
    → Holds w xs
    → w.overflow ≡ false
    → (w.len ≡ length xs) × (take w.len w.buf ≡ xs)
kept {w} {xs} h e = subst (λ b. Content w b xs) e h.content

pub lost : {w : Writer} {xs : List ℕ} → Holds w xs → w.overflow ≡ true → w.cap < length xs
lost {w} {xs} h e = subst (λ b. Content w b xs) e h.content

-- An overflow stands for whatever is written behind it.
pub still-Holds :
    {w : Writer} {xs : List ℕ} (ys : List ℕ) → Holds w xs → w.overflow ≡ true → Holds w (xs ++ ys)
still-Holds {w} {xs} ys h e = record {
  size = h.size;
  bound = h.bound;
  used = h.used;
  content =
      subst (λ b. Content w b (xs ++ ys)) (sym e) (omega (arith, lost h e, length-append xs ys));
}

-- What does not fit sets the flag.
pub full-Holds :
    {w : Writer} {xs : List ℕ} (ys : List ℕ)
    → Holds w xs
    → w.overflow ≡ false
    → w.cap < w.len + length ys
    → Holds (record w { overflow = true }) (xs ++ ys)
full-Holds {w} {xs} ys h e more = record {
  size = h.size;
  bound = h.bound;
  used = h.used;
  content = omega (arith, (kept h e).0, length-append xs ys);
}

-- What fits is appended.
pub room-Holds :
    {w : Writer} {xs : List ℕ} (ys buf : List ℕ)
    → Holds w xs
    → w.overflow ≡ false
    → w.len + length ys ≤ w.cap
    → length buf ≡ w.cap
    → take (w.len + length ys) buf ≡ take w.len w.buf ++ ys
    → Holds (record w { buf = buf; len = w.len + length ys; overflow = false }) (xs ++ ys)
room-Holds {w} {xs} ys buf h e fits size same = record {
  size = size;
  bound = h.bound;
  used = fits;
  content =
      (omega (arith, (kept h e).0, length-append xs ys), same ∙ ap (λ l. l ++ ys) (kept h e).1);
}

pub put_stuck : (w : Writer) (b : ℕ) → w.overflow ≡ true → put w b ≡ (w, false)
unfolding put
put_stuck w b e = ground (arith, e)

pub put_full :
    (w : Writer) (b : ℕ)
    → w.overflow ≡ false
    → w.cap ≤ w.len
    → put w b ≡ (record w { overflow = true }, false)
unfolding put
put_full w b e h = ground (arith, e)

pub put_room :
    (w : Writer) (b : ℕ)
    → w.overflow ≡ false
    → w.len < w.cap
    → IsU16 w.cap
    → put w b ≡ (record w { buf = set w.buf w.len b; len = w.len + 1; overflow = false }, true)
unfolding put
put_room w b e h u = ground (arith, e)

pub put-Holds : {w : Writer} {xs : List ℕ} (b : ℕ) → Holds w xs → Holds (put w b).0 (xs ++ (b ∷ []))
put-Holds {w} {xs} b h = elim (Bool-cases w.overflow) [
  | inl e ↦ rw (put_stuck w b e) (still-Holds (b ∷ []) h e)
  | inr e ↦ elim (dec_lt w.len w.cap) [
    | yes p ↦ rw (put_room w b e p h.bound) (
        room-Holds (b ∷ []) (set w.buf w.len b) h e (omega arith)
          (length-set w.buf w.len b ∙ h.size)
          (ap (λ k. take k (set w.buf w.len b)) {y = suc w.len} (omega arith)
            ∙ take-set w.buf w.len b (omega (arith, h.size))))
    | no p ↦ rw (put_full w b e (omega arith)) (full-Holds (b ∷ []) h e (omega arith))
  ]
]

pub put_refused : (w : Writer) (b : ℕ) → (put w b).1 ≡ false → (put w b).0.overflow ≡ true
unfolding put
put_refused w b e = ground arith

pub put_all-Holds :
    (bytes : List ℕ) {w : Writer} {xs : List ℕ}
    → Holds w xs
    → Holds (put_all w bytes).0 (xs ++ bytes)
      × ((put_all w bytes).1 ≡ false → (put_all w bytes).0.overflow ≡ true)
unfolding put_all
put_all-Holds [] {w} {xs} h = (rw append-nil h, λ e. cc)
put_all-Holds (b ∷ bs) {w} {xs} h =
    let one = put-Holds b h in
    let rest = put_all-Holds bs one in
    elim (Bool-cases (put w b).1) [
      | inl e ↦ rw e (subst (Holds _) (append_assoc xs (b ∷ []) bs) rest.0, rest.1)
      | inr e ↦ rw e (
        subst (Holds _) (append_assoc xs (b ∷ []) bs) (still-Holds bs one (put_refused w b e)),
        λ f. put_refused w b e,
      )
    ]

pub write_head-Holds :
    (major v : ℕ) {w : Writer} {xs : List ℕ}
    → Holds w xs
    → Holds (write_head w major v).0 (xs ++ head_bytes major v)
unfolding write_head
write_head-Holds major v h = (put_all-Holds (head_bytes major v) h).0
