-- ===== src/Cbor/ByteStrings.antt =====
-- What the writer of cbor.c makes of a byte string.
use lo_ra_home.Prelude.{
  ℕ, ◌+◌, ◌^◌, ◌<◌, ◌≡◌, ap, sym, ◌∙◌, arith, List, [], ◌∷◌, ◌++◌, Bool, true, false, append-nil,
  append_assoc, length, length-copy, take-copy, copy, Bool-cases, inl, inr, subst,
}
use lo_ra_home.Cbor.{head_bytes, major_bytes}
use lo_ra_home.Cbor.Writer.{Writer, put, put_all, write_head, behind_head, write_bytes}
use lo_ra_home.Cbor.Heads.{head_bytes_cons}
use native.Mathlib.Decide.{dec_lt}
use lo_ra_home.Cbor.Writes.{
  Holds, still-Holds, full-Holds, room-Holds, put_all-Holds, write_head-Holds,
}

put_taken : (w : Writer) (b : ℕ) → (put w b).1 ≡ true → (put w b).0.overflow ≡ false
unfolding put
put_taken w b e = ground arith

put_all_taken :
    (bs : List ℕ) (w : Writer) (b : ℕ)
    → (put_all w (b ∷ bs)).1 ≡ true
    → (put_all w (b ∷ bs)).0.overflow ≡ false
unfolding put_all
put_all_taken [] w b e = ground (arith, put_taken w b)
put_all_taken (c ∷ bs) w b e = ground (arith, put_all_taken bs (put w b).0 c)

head_taken :
    (w : Writer) (major v : ℕ)
    → v < 2 ^ 64
    → (write_head w major v).1 ≡ true
    → (write_head w major v).0.overflow ≡ false
unfolding write_head
head_taken w major v small =
    let (b, bs, e) = head_bytes_cons major v small in rw e (put_all_taken bs w b)

head_refused :
    {w : Writer} {xs : List ℕ} (major v : ℕ)
    → Holds w xs
    → (write_head w major v).1 ≡ false
    → (write_head w major v).0.overflow ≡ true
unfolding write_head
head_refused major v h = (put_all-Holds (head_bytes major v) h).1

behind-Holds :
    (w : Writer) (xs bytes : List ℕ)
    → Holds w xs
    → w.overflow ≡ false
    → Holds (behind_head (w, true) bytes).0 (xs ++ bytes)
unfolding behind_head
behind-Holds w xs [] h e = rw append-nil h
behind-Holds w xs (b ∷ bs) h e = elim (dec_lt w.cap (w.len + length (b ∷ bs))) [
  | yes p ↦
      (let opened : behind_head (w, true) (b ∷ bs) ≡ (record w { overflow = true }, false) =
          ground arith in
        rw opened (full-Holds (b ∷ bs) h e p))
  | no p ↦
      (let buf = copy w.buf w.len (b ∷ bs) in
        let opened : behind_head (w, true) (b ∷ bs)
            ≡ (record w { buf = buf; len = w.len + length (b ∷ bs); overflow = false }, true) =
          ground (arith, e, h.bound) in
        rw opened (
          room-Holds (b ∷ bs) buf h e (omega arith)
            (length-copy w.buf (b ∷ bs) w.len (omega (arith, h.size)) ∙ h.size)
            (take-copy w.buf (b ∷ bs) w.len (omega (arith, h.size)))))
]

still_behind :
    (w : Writer) (bytes : List ℕ) {xs : List ℕ}
    → Holds w xs
    → Holds (behind_head (w, false) bytes).0 xs
unfolding behind_head
still_behind w bytes h = h

pub write_bytes-Holds :
    (bytes : List ℕ) {w : Writer} {xs : List ℕ}
    → length bytes < 2 ^ 16
    → Holds w xs
    → Holds (write_bytes w bytes).0 (xs ++ (head_bytes major_bytes (length bytes) ++ bytes))
unfolding write_bytes
write_bytes-Holds bytes {w} {xs} small h =
    let head = write_head-Holds major_bytes (length bytes) h in
    let joined = append_assoc xs (head_bytes major_bytes (length bytes)) bytes in
    let t = write_head w major_bytes (length bytes) in
    let back : (ok : Bool) → t.1 ≡ ok → behind_head t bytes ≡ behind_head (t.0, ok) bytes =
      λ ok e. ap (λ o. behind_head (t.0, o) bytes) e in
    subst (Holds _) joined (
      (elim (Bool-cases t.1) [
        | inl e ↦
            subst (λ o. Holds o.0 ((xs ++ head_bytes major_bytes (length bytes)) ++ bytes))
              (sym (back true e))
              (behind-Holds t.0 _ bytes head
                (head_taken w major_bytes (length bytes) (omega arith) e))
        | inr e ↦
            subst (λ o. Holds o.0 ((xs ++ head_bytes major_bytes (length bytes)) ++ bytes))
              (sym (back false e))
              (still_behind t.0 bytes
                (still-Holds bytes head (head_refused major_bytes (length bytes) h e)))
      ]))
