-- ===== src/Cbor/Finish.antt =====
-- What the writer of cbor.c answers at the end of any calls.
use lo_ra_home.Prelude.{
  ℕ, ◌-◌, ◌^◌, ◌≤◌, ◌<◌, ◌≡◌, refl, ap, sym, ◌∙◌, arith, List, [], ◌∷◌, ◌++◌, Option, none, some,
  append-nil, append_assoc, length, take, IsU16, Bool-cases, inl, inr, leb, ltb, if◌then◌else◌, All,
  subst,
}
use lo_ra_home.Cbor.{head_bytes}
use lo_ra_home.Cbor.Writer.{
  Writer, writer_init, writer_finish, put, put_all, write_head, write_uint, write_array, write_map,
  write_int, write_bytes,
}
use native.Mathlib.Decide.{dec_le}
use lo_ra_home.Cbor.Writes.{Holds, init-Holds, kept, lost, write_head-Holds}
use lo_ra_home.Cbor.ByteStrings.{write_bytes-Holds}

-- A call of one of the writing functions, and the bytes that it stands for.
pub data Write : Type 0 where
  uint int array map : ℕ → Write
  bytes : List ℕ → Write

-- The ranges of the arguments: a `uint16_t` length of a byte string.
abbrev pub IsWrite : Write → Type 0
IsWrite (bytes b) = length b < 2 ^ 16
IsWrite _ = Unit {0}

unfoldable pub encoding : Write → List ℕ
encoding (uint v) = head_bytes 0 v
encoding (int v) = if ltb v (2 ^ 63) then head_bytes 0 v else head_bytes 1 (2 ^ 64 - 1 - v)
encoding (array n) = head_bytes 4 n
encoding (map n) = head_bytes 5 n
encoding (bytes b) = head_bytes 2 (length b) ++ b

unfoldable pub write : Writer → Write → Writer
write w (uint v) = (write_uint w v).0
write w (int v) = (write_int w v).0
write w (array n) = (write_array w n).0
write w (map n) = (write_map w n).0
write w (bytes b) = (write_bytes w b).0

unfoldable pub write_list : Writer → List Write → Writer
write_list w [] = w
write_list w (c ∷ cs) = write_list (write w c) cs

unfoldable pub encodings : List Write → List ℕ
encodings [] = []
encodings (c ∷ cs) = encoding c ++ encodings cs

cap-put : (w : Writer) (b : ℕ) → (put w b).0.cap ≡ w.cap
unfolding put
cap-put w b = ground arith

cap-put_all : (bs : List ℕ) (w : Writer) → (put_all w bs).0.cap ≡ w.cap
unfolding put_all
cap-put_all [] w = refl
cap-put_all (b ∷ bs) w = ground (arith, cap-put_all bs (put w b).0, cap-put w b)

cap-write_head : (w : Writer) (major v : ℕ) → (write_head w major v).0.cap ≡ w.cap
unfolding write_head
cap-write_head w major v = cap-put_all (head_bytes major v) w

cap-write : (c : Write) (w : Writer) → (write w c).cap ≡ w.cap
unfolding write write_uint write_int write_array write_map write_bytes
cap-write (uint v) w = cap-write_head w 0 v
cap-write (int v) w = ground (arith, cap-write_head w 0 v, cap-write_head w 1 (2 ^ 64 - 1 - v))
cap-write (array n) w = cap-write_head w 4 n
cap-write (map n) w = cap-write_head w 5 n
cap-write (bytes b) w = ground (arith, cap-write_head w 2 (length b))

cap-write_list : (cs : List Write) (w : Writer) → (write_list w cs).cap ≡ w.cap
unfolding write_list
cap-write_list [] w = refl
cap-write_list (c ∷ cs) w = cap-write_list cs (write w c) ∙ cap-write c w

pub write-Holds :
    (c : Write) {w : Writer} {xs : List ℕ}
    → Holds w xs
    → IsWrite c
    → Holds (write w c) (xs ++ encoding c)
unfolding write encoding write_uint write_int write_array write_map
write-Holds (uint v) h small = write_head-Holds 0 v h
write-Holds (int v) {w} {xs} h small =
    ground (arith, write_head-Holds 0 v h, write_head-Holds 1 (2 ^ 64 - 1 - v) h)
write-Holds (array n) h small = write_head-Holds 4 n h
write-Holds (map n) h small = write_head-Holds 5 n h
write-Holds (bytes b) h small = write_bytes-Holds b small h

pub write_list-Holds :
    (cs : List Write) {w : Writer} {xs : List ℕ}
    → Holds w xs
    → All IsWrite cs
    → Holds (write_list w cs) (xs ++ encodings cs)
unfolding write_list encodings
write_list-Holds [] {w} {xs} h small = rw append-nil h
write_list-Holds (c ∷ cs) {w} {xs} h small =
    subst (Holds _) (append_assoc xs (encoding c) (encodings cs))
      (write_list-Holds cs (write-Holds c h small.0) small.1)

finish-Holds :
    {w : Writer} {xs : List ℕ}
    → Holds w xs
    → (writer_finish w ≡ (if leb (length xs) w.cap then some (length xs) else none))
      × (length xs ≤ w.cap → take (length xs) w.buf ≡ xs)
unfolding writer_finish
finish-Holds {w} {xs} h = elim (Bool-cases w.overflow) [
  | inl e ↦ (ground (arith, e, lost h e), λ p. absurd (omega (arith, lost h e)))
  | inr e ↦
      (let (size, same) = kept h e in
        (ground (arith, e, size, h.used), λ p. ap (λ n. take n w.buf) (sym size) ∙ same))
]

-- What a caller finds at the end: the bytes that the length it is answered covers.
unfoldable pub written : Writer → Option (List ℕ)
unfolding writer_finish
written w = elim (writer_finish w) [ none ↦ none | some n ↦ some (take n w.buf) ]

-- Whatever calls write into a buffer, the caller finds at the end exactly the bytes of all of them in
-- their order where these fit the buffer, and the failure where they do not.
pub write_list_exact :
    (cs : List Write) (buf : List ℕ)
    → IsU16 (length buf)
    → All IsWrite cs
    → written (write_list (writer_init buf (length buf)) cs)
      ≡ (if leb (length (encodings cs)) (length buf) then some (encodings cs) else none)
unfolding written
write_list_exact cs buf u small =
    let h = write_list-Holds cs (init-Holds buf u) small in
    let same : (write_list (writer_init buf (length buf)) cs).cap ≡ length buf =
      cap-write_list cs (writer_init buf (length buf)) ∙ unfold writer_init in refl in
    let (answer, content) = finish-Holds h in
    elim (dec_le (length (encodings cs)) (length buf)) [
      | yes p ↦ (let found = content (omega arith) in ground (arith, answer, same, found))
      | no p ↦ ground (arith, answer, same)
    ]

-- Where all of it fits, the length that the caller is answered, and what it covers.
pub write_list_fits :
    (cs : List Write) (buf : List ℕ)
    → IsU16 (length buf)
    → All IsWrite cs
    → length (encodings cs) ≤ length buf
    → (let w = write_list (writer_init buf (length buf)) cs in
        (writer_finish w ≡ some (length (encodings cs)))
        × (take (length (encodings cs)) w.buf ≡ encodings cs))
write_list_fits cs buf u small fits =
    let h = write_list-Holds cs (init-Holds buf u) small in
    let same : (write_list (writer_init buf (length buf)) cs).cap ≡ length buf =
      cap-write_list cs (writer_init buf (length buf)) ∙ unfold writer_init in refl in
    let (answer, content) = finish-Holds h in (ground (arith, answer, same), content (omega arith))
