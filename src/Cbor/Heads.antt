-- ===== src/Cbor/Heads.antt =====
-- A head that was written is read back.
use lo_ra_home.Prelude.{
  subst, ℕ, zero, suc, ◌+◌, ◌*◌, ◌/◌, ◌%◌, ◌^◌, ◌≤◌, ◌<◌, ◌≡◌, refl, ap, sym, ◌∙◌, arith, List, [],
  ◌∷◌, ◌++◌, false, some, bit_or, bit_and, u8, u16, get_or, length, length-append,
  get_or-append_left, get_or-append_right, IsU16,
}
use lo_ra_home.Prelude.Bits.{bit_or_fields, bit_and_mask}
use lo_ra_home.Cbor.{u64, be_bytes, head_bytes}
use lo_ra_home.Cbor.Reader.{Reader, reader_init, read_value, read_argument, read_head, extra_bytes}
use native.Mathlib.Nat.{div-div-eq-div-mul, div-le_self, div-eq_of_lt}
use native.Mathlib.Numerals.{towards_suc}
use native.Mathlib.Decide.{dec_lt}

pub length-be_bytes : (n v : ℕ) → length (be_bytes n v) ≡ n
length-be_bytes zero v = refl
length-be_bytes (suc n) v = ap suc (length-be_bytes n v)

-- A reader in front of `bytes`.
pub record At (r : Reader) (bytes : List ℕ) : Type 0 where
  pub fine : r.error ≡ false
  pub bound : IsU16 r.len
  pub left : r.pos + length bytes ≡ r.len
  pub next : (i : ℕ) → i < length bytes → get_or r.buf (r.pos + i) 0 ≡ get_or bytes i 0

pub reader_init-At :
    (bytes : List ℕ) → length bytes < 2 ^ 16 → At (reader_init bytes (length bytes)) bytes
unfolding reader_init
reader_init-At bytes h = record {
  fine = refl;
  bound = h;
  left = omega arith;
  next = λ i p. ap (λ k. get_or bytes k 0) (omega arith);
}

abbrev pub moved : Reader → ℕ → Reader
moved r n = record r { pos = r.pos + n }

pub moved-At : {r : Reader} (xs ys : List ℕ) → At r (xs ++ ys) → At (moved r (length xs)) ys
moved-At {r} xs ys a = record {
  fine = a.fine;
  bound = a.bound;
  left = omega (arith, a.left, length-append xs ys);
  next = λ i h.
      ap (λ k. get_or r.buf k 0) {x = r.pos + length xs + i} {y = r.pos + (length xs + i)}
        (omega arith)
      ∙ a.next (length xs + i) (omega (arith, length-append xs ys))
      ∙ get_or-append_right xs ys (length xs + i) i 0 refl;
}

pow_byte : (n : ℕ) → 2 ^ (8 * suc n) ≡ 2 ^ (8 * n) * 256
pow_byte n = let e : 8 * suc n ≡ 8 * n + 8 = omega arith in rw e (simp towards_suc (omega arith))

div_digit : (v n : ℕ) → v / 2 ^ (8 * n) ≡ v / 2 ^ (8 * suc n) * 256 + v / 2 ^ (8 * n) % 256
div_digit v n = rw (pow_byte n) (omega (arith, div-div-eq-div-mul v (2 ^ (8 * n)) 256))

div_le : (v n : ℕ) → v / 2 ^ n ≤ v
div_le v n = div-le_self v (2 ^ n)

read_value-be_bytes :
    (n v pos : ℕ) (buf : List ℕ)
    → v < 2 ^ 64
    → ((i : ℕ) → i < n → get_or buf (pos + i) 0 ≡ get_or (be_bytes n v) i 0)
    → read_value buf pos n (v / 2 ^ (8 * n)) ≡ v
unfolding read_value
read_value-be_bytes zero v pos buf small same = omega arith
read_value-be_bytes (suc n) v pos buf small same =
    let high = v / 2 ^ (8 * suc n) in
    let low = v / 2 ^ (8 * n) % 256 in
    let byte : get_or buf pos 0 ≡ low =
      ap (λ k. get_or buf k 0) {x = pos} {y = pos + 0} (omega arith) ∙ same 0 (omega arith) in
    let split = div_digit v n in
    let cast : u64 (high * 2 ^ 8) ≡ high * 2 ^ 8 = omega (arith, split, div_le v (8 * n)) in
    let value : bit_or (u64 (high * 2 ^ 8)) (get_or buf pos 0) ≡ v / 2 ^ (8 * n) =
      rw (cast, byte, bit_or_fields 8 high low (omega arith)) (omega (arith, split)) in
    rw value (
      read_value-be_bytes n v (pos + 1) buf small (λ i h.
        ap (λ k. get_or buf k 0) {x = pos + 1 + i} {y = pos + suc i} (omega arith)
        ∙ same (suc i) (omega arith)))

-- A reader in front of the argument's bytes reads the argument and stands behind them.
read_argument-be_bytes :
    (r : Reader) (major n v : ℕ) (rest : List ℕ)
    → At r (be_bytes n v ++ rest)
    → v < 2 ^ (8 * n)
    → v < 2 ^ 64
    → read_argument r major (some n) ≡ (moved r n, some (major, v))
unfolding read_argument
read_argument-be_bytes r major n v rest a fits small =
    let size = length-append (be_bytes n v) rest in
    let value : read_value r.buf r.pos n 0 ≡ v =
      ap (read_value r.buf r.pos n) {x = 0} {y = v / 2 ^ (8 * n)} (sym (div-eq_of_lt fits))
      ∙ read_value-be_bytes n v r.pos r.buf small (λ i h.
        a.next i (omega (arith, size, length-be_bytes n v))
        ∙ get_or-append_left (be_bytes n v) rest i 0 (omega (arith, length-be_bytes n v))) in
    ground (arith, value, size, length-be_bytes n v, a.left, a.bound)

abbrev initial : ℕ → ℕ → ℕ
initial major info = u8 (bit_or (u8 (major * 2 ^ 5)) info)

initial_parts :
    (major info : ℕ)
    → major < 8
    → info < 32
    → (u8 (initial major info / 2 ^ 5) ≡ major) × (bit_and (initial major info) 0x1f ≡ info)
initial_parts major info m i =
    let cast : u8 (major * 2 ^ 5) ≡ major * 2 ^ 5 = omega arith in
    let value : initial major info ≡ major * 32 + info =
      rw (cast, bit_or_fields 5 major info (omega arith)) (omega arith) in
    rw value (omega arith, omega (arith, bit_and_mask 5 (major * 32 + info)))

-- The two forms of a head: the argument in the initial byte, or in `n` bytes behind it.
data Form (major v : ℕ) : Type 0 where
  short : v < 24 → head_bytes major v ≡ initial major v ∷ [] → Form major v
  long :
      (info n : ℕ)
      → 24 ≤ info
      → info < 32
      → extra_bytes info ≡ some n
      → v < 2 ^ (8 * n)
      → head_bytes major v ≡ initial major info ∷ be_bytes n v
      → Form major v

head_case : (major v : ℕ) → v < 2 ^ 64 → Form major v
unfolding head_bytes
head_case major v h = elim (dec_lt v 24) [
  | yes a ↦ short a (ground arith)
  | no a ↦ elim (dec_lt v 256) [
    | yes b ↦ long 24 1 (omega arith) (omega arith) refl b (ground arith)
    | no b ↦ elim (dec_lt v 65536) [
      | yes c ↦ long 25 2 (omega arith) (omega arith) refl c (ground arith)
      | no c ↦ elim (dec_lt v 4294967296) [
        | yes d ↦ long 26 4 (omega arith) (omega arith) refl d (ground arith)
        | no d ↦ long 27 8 (omega arith) (omega arith) refl h (ground arith)
      ]
    ]
  ]
]

read_head_short :
    (r : Reader) (major v : ℕ) (rest : List ℕ)
    → At r (initial major v ∷ rest)
    → major < 8
    → v < 24
    → read_head r ≡ (moved r 1, some (major, v))
unfolding read_head
read_head_short r major v rest a m h =
    let byte : get_or r.buf r.pos 0 ≡ initial major v =
      ap (λ k. get_or r.buf k 0) {x = r.pos} {y = r.pos + 0} (omega arith)
      ∙ a.next 0 (omega arith) in
    let parts = initial_parts major v m (omega arith) in
    ground (arith, a.fine, a.left, a.bound, byte, parts.0, parts.1)

read_head_long :
    (r : Reader) (major info n v : ℕ) (rest : List ℕ)
    → At r (initial major info ∷ (be_bytes n v ++ rest))
    → major < 8
    → 24 ≤ info
    → info < 32
    → extra_bytes info ≡ some n
    → v < 2 ^ (8 * n)
    → v < 2 ^ 64
    → read_head r ≡ (moved r (suc n), some (major, v))
unfolding read_head
read_head_long r major info n v rest a m l h e fits small =
    let byte : get_or r.buf r.pos 0 ≡ initial major info =
      ap (λ k. get_or r.buf k 0) {x = r.pos} {y = r.pos + 0} (omega arith)
      ∙ a.next 0 (omega arith) in
    let parts = initial_parts major info m h in
    let behind = moved-At (initial major info ∷ []) (be_bytes n v ++ rest) a in
    let step : u16 (r.pos + 1) ≡ r.pos + 1 = omega (arith, a.left, a.bound) in
    let opened : read_head r ≡ read_argument (moved r 1) major (some n) =
      rw (byte, parts.0, parts.1, step, e) (ground (arith, a.fine, a.left)) in
    opened
    ∙ read_argument-be_bytes (moved r 1) major n v rest behind fits small
    ∙ ap (λ k. (record r { pos = k }, some (major, v))) (omega arith)

-- The head that was written is the head that is read, whatever follows it.
pub read_head-head_bytes :
    (r : Reader) (major v : ℕ) (rest : List ℕ)
    → At r (head_bytes major v ++ rest)
    → major < 8
    → v < 2 ^ 64
    → read_head r ≡ (moved r (length (head_bytes major v)), some (major, v))
read_head-head_bytes r major v rest a m small = go (head_case major v small)
  where
    go : Form major v → read_head r ≡ (moved r (length (head_bytes major v)), some (major, v))
    go (short h e) = rw e (read_head_short r major v rest (subst (λ l. At r (l ++ rest)) e a) m h)
    go (long info n l h x fits e) =
        rw (e, length-be_bytes)
          (read_head_long r major info n v rest (subst (λ b. At r (b ++ rest)) e a) m l h x fits
            small)

pub head_bytes_cons :
    (major v : ℕ) → v < 2 ^ 64 → (b : ℕ) × (bs : List ℕ) × (head_bytes major v ≡ b ∷ bs)
head_bytes_cons major v small = go (head_case major v small)
  where
    go : Form major v → (b : ℕ) × (bs : List ℕ) × (head_bytes major v ≡ b ∷ bs)
    go (short h e) = (_, _, e)
    go (long info n l h x fits e) = (_, _, e)
