-- ===== src/Capability/Reads.antt =====
-- What the reader of cbor.c makes of the bytes that the writer was asked for, call by call.
use lo_ra_home.Prelude.{
  ℕ, suc, ◌*◌, ◌^◌, ◌≤◌, ◌<◌, ◌≡◌, ap, ◌∙◌, arith, List, ◌∷◌, ◌++◌, Option, some, length,
  length-append,
}
use lo_ra_home.Cbor.{head_bytes}
use lo_ra_home.Cbor.Reader.{Reader, read_typed, typed, read_uint, read_array, read_map, bounded}
use lo_ra_home.Cbor.Heads.{At, moved, moved-At, read_head-head_bytes}
use lo_ra_home.Cbor.Finish.{Write, uint, array, map, encoding, encodings}
use lo_ra_home.Cbor.Steps.{length-head_pos}
use lo_ra_home.Capability.{and_then}

-- A read that yields `a` and stands in front of `rest`.
pub record Yields {ℓ} {A : Type ℓ} (x : Reader × Option A) (a : A) (rest : List ℕ) : Type ℓ where
  pub after : Reader
  pub same : x ≡ (after, some a)
  pub at : At after rest

pub and_then-Yields {ℓ κ} :
    {A : Type ℓ} {B : Type κ} {x : Reader × Option A} {a : A} {b : B} {rest rest' : List ℕ}
    (go : Reader → A → Reader × Option B)
    → Yields x a rest
    → ((r : Reader) → At r rest → Yields (go r a) b rest')
    → Yields (and_then x go) b rest'
and_then-Yields go y f =
    let next = f y.after y.at in
    record { after = next.after; same = ap (λ p. and_then p go) y.same ∙ next.same; at = next.at }

typed_head :
    (r : Reader) (major v : ℕ) (rest : List ℕ)
    → At r (head_bytes major v ++ rest)
    → major < 8
    → v < 2 ^ 64
    → read_typed r major ≡ (moved r (length (head_bytes major v)), some v)
unfolding read_typed typed
typed_head r major v rest a m h = ground (arith, read_head-head_bytes r major v rest a m h)

pub read_uint-Yields :
    (r : Reader) (v : ℕ) (cs : List Write)
    → At r (encodings (uint v ∷ cs))
    → v < 2 ^ 64
    → Yields (read_uint r) v (encodings cs)
unfolding encodings encoding read_uint
read_uint-Yields r v cs a h = record {
  after = moved r (length (head_bytes 0 v));
  same = typed_head r 0 v (encodings cs) a (omega arith) h;
  at = moved-At (head_bytes 0 v) (encodings cs) a;
}

pub read_array-Yields :
    (r : Reader) (n : ℕ) (cs : List Write)
    → At r (encodings (array n ∷ cs))
    → n ≤ length (encodings cs)
    → Yields (read_array r) n (encodings cs)
unfolding encodings encoding read_array bounded
read_array-Yields r n cs a h =
    let long = length-append (head_bytes 4 n) (encodings cs) in
    let b = moved-At (head_bytes 4 n) (encodings cs) a in
    record {
      after = moved r (length (head_bytes 4 n));
      same = ground (
        arith,
        typed_head r 4 n (encodings cs) a (omega arith) (omega (arith, a.left, a.bound, long)),
        b.left,
        b.bound,
      );
      at = b;
    }

pub read_map-Yields :
    (r : Reader) (n : ℕ) (cs : List Write)
    → At r (encodings (map n ∷ cs))
    → 2 * n ≤ length (encodings cs)
    → Yields (read_map r) n (encodings cs)
unfolding encodings encoding read_map bounded
read_map-Yields r n cs a h =
    let long = length-append (head_bytes 5 n) (encodings cs) in
    let b = moved-At (head_bytes 5 n) (encodings cs) a in
    record {
      after = moved r (length (head_bytes 5 n));
      same = ground (
        arith,
        typed_head r 5 n (encodings cs) a (omega arith) (omega (arith, a.left, a.bound, long)),
        b.left,
        b.bound,
      );
      at = b;
    }

-- Every call of a number, an array or a map puts at least one byte.
pub length-encodings_uint :
    (v : ℕ) (cs : List Write) → suc (length (encodings cs)) ≤ length (encodings (uint v ∷ cs))
unfolding encodings encoding
length-encodings_uint v cs =
    omega (arith, length-append (head_bytes 0 v) (encodings cs), length-head_pos 0 v)

pub length-encodings_array :
    (n : ℕ) (cs : List Write) → suc (length (encodings cs)) ≤ length (encodings (array n ∷ cs))
unfolding encodings encoding
length-encodings_array n cs =
    omega (arith, length-append (head_bytes 4 n) (encodings cs), length-head_pos 4 n)
