-- ===== src/Cbor/Skip.antt =====
-- `lh_cbor_skip`. Its loop reads a head in each round, so the bytes left and one more are fuel
-- enough.
use lo_ra_home.Prelude.{
  ℕ, zero, suc, ◌+◌, ◌-◌, ◌*◌, Option, none, some, u16, u32, ltb, if◌then◌else◌, ◌==◌, ◌||◌,
}
use lo_ra_home.Cbor.{u64, major_uint, major_nint, major_bytes, major_array, major_map}
use lo_ra_home.Cbor.Reader.{Reader, refuse, read_head}

-- `SKIP_MAX_DEPTH`
abbrev pub skip_max_depth : ℕ
skip_max_depth = 8

-- How a run of the loop ends: `true` or `false` of the source, or no fuel.
pub data Skipped : Type 0 where
  skipped refused out_of_fuel : Skipped

-- The two counters of the loop.
pub record Walk : Type 0 where
  pub pending : ℕ
  pub depth : ℕ

-- What the `switch` makes of a head: the reader, and the counters if the loop goes on.
unfoldable pub skip_item : Reader → Walk → ℕ → ℕ → Reader × Option Walk
skip_item r k major argument =
    if major == major_uint || major == major_nint
    then (r, some k)
    else if major == major_bytes
    then (if ltb (r.len - r.pos) argument
        then refuse r
        else (record r { pos = u16 (r.pos + argument) }, some k))
    else if major == major_array || major == major_map
    then (if ltb skip_max_depth (k.depth + 1)
        then refuse r
        else let items = if major == major_map then u64 (argument * 2) else argument in
          if ltb (r.len - r.pos) items
          then refuse r
          else (r, some (record { pending = u32 (k.pending + u32 items); depth = k.depth + 1 })))
    else refuse r

-- One round behind the head: `pending--` and the `switch`.
unfoldable pub skip_round : Walk → Reader × Option (ℕ × ℕ) → Reader × Option Walk
unfolding skip_item
skip_round k (r, none) = (r, none)
skip_round k (r, some (major, argument)) =
    skip_item r (record k { pending = k.pending - 1 }) major argument

-- The loop `while (pending > 0)`.
unfoldable pub skip_loop : ℕ → Reader → Walk → Reader × Skipped
unfolding skip_round
skip_loop zero r k = (r, out_of_fuel)
skip_loop (suc fuel) r k =
    let (r', next) = skip_round k (read_head r) in
    if k.pending == 0
    then (r, skipped)
    else elim next [ none ↦ (r', refused) | some k' ↦ skip_loop fuel r' k' ]

-- `lh_cbor_skip`
unfoldable pub skip : Reader → Reader × Skipped
unfolding skip_loop
skip r = skip_loop (r.len - r.pos + 2) r (record { pending = 1; depth = 0 })
