-- ===== src/Cbor/Writer.antt =====
-- The writer of cbor.c. `buf` is the caller's array of `cap` bytes.
use lo_ra_home.Prelude.{
  ℕ, ◌+◌, ◌-◌, ◌^◌, List, [], ◌∷◌, Bool, true, false, Option, none, some, u16, ltb, leb,
  if◌then◌else◌, length, set, copy, ◌==◌, not,
}
use lo_ra_home.Cbor.{major_uint, major_nint, major_bytes, major_array, major_map, head_bytes}

-- `lh_cbor_writer_t`
pub record Writer : Type 0 where
  pub buf : List ℕ
  pub cap : ℕ
  pub len : ℕ
  pub overflow : Bool

-- `lh_cbor_writer_init`, for a buffer that is not NULL.
unfoldable pub writer_init : List ℕ → ℕ → Writer
writer_init storage room = record { buf = storage; cap = room; len = 0; overflow = false }

-- `lh_cbor_writer_finish`: the length, or `none` for -1.
unfoldable pub writer_finish : Writer → Option ℕ
writer_finish w = if w.overflow then none else some w.len

unfoldable pub put : Writer → ℕ → Writer × Bool
put w byte =
    if w.overflow
    then (w, false)
    else if leb w.cap w.len
    then (record w { overflow = true }, false)
    else (record w { buf = set w.buf w.len byte; len = u16 (w.len + 1) }, true)

-- `put(...) && put(...) && ...`
unfoldable pub put_all : Writer → List ℕ → Writer × Bool
unfolding put
put_all w [] = (w, true)
put_all w (byte ∷ bytes) =
    let one = put w byte in let rest = put_all one.0 bytes in if one.1 then rest else (one.0, false)

-- `write_head`
unfoldable pub write_head : Writer → ℕ → ℕ → Writer × Bool
unfolding put_all
write_head w major argument = put_all w (head_bytes major argument)

-- `lh_cbor_write_uint`, `lh_cbor_write_array` and `lh_cbor_write_map`
unfoldable pub write_uint : Writer → ℕ → Writer × Bool
unfolding write_head
write_uint w value = write_head w major_uint value

unfoldable pub write_array : Writer → ℕ → Writer × Bool
unfolding write_head
write_array w items = write_head w major_array items

unfoldable pub write_map : Writer → ℕ → Writer × Bool
unfolding write_head
write_map w pairs = write_head w major_map pairs

-- `lh_cbor_write_int`, for the 64-bit pattern of the value: `2 ^ 64 - n` stands for `-n`.
unfoldable pub write_int : Writer → ℕ → Writer × Bool
unfolding write_head
write_int w value =
    if ltb value (2 ^ 63)
    then write_head w major_uint value
    else write_head w major_nint (2 ^ 64 - 1 - value)

-- `lh_cbor_write_bytes` behind its head, for `len = length bytes`.
unfoldable pub behind_head : Writer × Bool → List ℕ → Writer × Bool
behind_head (w, ok) bytes =
    if not ok
    then (w, false)
    else if length bytes == 0
    then (w, true)
    else if ltb w.cap (w.len + length bytes)
    then (record w { overflow = true }, false)
    else (record w { buf = copy w.buf w.len bytes; len = u16 (w.len + length bytes) }, true)

-- `lh_cbor_write_bytes`
unfoldable pub write_bytes : Writer → List ℕ → Writer × Bool
unfolding write_head behind_head
write_bytes w bytes = behind_head (write_head w major_bytes (length bytes)) bytes
