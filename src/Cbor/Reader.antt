-- ===== src/Cbor/Reader.antt =====
-- The reader of cbor.c. What a C function stores behind its pointer when it returns true is the
-- `some` of the result.
use lo_ra_home.Prelude.{
  ℕ, zero, suc, ◌+◌, ◌-◌, ◌/◌, ◌^◌, List, Bool, true, false, ◌||◌, not, Option, none, some, bit_or,
  bit_and, u8, u16, u32, ◌<<<◌, ◌>>>◌, ltb, leb, if◌then◌else◌, ◌==◌, get_or, ◌&&◌,
}
use lo_ra_home.Cbor.{u64, major_uint, major_nint, major_array, major_map}

-- `lh_cbor_reader_t`
pub record Reader : Type 0 where
  pub buf : List ℕ
  pub len : ℕ
  pub pos : ℕ
  pub error : Bool

-- `lh_cbor_reader_init`, for a buffer that is not NULL.
unfoldable pub reader_init : List ℕ → ℕ → Reader
reader_init bytes size = record { buf = bytes; len = size; pos = 0; error = false }

-- `lh_cbor_reader_done`
unfoldable pub reader_done : Reader → Bool
reader_done r = not r.error && leb r.len r.pos

-- `reader->error = true; return false;`
abbrev pub refuse {ℓ} : {A : Type ℓ} → Reader → Reader × Option A
refuse r = (record r { error = true }, none)

-- The bytes of the argument behind the initial byte, or `none` for the reserved forms.
abbrev pub extra_bytes : ℕ → Option ℕ
extra_bytes info =
    if info == 24
    then some 1
    else if info == 25
    then some 2
    else if info == 26
    then some 4
    else if info == 27
    then some 8
    else none

-- The loop that reads the argument: `n` bytes from `pos` on behind `value`.
unfoldable pub read_value : List ℕ → ℕ → ℕ → ℕ → ℕ
read_value buf pos zero value = value
read_value buf pos (suc n) value =
    read_value buf (pos + 1) n (bit_or (u64 (value <<< 8)) (get_or buf pos 0))

-- The argument of `extra` bytes, from `read_head`.
unfoldable pub read_argument : Reader → ℕ → Option ℕ → Reader × Option (ℕ × ℕ)
unfolding read_value
read_argument r major none = refuse r
read_argument r major (some extra) =
    if ltb r.len (r.pos + extra)
    then refuse r
    else (record r { pos = u16 (r.pos + extra) }, some (major, read_value r.buf r.pos extra 0))

-- `read_head`: the major type and the argument.
unfoldable pub read_head : Reader → Reader × Option (ℕ × ℕ)
unfolding read_argument
read_head r =
    if r.error || leb r.len r.pos
    then refuse r
    else let initial = get_or r.buf r.pos 0 in
      let r1 = record r { pos = u16 (r.pos + 1) } in
      let major = u8 (initial >>> 5) in
      let info = bit_and initial 0x1f in
      if ltb info 24 then (r1, some (major, info)) else read_argument r1 major (extra_bytes info)

-- What `read_typed` makes of a head.
unfoldable pub typed : ℕ → Reader × Option (ℕ × ℕ) → Reader × Option ℕ
typed expected (r, none) = (r, none)
typed expected (r, some (major, argument)) =
    if not (major == expected) then refuse r else (r, some argument)

-- `read_typed`
unfoldable pub read_typed : Reader → ℕ → Reader × Option ℕ
unfolding read_head typed
read_typed r expected = typed expected (read_head r)

-- `lh_cbor_read_uint`
unfoldable pub read_uint : Reader → Reader × Option ℕ
unfolding read_typed
read_uint r = read_typed r major_uint

-- What `lh_cbor_read_int` makes of a head: the 64-bit pattern of the value.
unfoldable pub signed : Reader × Option (ℕ × ℕ) → Reader × Option ℕ
signed (r, none) = (r, none)
signed (r, some (major, argument)) =
    if major == major_uint
    then (if ltb (2 ^ 63 - 1) argument then refuse r else (r, some argument))
    else if major == major_nint
    then (if ltb (2 ^ 63 - 1) argument then refuse r else (r, some (2 ^ 64 - 1 - argument)))
    else refuse r

-- `lh_cbor_read_int`
unfoldable pub read_int : Reader → Reader × Option ℕ
unfolding read_head signed
read_int r = signed (read_head r)

-- The test of a count against a bound computed of the reader.
unfoldable pub bounded : (Reader → ℕ) → Reader × Option ℕ → Reader × Option ℕ
bounded bound (r, none) = (r, none)
bounded bound (r, some argument) =
    if ltb (bound r) argument then refuse r else (r, some (u32 argument))

-- `lh_cbor_read_array`
unfoldable pub read_array : Reader → Reader × Option ℕ
unfolding read_typed bounded
read_array r = bounded (λ q. q.len - q.pos) (read_typed r major_array)

-- `lh_cbor_read_map`
unfoldable pub read_map : Reader → Reader × Option ℕ
unfolding read_typed bounded
read_map r = bounded (λ q. (q.len - q.pos) / 2 + 1) (read_typed r major_map)
