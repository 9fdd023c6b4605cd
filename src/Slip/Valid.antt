-- ===== src/Slip/Valid.antt =====
-- The invariant of the SLIP decoder: no write leaves the caller's buffer, and the counters agree.
use lo_ra_home.Prelude.{ℕ, ◌+◌, ◌%◌, ◌^◌, ◌≤◌, ◌≡◌, arith, List, length, length-set, IsU16}
use lo_ra_home.Slip.{
  Decoder, State, idle, in_frame, escaped, resync, init, feed, dispatch, clear_idle, store,
}

-- `buf` has `cap` bytes, what is decoded lies in it, and every dropped frame has its cause counted.
pub record IsValid (d : Decoder) : Type 0 where
  pub storage : length d.buf ≡ d.cap
  pub cap_u16 : IsU16 d.cap
  pub within : d.len ≤ d.cap
  pub causes : d.stat_dropped ≡ (d.stat_overflow + d.stat_bad_escape) % 2 ^ 32

-- The decoder that `lh_slip_init` makes over `room` bytes of storage is valid.
pub init-IsValid : (buf : List ℕ) → IsU16 (length buf) → IsValid (init buf (length buf))
unfolding init
init-IsValid buf h = omega arith

store-IsValid : {d : Decoder} (byte : ℕ) → IsValid d → IsValid (store d byte).0
unfolding store
store-IsValid {d} byte v = ground (arith, length-set d.buf d.len byte)

dispatch-IsValid : (s : State) {d : Decoder} (byte : ℕ) → IsValid d → IsValid (dispatch s d byte).0
unfolding dispatch
dispatch-IsValid idle {d} byte v = ground (arith, length-set d.buf d.len byte)
dispatch-IsValid in_frame {d} byte v = ground (arith, length-set d.buf d.len byte)
dispatch-IsValid escaped {d} byte v =
    ground (arith, length-set d.buf d.len 0xc0, length-set d.buf d.len 0xdb)
dispatch-IsValid resync {d} byte v = ground arith

-- Whatever byte arrives, in whatever state, a valid decoder stays valid: no write goes past `cap`.
pub feed-IsValid : {d : Decoder} (byte : ℕ) → IsValid d → IsValid (feed d byte).0
unfolding feed
feed-IsValid {d} byte v = dispatch-IsValid d.state byte cleared
  where
    cleared : IsValid (clear_idle d.state d)
    cleared = ground arith
