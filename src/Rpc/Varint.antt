-- ===== src/Rpc/Varint.antt =====
-- crates/storj-rpc/src/frame.rs: `FrameError`, `read_varint` and `append_varint`.
pub mod RoundTrip
pub mod Bounds
use mathlib.Core.Logic.{dite}
use mathlib.Core.WellFounded.{Acc}
use native.Mathlib.Decide.{dec_le}
use storj_uplink.Common.{
  ℕ, ◌+◌, ◌*◌, ◌/◌, ◌%◌, ◌^◌, ◌≤◌, ◌<◌, arith, bit_and, bit_or, [], ◌∷◌, ◌++◌, Option, none, some,
  ltb, leb, if◌then◌else◌, Result, ok, err, Bytes,
}
use storj_uplink.Common.Order.{lt_wf}

pub data FrameError : Type 0 where
  varint_too_long monotonicity kind_change overflow : FrameError

-- `u64::wrapping_shl`: the shift count is taken modulo 64.
unfoldable pub wrapping_shl : ℕ → ℕ → ℕ
wrapping_shl x shift = x * 2 ^ (shift % 64) % 2 ^ 64

-- The list is what `buf.iter().enumerate()` has not reached yet, `i` its index.
pub read_varint_loop : Bytes → ℕ → ℕ → ℕ → Result FrameError (Option (ℕ × ℕ))
unfolding wrapping_shl
read_varint_loop [] i out shift = ok none
read_varint_loop (val ∷ rest) i out shift =
    let out' = bit_or out (wrapping_shl (bit_and val 127) shift) in
    let more = read_varint_loop rest (i + 1) out' (shift + 7) in
    if leb 64 shift
    then err varint_too_long
    else if ltb val 128
    then ok (some (out', i + 1))
    else if leb 64 (shift + 7)
    then err varint_too_long
    else more

-- `none` means that the input is cut short; the second number is the count of bytes read.
unfoldable pub read_varint : Bytes → Result FrameError (Option (ℕ × ℕ))
unfolding read_varint_loop
read_varint buf = read_varint_loop buf 0 0 0

shift_shrinks : (x : ℕ) → 128 ≤ x → x / 128 < x
shift_shrinks x h = omega arith

append_varint_loop : Bytes → (x : ℕ) → Acc ◌<◌ x → Bytes
append_varint_loop buf x (Acc.intro _ smaller) =
    dite (dec_le 128 x)
      (λ more.
        append_varint_loop (buf ++ (bit_or (bit_and (x % 256) 127) 128 ∷ [])) (x / 128)
          (smaller _ (shift_shrinks x more)))
      (λ _. buf ++ (x % 256 ∷ []))

unfoldable pub append_varint : Bytes → ℕ → Bytes
unfolding append_varint_loop shift_shrinks lt_wf dec_le
append_varint buf x = append_varint_loop buf x (lt_wf.apply x)
