-- ===== src/Access/Uvarint.antt =====
-- crates/storj-access/src/macaroon.rs: `append_uvarint` and `parse_uvarint`.
pub mod RoundTrip
use mathlib.Core.Logic.{dite}
use mathlib.Core.WellFounded.{Acc}
use native.Mathlib.Decide.{dec_le}
use storj_uplink.Common.Order.{lt_wf}
use storj_uplink.Access.Error.{Error, varint_error}
use storj_uplink.Common.{
  ℕ, ◌+◌, ◌*◌, ◌/◌, ◌%◌, ◌^◌, ◌≤◌, ◌<◌, arith, bit_and, bit_or, ◌&&◌, [], ◌∷◌, ◌++◌, Option, none,
  some, ltb, ◌==◌, if◌then◌else◌, Result, ok, err, ◌>>=◌, ok_or, Bytes,
}

-- MAX_UVARINT
abbrev pub max_uvarint : ℕ
max_uvarint = 0x7fff_ffff

shift_shrinks : (x : ℕ) → 128 ≤ x → x / 128 < x
shift_shrinks x h = omega arith

append_uvarint_loop : Bytes → (x : ℕ) → Acc ◌<◌ x → Bytes
append_uvarint_loop buf x (Acc.intro _ smaller) =
    dite (dec_le 128 x)
      (λ more.
        append_uvarint_loop (buf ++ (bit_or (x % 256) 0x80 ∷ [])) (x / 128)
          (smaller _ (shift_shrinks x more)))
      (λ _. buf ++ (x % 256 ∷ []))

unfoldable pub append_uvarint : Bytes → ℕ → Bytes
unfolding append_uvarint_loop shift_shrinks lt_wf dec_le
append_uvarint buf x = append_uvarint_loop buf x (lt_wf.apply x)

-- `u64::checked_shl`: it fails on a count of 64 or more, and drops the bits beyond 64.
unfoldable pub checked_shl : ℕ → ℕ → Option ℕ
checked_shl x shift = if ltb shift 64 then some (x * 2 ^ shift % 2 ^ 64) else none

-- The list is what `data.iter().enumerate()` has not reached, `i` the index. The count `shift` of
-- 32 bits stays below 71, so `checked_add` never fails.
pub parse_uvarint_loop : Bytes → ℕ → ℕ → ℕ → Result Error (Bytes × ℕ)
unfolding checked_shl
parse_uvarint_loop [] i value shift = err varint_error
parse_uvarint_loop (b ∷ rest) i value shift =
    let chunk = bit_and b 0x7f in
    let more =
      λ (shifted : ℕ). parse_uvarint_loop rest (i + 1) (bit_or value shifted) (shift + 7) in
    let last = λ (shifted : ℕ).
      if ltb max_uvarint (bit_or value shifted)
      then err varint_error
      else ok (rest, bit_or value shifted) in
    if i == 10
    then err varint_error
    else if i == 9 && ltb 1 chunk
    then err varint_error
    else ok_or (checked_shl chunk shift) varint_error >>= λ shifted.
        if ltb b 0x80 then last shifted else more shifted

unfoldable pub parse_uvarint : Bytes → Result Error (Bytes × ℕ)
unfolding parse_uvarint_loop
parse_uvarint data' = parse_uvarint_loop data' 0 0 0
