-- ===== src/Rpc/Varint/RoundTrip.antt =====
-- `append_varint` writes the groups of its number, and `read_varint` reads them back.
use mathlib.Core.List.{append_assoc}
use mathlib.Core.WellFounded.{Acc}
use storj_uplink.Common.{
  ℕ, zero, suc, ◌+◌, ◌*◌, ◌/◌, ◌%◌, ◌^◌, ◌<◌, ◌≡◌, arith, bit_or, List, [], ◌∷◌, ◌++◌, some, ok,
  Bytes, length,
}
use storj_uplink.Common.Bits.{bit_or_fields, low_seven, continuation}
use storj_uplink.Common.Order.{lt_wf}
use storj_uplink.Common.Groups.{groups, split_group, below_shift}
use storj_uplink.Rpc.Varint.{
  wrapping_shl, read_varint_loop, read_varint, append_varint_loop, append_varint,
}

append_varint_loop-groups :
    (k : ℕ) (buf : Bytes) (x : ℕ) (w : Acc ◌<◌ x)
    → x < 128 ^ suc k
    → append_varint_loop buf x w ≡ buf ++ groups k x
unfolding append_varint_loop groups
append_varint_loop-groups zero buf x (Acc.intro _ smaller) h = ground arith
append_varint_loop-groups (suc k) buf x (Acc.intro _ smaller) h =
    let head : List ℕ = (x % 128 + 128) ∷ [] in
    grind (
      arith,
      continuation (x % 256) (omega arith),
      λ (w : Acc ◌<◌ (x / 128)).
          append_varint_loop-groups k (buf ++ head) (x / 128) w (omega arith),
      append_assoc buf head (groups k (x / 128)),
    )

-- On every u64 the buffer is kept and the groups of the number follow it.
pub append_varint-groups :
    (buf : Bytes) (x : ℕ) → x < 2 ^ 64 → append_varint buf x ≡ buf ++ groups 9 x
unfolding append_varint
append_varint-groups buf x h = append_varint_loop-groups 9 buf x (lt_wf.apply x) (omega arith)

or_group :
    (out c shift : ℕ)
    → out < 2 ^ shift
    → shift < 64
    → out + c * 2 ^ shift < 2 ^ 64
    → bit_or out (wrapping_shl c shift) ≡ out + c * 2 ^ shift
unfolding wrapping_shl
or_group out c shift h k fits =
    let e : shift % 64 ≡ shift = omega arith in
    let f : c * 2 ^ shift % 2 ^ 64 ≡ c * 2 ^ shift = omega arith in
    rw (e, f) (bit_or_fields shift out c h)

last_byte :
    (w i out shift : ℕ) (rest : Bytes)
    → w < 128
    → out < 2 ^ shift
    → shift < 64
    → out + w * 2 ^ shift < 2 ^ 64
    → read_varint_loop (w ∷ rest) i out shift ≡ ok (some (out + w * 2 ^ shift, i + 1))
unfolding read_varint_loop
last_byte w i out shift rest hw ho hs fits =
    ground (arith, low_seven w (omega arith), or_group out w shift ho hs fits)

inner_byte :
    (g i out shift : ℕ) (rest : Bytes)
    → g < 128
    → out < 2 ^ shift
    → shift + 7 < 64
    → out + g * 2 ^ shift < 2 ^ 64
    → read_varint_loop ((g + 128) ∷ rest) i out shift
      ≡ read_varint_loop rest (i + 1) (out + g * 2 ^ shift) (shift + 7)
unfolding read_varint_loop
inner_byte g i out shift rest hg ho hs fits =
    ground (arith, low_seven (g + 128) (omega arith), or_group out g shift ho (omega arith) fits)

-- `w` is what is still to be read, and it counts from bit `shift` on.
read_varint_loop-groups :
    (k w i out shift n : ℕ) (rest : Bytes)
    → w < 128 ^ suc k
    → out < 2 ^ shift
    → shift + 7 * k < 64
    → out + w * 2 ^ shift < 2 ^ 64
    → n ≡ i + length (groups k w)
    → read_varint_loop (groups k w ++ rest) i out shift ≡ ok (some (out + w * 2 ^ shift, n))
unfolding groups
read_varint_loop-groups zero w i out shift n rest hw ho hs fits hn =
    ground (arith, last_byte w i out shift rest)
read_varint_loop-groups (suc k) w i out shift n rest hw ho hs fits hn = ground (
  arith,
  last_byte w i out shift rest,
  split_group w shift,
  below_shift out (w % 128) shift,
  inner_byte (w % 128) i out shift (groups k (w / 128) ++ rest),
  read_varint_loop-groups k (w / 128) (i + 1) (out + w % 128 * 2 ^ shift) (shift + 7) n rest
      (omega arith),
)

pub read_varint-groups :
    (x : ℕ) (rest : Bytes)
    → x < 2 ^ 64
    → read_varint (groups 9 x ++ rest) ≡ ok (some (x, length (groups 9 x)))
unfolding read_varint
read_varint-groups x rest h =
    ground (arith, read_varint_loop-groups 9 x 0 0 0 (length (groups 9 x)) rest)

-- Every u64 that `append_varint` writes is read back by `read_varint`, whatever follows it, and
-- the count of bytes read is the count of bytes written.
pub read_varint-append_varint :
    (x : ℕ) (rest : Bytes)
    → x < 2 ^ 64
    → read_varint (append_varint [] x ++ rest) ≡ ok (some (x, length (append_varint [] x)))
read_varint-append_varint x rest h = rw (append_varint-groups [] x h) (read_varint-groups x rest h)
