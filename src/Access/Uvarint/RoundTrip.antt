-- ===== src/Access/Uvarint/RoundTrip.antt =====
-- `append_uvarint` writes the groups of its number, and `parse_uvarint` reads back what fits.
use mathlib.Core.List.{append_assoc}
use mathlib.Core.WellFounded.{Acc}
use storj_uplink.Common.Order.{lt_wf}
use storj_uplink.Common.Bits.{bit_or_fields, low_seven, set_top}
use storj_uplink.Common.Groups.{groups, split_group, below_shift, groups_five}
use storj_uplink.Access.Error.{Error, varint_error}
use storj_uplink.Access.Uvarint.{
  max_uvarint, append_uvarint_loop, append_uvarint, checked_shl, parse_uvarint_loop, parse_uvarint,
}
use storj_uplink.Common.{
  ℕ, zero, suc, ◌+◌, ◌*◌, ◌/◌, ◌%◌, ◌^◌, ◌≤◌, ◌<◌, ◌≡◌, arith, bit_and, bit_or, List, [], ◌∷◌, ◌++◌,
  some, ok, err, Bytes, length,
}

append_uvarint_loop-groups :
    (k : ℕ) (buf : Bytes) (x : ℕ) (w : Acc ◌<◌ x)
    → x < 128 ^ suc k
    → append_uvarint_loop buf x w ≡ buf ++ groups k x
unfolding append_uvarint_loop groups
append_uvarint_loop-groups zero buf x (Acc.intro _ smaller) h = ground arith
append_uvarint_loop-groups (suc k) buf x (Acc.intro _ smaller) h =
    let head : List ℕ = (x % 128 + 128) ∷ [] in
    grind (
      arith,
      set_top (x % 256) (omega arith),
      λ (w : Acc ◌<◌ (x / 128)).
          append_uvarint_loop-groups k (buf ++ head) (x / 128) w (omega arith),
      append_assoc buf head (groups k (x / 128)),
    )

pub append_uvarint-groups :
    (buf : Bytes) (x : ℕ) → x < 2 ^ 64 → append_uvarint buf x ≡ buf ++ groups 9 x
unfolding append_uvarint
append_uvarint-groups buf x h = append_uvarint_loop-groups 9 buf x (lt_wf.apply x) (omega arith)

shl_fits :
    (c shift : ℕ) → shift < 64 → c * 2 ^ shift < 2 ^ 64 → checked_shl c shift ≡ some (c * 2 ^ shift)
unfolding checked_shl
shl_fits c shift h fits = ground arith

last_byte :
    (w i value shift : ℕ) (rest : Bytes)
    → w < 128
    → i < 9
    → value < 2 ^ shift
    → shift < 64
    → value + w * 2 ^ shift ≤ max_uvarint
    → parse_uvarint_loop (w ∷ rest) i value shift ≡ ok (rest, value + w * 2 ^ shift)
unfolding parse_uvarint_loop
last_byte w i value shift rest hw hi ho hs fits =
    rw (low_seven w (omega arith))
      (ground (arith, shl_fits w shift hs (omega arith), bit_or_fields shift value w ho))

inner_byte :
    (g i value shift : ℕ) (rest : Bytes)
    → g < 128
    → i < 9
    → value < 2 ^ shift
    → shift < 64
    → value + g * 2 ^ shift ≤ max_uvarint
    → parse_uvarint_loop ((g + 128) ∷ rest) i value shift
      ≡ parse_uvarint_loop rest (i + 1) (value + g * 2 ^ shift) (shift + 7)
unfolding parse_uvarint_loop
inner_byte g i value shift rest hg hi ho hs fits = ground (
  arith,
  low_seven (g + 128) (omega arith),
  shl_fits g shift hs (omega arith),
  bit_or_fields shift value g ho,
)

parse_uvarint_loop-groups :
    (k w i value shift : ℕ) (rest : Bytes)
    → w < 128 ^ suc k
    → i + k < 9
    → value < 2 ^ shift
    → shift + 7 * k < 64
    → value + w * 2 ^ shift ≤ max_uvarint
    → parse_uvarint_loop (groups k w ++ rest) i value shift ≡ ok (rest, value + w * 2 ^ shift)
unfolding groups
parse_uvarint_loop-groups zero w i value shift rest hw hi ho hs fits =
    ground (arith, last_byte w i value shift rest)
parse_uvarint_loop-groups (suc k) w i value shift rest hw hi ho hs fits = ground (
  arith,
  last_byte w i value shift rest,
  split_group w shift,
  below_shift value (w % 128) shift,
  inner_byte (w % 128) i value shift (groups k (w / 128) ++ rest),
  parse_uvarint_loop-groups k (w / 128) (i + 1) (value + w % 128 * 2 ^ shift) (shift + 7) rest
      (omega arith),
)

pub parse_uvarint-groups :
    (x : ℕ) (rest : Bytes) → x ≤ max_uvarint → parse_uvarint (groups 9 x ++ rest) ≡ ok (rest, x)
unfolding parse_uvarint
parse_uvarint-groups x rest h =
    rw (groups_five x (omega arith))
      (ground (arith, parse_uvarint_loop-groups 4 x 0 0 0 rest (omega arith)))

-- Every number up to MAX_UVARINT that `append_uvarint` writes is read back by `parse_uvarint`,
-- which leaves exactly the bytes that follow.
pub parse_uvarint-append_uvarint :
    (x : ℕ) (rest : Bytes)
    → x ≤ max_uvarint
    → parse_uvarint (append_uvarint [] x ++ rest) ≡ ok (rest, x)
parse_uvarint-append_uvarint x rest h =
    rw (append_uvarint-groups [] x (omega arith)) (parse_uvarint-groups x rest h)

parse_uvarint_loop_takes :
    (buf : Bytes) (i value shift v : ℕ) (rest : Bytes)
    → parse_uvarint_loop buf i value shift ≡ ok (rest, v)
    → (length rest < length buf) × (v ≤ max_uvarint)
unfolding parse_uvarint_loop checked_shl
parse_uvarint_loop_takes [] i value shift v rest e = cc
parse_uvarint_loop_takes (b ∷ bs) i value shift v rest e = ground (
  arith,
  parse_uvarint_loop_takes bs (i + 1) (bit_or value (bit_and b 0x7f * 2 ^ shift % 2 ^ 64))
      (shift + 7) v rest,
)

-- A number that is read took a byte at least and is at most MAX_UVARINT.
pub parse_uvarint_takes :
    (buf : Bytes) (v : ℕ) (rest : Bytes)
    → parse_uvarint buf ≡ ok (rest, v)
    → (length rest < length buf) × (v ≤ max_uvarint)
unfolding parse_uvarint
parse_uvarint_takes buf v rest e = parse_uvarint_loop_takes buf 0 0 0 v rest e

parse_uvarint_loop_errors :
    (buf : Bytes) (i value shift : ℕ) (e : Error)
    → parse_uvarint_loop buf i value shift ≡ err e
    → e ≡ varint_error
unfolding parse_uvarint_loop checked_shl
parse_uvarint_loop_errors [] i value shift e h = ground arith
parse_uvarint_loop_errors (b ∷ bs) i value shift e h = ground (
  arith,
  parse_uvarint_loop_errors bs (i + 1) (bit_or value (bit_and b 0x7f * 2 ^ shift % 2 ^ 64))
      (shift + 7) e,
)

-- It fails with one message only.
pub parse_uvarint_errors : (buf : Bytes) (e : Error) → parse_uvarint buf ≡ err e → e ≡ varint_error
unfolding parse_uvarint
parse_uvarint_errors buf e = parse_uvarint_loop_errors buf 0 0 0 e
