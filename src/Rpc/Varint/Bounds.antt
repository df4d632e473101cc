-- ===== src/Rpc/Varint/Bounds.antt =====
-- What `read_varint` promises of any input.
use storj_uplink.Rpc.Varint.{read_varint_loop, read_varint}
use storj_uplink.Common.{
  ℕ, ◌+◌, ◌*◌, ◌%◌, ◌^◌, ◌≤◌, ◌<◌, ◌≡◌, arith, bit_and, bit_or, [], ◌∷◌, some, ok, Bytes, length,
}

read_varint_loop_takes :
    (buf : Bytes) (i out shift v n : ℕ)
    → read_varint_loop buf i out shift ≡ ok (some (v, n))
    → (i < n) × (n ≤ i + length buf) × (7 * n + shift ≤ 7 * i + 70)
unfolding read_varint_loop
read_varint_loop_takes [] i out shift v n e = cc
read_varint_loop_takes (b ∷ bs) i out shift v n e = ground (
  arith,
  read_varint_loop_takes bs (i + 1) (bit_or out (bit_and b 127 * 2 ^ (shift % 64) % 2 ^ 64))
      (shift + 7) v n,
)

-- An answer of `read_varint` took 1 to 10 bytes, all of them from the buffer.
pub read_varint_takes :
    (buf : Bytes) (v n : ℕ)
    → read_varint buf ≡ ok (some (v, n))
    → (0 < n) × (n ≤ length buf) × (n ≤ 10)
unfolding read_varint
read_varint_takes buf v n e = let h = read_varint_loop_takes buf 0 0 0 v n e in omega arith
