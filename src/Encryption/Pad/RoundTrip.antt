-- ===== src/Encryption/Pad/RoundTrip.antt =====
-- Padding: the length it gives, and that `unpad` takes it off again.
use mathlib.Core.List.{append_assoc}
use mathlib.Core.Path.{subst}
use native.Mathlib.Nat.{add-mul-div_left, add-div_right, div-eq_of_lt, div-add-mod, mod-lt}
use storj_uplink.Common.Integers.{i64_max}
use storj_uplink.Encryption.Pad.{
  to_be_bytes, from_be_bytes, padding_for, make_padding, pad, unpad_len, unpad,
}
use storj_uplink.Common.{
  ℕ, zero, suc, ◌+◌, ◌-◌, ◌*◌, ◌/◌, ◌%◌, ◌^◌, ◌≤◌, ◌<◌, ◌≡◌, refl, arith, ◌++◌, ltb, if◌then◌else◌,
  ok, Bytes, length, take, drop, replicate, length-append, length-replicate, take-append,
  drop-append,
}

from_be_bytes-to_be_bytes : (n : ℕ) → n < 2 ^ 32 → from_be_bytes (to_be_bytes n) ≡ n
unfolding from_be_bytes to_be_bytes
from_be_bytes-to_be_bytes n h = omega arith

-- With the padding the data fills blocks: as many as `ceil((len + 4) / block_size)`.
blocks_for : (q r b : ℕ) → r < b → (r + b - 1 + b * q) / b ≡ (if ltb 0 r then suc q else q)
blocks_for q zero b h =
    rw (add-mul-div_left (0 + b - 1) q {y = b} (omega arith))
      (rw (div-eq_of_lt {n = 0 + b - 1} {m = b} (omega arith)) (omega arith))
blocks_for q (suc r) b h =
    let e : suc r + b - 1 + b * q ≡ r + b + b * q = omega arith in
    rw e (
      rw (add-mul-div_left (r + b) q {y = b} (omega arith)) (
        rw (add-div_right r {k = b} (omega arith))
          (rw (div-eq_of_lt {n = r} {m = b} (omega arith)) (ground arith))))

pub padding_for_lem :
    (amount b : ℕ) → 0 < b → amount + padding_for amount b ≡ b * ((amount + b - 1) / b) + 4
unfolding padding_for
padding_for_lem amount b h =
    let r = amount % b in
    let q = amount / b in
    let whole : b * q + r ≡ amount = div-add-mod amount b in
    let below : r < b = mod-lt amount h in
    let e : amount + b - 1 ≡ r + b - 1 + b * q = omega arith in
    rw e (
      rw (blocks_for q r b below)
        (let step : b * suc q ≡ b * q + b = omega arith in ground (arith, whole, below, step)))

padding_for_bounds :
    (amount b : ℕ) → 0 < b → (4 ≤ padding_for amount b) × (padding_for amount b < 4 + b)
unfolding padding_for
padding_for_bounds amount b h =
    let below : amount % b < b = mod-lt amount h in ground (arith, below)

to_be_bytes-length : (n : ℕ) → length (to_be_bytes n) ≡ 4
unfolding to_be_bytes
to_be_bytes-length n = refl

unpad-padded :
    (data_bytes : Bytes) (p : ℕ)
    → p < 2 ^ 32
    → 4 ≤ p
    → unpad (data_bytes ++ (replicate (p - 4) 0 ++ to_be_bytes p)) ≡ ok data_bytes
unfolding unpad unpad_len
unpad-padded data_bytes p fits l =
    let zeros : Bytes = replicate (p - 4) 0 in
    let be = to_be_bytes p in
    let all : Bytes = data_bytes ++ (zeros ++ be) in
    let l1 = length-append data_bytes (zeros ++ be) in
    let l2 = length-append zeros be in
    let l3 = length-replicate {A = ℕ} (p - 4) 0 in
    let l4 = to_be_bytes-length p in
    let l5 = length-append data_bytes zeros in
    let trailer : drop (length all - 4) all ≡ be =
      subst (λ xs. drop (length all - 4) xs ≡ be) (append_assoc data_bytes zeros be)
        (drop-append (length all - 4) (data_bytes ++ zeros) be (omega arith)) in
    let front : take (length all - p) all ≡ data_bytes =
      take-append (length all - p) data_bytes (zeros ++ be) (omega arith) in
    ground (arith, trailer, front, from_be_bytes-to_be_bytes p fits)

-- What `pad` returns fills whole blocks of `block_size` bytes, as many as the data and the four
-- bytes of the trailer take, and `unpad` gives the data back.
pub unpad-pad :
    (data_bytes padded : Bytes) (block_size : ℕ)
    → pad data_bytes block_size ≡ ok padded
    → (unpad padded ≡ ok data_bytes)
      × (length padded ≡ block_size * ((length data_bytes + 4 + block_size - 1) / block_size))
unfolding pad make_padding
unpad-pad data_bytes padded block_size h =
    let n = length data_bytes in
    let p = padding_for (n + 4) block_size in
    let zeros : Bytes = replicate (p - 4) 0 in
    let shape : (0 < block_size)
        × (p < 2 ^ 32)
        × (padded ≡ data_bytes ++ (zeros ++ to_be_bytes p)) =
      ground arith in
    let (positive, fits, e) = shape in
    let (at_least, at_most) = padding_for_bounds (n + 4) block_size positive in
    let l1 = length-append data_bytes (zeros ++ to_be_bytes p) in
    let l2 = length-append zeros (to_be_bytes p) in
    let l3 = length-replicate {A = ℕ} (p - 4) 0 in
    let len : length padded ≡ n + p = rw e (omega (arith, l1, l2, l3, to_be_bytes-length p)) in
    let total = padding_for_lem (n + 4) block_size positive in
    (rw e (unpad-padded data_bytes p fits at_least), omega (arith, len, total))

-- Every data whose length leaves room for the trailer below i64::MAX is padded, for a positive
-- block size at least five below 2^32.
pub pad_total :
    (data_bytes : Bytes) (block_size : ℕ)
    → 0 < block_size
    → block_size + 4 < 2 ^ 32
    → length data_bytes + 4 ≤ i64_max
    → (padded : Bytes) × (pad data_bytes block_size ≡ ok padded)
unfolding pad make_padding
pad_total data_bytes block_size positive small room =
    let p = padding_for (length data_bytes + 4) block_size in
    let (at_least, below) = padding_for_bounds (length data_bytes + 4) block_size positive in
    (data_bytes ++ (replicate (p - 4) 0 ++ to_be_bytes p), ground (arith, below))
