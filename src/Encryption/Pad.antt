-- ===== src/Encryption/Pad.antt =====
-- crates/storj-encryption/src/pad.rs: the padding of the last block, with its length at the end.
pub mod RoundTrip
use storj_uplink.Common.Integers.{ℤ, pos, negsuc, i64_max}
use storj_uplink.Encryption.Error.{Error, invalid_config, overflowed}
use storj_uplink.Common.{
  ℕ, ◌+◌, ◌-◌, ◌*◌, ◌/◌, ◌%◌, ◌^◌, [], ◌∷◌, ◌++◌, ltb, ◌==◌, if◌then◌else◌, Result, ok, err, ◌>>=◌,
  ◌>>◌, Bytes, length, take, drop, replicate,
}

-- UINT32_SIZE
abbrev pub uint32_size : ℕ
uint32_size = 4

-- `u32::to_be_bytes` and `u32::from_be_bytes`.
unfoldable pub to_be_bytes : ℕ → Bytes
to_be_bytes n = n / 2 ^ 24 % 256 ∷ n / 2 ^ 16 % 256 ∷ n / 2 ^ 8 % 256 ∷ n % 256 ∷ []

unfoldable pub from_be_bytes : Bytes → ℕ
from_be_bytes bytes = go 0 bytes
  where
    go : ℕ → Bytes → ℕ
    go acc [] = acc
    go acc (b ∷ bs) = go (acc * 256 + b) bs

-- The length of the padding, trailer included.
unfoldable pub padding_for : ℕ → ℕ → ℕ
padding_for amount block_size =
    let r = amount % block_size in if ltb 0 r then uint32_size + (block_size - r) else uint32_size

unfoldable pub make_padding : ℤ → ℕ → Result Error Bytes
make_padding (negsuc n) block_size = err invalid_config
make_padding (pos data_len) block_size =
    if block_size == 0
    then err invalid_config
    else if ltb i64_max block_size
    then err invalid_config
    else if ltb i64_max (data_len + uint32_size)
    then err overflowed
    else let padding = padding_for (data_len + uint32_size) block_size in
      if ltb padding (2 ^ 32)
      then ok (replicate (padding - uint32_size) 0 ++ to_be_bytes padding)
      else err invalid_config

unfoldable pub pad : Bytes → ℕ → Result Error Bytes
pad data_bytes block_size =
    if ltb i64_max (length data_bytes)
    then err invalid_config
    else do padding ← make_padding (pos (length data_bytes)) block_size; ok (data_bytes ++ padding)

unfoldable pub unpad_len : Bytes → ℕ → Result Error Bytes
unpad_len data_bytes padding =
    if ltb (length data_bytes) padding
    then err invalid_config
    else ok (take (length data_bytes - padding) data_bytes)

unfoldable pub unpad : Bytes → Result Error Bytes
unpad data_bytes =
    if ltb (length data_bytes) uint32_size
    then err invalid_config
    else unpad_len data_bytes (from_be_bytes (drop (length data_bytes - uint32_size) data_bytes))
