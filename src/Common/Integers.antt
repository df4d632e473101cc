-- ===== src/Common/Integers.antt =====
-- Rust's signed and unsigned 64-bit integers: the range of i64, and integers over the native numbers.
use Prim.Native.Nat.{ℕ, ◌-◌, ◌^◌}

-- i64::MAX; usize is 64 bits wide.
abbrev pub i64_max : ℕ
i64_max = 2 ^ 63 - 1

-- `negsuc n` is -1 - n.
pub data ℤ : Type 0 where
  pos : ℕ → ℤ
  negsuc : ℕ → ℤ
