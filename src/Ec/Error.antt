-- ===== src/Ec/Error.antt =====
-- crates/storj-ec/src/error.rs: `Error`, with the numbers of its messages.
use Prim.Native.Nat.{ℕ}

pub data Error : Type 0 where
  -- `k`, `n` and the share size.
  invalid_params : ℕ → ℕ → ℕ → Error
  -- What was given and what is wanted.
  stripe_size : ℕ → ℕ → Error
  -- The share, what was given and what is wanted.
  share_size : ℕ → ℕ → ℕ → Error
  too_few_shares : ℕ → ℕ → Error
  invalid_share_index : ℕ → ℕ → Error
  duplicate_share : ℕ → Error
  share_count : ℕ → ℕ → Error
  -- `Reconstruct`, by its two messages.
  singular_matrix : Error
  pivot_not_found : Error
