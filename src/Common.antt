-- ===== src/Common.antt =====
-- The names that every module shares: those of the libraries, passed on, and those of the children.
mod Tests
mod Lists
mod Outcome
mod Buffers
pub mod Bits
pub mod Order
pub mod Groups
pub mod Partial
pub mod Members
pub mod Integers
pub mod Tables
pub mod Arrays
pub use Tests.*
pub use Lists.*
pub use Outcome.*
unfoldable pub use Buffers.{bytes_eq, starts_with}
pub use Buffers.{Bytes, IsByte, AreBytes, bytes_eq_refl, bytes_eq→eq, bytes_eq_iff, bytes_eq_comm}
pub use Buffers.{starts_with_sound, starts_with-append}
pub use Prim.Native.Nat.{ℕ, zero, suc, ◌+◌, ◌-◌, ◌*◌, ◌/◌, ◌%◌, ◌^◌, ◌≤◌, ◌<◌, min, max}
pub use Prim.Native.Nat.{bit_and, bit_or, bit_xor}
pub use mathlib.Core.Path.{◌≡◌, refl, sym, ap, ◌∙◌}
pub use mathlib.Core.Logic.{◌≢◌, ◌↔◌, ◌⊎◌, inl, inr}
pub use mathlib.Core.Bool.{Bool, true, false, not, ◌&&◌, ◌||◌}
pub use mathlib.Core.Option.{Option, none, some}
pub use mathlib.Core.List.{List, [], ◌∷◌, ◌++◌, map}
pub use native.Mathlib.Omega.{arith}
unfoldable pub use native.Mathlib.Decide.{dec_lt, ℕ_discrete}
