-- ===== src/Common/Bits.antt =====
-- `|` of disjoint fields as a sum at every width, and masks of one byte by a table.
mod Step
pub use Step.{bit_xor-zero, bit_xor_self, bit_or-zero}
use Step.{bit_or_step}
use Prim.Native.Nat.{ℕ, zero, suc, ◌+◌, ◌*◌, ◌/◌, ◌%◌, ◌^◌, ◌<◌, bit_and, bit_or}
use Prim.Native.Nat.{bit_or-bitwise}
use mathlib.Core.Path.{◌≡◌, refl, ap}
use mathlib.Core.Bool.{Bool, true, ◌&&◌}
use native.Mathlib.Omega.{arith}
use native.Mathlib.Nat.{pow-suc}
use storj_uplink.Common.Tests.{◌==◌, ==_iff}

doubled_shift : (field width : ℕ) → field * 2 ^ suc width ≡ 2 * (field * 2 ^ width)
doubled_shift field width =
    let power = ap (λ (p : ℕ). field * p) (pow-suc 2 width) in omega (arith, power)

-- `r | (q << s)` is a sum when `r` fits `s` bits.
pub bit_or_fields : (s r q : ℕ) → r < 2 ^ s → bit_or r (q * 2 ^ s) ≡ r + q * 2 ^ s
bit_or_fields zero zero q h = simp bit_or-bitwise (omega arith)
bit_or_fields zero (suc r) q h = absurd (omega arith)
bit_or_fields (suc s) r q h = rw (doubled_shift q s) (
    omega (
      arith,
      bit_or_step r (2 * (q * 2 ^ s)),
      half (q * 2 ^ s),
      ap (bit_or (r / 2)) (half (q * 2 ^ s)),
      bit_or_fields s (r / 2) q (omega (arith, pow-suc 2 s)),
    ))
  where
    half : (n : ℕ) → 2 * n / 2 ≡ n
    half n = omega arith

-- Over a small range, every value is checked by evaluation.
unfoldable pub all_below : ℕ → (ℕ → Bool) → Bool
all_below zero test = true
all_below (suc last) test = test last && all_below last test

pub all_below_sound :
    (bound : ℕ) (test : ℕ → Bool) (value : ℕ)
    → all_below bound test ≡ true
    → value < bound
    → test value ≡ true
unfolding all_below
all_below_sound zero test value passed small = absurd (omega arith)
all_below_sound (suc last) test value passed small = ground (arith, all_below_sound last test value)

-- Two functions that a table finds equal.
pub agree_below :
    (left right : ℕ → ℕ) (bound : ℕ)
    → all_below bound (λ value. left value == right value) ≡ true
    → (value : ℕ) → value < bound
    → left value ≡ right value
agree_below left right bound table value small =
    (==_iff (left value) (right value)).0
      (all_below_sound bound (λ v. left v == right v) value table small)

pub low_seven : (b : ℕ) → b < 256 → bit_and b 0x7f ≡ b % 128
unfolding all_below
low_seven = agree_below _ _ 256 refl

pub continuation : (b : ℕ) → b < 256 → bit_or (bit_and b 127) 128 ≡ b % 128 + 128
unfolding all_below
continuation = agree_below _ _ 256 refl

pub set_top : (b : ℕ) → b < 256 → bit_or b 0x80 ≡ b % 128 + 128
unfolding all_below
set_top = agree_below _ _ 256 refl
