-- ===== src/Common/Bits/Step.antt =====
-- The native `|` and `^` mean a recursion on binary digits with fuel; here are their equations
-- for the lowest digit, with no fuel.
use Prim.Native.Nat.{
  ℕ, zero, suc, ◌+◌, ◌*◌, ◌/◌, ◌%◌, ◌≤◌, ◌<◌, max, digits, differ, bit_or, bit_xor,
}
use Prim.Native.Nat.{bit_or-bitwise, bit_xor-bitwise}
use mathlib.Core.Path.{◌≡◌, refl}
use native.Mathlib.Omega.{arith}

module _ (f : ℕ → ℕ → ℕ) where
  abbrev by_digits : ℕ → ℕ → ℕ → ℕ
  by_digits n a b = digits (λ y. y) f n a b

  by_digits_fuel : (n m a b : ℕ) → a ≤ n → a ≤ m → by_digits n a b ≡ by_digits m a b
  by_digits_fuel zero zero a b enough enough' = refl
  by_digits_fuel zero (suc more) zero b enough enough' = refl
  by_digits_fuel zero (suc more) (suc a) b enough enough' = absurd (omega arith)
  by_digits_fuel (suc less) zero zero b enough enough' = refl
  by_digits_fuel (suc less) zero (suc a) b enough enough' = absurd (omega arith)
  by_digits_fuel (suc less) (suc more) zero b p q = refl
  by_digits_fuel (suc less) (suc more) (suc a) b p q =
      let upper = by_digits_fuel less more (suc a / 2) (b / 2) (omega arith) (omega arith) in
      omega (arith, upper)

pub bit_or_step :
    (left right : ℕ)
    → bit_or left right ≡ bit_or (left / 2) (right / 2) * 2 + max (left % 2) (right % 2)
bit_or_step zero right = simp bit_or-bitwise (omega arith)
bit_or_step (suc below) right =
    let whole = bit_or-bitwise (suc below) right in
    let upper = bit_or-bitwise (suc below / 2) (right / 2) in
    let same =
      by_digits_fuel max below (suc below / 2) (suc below / 2) (right / 2) (omega arith)
        (omega arith) in
    omega (arith, whole, upper, same)

zero-bit_xor : (b : ℕ) → bit_xor 0 b ≡ b
zero-bit_xor b = bit_xor-bitwise 0 b

pub bit_xor_step : (a b : ℕ) → bit_xor a b ≡ bit_xor (a / 2) (b / 2) * 2 + differ (a % 2) (b % 2)
bit_xor_step zero b = omega (arith, zero-bit_xor b, zero-bit_xor (b / 2))
bit_xor_step (suc a) b =
    let whole = bit_xor-bitwise (suc a) b in
    let upper = bit_xor-bitwise (suc a / 2) (b / 2) in
    let same =
      by_digits_fuel differ a (suc a / 2) (suc a / 2) (b / 2) (omega arith) (omega arith) in
    omega (arith, whole, upper, same)

digit_eq : (x y : ℕ) → x < 2 → y < 2 → differ x y ≡ 0 → x ≡ y
digit_eq zero zero p q h = refl
digit_eq zero (suc y) p q h = absurd (omega arith)
digit_eq (suc x) zero p q h = absurd (omega arith)
digit_eq (suc zero) (suc zero) p q h = refl
digit_eq (suc zero) (suc (suc y)) p q h = absurd (omega arith)
digit_eq (suc (suc x)) (suc y) p q h = absurd (omega arith)

xor_zero_fuel : (n a b : ℕ) → a ≤ n → b ≤ n → bit_xor a b ≡ 0 → a ≡ b
xor_zero_fuel zero a b p q h = omega arith
xor_zero_fuel (suc n) a b p q h =
    let low =
      digit_eq (a % 2) (b % 2) (omega arith) (omega arith) (omega (arith, bit_xor_step a b)) in
    let high =
      xor_zero_fuel n (a / 2) (b / 2) (omega arith) (omega arith)
        (omega (arith, bit_xor_step a b)) in
    omega arith

-- Two numbers with no differing bit are equal.
pub bit_xor-zero : (a b : ℕ) → bit_xor a b ≡ 0 → a ≡ b
bit_xor-zero a b = xor_zero_fuel (a + b) a b (omega arith) (omega arith)

differ_self : (x : ℕ) → x < 2 → differ x x ≡ 0
differ_self zero h = refl
differ_self (suc zero) h = refl
differ_self (suc (suc x)) h = absurd (omega arith)

xor_self_fuel : (n a : ℕ) → a ≤ n → bit_xor a a ≡ 0
xor_self_fuel zero zero p = zero-bit_xor 0
xor_self_fuel zero (suc a) p = absurd (omega arith)
xor_self_fuel (suc n) zero p = zero-bit_xor 0
xor_self_fuel (suc n) (suc a) p = omega (
  arith,
  bit_xor_step (suc a) (suc a),
  xor_self_fuel n (suc a / 2) (omega arith),
  differ_self (suc a % 2) (omega arith),
)

pub bit_xor_self : (a : ℕ) → bit_xor a a ≡ 0
bit_xor_self a = xor_self_fuel a a (omega arith)

or_zero_fuel : (n a b : ℕ) → a ≤ n → b ≤ n → bit_or a b ≡ 0 → (a ≡ 0) × (b ≡ 0)
or_zero_fuel zero a b p q h = omega arith
or_zero_fuel (suc n) a b p q h =
    let high =
      or_zero_fuel n (a / 2) (b / 2) (omega arith) (omega arith) (omega (arith, bit_or_step a b)) in
    omega (arith, bit_or_step a b)

pub bit_or-zero : (a b : ℕ) → bit_or a b ≡ 0 → (a ≡ 0) × (b ≡ 0)
bit_or-zero a b = or_zero_fuel (a + b) a b (omega arith) (omega arith)
