-- ===== src/Encryption/Transform/Nonce.antt =====
-- `increment_bytes` adds to the nonce as a little-endian number.
use native.Mathlib.Nat.{mul_assoc}
use storj_uplink.Common.Integers.{pos}
use storj_uplink.Encryption.Transform.{increment_loop, increment_bytes}
use storj_uplink.Common.{
  ℕ, suc, ◌+◌, ◌*◌, ◌/◌, ◌%◌, ◌^◌, ◌<◌, ◌≡◌, inl, inr, refl, arith, not, [], ◌∷◌, ltb, ◌==◌,
  if◌then◌else◌, Bool-cases, ok, Bytes, AreBytes, length,
}

-- The number that the bytes write, the lowest first.
unfoldable pub little_endian : Bytes → ℕ
little_endian [] = 0
little_endian (b ∷ bs) = b + 256 * little_endian bs

power_step : (n last : ℕ) → 256 ^ suc n * last ≡ 256 * (256 ^ n * last)
power_step n last =
    let e : 256 ^ suc n ≡ 256 * 256 ^ n = omega arith in rw e (mul_assoc 256 (256 ^ n) last)

increment_loop_lem :
    (amount : ℕ) (buf : Bytes)
    → AreBytes buf
    → (little_endian (increment_loop amount buf).0
          + 256 ^ length buf * (increment_loop amount buf).1
        ≡ little_endian buf + amount)
      × AreBytes (increment_loop amount buf).0
      × (length (increment_loop amount buf).0 ≡ length buf)
unfolding little_endian increment_loop
increment_loop_lem amount [] h = (omega arith, tt, refl)
increment_loop_lem amount (prev ∷ rest) h =
    let byte = (prev + amount % 256) % 256 in
    let left = if ltb byte prev then amount / 256 + 1 else amount / 256 in
    let carried : byte + 256 * left ≡ prev + amount = ground (arith, h.0) in
    let small : byte < 256 = omega arith in
    let (value, bytes, len) = increment_loop_lem left rest h.1 in
    let last = (increment_loop left rest).1 in
    let power = power_step (length rest) last in
    elim (Bool-cases (amount == 0)) [
      | inl e ↦ ground (arith, e, h)
      | inr e ↦ rw e (omega (arith, carried, value, power), (small, bytes), omega (arith, len))
    ]

-- For a nonce of bytes and any amount: incrementing adds the amount to it as a little-endian number
-- of its length; what does not fit is left over, and the flag tells whether anything is.
pub increment_bytes_lem :
    (buf : Bytes) (amount : ℕ)
    → AreBytes buf
    → (buf' : Bytes) × (left : ℕ) × (increment_bytes buf (pos amount) ≡ ok (buf', not (left == 0)))
      × (little_endian buf' + 256 ^ length buf * left ≡ little_endian buf + amount)
      × AreBytes buf'
      × (length buf' ≡ length buf)
unfolding increment_bytes
increment_bytes_lem buf amount h =
    let r = increment_loop amount buf in
    let (value, bytes, len) = increment_loop_lem amount buf h in (r.0, r.1, refl, value, bytes, len)
