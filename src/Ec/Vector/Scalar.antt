-- ===== src/Ec/Vector/Scalar.antt =====
-- The vector code against the scalar loop: a product is the sum of the products with the nibbles, by
-- a table over all pairs of bytes.
use storj_uplink.Common.Arrays.{range, nth-map-range}
use storj_uplink.Common.Bits.{all_below, all_below_sound, agree_below}
use storj_uplink.Ec.Field.{at, mul, addmul_scalar}
use storj_uplink.Ec.Vector.{
  nibble_tables, and_mask, srli_four, shuffle, xor_lanes, vector_step, vector_loop, addmul_ssse3,
}
use storj_uplink.Common.{
  ℕ, zero, suc, ◌+◌, ◌*◌, ◌/◌, ◌%◌, ◌<◌, ◌≡◌, refl, ap, ◌∙◌, arith, bit_and, bit_xor, true, false,
  [], ◌∷◌, ◌++◌, map, leb, ◌==◌, ==_iff, if◌then◌else◌, Bytes, IsByte, AreBytes, length, take, drop,
  take-append-drop, length-take, length-drop, All-take, All-drop,
}

low_nibble : (b : ℕ) → b < 256 → bit_and b 0x0f ≡ b % 16
unfolding all_below
low_nibble = agree_below _ _ 256 refl

-- `y * x` by the low and the high half of `x`.
unfoldable mul_by_nibbles : ℕ → ℕ → ℕ
unfolding mul
mul_by_nibbles y x = bit_xor (mul y (x % 16)) (mul y (x / 16 * 16))

products : all_below 256 (λ y. all_below 256 (λ x. mul_by_nibbles y x == mul y x)) ≡ true
unfolding all_below mul mul_by_nibbles
products = refl

mul_by_nibbles_lem : (y x : ℕ) → y < 256 → x < 256 → mul_by_nibbles y x ≡ mul y x
mul_by_nibbles_lem y x by bx = (==_iff (mul_by_nibbles y x) (mul y x)).0 (
    all_below_sound 256 (λ v. mul_by_nibbles y v == mul y v) x
      (all_below_sound 256 (λ w. all_below 256 (λ v. mul_by_nibbles w v == mul w v)) y products by)
      bx)

-- A lane of a table, by a nibble.
look_up :
    (f : ℕ → ℕ) (i : ℕ) → i < 16 → (if leb 128 i then 0 else at (i % 16) (map f (range 0 16))) ≡ f i
look_up f i h =
    let small : leb 128 i ≡ false = ground arith in
    let low : i % 16 ≡ i = omega arith in
    rw small (rw low (nth-map-range 0 f 0 16 i h ∙ ap f (omega arith)))

-- One lane, whose shifted number may carry bits of its neighbour above the nibble.
lane :
    (y z x shifted : ℕ)
    → y < 256
    → x < 256
    → bit_and shifted 0x0f ≡ x / 16
    → bit_xor z (
        bit_xor
          (if leb 128 (bit_and x 0x0f)
            then 0
            else at (bit_and x 0x0f % 16) (map (λ i. mul y i) (range 0 16)))
          (if leb 128 (bit_and shifted 0x0f)
            then 0
            else at (bit_and shifted 0x0f % 16) (map (λ i. mul y (i * 16)) (range 0 16))))
      ≡ bit_xor z (mul y x)
lane y z x shifted by bx e =
    let low = look_up (λ i. mul y i) (x % 16) (omega arith) in
    let high = look_up (λ i. mul y (i * 16)) (x / 16) (omega arith) in
    rw (low_nibble x bx) (
      rw e
        (rw low (rw high (ap (bit_xor z) (unfold mul_by_nibbles in mul_by_nibbles_lem y x by bx)))))

carried : (a b : ℕ) → a < 256 → bit_and ((a + b * 256) / 16 % 256) 0x0f ≡ a / 16
carried a b h = low_nibble ((a + b * 256) / 16 % 256) (omega arith) ∙ omega arith

shifted_alone : (b : ℕ) → b < 256 → bit_and (b / 16) 0x0f ≡ b / 16
shifted_alone b h = low_nibble (b / 16) (omega arith) ∙ omega arith

vector_step_lem :
    (y : ℕ) (z x : Bytes)
    → y < 256
    → AreBytes x
    → length x ≡ length z
    → vector_step (nibble_tables y).0 (nibble_tables y).1 z x ≡ addmul_scalar z x y
unfolding vector_step nibble_tables addmul_scalar shuffle and_mask srli_four xor_lanes
vector_step_lem y [] x by bx l = refl
vector_step_lem y (c ∷ z) [] by bx l = absurd (omega arith)
vector_step_lem y (c ∷ []) (a ∷ []) by bx l =
    ap (λ (v : ℕ). v ∷ []) (lane y c a (a / 16) by bx.0 (shifted_alone a bx.0))
vector_step_lem y (c ∷ []) (a ∷ b ∷ x) by bx l = absurd (omega arith)
vector_step_lem y (c ∷ d ∷ z) (a ∷ []) by bx l = absurd (omega arith)
vector_step_lem y (c ∷ d ∷ z) (a ∷ b ∷ x) by bx l =
    let more = vector_step_lem y z x by bx.1.1 (omega arith) in
    rw (lane y c a ((a + b * 256) / 16 % 256) by bx.0 (carried a b bx.0))
      (rw (lane y d b (b / 16) by bx.1.0 (shifted_alone b bx.1.0)) (rw more refl))

addmul_scalar-append :
    (y : ℕ) (z z' x x' : Bytes)
    → length x ≡ length z
    → addmul_scalar z x y ++ addmul_scalar z' x' y ≡ addmul_scalar (z ++ z') (x ++ x') y
unfolding addmul_scalar
addmul_scalar-append y [] z' [] x' l = refl
addmul_scalar-append y [] z' (a ∷ x) x' l = absurd (omega arith)
addmul_scalar-append y (c ∷ z) z' [] x' l = absurd (omega arith)
addmul_scalar-append y (c ∷ z) z' (a ∷ x) x' l =
    ap (◌∷◌ (bit_xor c (mul y a))) (addmul_scalar-append y z z' x x' (omega arith))

vector_loop_lem :
    (chunks y : ℕ) (z x : Bytes)
    → y < 256
    → AreBytes x
    → length x ≡ length z
    → vector_loop chunks (nibble_tables y).0 (nibble_tables y).1 y z x ≡ addmul_scalar z x y
unfolding vector_loop
vector_loop_lem zero y z x by bx l = refl
vector_loop_lem (suc chunks) y z x by bx l =
    let size : length (take 16 x) ≡ length (take 16 z) =
      omega (arith, length-take 16 x, length-take 16 z) in
    let rest : length (drop 16 x) ≡ length (drop 16 z) =
      omega (arith, length-drop 16 x, length-drop 16 z) in
    rw (vector_step_lem y (take 16 z) (take 16 x) by (All-take IsByte 16 x bx) size) (
      rw (vector_loop_lem chunks y (drop 16 z) (drop 16 x) by (All-drop IsByte 16 x bx) rest) (
        addmul_scalar-append y (take 16 z) (drop 16 z) (take 16 x) (drop 16 x) size
        ∙ rw (take-append-drop 16 z, addmul_scalar) (rw (take-append-drop 16 x) refl)))

-- On bytes, the vector code with its tables of nibbles and its scalar tail adds the same products as
-- the scalar loop, when the two slices have one length.
pub addmul_ssse3-addmul_scalar :
    (z x : Bytes) (y : ℕ)
    → IsByte y
    → AreBytes x
    → length x ≡ length z
    → addmul_ssse3 z x y ≡ addmul_scalar z x y
unfolding addmul_ssse3
addmul_ssse3-addmul_scalar z x y by bx l = vector_loop_lem (length z / 16) y z x by bx l
