-- ===== src/Ec/Vector.antt =====
-- crates/storj-ec/src/gf_simd.rs: nibble_tables and addmul_ssse3, with the vector instructions that
-- it uses on lists of sixteen bytes.
pub mod Scalar
use storj_uplink.Common.Arrays.{range}
use storj_uplink.Ec.Field.{at, mul, addmul_scalar}
use storj_uplink.Common.{
  ℕ, zero, suc, ◌+◌, ◌*◌, ◌/◌, ◌%◌, bit_and, bit_xor, [], ◌∷◌, ◌++◌, map, leb, if◌then◌else◌, Bytes,
  length, take, drop,
}

-- The products of `y` with the low and with the high nibbles.
unfoldable pub nibble_tables : ℕ → Bytes × Bytes
unfolding mul
nibble_tables y = (map (λ i. mul y i) (range 0 16), map (λ i. mul y (i * 16)) (range 0 16))

-- `_mm_and_si128` with the mask of 0x0f in each lane.
unfoldable pub and_mask : Bytes → Bytes
and_mask = map (λ b. bit_and b 0x0f)

-- `_mm_srli_epi16::<4>`: two lanes, low byte first, are one number.
unfoldable pub srli_four : Bytes → Bytes
srli_four [] = []
srli_four (b ∷ []) = b / 16 ∷ []
srli_four (a ∷ b ∷ bs) = (a + b * 256) / 16 % 256 ∷ b / 16 ∷ srli_four bs

-- `_mm_shuffle_epi8`: a lane with its high bit set is cleared.
unfoldable pub shuffle : Bytes → Bytes → Bytes
shuffle table = map (λ b. if leb 128 b then 0 else at (b % 16) table)

-- `_mm_xor_si128`
unfoldable pub xor_lanes : Bytes → Bytes → Bytes
xor_lanes [] ys = []
xor_lanes (x ∷ xs) [] = []
xor_lanes (x ∷ xs) (y ∷ ys) = bit_xor x y ∷ xor_lanes xs ys

-- What one round of the loop stores.
unfoldable pub vector_step : Bytes → Bytes → Bytes → Bytes → Bytes
unfolding shuffle and_mask srli_four xor_lanes
vector_step lo hi z x =
    xor_lanes z (xor_lanes (shuffle lo (and_mask x)) (shuffle hi (and_mask (srli_four x))))

-- The loop over the chunks of sixteen, and the scalar tail.
unfoldable pub vector_loop : ℕ → Bytes → Bytes → ℕ → Bytes → Bytes → Bytes
unfolding vector_step addmul_scalar
vector_loop zero lo hi y z x = addmul_scalar z x y
vector_loop (suc chunks) lo hi y z x =
    vector_step lo hi (take 16 z) (take 16 x) ++ vector_loop chunks lo hi y (drop 16 z) (drop 16 x)

unfoldable pub addmul_ssse3 : Bytes → Bytes → ℕ → Bytes
unfolding nibble_tables vector_loop
addmul_ssse3 z x y = let (lo, hi) = nibble_tables y in vector_loop (length z / 16) lo hi y z x
