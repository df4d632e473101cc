-- ===== src/Ec/Field.antt =====
-- crates/storj-ec/src/gf.rs and gf_simd.rs: the field GF(256) by its tables of powers and
-- logarithms, and the scalar `addmul`.
pub mod Inverse
use storj_uplink.Common.Arrays.{nth, set}
use storj_uplink.Common.{
  ℕ, zero, suc, ◌+◌, ◌-◌, ◌*◌, ◌%◌, bit_xor, ◌||◌, [], ◌∷◌, ◌++◌, ltb, ◌==◌, if◌then◌else◌, Bytes,
  replicate,
}

-- POLY
abbrev pub poly : ℕ
poly = 0x11d

-- `x <<= 1`, reduced by the polynomial.
unfoldable pub double : ℕ → ℕ
double x = if ltb (x * 2) 256 then x * 2 else bit_xor (x * 2) poly

unfoldable pub powers : ℕ → ℕ → Bytes
unfolding double
powers zero x = []
powers (suc count) x = x ∷ powers count (double x)

-- `exp`: 255 powers of two, twice.
unfoldable pub exp_table : Bytes
unfolding powers
exp_table = powers 255 1 ++ powers 255 1

unfoldable pub log_loop : ℕ → ℕ → ℕ → Bytes → Bytes
unfolding double
log_loop zero i x log = log
log_loop (suc count) i x log = log_loop count (suc i) (double x) (set x i log)

-- `log`, with 0xff for zero.
unfoldable pub log_table : Bytes
unfolding log_loop
log_table = set 0 0xff (log_loop 255 0 1 (replicate 256 0))

abbrev pub at : ℕ → Bytes → ℕ
at = nth 0

unfoldable pub exp : ℕ → ℕ
unfolding exp_table
exp i = at i exp_table

unfoldable pub log : ℕ → ℕ
unfolding log_table
log x = at x log_table

unfoldable pub inverse : ℕ → ℕ
unfolding exp log
inverse x = if x == 0 then 0 else exp (255 - log x)

-- `mul[x][y]`
unfoldable pub mul : ℕ → ℕ → ℕ
unfolding exp log
mul x y = if x == 0 || y == 0 then 0 else exp ((log x + log y) % 255)

unfoldable pub addmul_scalar : Bytes → Bytes → ℕ → Bytes
unfolding mul
addmul_scalar [] xs y = []
addmul_scalar (z ∷ zs) [] y = z ∷ zs
addmul_scalar (z ∷ zs) (x ∷ xs) y = bit_xor z (mul y x) ∷ addmul_scalar zs xs y

unfoldable pub addmul : Bytes → Bytes → ℕ → Bytes
unfolding addmul_scalar
addmul z x y = if y == 0 then z else addmul_scalar z x y
