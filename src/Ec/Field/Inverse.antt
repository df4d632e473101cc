-- ===== src/Ec/Field/Inverse.antt =====
-- The tables of powers and logarithms give inverses, by evaluation over all bytes.
use storj_uplink.Common.Bits.{all_below, all_below_sound}
use storj_uplink.Ec.Field.{mul, inverse}
use storj_uplink.Common.{ℕ, zero, suc, ◌≡◌, ◌≢◌, refl, arith, true, ◌==◌, ==_iff, IsByte}

inverses : all_below 255 (λ x. mul (suc x) (inverse (suc x)) == 1) ≡ true
unfolding all_below mul inverse
inverses = refl

-- A byte other than zero times its inverse is one.
pub mul-inverse : (x : ℕ) → IsByte x → x ≢ 0 → mul x (inverse x) ≡ 1
mul-inverse zero b h = absurd (h refl)
mul-inverse (suc x) b h =
    (==_iff (mul (suc x) (inverse (suc x))) 1).0
      (all_below_sound 255 (λ v. mul (suc v) (inverse (suc v)) == 1) x inverses (omega arith))
